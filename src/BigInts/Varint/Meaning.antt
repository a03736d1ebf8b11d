-- ===== src/BigInts/Varint/Meaning.antt =====
-- What `varint_decode` returns on any input.
use mathlib.Core.Path.{subst}
use mlbtcc.Base.{
  ℕ, suc, ◌+◌, ◌*◌, ◌%◌, ◌^◌, ◌<◌, ◌≤◌, ◌≡◌, ◌∙◌, arith, ap, sym, refl, Option, none, some, ◌>>=◌,
  >>=-some, ◌==◌, false, true, inl, inr, Bool, Bool-cases, ltb, bit_and, bit_or, [], ◌∷◌, length,
  take, All,
}
use mlbtcc.Base.Bytes.{Bytes, IsByte}
use mlbtcc.Base.Bits.{bit_or_above, bit_or-lt}
use mlbtcc.BigInts.Varint.{varint_decode_loop, varint_decode, shift_byte}
use mlbtcc.BigInts.Varint.RoundTrip.{shift_seven, low_group, top_bit, room}

-- The number that groups of seven bits stand for, lowest first.
pub base128 : Bytes → ℕ
base128 [] = 0
base128 (byte ∷ bytes) = byte % 128 + 128 * base128 bytes

-- At least one byte; every one but the last has the continuation bit.
pub IsContinued : Bytes → Type 0
IsContinued [] = ⊥
IsContinued (byte ∷ []) = byte < 128
IsContinued (byte ∷ next ∷ bytes) = (128 ≤ byte) × IsContinued (next ∷ bytes)

-- The two branches of a round.
stop_with : ℕ → ℕ → ℕ → Option (ℕ × ℕ)
stop_with result i field = some (i + 1, bit_or result field)

go_on : Bytes → ℕ → ℕ → ℕ → ℕ → Option (ℕ × ℕ)
go_on input result shift i field =
    varint_decode_loop input (bit_or result field) (shift + 7) (i + 1)

of_bind :
    (o : Option ℕ) (k : ℕ → Option (ℕ × ℕ))
    → elim o as (λ _. Option (ℕ × ℕ)) [ none ↦ none | some field ↦ k field ] ≡ (o >>= k)
of_bind none k = refl
of_bind (some field) k = refl

abbrev round : Bytes → ℕ → ℕ → ℕ → ℕ → Bool → Option (ℕ × ℕ)
round input byte result shift i stops = elim stops as (λ _. Option (ℕ × ℕ)) [
  | true ↦ elim (shift_byte byte shift) as (λ _. Option (ℕ × ℕ)) [
    | none ↦ none
    | some field ↦ stop_with result i field
  ]
  | false ↦ elim (shift_byte (bit_and byte 0x7f) shift) as (λ _. Option (ℕ × ℕ)) [
    | none ↦ none
    | some field ↦ go_on input result shift i field
  ]
]

last_step :
    (byte : ℕ) (input : Bytes) (result shift i : ℕ)
    → byte < 128
    → varint_decode_loop (byte ∷ input) result shift i
      ≡ (shift_byte byte shift >>= stop_with result i)
unfolding varint_decode_loop stop_with go_on
last_step byte input result shift i h =
    let stop : (bit_and byte 0x80 == 0) ≡ true = ground (arith, top_bit byte) in
    ap (round input byte result shift i) stop ∙ of_bind (shift_byte byte shift) (stop_with result i)

more_step :
    (byte : ℕ) (input : Bytes) (result shift i : ℕ)
    → 128 ≤ byte
    → byte < 256
    → varint_decode_loop (byte ∷ input) result shift i
      ≡ (shift_byte (byte % 128) shift >>= go_on input result shift i)
unfolding varint_decode_loop stop_with go_on
more_step byte input result shift i h small =
    let on : (bit_and byte 0x80 == 0) ≡ false = ground (arith, top_bit byte) in
    ap (round input byte result shift i) on
    ∙ of_bind (shift_byte (bit_and byte 0x7f) shift) (go_on input result shift i)
    ∙ ap (λ group. shift_byte group shift >>= go_on input result shift i) (low_group byte)

shift_byte-some :
    (byte shift field : ℕ)
    → shift_byte byte shift ≡ some field
    → (shift < 32) × (field ≡ byte * 2 ^ shift) × (field < 2 ^ 31)
unfolding shift_byte
shift_byte-some byte shift field e = ground arith

some_pair :
    (a b c d : ℕ)
    → ◌≡◌ {A = Option (ℕ × ℕ)} (some (a, b)) (some (c, d))
    → ◌≡◌ {A = ℕ × ℕ} (a, b) (c, d)
some_pair a b c d e = ap (λ o. elim o as (λ _. ℕ × ℕ) [ none ↦ (a, b) | some p ↦ p ]) e

-- The loop ends behind `m` bytes more.
abbrev Ends : Bytes → ℕ → ℕ → ℕ → ℕ → ℕ → Type 0
Ends input result shift i n value =
    (m : ℕ) × (n ≡ i + m)
    × (0 < m)
    × (n ≤ 5)
    × (m ≤ length input)
    × (value < 2 ^ 31)
    × (value ≡ result + base128 (take m input) * 2 ^ shift)
    × IsContinued (take m input)

nothing :
    {X : Type 0}
    → (result shift i : ℕ) (p : ℕ × ℕ) → varint_decode_loop [] result shift i ≡ some p
    → X
unfolding varint_decode_loop
nothing result shift i p e = cc

base128_last : (byte : ℕ) → byte < 128 → base128 (byte ∷ []) ≡ byte
unfolding base128
base128_last byte h = omega arith

-- A further group, shifted by `s`.
base128_more :
    (byte : ℕ) (bytes : Bytes) (result s : ℕ)
    → (result + byte % 128 * 2 ^ s) + base128 bytes * 2 ^ (s + 7)
      ≡ result + base128 (byte ∷ bytes) * 2 ^ s
unfolding base128
base128_more byte bytes result s = omega (arith, ap (λ (t : ℕ). base128 bytes * t) (shift_seven s))

one-IsContinued : (byte : ℕ) → byte < 128 → IsContinued (byte ∷ [])
unfolding IsContinued
one-IsContinued byte h = h

more-IsContinued :
    (byte : ℕ) (bytes : Bytes) → 128 ≤ byte → IsContinued bytes → IsContinued (byte ∷ bytes)
unfolding IsContinued
more-IsContinued byte [] h c = absurd c
more-IsContinued byte (next ∷ bytes) h c = (h, c)

varint_decode_loop-Ends :
    (input : Bytes) (result shift i n value : ℕ)
    → All IsByte input
    → shift ≡ 7 * i
    → result < 2 ^ shift
    → result < 2 ^ 31
    → varint_decode_loop input result shift i ≡ some (n, value)
    → Ends input result shift i n value
unfolding stop_with go_on
varint_decode_loop-Ends [] result shift i n value w hs hr hw e = nothing result shift i (n, value) e
varint_decode_loop-Ends (byte ∷ input) result shift i n value (small, w) hs hr hw e =
    elim (Bool-cases (ltb byte 128)) [
      | inl low ↦
          let less : byte < 128 = ground arith in
          let (field, f, e1) =
            >>=-some (shift_byte byte shift) (stop_with result i)
              (sym (last_step byte input result shift i less) ∙ e) in
          let (hs', hf, hw') = shift_byte-some byte shift field f in
          let n' : i + 1 ≡ n = ap (λ p. p.0) (some_pair (i + 1) (bit_or result field) n value e1) in
          let v' : bit_or result field ≡ value =
            ap (λ p. p.1) (some_pair (i + 1) (bit_or result field) n value e1) in
          let joined : bit_or result field ≡ result + byte * 2 ^ shift =
            ap (bit_or result) hf ∙ bit_or_above shift result byte hr in
          let low_bits : byte % 128 ≡ byte = omega (arith, less) in
          (
            1,
            omega (arith, n'),
            omega arith,
            omega (arith, n', hs, hs'),
            omega arith,
            omega (arith, v', bit_or-lt 31 result field hw hw'),
            sym v' ∙ joined ∙ ap (λ (t : ℕ). result + t * 2 ^ shift) (sym (base128_last byte less)),
            one-IsContinued byte less,
          )
      | inr high ↦
          let more : 128 ≤ byte = ground arith in
          let (field, f, e1) =
            >>=-some (shift_byte (byte % 128) shift) (go_on input result shift i)
              (sym (more_step byte input result shift i more small) ∙ e) in
          let (hs', hf, hw') = shift_byte-some (byte % 128) shift field f in
          let joined : bit_or result field ≡ result + byte % 128 * 2 ^ shift =
            ap (bit_or result) hf ∙ bit_or_above shift result (byte % 128) hr in
          let below : bit_or result field < 2 ^ (shift + 7) =
            omega (arith, joined, room (byte % 128) result shift (omega arith) hr) in
          let (m, nm, positive, five, inside, fits, meant, continued) =
            varint_decode_loop-Ends input (bit_or result field) (shift + 7) (i + 1) n value w
              (omega (arith, hs)) below (bit_or-lt 31 result field hw hw') e1 in
          (
            suc m,
            omega (arith, nm),
            omega arith,
            five,
            omega (arith, inside),
            fits,
            meant
                ∙ ap (λ (t : ℕ). t + base128 (take m input) * 2 ^ (shift + 7)) joined
                ∙ base128_more byte (take m input) result shift,
            more-IsContinued byte (take m input) more continued,
          )
    ]

-- Whatever the bytes, a `varint_decode` that ends has read from one to five of them, all of the
-- input, and up to the first one without the continuation bit; its value is the number that their
-- groups of seven bits stand for, and below 2 ^ 31.
pub varint_decode-base128 :
    (input : Bytes) (n value : ℕ)
    → All IsByte input
    → varint_decode input ≡ some (n, value)
    → (0 < n)
      × (n ≤ 5)
      × (n ≤ length input)
      × (value < 2 ^ 31)
      × IsContinued (take n input)
      × (value ≡ base128 (take n input))
unfolding varint_decode
varint_decode-base128 input n value w e =
    let (m, nm, positive, five, inside, fits, meant, continued) =
      varint_decode_loop-Ends input 0 0 0 n value w (omega arith) (omega arith) (omega arith) e in
    let same : m ≡ n = omega (arith, nm) in
    (
      omega (arith, nm),
      five,
      omega (arith, nm),
      fits,
      subst (λ k. IsContinued (take k input)) same continued,
      meant ∙ ground arith ∙ ap (λ k. base128 (take k input)) same,
    )
