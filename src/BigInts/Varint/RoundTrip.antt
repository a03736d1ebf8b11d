-- ===== src/BigInts/Varint/RoundTrip.antt =====
-- `varint_decode` reads back what `varint_encode` wrote, and what it does on any other input.
use mlbtcc.Base.{ℕ, zero, suc, ◌+◌, ◌*◌, ◌/◌, ◌%◌, ◌^◌, ◌<◌, ◌≤◌, ◌≡◌, ◌∙◌, arith, ap, false}
use mlbtcc.Base.{bit_and, none, some, ltb, if◌then◌else◌, ◌∷◌, ◌++◌, length}
use mlbtcc.Base.Bytes.{Bytes}
use mlbtcc.Base.Bits.{bit_and-ones, bit_and_field, bit_or_above}
use mlbtcc.BigInts.Varint.{varint_encode, varint_decode_loop, varint_decode, shift_byte}
use mlbtcc.BigInts.Varint.Values.{groups, varint_encode-groups}
use native.Mathlib.Numerals.{towards_suc}
use native.Mathlib.Nat.{div-add-mod}

pub shift_seven : (s : ℕ) → 2 ^ (s + 7) ≡ 128 * 2 ^ s
shift_seven s = simp towards_suc (omega arith)

pub low_group : (b : ℕ) → bit_and b 0x7f ≡ b % 128
low_group = bit_and-ones 7

pub top_bit : (b : ℕ) → b < 256 → bit_and b 0x80 ≡ b / 128 * 128
top_bit b h = omega (arith, bit_and_field 1 7 b)

-- The lowest group of `value` and the rest, both shifted by `s`.
first_group : (value s : ℕ) → value * 2 ^ s ≡ value % 128 * 2 ^ s + value / 128 * 2 ^ (s + 7)
first_group value s = omega (
  arith,
  ap (λ (t : ℕ). t * 2 ^ s) (div-add-mod value 128),
  ap (λ (t : ℕ). value / 128 * t) (shift_seven s),
)

last_round :
    (value result shift i : ℕ) (rest : Bytes)
    → value < 128
    → shift < 32
    → result < 2 ^ shift
    → result + value * 2 ^ shift < 2 ^ 31
    → varint_decode_loop (value ∷ rest) result shift i ≡ some (i + 1, result + value * 2 ^ shift)
unfolding varint_decode_loop shift_byte
last_round value result shift i rest hv hs hr fits =
    ground (arith, top_bit value, bit_or_above shift result value)

inner_round :
    (group result shift i : ℕ) (rest : Bytes)
    → group < 128
    → shift < 32
    → result < 2 ^ shift
    → result + group * 2 ^ shift < 2 ^ 31
    → varint_decode_loop ((group + 128) ∷ rest) result shift i
      ≡ varint_decode_loop rest (result + group * 2 ^ shift) (shift + 7) (i + 1)
unfolding varint_decode_loop shift_byte
inner_round group result shift i rest hg hs hr fits =
    ground (arith, top_bit (group + 128), low_group (group + 128), bit_or_above shift result group)

pub room :
    (group result shift : ℕ)
    → group < 128
    → result < 2 ^ shift
    → result + group * 2 ^ shift < 2 ^ (shift + 7)
room group result shift hg hr = rw (shift_seven shift) (grind arith)

varint_decode_loop-groups :
    (k value result shift i : ℕ) (rest : Bytes)
    → shift + 7 * k < 32
    → value < 128 ^ suc k
    → result < 2 ^ shift
    → result + value * 2 ^ shift < 2 ^ 31
    → varint_decode_loop (groups k value ++ rest) result shift i
      ≡ some (i + length (groups k value), result + value * 2 ^ shift)
unfolding groups
varint_decode_loop-groups zero value result shift i rest hs hv hr fits =
    last_round value result shift i rest hv (omega arith) hr fits
varint_decode_loop-groups (suc k) value result shift i rest hs hv hr fits = ground (
  arith,
  last_round value result shift i rest,
  first_group value shift,
  inner_round (value % 128) result shift i (groups k (value / 128) ++ rest),
  room (value % 128) result shift,
  varint_decode_loop-groups k (value / 128) (result + value % 128 * 2 ^ shift) (shift + 7) (i + 1)
      rest (omega arith) (omega arith),
)

groups_round :
    (k value result shift i : ℕ) (rest : Bytes)
    → 128 ≤ value
    → shift < 32
    → result < 2 ^ shift
    → result + value % 128 * 2 ^ shift < 2 ^ 31
    → varint_decode_loop (groups (suc k) value ++ rest) result shift i
      ≡ varint_decode_loop
          (groups k (value / 128) ++ rest)
          (result + value % 128 * 2 ^ shift)
          (shift + 7)
          (i + 1)
unfolding groups
groups_round k value result shift i rest more hs hr fits =
    let long : ltb value 128 ≡ false = ground arith in
    rw long (
      inner_round (value % 128) result shift i (groups k (value / 128) ++ rest) (omega arith) hs hr
        fits)

last_too_large :
    (value result i : ℕ) (rest : Bytes)
    → value < 128
    → 8 ≤ value
    → varint_decode_loop (groups 0 value ++ rest) result 28 i ≡ none
unfolding varint_decode_loop shift_byte groups
last_too_large value result i rest h big = ground (arith, top_bit value)

-- The last of five groups holds the bit above an `int`.
too_large :
    (value : ℕ) (rest : Bytes)
    → 2 ^ 31 ≤ value
    → value < 2 ^ 32
    → varint_decode_loop (groups 4 value ++ rest) 0 0 0 ≡ none
too_large value rest big h =
    let v1 = value / 128 in
    let v2 = v1 / 128 in
    let v3 = v2 / 128 in
    let r1 = 0 + value % 128 * 2 ^ 0 in
    let r2 = r1 + v1 % 128 * 2 ^ 7 in
    let r3 = r2 + v2 % 128 * 2 ^ 14 in
    let r4 = r3 + v3 % 128 * 2 ^ 21 in
    groups_round 3 value 0 0 0 rest (omega arith) (omega arith) (omega arith) (omega arith)
    ∙ groups_round 2 v1 r1 7 1 rest (omega arith) (omega arith) (omega arith) (omega arith)
    ∙ groups_round 1 v2 r2 14 2 rest (omega arith) (omega arith) (omega arith) (omega arith)
    ∙ groups_round 0 v3 r3 21 3 rest (omega arith) (omega arith) (omega arith) (omega arith)
    ∙ last_too_large (v3 / 128) r4 4 rest (omega arith) (omega arith)

-- `varint_decode` on the bytes that `varint_encode` wrote for a U32, with anything behind them,
-- returns how many bytes were written and the value if it is below 2 ^ 31; from there on its last
-- shift is undefined.
pub varint_decode-varint_encode :
    (value : ℕ) (rest : Bytes)
    → value < 2 ^ 32
    → varint_decode (varint_encode value ++ rest)
      ≡ (if ltb value (2 ^ 31) then some (length (varint_encode value), value) else none)
unfolding varint_decode
varint_decode-varint_encode value rest h = rw (varint_encode-groups value h) (
    ground
      (arith, varint_decode_loop-groups 4 value 0 0 0 rest (omega arith), too_large value rest))
