-- ===== src/BigInts/Varint128/Encode.antt =====
-- What `encode_varint128` writes, against the decoder: the flag bits stand on the wrong groups.
use mlbtcc.Base.{ℕ, zero, suc, ◌+◌, ◌-◌, ◌/◌, ◌%◌, ◌^◌, ◌<◌, ◌≤◌, ◌≡◌, ◌↔◌, refl, ap, ◌∙◌, arith}
use mlbtcc.Base.{bit_and, bit_or, some, [], ◌∷◌, ◌++◌, append_assoc, ltb, if◌then◌else◌}
use mlbtcc.Base.{length, length-append}
use mlbtcc.Base.Bytes.{Bytes}
use mlbtcc.Base.Bits.{bit_and-ones, bit_or_above}
use mlbtcc.BigInts.Varint128.{fill_buffer, encode_varint128}
use mlbtcc.BigInts.Varint128.{decode_varint128}
use mlbtcc.BigInts.Varint128.Decode.{round_last}
use mathlib.Core.List.{reverse, reverse-append}

marked_group : (value : ℕ) → bit_or (bit_and value 0x7f) 0x80 ≡ value % 128 + 128
marked_group value =
    ap (λ (t : ℕ). bit_or t 0x80) (bit_and-ones 7 value)
    ∙ bit_or_above 7 (value % 128) 1 (omega arith)

-- The group that is written last to the buffer, and first to the output: it has no flag.
top_group : ℕ → ℕ → ℕ
top_group zero value = value
top_group (suc room) value =
    let above = top_group room (value / 128 - 1) in if ltb 127 value then above else value

-- The groups below it, lowest first, each with its flag.
flagged : ℕ → ℕ → Bytes
flagged zero value = []
flagged (suc room) value =
    let more = (value % 128 + 128) ∷ flagged room (value / 128 - 1) in
    if ltb 127 value then more else []

fill_buffer_lem :
    (room value : ℕ) (buffer : Bytes)
    → value < 128 ^ suc room
    → fill_buffer (suc room) value buffer
      ≡ some (buffer ++ (flagged room value ++ (top_group room value ∷ [])))
unfolding fill_buffer top_group flagged
fill_buffer_lem zero value buffer h = ground (arith, bit_and-ones 7 value)
fill_buffer_lem (suc room) value buffer h =
    let group : Bytes = (value % 128 + 128) ∷ [] in
    ground (
      arith,
      bit_and-ones 7 value,
      marked_group value,
      append_assoc buffer group
          (flagged room (value / 128 - 1) ++ (top_group room (value / 128 - 1) ∷ [])),
      fill_buffer_lem room (value / 128 - 1) (buffer ++ group) (omega arith),
    )

top_group-lt : (room value : ℕ) → value < 128 ^ suc room → top_group room value < 128
unfolding top_group
top_group-lt zero value h = omega arith
top_group-lt (suc room) value h = ground (arith, top_group-lt room (value / 128 - 1) (omega arith))

length-flagged : (room value : ℕ) → length (flagged room value) ≤ room
unfolding flagged
length-flagged zero value = omega arith
length-flagged (suc room) value = ground (arith, length-flagged room (value / 128 - 1))

length-reverse : (bytes : Bytes) → length (reverse bytes) ≡ length bytes
length-reverse [] = refl
length-reverse (b ∷ bytes) =
    ap length (reverse-append (b ∷ []) bytes)
    ∙ length-append (reverse bytes) (b ∷ [])
    ∙ omega (arith, length-reverse bytes)

-- What `encode_varint128` writes: the unflagged top group, and the flagged groups behind it.
encode_varint128_lem :
    (value : ℕ)
    → value < 2 ^ 64
    → encode_varint128 value ≡ some (top_group 9 value ∷ reverse (flagged 9 value))
unfolding encode_varint128
encode_varint128_lem value h =
    rw (fill_buffer_lem 9 value [] (omega arith))
      (ap some (reverse-append (flagged 9 value) (top_group 9 value ∷ [])))

-- `encode_varint128` never writes past its ten-byte buffer: for every U64 it ends, with one to
-- ten bytes.
pub encode_varint128_total :
    (value : ℕ)
    → value < 2 ^ 64
    → (bytes : Bytes) × (encode_varint128 value ≡ some bytes)
      × (0 < length bytes)
      × (length bytes ≤ 10)
encode_varint128_total value h = (
  top_group 9 value ∷ reverse (flagged 9 value),
  encode_varint128_lem value h,
  omega arith,
  omega (arith, length-reverse (flagged 9 value), length-flagged 9 value),
)

-- For every U64, `decode_varint128` on what `encode_varint128` wrote reads one byte and returns a
-- number below 128, whatever the value was.
pub decode_varint128-encode_varint128 :
    (value : ℕ) (rest : Bytes)
    → value < 2 ^ 64
    → (bytes : Bytes) × (read : ℕ) × (encode_varint128 value ≡ some bytes)
      × (decode_varint128 (bytes ++ rest) ≡ some (1, read))
      × (read < 128)
unfolding decode_varint128
decode_varint128-encode_varint128 value rest h = (
  top_group 9 value ∷ reverse (flagged 9 value),
  top_group 9 value,
  encode_varint128_lem value h,
  ground (
    arith,
    top_group-lt 9 value (omega arith),
    round_last (top_group 9 value) 0 0 (reverse (flagged 9 value) ++ rest),
  ),
  top_group-lt 9 value (omega arith),
)

encode_varint128_small : (value : ℕ) → value < 128 → encode_varint128 value ≡ some (value ∷ [])
unfolding top_group flagged
encode_varint128_small value small = ground (arith, encode_varint128_lem value (omega arith))

-- `decode_varint128` reads back what `encode_varint128` wrote for the values below 128, and for
-- no other U64.
pub encode_varint128_reads_back_iff :
    (value : ℕ) (bytes rest : Bytes)
    → value < 2 ^ 64
    → encode_varint128 value ≡ some bytes
    → (decode_varint128 (bytes ++ rest) ≡ some (length bytes, value)) ↔ (value < 128)
unfolding decode_varint128
encode_varint128_reads_back_iff value bytes rest h e = (
  (λ p. ground (arith, decode_varint128-encode_varint128 value rest h)),
  λ small. ground (arith, encode_varint128_small value small, round_last value 0 0 rest),
)
