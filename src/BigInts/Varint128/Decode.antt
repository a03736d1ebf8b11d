-- ===== src/BigInts/Varint128/Decode.antt =====
-- `decode_varint128` inverts the encoding of Bitcoin's block index.
use mlbtcc.Base.{ℕ, zero, suc, ◌+◌, ◌-◌, ◌*◌, ◌/◌, ◌%◌, ◌^◌, ◌<◌, ◌≡◌, arith}
use mlbtcc.Base.{some, [], ◌∷◌, ◌++◌, append_assoc, ltb, if◌then◌else◌, length}
use mlbtcc.Base.{length-append, ◌≤◌, bit_or, bit_and}
use mlbtcc.Base.Bytes.{Bytes}
use mlbtcc.Base.Bits.{bit_and-ones, bit_and_field, bit_or_below, bit_or-lt}
use mlbtcc.BigInts.Varint128.{decode_varint128_loop, decode_varint128}

-- The groups before the last one: highest first, each with the top bit set.
unfoldable pub leading : ℕ → ℕ → Bytes
leading zero value = (value + 128) ∷ []
leading (suc k) value =
    let above = leading k (value / 128 - 1) in
    if ltb value 128 then (value + 128) ∷ [] else above ++ ((value % 128 + 128) ∷ [])

-- The encoding that the block index uses, for a value of at most ten groups.
unfoldable pub index_varint : ℕ → Bytes
index_varint value =
    if ltb value 128 then value ∷ [] else leading 8 (value / 128 - 1) ++ (value % 128 ∷ [])

-- One round of the decoder, in arithmetic.
pub round_last :
    (byte value n : ℕ) (rest : Bytes)
    → byte < 128
    → value * 128 < 2 ^ 64
    → decode_varint128_loop (byte ∷ rest) value n ≡ some (n + 1, value * 128 + byte)
unfolding decode_varint128_loop
round_last byte value n rest hb hv =
    ground (arith, bit_and_field 1 7 byte, bit_and-ones 7 byte, bit_or_below 7 value byte hb)

round_inner :
    (group value n : ℕ) (rest : Bytes)
    → group < 128
    → value * 128 + group + 1 < 2 ^ 64
    → decode_varint128_loop ((group + 128) ∷ rest) value n
      ≡ decode_varint128_loop rest (value * 128 + group + 1) (n + 1)
unfolding decode_varint128_loop
round_inner group value n rest hg hv = ground (
  arith,
  bit_and_field 1 7 (group + 128),
  bit_and-ones 7 (group + 128),
  bit_or_below 7 value group hg,
)

decode-leading :
    (k value n : ℕ) (rest : Bytes)
    → value < 128 ^ suc k
    → value + 1 < 2 ^ 64
    → decode_varint128_loop (leading k value ++ rest) 0 n
      ≡ decode_varint128_loop rest (value + 1) (n + length (leading k value))
unfolding leading
decode-leading zero value n rest h fits = ground (arith, round_inner value 0 n rest)
decode-leading (suc k) value n rest h fits = ground (
  arith,
  round_inner value 0 n rest,
  append_assoc (leading k (value / 128 - 1)) ((value % 128 + 128) ∷ []) rest,
  length-append (leading k (value / 128 - 1)) ((value % 128 + 128) ∷ []),
  decode-leading k (value / 128 - 1) n ((value % 128 + 128) ∷ rest) (omega arith) (omega arith),
  round_inner (value % 128) (value / 128) (n + length (leading k (value / 128 - 1))) rest,
)

-- For every U64, `decode_varint128` on its encoding in the block index, with anything behind it,
-- returns the encoding's size and the value.
pub decode_varint128-index_varint :
    (value : ℕ) (rest : Bytes)
    → value < 2 ^ 64
    → decode_varint128 (index_varint value ++ rest) ≡ some (length (index_varint value), value)
unfolding decode_varint128 index_varint
decode_varint128-index_varint value rest h = ground (
  arith,
  round_last value 0 0 rest,
  append_assoc (leading 8 (value / 128 - 1)) (value % 128 ∷ []) rest,
  length-append (leading 8 (value / 128 - 1)) (value % 128 ∷ []),
  decode-leading 8 (value / 128 - 1) 0 (value % 128 ∷ rest) (omega arith) (omega arith),
  round_last (value % 128) (value / 128) (length (leading 8 (value / 128 - 1))) rest,
)

decode_varint128_loop_bounds :
    (bytes : Bytes) (start m n value : ℕ)
    → start < 2 ^ 64
    → decode_varint128_loop bytes start m ≡ some (n, value)
    → (m < n) × (n ≤ m + length bytes) × (value < 2 ^ 64)
unfolding decode_varint128_loop
decode_varint128_loop_bounds [] start m n value hs h = cc
decode_varint128_loop_bounds (byte ∷ bytes) start m n value hs h =
    let joined = bit_or (start * 2 ^ 7 % 2 ^ 64) (bit_and byte 0x7f) in
    ground (
      arith,
      bit_and-ones 7 byte,
      bit_or-lt 64 (start * 2 ^ 7 % 2 ^ 64) (bit_and byte 0x7f),
      decode_varint128_loop_bounds bytes ((joined + 1) % 2 ^ 64) (m + 1) n value,
    )

-- Whatever the input, a `decode_varint128` that ends has read at least one byte, all of them of
-- the input, and its value is a U64.
pub decode_varint128_bounds :
    (bytes : Bytes) (n value : ℕ)
    → decode_varint128 bytes ≡ some (n, value)
    → (0 < n) × (n ≤ length bytes) × (value < 2 ^ 64)
unfolding decode_varint128
decode_varint128_bounds bytes n value h =
    omega (arith, decode_varint128_loop_bounds bytes 0 0 n value (omega arith) h)

decode_varint128_loop-append :
    (bytes more : Bytes) (start m n value : ℕ)
    → decode_varint128_loop bytes start m ≡ some (n, value)
    → decode_varint128_loop (bytes ++ more) start m ≡ some (n, value)
unfolding decode_varint128_loop
decode_varint128_loop-append [] more start m n value h = cc
decode_varint128_loop-append (byte ∷ bytes) more start m n value h =
    let joined = bit_or (start * 2 ^ 7 % 2 ^ 64) (bit_and byte 0x7f) in
    ground (arith, decode_varint128_loop-append bytes more ((joined + 1) % 2 ^ 64) (m + 1) n value)

-- Bytes behind the ones that were read do not matter.
pub decode_varint128-append :
    (bytes more : Bytes) (n value : ℕ)
    → decode_varint128 bytes ≡ some (n, value)
    → decode_varint128 (bytes ++ more) ≡ some (n, value)
unfolding decode_varint128
decode_varint128-append bytes more n value h = decode_varint128_loop-append bytes more 0 0 n value h
