-- ===== src/BigInts/Words/Bytewise.antt =====
-- The 32-bit helpers as operations on the bytes in memory.
use mlbtcc.Base.{ℕ, ◌+◌, ◌-◌, ◌*◌, ◌/◌, ◌%◌, ◌^◌, ◌<◌, ◌≡◌, arith, length, All}
use mlbtcc.Base.{[], ◌∷◌, refl, ltb, if◌then◌else◌}
use mlbtcc.Base.Bytes.{Bytes, IsByte, to_le}
use mlbtcc.Base.Bits.{bit_and-ones, bit_and_field, bit_or_above}
use mlbtcc.BigInts.Words.{convert_uint32_to_uint8_array, change_endianness_uint32}
use mlbtcc.BigInts.Words.{print_byte_string}
use mathlib.Core.List.{reverse}

-- `convert_uint32_to_uint8_array` is the memory of the word in reverse.
pub convert-reverse :
    (value : ℕ) → value < 2 ^ 32 → convert_uint32_to_uint8_array value ≡ reverse (to_le 4 value)
unfolding convert_uint32_to_uint8_array
convert-reverse value h = ground (
  arith,
  bit_and-ones 8 (value / 2 ^ 24),
  bit_and-ones 8 (value / 2 ^ 16),
  bit_and-ones 8 (value / 2 ^ 8),
  bit_and-ones 8 value,
)

change_endianness_sum :
    (value : ℕ)
    → value < 2 ^ 32
    → change_endianness_uint32 value
      ≡ value / 2 ^ 24
        + value / 2 ^ 16 % 256 * 2 ^ 8
        + value / 2 ^ 8 % 256 * 2 ^ 16
        + value % 256 * 2 ^ 24
unfolding change_endianness_uint32
change_endianness_sum value h = ground (
  arith,
  bit_and-ones 8 (value / 2 ^ 24),
  bit_and_field 8 8 (value / 2 ^ 8),
  bit_and_field 8 16 (value * 2 ^ 8 % 2 ^ 32),
  bit_and_field 8 24 (value * 2 ^ 24 % 2 ^ 32),
  bit_or_above 8 (value / 2 ^ 24) (value / 2 ^ 16 % 256),
  bit_or_above 16 (value / 2 ^ 24 + value / 2 ^ 16 % 256 * 2 ^ 8) (value / 2 ^ 8 % 256),
  bit_or_above 24 (value / 2 ^ 24 + value / 2 ^ 16 % 256 * 2 ^ 8 + value / 2 ^ 8 % 256 * 2 ^ 16)
      (value % 256),
)

-- For every U32, `change_endianness_uint32` is the word whose bytes in memory are the reverse of
-- the argument's, and applied twice it gives the argument back.
pub change_endianness_lem :
    (value : ℕ)
    → value < 2 ^ 32
    → (to_le 4 (change_endianness_uint32 value) ≡ reverse (to_le 4 value))
      × (change_endianness_uint32 (change_endianness_uint32 value) ≡ value)
change_endianness_lem value h = (
  ground (arith, change_endianness_sum value h),
  ground (
    arith,
    change_endianness_sum value h,
    change_endianness_sum (change_endianness_uint32 value),
  ),
)

-- A hexadecimal digit's value.
digit_value : ℕ → ℕ
digit_value c = if ltb c b'A' then c - b'0' else c - b'A' + 10

unfoldable pub read_hex : Bytes → Bytes
unfolding digit_value
read_hex (hi ∷ lo ∷ text) = (16 * digit_value hi + digit_value lo) ∷ read_hex text
read_hex _ = []

-- `print_byte_string` prints two characters for each byte, and the bytes can be read off them.
pub print_byte_string_lem :
    (bytes : Bytes)
    → All IsByte bytes
    → (length (print_byte_string bytes) ≡ 2 * length bytes)
      × (read_hex (print_byte_string bytes) ≡ bytes)
unfolding print_byte_string read_hex
print_byte_string_lem [] h = (omega arith, refl)
print_byte_string_lem (byte ∷ bytes) (hb, h) = ground (arith, print_byte_string_lem bytes h)
