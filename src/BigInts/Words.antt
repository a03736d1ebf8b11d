-- ===== src/BigInts/Words.antt =====
-- src/bigInts.c, the 32-bit helpers and the hexadecimal print.
pub mod Bytewise
use mlbtcc.Base.{
  ℕ, ◌+◌, ◌-◌, ◌*◌, ◌/◌, ◌%◌, ◌^◌, bit_and, bit_or, [], ◌∷◌, ◌++◌, ltb, if◌then◌else◌,
}
use mlbtcc.Base.Bytes.{Bytes}

-- `outputArray[0]` to `outputArray[3]`, the most significant byte first.
pub convert_uint32_to_uint8_array : ℕ → Bytes
convert_uint32_to_uint8_array value =
    bit_and (value / 2 ^ 24) 0xff
    ∷ bit_and (value / 2 ^ 16) 0xff
    ∷ bit_and (value / 2 ^ 8) 0xff
    ∷ bit_and value 0xff
    ∷ []

-- `value << shift` on a U32.
abbrev shift_left : ℕ → ℕ → ℕ
shift_left value shift = value * 2 ^ shift % 2 ^ 32

pub change_endianness_uint32 : ℕ → ℕ
change_endianness_uint32 value =
    bit_or
      (bit_or (bit_or (bit_and (value / 2 ^ 24) 0x0000_00ff) (bit_and (value / 2 ^ 8) 0x0000_ff00))
        (bit_and (shift_left value 8) 0x00ff_0000))
      (bit_and (shift_left value 24) 0xff00_0000)

-- A digit of `%X`.
abbrev upper_digit : ℕ → ℕ
upper_digit d = if ltb d 10 then b'0' + d else b'A' + (d - 10)

-- The characters that the `%02X` of each byte prints.
unfoldable pub print_byte_string : Bytes → Bytes
print_byte_string [] = []
print_byte_string (byte ∷ bytes) =
    upper_digit (byte / 16) ∷ upper_digit (byte % 16) ∷ print_byte_string bytes
