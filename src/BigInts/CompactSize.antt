-- ===== src/BigInts/CompactSize.antt =====
-- src/bigInts.c, `CompactSizeEncode` and `CompactSizeDecode`.
pub mod RoundTrip
use mlbtcc.Base.{ℕ, zero, suc, ◌+◌, ◌*◌, ◌/◌, ◌%◌, ◌^◌, bit_and, bit_or, Option, none, some}
use mlbtcc.Base.{[], ◌∷◌, ltb, leb, ◌==◌, if◌then◌else◌, ◌>>=◌, length, drop}
use mlbtcc.Base.Bytes.{Bytes, copy}

-- `(U8)((value >> shift) & 0xFF)`.
unfoldable pub octet : ℕ → ℕ → ℕ
octet value shift = bit_and (value / 2 ^ shift) 0xff % 2 ^ 8

-- The bytes written; the C function returns how many they are.
unfoldable pub compact_size_encode : ℕ → Bytes
compact_size_encode value =
    if leb value 252
    then (value % 2 ^ 8) ∷ []
    else if leb value 0xffff
    then 0xfd ∷ octet value 0 ∷ octet value 8 ∷ []
    else if leb value 0xffff_ffff
    then 0xfe ∷ octet value 0 ∷ octet value 8 ∷ octet value 16 ∷ octet value 24 ∷ []
    else 0xff
      ∷ octet value 0
      ∷ octet value 8
      ∷ octet value 16
      ∷ octet value 24
      ∷ octet value 32
      ∷ octet value 40
      ∷ octet value 48
      ∷ octet value 56
      ∷ []

-- `acc | ((U64)b₀ << shift) | ((U64)b₁ << (shift + 8)) | …`
or_bytes : ℕ → ℕ → Bytes → ℕ
or_bytes acc shift [] = acc
or_bytes acc shift (byte ∷ bytes) =
    or_bytes (bit_or acc (byte * 2 ^ shift % 2 ^ 64)) (shift + 8) bytes

-- The returned size and what `*value` holds afterwards.
abbrev pub Decoded : Type 0
Decoded = Option (ℕ × Option ℕ)

-- A field of `width` bytes behind the first byte. When `dataSize` is too small for it the function
-- returns `dataSize` before it writes `*value`.
wide_field : ℕ → Bytes → ℕ → ℕ → Decoded
wide_field width bytes size old =
    if ltb size (width + 1)
    then some (size, some old)
    else (copy width (drop 1 bytes) >>= λ field. some (width + 1, some (or_bytes 0 0 field)))

decode_first : Bytes → ℕ → ℕ → Decoded
decode_first [] size old = none
decode_first (first ∷ rest) size old =
    if leb first 0xfc
    then some (1, some first)
    else if first == 0xfd
    then wide_field 2 (first ∷ rest) size old
    else if first == 0xfe
    then wide_field 4 (first ∷ rest) size old
    else wide_field 8 (first ∷ rest) size old

-- `data` and `value` may be null; `value` is otherwise the content of the variable it points to.
pub compact_size_decode : Option Bytes → ℕ → Option ℕ → Decoded
compact_size_decode none size none = some (0, none)
compact_size_decode none size (some old) = some (0, some 0)
compact_size_decode (some bytes) size none = some (0, none)
compact_size_decode (some bytes) zero (some old) = some (0, some 0)
compact_size_decode (some bytes) (suc size) (some old) = decode_first bytes (suc size) old
