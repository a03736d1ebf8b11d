-- ===== src/BigInts/Varint.antt =====
-- src/bigInts.c, `VarintEncode` and `VarintDecode`: base-128 numbers, lowest group first.
pub mod Values
pub mod RoundTrip
pub mod Meaning
use mlbtcc.Base.{ℕ, ◌+◌, ◌*◌, ◌/◌, ◌%◌, ◌^◌, ◌<◌, ◌≤◌, ◌≡◌, arith, bit_and, bit_or}
use mlbtcc.Base.{
  Option, none, some, List, [], ◌∷◌, ◌++◌, true, false, ◌||◌, leb, ◌==◌, if◌then◌else◌, length,
}
use mlbtcc.Base.Bytes.{Bytes}
use mlbtcc.Base.Order.{lt_wf}
use mathlib.Core.Logic.{dite}
use mathlib.Core.WellFounded.{Acc}
use native.Mathlib.Decide.{dec_le}

seven_bits_less : (value : ℕ) → 0x80 ≤ value → value / 2 ^ 7 < value
seven_bits_less value h = omega arith

-- The `while` loop and the last write. The result is what `output` holds in the end.
varint_encode_loop : (value : ℕ) → Acc ◌<◌ value → Bytes → Bytes
varint_encode_loop value (Acc.intro _ smaller) output =
    dite (dec_le 0x80 value)
      (λ more.
        varint_encode_loop (value / 2 ^ 7) (smaller _ (seven_bits_less value more))
          (output ++ (bit_or (bit_and value 0x7f) 0x80 ∷ [])))
      (λ _. output ++ (value ∷ []))

-- The bytes written; the C function returns how many they are.
pub varint_encode : ℕ → Bytes
varint_encode value = varint_encode_loop value (lt_wf.apply value) []

-- `byte << shift`, where the byte is a 32-bit `int`. A shift by 32 or more is undefined, and so is one
-- whose result an `int` does not hold.
unfoldable pub shift_byte : ℕ → ℕ → Option ℕ
shift_byte byte shift =
    if leb 32 shift || leb (2 ^ 31) (byte * 2 ^ shift) then none else some (byte * 2 ^ shift)

-- The loop, from `input + i` on. The result is `i` at the end and `result`.
unfoldable pub varint_decode_loop : Bytes → ℕ → ℕ → ℕ → Option (ℕ × ℕ)
varint_decode_loop [] result shift i = none
varint_decode_loop (byte ∷ input) result shift i = elim (bit_and byte 0x80 == 0) [
  | true ↦ elim (shift_byte byte shift) [
    | none ↦ none
    | some field ↦ some (i + 1, bit_or result field)
  ]
  | false ↦ elim (shift_byte (bit_and byte 0x7f) shift) [
    | none ↦ none
    | some field ↦ varint_decode_loop input (bit_or result field) (shift + 7) (i + 1)
  ]
]

-- The returned size and `*output`.
unfoldable pub varint_decode : Bytes → Option (ℕ × ℕ)
varint_decode input = varint_decode_loop input 0 0 0
