-- ===== src/BitcoinSpecifics/Hex.antt =====
-- src/bitcoin-specifics.c, `HexToBytes` and `BytesToHex`.
pub mod RoundTrip
use mlbtcc.Base.{
  ℕ, zero, suc, ◌+◌, ◌*◌, ◌/◌, ◌%◌, ◌^◌, ◌<◌, ◌≡◌, Option, none, some, Bool, true, false,
}
use mlbtcc.Base.{[], ◌∷◌, ◌++◌, bit_and, ◌>>=◌, get_elem?, if◌then◌else◌, ltb}
use mlbtcc.Base.Bytes.{Bytes}

-- "0123456789abcdef".
abbrev pub hex_digits : Bytes
hex_digits =
    b'0' ∷ b'1' ∷ b'2' ∷ b'3' ∷ b'4' ∷ b'5' ∷ b'6' ∷ b'7' ∷ b'8' ∷ b'9' ∷ b'a' ∷ b'b' ∷ b'c' ∷ b'd'
    ∷ b'e' ∷ b'f' ∷ []

-- The loop over `bytes[i]`; the result is what it writes to `output`.
bytes_to_hex_loop : ℕ → Bytes → Option Bytes
bytes_to_hex_loop zero bytes = some []
bytes_to_hex_loop (suc n) [] = none
bytes_to_hex_loop (suc n) (byte ∷ bytes) = do
  high ← get_elem? hex_digits (bit_and (byte / 2 ^ 4) 0x0f)
  low ← get_elem? hex_digits (bit_and byte 0x0f)
  rest ← bytes_to_hex_loop n bytes
  some (high ∷ low ∷ rest)

-- The characters written to `output`, with the terminator.
pub bytes_to_hex : Bytes → ℕ → Option Bytes
bytes_to_hex bytes length = bytes_to_hex_loop length bytes >>= λ text. some (text ++ (0 ∷ []))

-- C's `strtol` in base 16 on a text of two characters: the value converted to U8, and whether the
-- whole text was read.
pub record Strtol : Type 0 where
  pub parse : ℕ → ℕ → ℕ × Bool
  -- Two digits are read whole.
  pub parse_digits :
      (high low : ℕ) (c d : ℕ)
      → get_elem? hex_digits high ≡ some c
      → get_elem? hex_digits low ≡ some d
      → parse c d ≡ (16 * high + low, true)

module _ (libc : Strtol) where
  open libc use {parse}

  -- The loop with `n` rounds left, from `hex + 2 * i` on. The result is the returned flag and the
  -- bytes written to `out`.
  hex_to_bytes_loop : ℕ → Bytes → Bytes → Option (Bool × Bytes)
  hex_to_bytes_loop zero hex out = some (true, out)
  hex_to_bytes_loop (suc n) (c ∷ d ∷ hex) out =
      let (byte, whole) = parse c d in
      let out' = out ++ (byte ∷ []) in
      let rest = hex_to_bytes_loop n hex out' in if whole then rest else some (false, out')
  hex_to_bytes_loop (suc n) _ out = none

  pub hex_to_bytes : Bytes → Option (Bool × Bytes)
  hex_to_bytes hex = hex_to_bytes_loop 32 hex []
