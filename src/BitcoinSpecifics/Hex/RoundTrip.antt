-- ===== src/BitcoinSpecifics/Hex/RoundTrip.antt =====
-- `hex_to_bytes` reads back what `bytes_to_hex` wrote.
use mlbtcc.Base.{
  ℕ, zero, suc, ◌+◌, ◌*◌, ◌/◌, ◌^◌, ◌<◌, ◌≡◌, ◌∙◌, ap, refl, sym, Option, some, Bool, true,
}
use mlbtcc.Base.{
  [], ◌∷◌, ◌++◌, bit_and, get_elem?, length, All, arith, append_assoc, append-nil, length-append,
}
use mlbtcc.Base.Bytes.{Bytes, IsByte}
use mlbtcc.Base.Bits.{bit_and-ones}
use mlbtcc.Base.Index.{get_elem?-lt}
use mlbtcc.BitcoinSpecifics.Hex.{
  hex_digits, bytes_to_hex_loop, bytes_to_hex, Strtol, hex_to_bytes_loop, hex_to_bytes,
}

digit_lem : (d : ℕ) → d < 16 → (c : ℕ) × (get_elem? hex_digits d ≡ some c)
digit_lem d h = get_elem?-lt hex_digits d h

hex_round :
    (libc : Strtol) (n c d value byte : ℕ) (hex out : Bytes) {result : Option (Bool × Bytes)}
    → libc.parse c d ≡ (value, true)
    → value ≡ byte
    → hex_to_bytes_loop libc n hex (out ++ (byte ∷ [])) ≡ result
    → hex_to_bytes_loop libc (suc n) (c ∷ d ∷ hex) out ≡ result
unfolding hex_to_bytes_loop
hex_round libc n c d value byte hex out p e h = rw p (rw e h)

-- A loop over `n` bytes ends with two digits for each, and `hex_to_bytes_loop` reads them back.
loops_lem :
    (libc : Strtol) (n : ℕ) (bytes rest out : Bytes)
    → All IsByte bytes
    → length bytes ≡ n
    → (text : Bytes) × (bytes_to_hex_loop n bytes ≡ some text)
      × (length text ≡ 2 * n)
      × (hex_to_bytes_loop libc n (text ++ rest) out ≡ some (true, out ++ bytes))
unfolding bytes_to_hex_loop hex_to_bytes_loop
loops_lem libc zero [] rest out h e =
    ([], refl, omega arith, ap (λ (l : Bytes). some (true, l)) (sym (append-nil out)))
loops_lem libc zero (b ∷ bytes) rest out h e = absurd (omega arith)
loops_lem libc (suc n) [] rest out h e = absurd (omega arith)
loops_lem libc (suc n) (b ∷ bytes) rest out (hb, h) e =
    let (c, ec) =
      digit_lem (bit_and (b / 2 ^ 4) 0x0f) (omega (arith, bit_and-ones 4 (b / 2 ^ 4))) in
    let (d, ed) = digit_lem (bit_and b 0x0f) (omega (arith, bit_and-ones 4 b)) in
    let (text, et, size, back) = loops_lem libc n bytes rest (out ++ (b ∷ [])) h (omega arith) in
    let value : 16 * bit_and (b / 2 ^ 4) 0x0f + bit_and b 0x0f ≡ b =
      omega (arith, bit_and-ones 4 b, bit_and-ones 4 (b / 2 ^ 4)) in
    let parsed = libc.parse_digits (bit_and (b / 2 ^ 4) 0x0f) (bit_and b 0x0f) c d ec ed in
    (
      c ∷ d ∷ text,
      rw (ec, ed, et) refl,
      omega arith,
      hex_round libc n c d _ b (text ++ rest) out parsed value
          (back ∙ ap (λ (l : Bytes). some (true, l)) (append_assoc out (b ∷ []) bytes)),
    )

-- For 32 bytes, `bytes_to_hex` writes 64 characters and the terminator, and `hex_to_bytes` reads
-- the bytes back from them and returns 1.
pub hex_to_bytes-bytes_to_hex :
    (libc : Strtol) (bytes : Bytes)
    → All IsByte bytes
    → length bytes ≡ 32
    → (text : Bytes) × (bytes_to_hex bytes 32 ≡ some text)
      × (length text ≡ 65)
      × (hex_to_bytes libc text ≡ some (true, bytes))
unfolding bytes_to_hex hex_to_bytes
hex_to_bytes-bytes_to_hex libc bytes h e =
    let (text, et, size, back) = loops_lem libc 32 bytes (0 ∷ []) [] h e in
    (text ++ (0 ∷ []), rw et refl, omega (arith, length-append text (0 ∷ [])), back)
