-- ===== src/Blkdat/Block/Mask.antt =====
-- The XOR with the key, undone by the same XOR.
use mlbtcc.Base.{
  ℕ, zero, suc, ◌+◌, ◌%◌, ◌^◌, ◌≡◌, ◌∙◌, refl, ap, arith, Option, none, some, false, [], ◌∷◌, ◌++◌,
}
use mlbtcc.Base.{bit_xor, get_elem?, length, All, Bool-cases, inl, inr}
use mlbtcc.Base.Index.{get_elem?-lt}
use mlbtcc.Base.Bits.Xor.{bit_xor_twice, bit_xor-zero}
use mlbtcc.Base.Bytes.{Bytes, IsByte}
use mlbtcc.Blkdat.Block.{is_xor_active, xor_bytes, unmask}

abbrev or_zero : Option ℕ → ℕ
or_zero none = 0
or_zero (some k) = k

some-or_zero : (o : Option ℕ) (k : ℕ) → o ≡ some k → o ≡ some (or_zero o)
some-or_zero none k e = cc
some-or_zero (some _) k e = refl

-- The key's byte for a place in the file.
abbrev pub key_byte : Bytes → ℕ → ℕ
key_byte key place = or_zero (get_elem? key (place % 8))

-- Bytes as they stand in the file from `place` on.
unfoldable pub masked : Bytes → ℕ → Bytes → Bytes
masked key place [] = []
masked key place (byte ∷ bytes) = bit_xor byte (key_byte key place) ∷ masked key (place + 1) bytes

pub record IsKey (key : Bytes) : Type 0 where
  pub size : length key ≡ 8
  pub bytes : All IsByte key

key_byte_lem :
    (key : Bytes) (place : ℕ)
    → length key ≡ 8
    → get_elem? key (place % 2 ^ 64 % 8) ≡ some (key_byte key place)
key_byte_lem key place h =
    let same : place % 2 ^ 64 % 8 ≡ place % 8 = omega arith in
    let (k, e) = get_elem?-lt key (place % 8) (omega arith) in
    rw same (some-or_zero (get_elem? key (place % 8)) k e)

elem-IsByte : (bytes : Bytes) (i k : ℕ) → All IsByte bytes → get_elem? bytes i ≡ some k → IsByte k
elem-IsByte [] i k h e = cc
elem-IsByte (byte ∷ bytes) zero k (hb, h) e = ground arith
elem-IsByte (byte ∷ bytes) (suc i) k (hb, h) e = elem-IsByte bytes i k h e

key_byte-IsByte : (key : Bytes) (place : ℕ) → IsKey key → IsByte (key_byte key place)
key_byte-IsByte key place w =
    elem-IsByte key (place % 2 ^ 64 % 8) _ w.bytes (key_byte_lem key place w.size)

xor_bytes_lem :
    (key : Bytes) (place : ℕ) (bytes : Bytes)
    → length key ≡ 8
    → xor_bytes key place bytes ≡ some (masked key place bytes)
unfolding xor_bytes masked
xor_bytes_lem key place [] h = refl
xor_bytes_lem key place (byte ∷ bytes) h =
    rw (key_byte_lem key place h) (rw (xor_bytes_lem key (place + 1) bytes h) refl)

pub length-masked :
    (key : Bytes) (place : ℕ) (bytes : Bytes) → length (masked key place bytes) ≡ length bytes
unfolding masked
length-masked key place [] = refl
length-masked key place (byte ∷ bytes) = omega (arith, length-masked key (place + 1) bytes)

pub masked-append :
    (key : Bytes) (place : ℕ) (front back : Bytes)
    → masked key place (front ++ back)
      ≡ masked key place front ++ masked key (place + length front) back
unfolding masked
masked-append key place [] back = ap (λ p. masked key p back) (omega arith)
masked-append key place (byte ∷ front) back = ap (◌∷◌ (bit_xor byte (key_byte key place))) (
    masked-append key (place + 1) front back
    ∙ ap (λ p. masked key (place + 1) front ++ masked key p back) (omega arith))

masked_twice :
    (key : Bytes) (place : ℕ) (bytes : Bytes)
    → IsKey key
    → All IsByte bytes
    → masked key place (masked key place bytes) ≡ bytes
unfolding masked
masked_twice key place [] w h = refl
masked_twice key place (byte ∷ bytes) w (hb, h) =
    rw (bit_xor_twice 8 byte (key_byte key place) hb (key_byte-IsByte key place w))
      (ap (◌∷◌ byte) (masked_twice key (place + 1) bytes w h))

inactive_elem :
    (key : Bytes) (i k : ℕ) → is_xor_active key ≡ false → get_elem? key i ≡ some k → k ≡ 0
unfolding is_xor_active
inactive_elem [] i k h e = cc
inactive_elem (byte ∷ key) zero k h e = ground arith
inactive_elem (byte ∷ key) (suc i) k h e = inactive_elem key i k (ground arith) e

masked_inactive :
    (key : Bytes) (place : ℕ) (bytes : Bytes)
    → IsKey key
    → All IsByte bytes
    → is_xor_active key ≡ false
    → masked key place bytes ≡ bytes
unfolding masked
masked_inactive key place [] w hs h = refl
masked_inactive key place (byte ∷ bytes) w (hb, hs) h =
    rw (inactive_elem key (place % 2 ^ 64 % 8) _ h (key_byte_lem key place w.size))
      (rw (bit_xor-zero 8 byte hb) (ap (◌∷◌ byte) (masked_inactive key (place + 1) bytes w hs h)))

pub unmask-masked :
    (key : Bytes) (place : ℕ) (bytes : Bytes)
    → IsKey key
    → All IsByte bytes
    → unmask key place (masked key place bytes) ≡ some bytes
unfolding unmask
unmask-masked key place bytes w h = elim (Bool-cases (is_xor_active key)) [
  | inl active ↦ rw active (
      xor_bytes_lem key place (masked key place bytes) w.size
      ∙ ap some (masked_twice key place bytes w h))
  | inr inactive ↦ rw inactive (ap some (masked_inactive key place bytes w h inactive))
]
