-- ===== src/Base/Bits/Xor.antt =====
-- C's `^`.
use Prim.Native.Nat.{ℕ, zero, suc, ◌+◌, ◌*◌, ◌/◌, ◌%◌, ◌^◌, ◌<◌, bit_xor}
use mathlib.Core.Path.{◌≡◌, refl}
use native.Mathlib.Nat.{pow-suc}
use native.Mathlib.Omega.{arith}
use mlbtcc.Base.Bits.Digit.{bit_xor_digit, differ_bits}

digit : (a b : ℕ) → bit_xor a b ≡ bit_xor (a / 2) (b / 2) * 2 + (a % 2 + b % 2) % 2
digit a b =
    omega (arith, bit_xor_digit a b, differ_bits (a % 2) (b % 2) (omega arith) (omega arith))

-- The same word twice changes nothing.
pub bit_xor_twice : (n a b : ℕ) → a < 2 ^ n → b < 2 ^ n → bit_xor (bit_xor a b) b ≡ a
bit_xor_twice zero zero zero ha hb = refl
bit_xor_twice zero (suc a) b ha hb = absurd (omega arith)
bit_xor_twice zero zero (suc b) ha hb = absurd (omega arith)
bit_xor_twice (suc n) a b ha hb =
    let once = digit a b in
    let half : bit_xor a b / 2 ≡ bit_xor (a / 2) (b / 2) = omega (arith, once) in
    let twice = digit (bit_xor a b) b in
    let again =
      bit_xor_twice n (a / 2) (b / 2) (omega (arith, pow-suc 2 n)) (omega (arith, pow-suc 2 n)) in
    omega (arith, once, rw half at twice, again)

pub bit_xor-lt : (n a b : ℕ) → a < 2 ^ n → b < 2 ^ n → bit_xor a b < 2 ^ n
bit_xor-lt zero zero zero ha hb = omega arith
bit_xor-lt zero (suc a) b ha hb = absurd (omega arith)
bit_xor-lt zero zero (suc b) ha hb = absurd (omega arith)
bit_xor-lt (suc n) a b ha hb = omega (
  arith,
  digit a b,
  pow-suc 2 n,
  bit_xor-lt n (a / 2) (b / 2) (omega (arith, pow-suc 2 n)) (omega (arith, pow-suc 2 n)),
)

pub bit_xor-zero : (n a : ℕ) → a < 2 ^ n → bit_xor a 0 ≡ a
bit_xor-zero zero zero ha = refl
bit_xor-zero zero (suc a) ha = absurd (omega arith)
bit_xor-zero (suc n) a ha =
    omega (arith, digit a 0, bit_xor-zero n (a / 2) (omega (arith, pow-suc 2 n)))
