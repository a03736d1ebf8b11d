-- ===== src/Base/Bits.antt =====
-- C's `&` with a contiguous mask and `|` of fields that do not overlap, as arithmetic.
pub mod Digit
pub mod Xor
use Digit.{bit_or_digit, bit_and_digit}
use Prim.Native.Nat.{ℕ, zero, suc, ◌+◌, ◌*◌, ◌/◌, ◌%◌, ◌^◌, ◌≤◌, ◌<◌, bit_and, bit_or}
use mathlib.Core.Path.{◌≡◌, refl, ap}
use native.Mathlib.Nat.{pow-suc, one-le-pow, div-div-eq-div-mul}
use native.Mathlib.Omega.{arith}

zero-bit_or_fuel : (n b : ℕ) → b ≤ n → bit_or 0 b ≡ b
zero-bit_or_fuel n zero h = refl
zero-bit_or_fuel zero (suc b) h = absurd (omega arith)
zero-bit_or_fuel (suc n) (suc b) h =
    omega (arith, bit_or_digit 0 (suc b), zero-bit_or_fuel n (suc b / 2) (omega arith))

pub zero-bit_or : (b : ℕ) → bit_or 0 b ≡ b
zero-bit_or b = zero-bit_or_fuel b b (omega arith)

clears : (k word : ℕ) → word < 2 ^ k → bit_and word 0 ≡ 0
clears k zero h = refl
clears zero (suc word) h = absurd (omega arith)
clears (suc k) (suc word) h = omega (
  arith,
  pow-suc 2 k,
  bit_and_digit (suc word) 0,
  clears k (suc word / 2) (omega (arith, pow-suc 2 k)),
)

lt_two_pow : (n : ℕ) → n < 2 ^ n
lt_two_pow zero = omega arith
lt_two_pow (suc n) = omega (arith, pow-suc 2 n, lt_two_pow n)

-- A field that starts at bit `k`, joined to a value below `2 ^ k`.
pub bit_or_above : (k a q : ℕ) → a < 2 ^ k → bit_or a (q * 2 ^ k) ≡ a + q * 2 ^ k
bit_or_above zero zero q fits = omega (arith, zero-bit_or (q * 1))
bit_or_above zero (suc a) q fits = absurd (omega arith)
bit_or_above (suc k) a q fits = ground (
  arith,
  bit_or_digit a (q * 2 ^ suc k),
  ap (λ (t : ℕ). q * t) (pow-suc 2 k),
  pow-suc 2 k,
  bit_or_above k (a / 2) q (omega (arith, pow-suc 2 k)),
)

-- A value below `2 ^ k` joined to a field that starts at bit `k`.
pub bit_or_below : (k q a : ℕ) → a < 2 ^ k → bit_or (q * 2 ^ k) a ≡ q * 2 ^ k + a
bit_or_below zero q zero fits = omega (arith, bit_or_zero_fuel (q * 1) (q * 1) (omega arith))
  where
    bit_or_zero_fuel : (n b : ℕ) → b ≤ n → bit_or b 0 ≡ b
    bit_or_zero_fuel n zero h = refl
    bit_or_zero_fuel zero (suc b) h = absurd (omega arith)
    bit_or_zero_fuel (suc n) (suc b) h =
        omega (arith, bit_or_digit (suc b) 0, bit_or_zero_fuel n (suc b / 2) (omega arith))
bit_or_below zero q (suc a) fits = absurd (omega arith)
bit_or_below (suc k) q a fits = ground (
  arith,
  bit_or_digit (q * 2 ^ suc k) a,
  ap (λ (t : ℕ). q * t) (pow-suc 2 k),
  pow-suc 2 k,
  bit_or_below k q (a / 2) (omega (arith, pow-suc 2 k)),
)

-- `k` ones.
abbrev pub ones : ℕ → ℕ
ones zero = 0
ones (suc k) = 2 * ones k + 1

split : (k q r : ℕ) → r < 2 ^ k → bit_and (q * 2 ^ k + r) (ones k) ≡ r
split zero q zero fits = omega (arith, clears (q * 1 + 0) (q * 1 + 0) (lt_two_pow (q * 1 + 0)))
split zero q (suc r) fits = absurd (omega arith)
split (suc k) q r fits = ground (
  arith,
  bit_and_digit (q * 2 ^ suc k + r) (ones (suc k)),
  ap (λ (t : ℕ). q * t) (pow-suc 2 k),
  pow-suc 2 k,
  split k q (r / 2) (omega (arith, pow-suc 2 k)),
)

-- The lowest `k` bits.
pub bit_and-ones : (k a : ℕ) → bit_and a (ones k) ≡ a % 2 ^ k
bit_and-ones k a = ground (arith, one-le-pow k 2, split k (a / 2 ^ k) (a % 2 ^ k))

field_digit :
    (a m p r : ℕ) → bit_and (a / 2) (m * p) ≡ r * p → bit_and a (m * (2 * p)) ≡ r * (2 * p)
field_digit a m p r h = ground (arith, bit_and_digit a (m * (2 * p)))

double : (k : ℕ) → 2 ^ suc k ≡ 2 * 2 ^ k
double k = omega (arith, pow-suc 2 k)

-- The `j` bits that start at bit `k`, left in place.
pub bit_and_field : (j k a : ℕ) → bit_and a (ones j * 2 ^ k) ≡ a / 2 ^ k % 2 ^ j * 2 ^ k
bit_and_field j zero a = ground (arith, bit_and-ones j a)
bit_and_field j (suc k) a = rw (double k) (
    rw (← div-div-eq-div-mul a 2 (2 ^ k))
      (field_digit a (ones j) (2 ^ k) _ (bit_and_field j k (a / 2))))

double_le : (k a : ℕ) → a < 2 ^ suc k → a / 2 < 2 ^ k
double_le k a h = omega (arith, double k)

pub bit_or-lt : (k a b : ℕ) → a < 2 ^ k → b < 2 ^ k → bit_or a b < 2 ^ k
bit_or-lt zero zero b ha hb = omega (arith, zero-bit_or b)
bit_or-lt zero (suc a) b ha hb = absurd (omega arith)
bit_or-lt (suc k) a b ha hb = omega (
  arith,
  double k,
  bit_or_digit a b,
  bit_or-lt k (a / 2) (b / 2) (double_le k a ha) (double_le k b hb),
)
