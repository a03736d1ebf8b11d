-- ===== src/Base/Bytes.antt =====
-- Bytes in memory. A pointer is the list of the bytes that may be read from it on; a read that
-- leaves the object is `none`. Integers of more than one byte are little-endian, as on the
-- machines that the program is written for.
use Prim.Native.Nat.{ℕ, zero, suc, ◌+◌, ◌*◌, ◌/◌, ◌%◌, ◌^◌, ◌<◌, ◌≤◌}
use mathlib.Core.Path.{◌≡◌, refl, ap}
use mathlib.Core.List.{List, [], ◌∷◌, ◌++◌, append-nil}
use mathlib.Core.Option.{Option, none, some}
use mathlib.Core.Bool.{Bool, true, false, ◌&&◌}
use Prim.Native.Char.{code}
use Prim.Native.String.{String}
use native.Mathlib.Nat.{pow-suc}
use native.Mathlib.Omega.{arith}
use mlbtcc.Base.Tests.{leb, ◌==◌, if◌then◌else◌}
use mlbtcc.Base.Lists.{length, take, All, length-append, take-append_left}

abbrev pub Bytes : Type 0
Bytes = List ℕ

abbrev pub IsByte : ℕ → Type 0
IsByte b = b < 256

-- `memcpy(dest, bytes, n)`.
unfoldable pub copy : ℕ → Bytes → Option Bytes
copy n bytes = if leb n (length bytes) then some (take n bytes) else none

pub copy-append :
    (n : ℕ) (front back : Bytes) → length front ≡ n → copy n (front ++ back) ≡ some front
unfolding copy
copy-append n front back h =
    ground (arith, length-append front back, take-append_left n front back h)

-- The integer that bytes stand for in memory.
abbrev pub from_le : Bytes → ℕ
from_le [] = 0
from_le (b ∷ bytes) = b + 256 * from_le bytes

-- The `n` bytes that hold an integer in memory.
abbrev pub to_le : ℕ → ℕ → Bytes
to_le zero v = []
to_le (suc n) v = v % 256 ∷ to_le n (v / 256)

pub length-to_le : (n v : ℕ) → length (to_le n v) ≡ n
length-to_le zero v = refl
length-to_le (suc n) v = ap suc (length-to_le n (v / 256))

pub to_le-IsByte : (n v : ℕ) → All IsByte (to_le n v)
to_le-IsByte zero v = tt
to_le-IsByte (suc n) v = (omega arith, to_le-IsByte n (v / 256))

pub from_le-to_le : (n v : ℕ) → v < 256 ^ n → from_le (to_le n v) ≡ v
from_le-to_le zero v h = omega arith
from_le-to_le (suc n) v h = omega (arith, from_le-to_le n (v / 256) (omega (arith, pow-suc 256 n)))

pub from_le-lt : (bytes : Bytes) → All IsByte bytes → from_le bytes < 256 ^ length bytes
from_le-lt [] h = omega arith
from_le-lt (b ∷ bytes) (hb, h) = omega (arith, from_le-lt bytes h, pow-suc 256 (length bytes))

pub copy_of_le : (n : ℕ) (bytes : Bytes) → n ≤ length bytes → copy n bytes ≡ some (take n bytes)
unfolding copy
copy_of_le n bytes h = ground arith

pub copy_of_lt : (n : ℕ) (bytes : Bytes) → length bytes < n → copy n bytes ≡ none
unfolding copy
copy_of_lt n bytes h = ground arith

pub copy_whole : (n : ℕ) (bytes : Bytes) → length bytes ≡ n → copy n bytes ≡ some bytes
copy_whole n bytes h = rw append-nil at (copy-append n bytes [] h)

-- The bytes of a literal.
abbrev pub codes : String → Bytes
codes String.[] = []
codes (String.◌∷◌ c s) = code c ∷ codes s

-- `strcmp(a, b) == 0`.
unfoldable pub same_text : Bytes → Bytes → Bool
same_text [] [] = true
same_text [] (d ∷ b) = false
same_text (c ∷ a) [] = false
same_text (c ∷ a) (d ∷ b) = (c == d) && same_text a b

pub same_text_self : (a : Bytes) → same_text a a ≡ true
unfolding same_text
same_text_self [] = refl
same_text_self (c ∷ a) = ground (arith, same_text_self a)

pub same_text-eq : (a b : Bytes) → same_text a b ≡ true → a ≡ b
unfolding same_text
same_text-eq [] [] h = refl
same_text-eq [] (d ∷ b) h = cc
same_text-eq (c ∷ a) [] h = cc
same_text-eq (c ∷ a) (d ∷ b) h = ground (arith, same_text-eq a b)
