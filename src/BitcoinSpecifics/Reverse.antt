-- ===== src/BitcoinSpecifics/Reverse.antt =====
-- src/bitcoin-specifics.c, `ReverseString`.
pub mod Swaps
use mlbtcc.Base.{ℕ, zero, suc, ◌+◌, ◌-◌, ◌%◌, ◌^◌, Option, none, some, true, false, ltb, ◌>>=◌}
use mlbtcc.Base.{get_elem?, set}
use mlbtcc.Base.Bytes.{Bytes}

-- `tmp = str[i]; str[i] = str[j]; str[j] = tmp;`. An index outside the array is undefined.
swap : ℕ → ℕ → Bytes → Option Bytes
swap i j str = do tmp ← get_elem? str i; other ← get_elem? str j; some (set (set str i other) j tmp)

-- The `for` loop. Each round brings the two ends closer, so `j` rounds are enough; see `Swaps`.
reverse_loop : ℕ → ℕ → ℕ → Bytes → Option Bytes
reverse_loop zero i j str = none
reverse_loop (suc fuel) i j str = elim (ltb i j) [
  | true ↦ elim (swap i j str) [ none ↦ none | some str' ↦ reverse_loop fuel (i + 1) (j - 1) str' ]
  | false ↦ some str
]

-- `size - 1` wraps at size 0.
pub reverse_string : Bytes → ℕ → Option Bytes
reverse_string str size =
    let last = (size + 2 ^ 64 - 1) % 2 ^ 64 in reverse_loop (suc size) 0 last str
