-- ===== src/Indexing/Sort.antt =====
-- src/indexing.c, `ExtractBlockNumber`, `CompareFileInfo` and `SortFiles`. An `int` is its 32 bits.
pub mod Ascending
pub mod Numbers
pub mod Listed
pub mod Insertion
use mlbtcc.Base.{
  ℕ, ◌+◌, ◌-◌, ◌*◌, ◌%◌, ◌^◌, ◌<◌, ◌≡◌, none, some, Bool, ◌&&◌, ◌||◌, List, [], ◌∷◌, ltb, leb, ◌==◌,
  if◌then◌else◌, drop, map, All,
}
use mlbtcc.Base.Bytes.{Bytes, codes}
use mlbtcc.Datadir.{strstr}
use mlbtcc.Files.Listing.{FileInfo, FileList}
use mlbtcc.Indexing.Sort.Ascending.{IsAscending}
use mathlib.Core.List.{Permᴰ}
use Prim.Native.Nat.{min}

abbrev is_digit : ℕ → Bool
is_digit c = leb b'0' c && leb c b'9'

-- The value of the digits that a text starts with, behind `value`.
unfoldable pub leading_number : Bytes → ℕ → ℕ
leading_number [] value = value
leading_number (c ∷ text) value =
    let rest = leading_number text (value * 10 + (c - b'0')) in if is_digit c then rest else value

-- `strtol` from the sign on, converted to an `int`: it stops at the ends of 64 bits.
unfoldable pub signed_number : Bytes → ℕ
signed_number [] = 0
signed_number (c ∷ text) =
    if c == b'-'
    then (2 ^ 64 - min (leading_number text 0) (2 ^ 63)) % 2 ^ 32
    else min (leading_number (if c == b'+' then text else c ∷ text) 0) (2 ^ 63 - 1) % 2 ^ 32

-- `atoi`, as the C libraries of Linux and macOS have it: white space first.
unfoldable pub atoi : Bytes → ℕ
atoi [] = 0
atoi (c ∷ text) =
    let rest = atoi text in
    if c == b' ' || (leb 9 c && leb c 13) then rest else signed_number (c ∷ text)

unfoldable pub extract_block_number : Bytes → ℕ
extract_block_number filename = elim (strstr filename (codes "blk")) [
  | none ↦ 0
  | some (before, blk_ptr) ↦ atoi (drop 3 blk_ptr)
]

-- The difference of two `int`s.
unfoldable pub compare_file_info : FileInfo → FileInfo → ℕ
compare_file_info a b =
    (extract_block_number a.filepath + 2 ^ 32 - extract_block_number b.filepath) % 2 ^ 32

abbrev pub is_positive : ℕ → Bool
is_positive int = ltb 0 int && ltb int (2 ^ 31)

-- C's `qsort`, which leaves open where elements go that compare equal.
pub record Qsort : Type 0 where
  pub sort : (FileInfo → FileInfo → ℕ) → List FileInfo → List FileInfo
  -- The elements stay the same.
  pub sort-perm : (cmp : FileInfo → FileInfo → ℕ) (l : List FileInfo) → Permᴰ (sort cmp l) l
  -- Where the comparison is the one of a number that each element has, the numbers ascend.
  pub sort-IsAscending :
      (cmp : FileInfo → FileInfo → ℕ) (key : FileInfo → ℕ) (l : List FileInfo)
      → All (λ a. All (λ b. is_positive (cmp a b) ≡ ltb (key b) (key a)) l) l
      → IsAscending (map key (sort cmp l))

pub sort_files : Qsort → FileList → FileList
sort_files libc list = record list { files = libc.sort compare_file_info list.files }
