-- ===== src/Indexing/Sort/Listed.antt =====
-- The files of a directory in the order of their numbers.
use mlbtcc.Base.{
  ℕ, zero, suc, ◌+◌, ◌<◌, ◌≤◌, ◌≡◌, ◌∙◌, refl, sym, ap, arith, none, some, List, [], ◌∷◌, ◌++◌, map,
  length, drop, All, ltb,
}
use mlbtcc.Base.Bytes.{Bytes, codes}
use mlbtcc.Datadir.{strstr}
use mlbtcc.Files.Listing.{FileInfo, FileList, closed_file, list_files}
use mlbtcc.Files.Listing.Globbed.{globbed, list_files-globbed}
use mlbtcc.Files.Wildcard.Decides.{IsPlain}
use mlbtcc.Indexing.Sort.{Qsort, sort_files, extract_block_number, compare_file_info, is_positive}
use mlbtcc.Indexing.Sort.Ascending.{IsAscending, IsAscending-eq, All-perm}
use mlbtcc.Indexing.Sort.Numbers.{block_name, extract_block_number-block_name}
use mathlib.Core.List.{Permᴰ}
use mathlib.Core.List.Permᴰ
use mathlib.Core.Path.{ap₂}

-- The numbers from `i` on.
abbrev pub range : ℕ → ℕ → List ℕ
range i zero = []
range i (suc n) = i ∷ range (i + 1) n

-- The closed files of a directory's first block files, in order.
abbrev pub block_files : Bytes → ℕ → ℕ → List FileInfo
block_files directory i zero = []
block_files directory i (suc n) =
    closed_file (directory ++ (b'/' ∷ block_name i)) ∷ block_files directory (i + 1) n

abbrev number : FileInfo → ℕ
number f = extract_block_number f.filepath

range-IsAscending : (i n : ℕ) → IsAscending (range i n)
range-IsAscending i zero = tt
range-IsAscending i (suc n) = (later (i + 1) n (omega arith), range-IsAscending (i + 1) n)
  where
    later : (j n : ℕ) → i ≤ j → All (λ y. i ≤ y) (range j n)
    later j zero h = tt
    later j (suc n) h = (h, later (j + 1) n (omega arith))

module _ (directory : Bytes) (clean : strstr directory (codes "blk") ≡ none) where
  -- What is known of each file of the list.
  abbrev IsNumbered : FileInfo → Type 0
  IsNumbered f =
      (f ≡ closed_file (directory ++ (b'/' ∷ block_name (number f)))) × (number f < 100000)

  closed_file-IsNumbered :
      (k : ℕ) → k < 100000 → IsNumbered (closed_file (directory ++ (b'/' ∷ block_name k)))
  closed_file-IsNumbered k h =
      let e = extract_block_number-block_name directory k clean h in
      (ap (λ i. closed_file (directory ++ (b'/' ∷ block_name i))) (sym e), omega (arith, e, h))

  block_files-IsNumbered : (i n : ℕ) → i + n ≤ 100000 → All IsNumbered (block_files directory i n)
  block_files-IsNumbered i zero h = tt
  block_files-IsNumbered i (suc n) h =
      (closed_file-IsNumbered i (omega arith), block_files-IsNumbered (i + 1) n (omega arith))

  numbers : (i n : ℕ) → i + n ≤ 100000 → map number (block_files directory i n) ≡ range i n
  numbers i zero h = refl
  numbers i (suc n) h =
      ap₂ ◌∷◌ (extract_block_number-block_name directory i clean (omega arith))
        (numbers (i + 1) n (omega arith))

  compared :
      (a b : FileInfo)
      → number a < 100000
      → number b < 100000
      → is_positive (compare_file_info a b) ≡ ltb (number b) (number a)
  unfolding compare_file_info
  compared a b ha hb = ground arith

  all_compared :
      (l : List FileInfo)
      → All IsNumbered l
      → All (λ a. All (λ b. is_positive (compare_file_info a b) ≡ ltb (number b) (number a)) l) l
  all_compared l h = outer l h
    where
      inner :
          (a : FileInfo) (r : List FileInfo)
          → number a < 100000
          → All IsNumbered r
          → All (λ b. is_positive (compare_file_info a b) ≡ ltb (number b) (number a)) r
      inner a [] ha h = tt
      inner a (b ∷ r) ha (hb, h) = (compared a b ha (hb.1), inner a r ha h)

      outer :
          (r : List FileInfo)
          → All IsNumbered r
          → All
              (λ a. All (λ b. is_positive (compare_file_info a b) ≡ ltb (number b) (number a)) l)
              r
      outer [] hr = tt
      outer (a ∷ r) (ha, hr) = (inner a l (ha.1) h, outer r hr)

  -- A list whose numbers are a range.
  in_order :
      (l : List FileInfo) (i n : ℕ)
      → map number l ≡ range i n
      → All IsNumbered l
      → l ≡ block_files directory i n
  in_order [] i zero e h = refl
  in_order [] i (suc n) e h = absurd (omega (arith, ap length e))
  in_order (f ∷ l) i zero e h = absurd (omega (arith, ap length e))
  in_order (f ∷ l) i (suc n) e ((same, _), h) =
      ap₂ ◌∷◌
        (same
          ∙ ap (λ j. closed_file (directory ++ (b'/' ∷ block_name j)))
              (ap (λ xs. elim xs as (λ _. ℕ) [ [] ↦ 0 | x ∷ _ ↦ x ]) e))
        (in_order l (i + 1) n (ap (drop 1) e) h)

  -- Sorted, a list of the first block files in any order is in the order of their numbers.
  sort_files-block_files :
      (libc : Qsort) (list : FileList) (n : ℕ)
      → n ≤ 100000
      → Permᴰ (block_files directory 0 n) list.files
      → (sort_files libc list).files ≡ block_files directory 0 n
  unfolding sort_files
  sort_files-block_files libc list n small p =
      let known = All-perm IsNumbered p (block_files-IsNumbered 0 n (omega arith)) in
      let sorted = libc.sort compare_file_info list.files in
      let same = Permᴰ.trans (libc.sort-perm compare_file_info list.files) (Permᴰ.symm p) in
      let order : map number sorted ≡ range 0 n =
        IsAscending-eq
          (libc.sort-IsAscending compare_file_info number list.files
            (all_compared list.files known))
          (range-IsAscending 0 n) (rw (sym (numbers 0 n (omega arith))) (Permᴰ.map number same)) in
      in_order sorted 0 n order
        (All-perm IsNumbered (Permᴰ.symm (libc.sort-perm compare_file_info list.files)) known)

  -- In a directory without "blk" in its path, whose names that match "blk*.dat" are the first `n`
  -- block files in any order, at most 100000 of them, and where no name holds a star: what
  -- `list_files` lists and `sort_files` sorts is these files in the order of their numbers, none of
  -- them open, whatever `qsort` does with equal elements.
  pub sort_files-list_files :
      (libc : Qsort) (names : List Bytes) (size n : ℕ)
      → All (All IsPlain) names
      → 0 < size
      → n ≤ 100000
      → Permᴰ (block_files directory 0 n) (globbed directory (codes "blk*.dat") names)
      → (list : FileList) × (list_files directory (some names) (codes "blk*.dat") size ≡ some list)
        × ((sort_files libc list).files ≡ block_files directory 0 n)
  sort_files-list_files libc names size n plain room small p =
      let (list, e, f, _, _, _) =
        list_files-globbed directory (codes "blk*.dat") names size plain room in
      (list, e, sort_files-block_files libc list n small (rw f p))
