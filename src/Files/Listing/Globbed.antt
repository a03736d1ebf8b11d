-- ===== src/Files/Listing/Globbed.antt =====
-- `ListFiles` lists the names that its pattern means.
use mlbtcc.Base.{
  ℕ, ◌<◌, ◌≤◌, ◌≡◌, ◌∙◌, refl, ap, some, List, [], ◌∷◌, ◌++◌, if◌then◌else◌, length, All,
}
use mlbtcc.Base.Bytes.{Bytes}
use mlbtcc.Text.Glob.{glob}
use mlbtcc.Files.Wildcard.Decides.{IsPlain, wildcard_match-glob}
use mlbtcc.Files.Listing.{FileInfo, FileList, closed_file, list_files, free_file_list}
use mlbtcc.Files.Listing.Names.{Decided, paths, list_files-paths}

-- The closed files of the names that the pattern means, in order.
unfoldable pub globbed : Bytes → Bytes → List Bytes → List FileInfo
globbed directory pattern [] = []
globbed directory pattern (name ∷ names) =
    let rest = globbed directory pattern names in
    if glob pattern name then closed_file (directory ++ (b'/' ∷ name)) ∷ rest else rest

unfoldable decided :
    (pattern : Bytes) (names : List Bytes) → All (All IsPlain) names → All (Decided pattern) names
decided pattern [] plain = tt
decided pattern (name ∷ names) (p, plain) =
    ((glob pattern name, wildcard_match-glob name pattern p), decided pattern names plain)

paths-globbed :
    (directory pattern : Bytes) (names : List Bytes) (plain : All (All IsPlain) names)
    → paths directory pattern names (decided pattern names plain) ≡ globbed directory pattern names
unfolding globbed decided
paths-globbed directory pattern [] plain = refl
paths-globbed directory pattern (name ∷ names) (p, plain) =
    ap (λ rest. if glob pattern name then closed_file (directory ++ (b'/' ∷ name)) ∷ rest else rest)
      (paths-globbed directory pattern names plain)

-- On a directory that opens, with an allocation of at least one place and names without stars,
-- `list_files` ends for every pattern and never writes outside its array: it lists the paths of
-- the names that the pattern means, in the directory's order, none of them open, and its count is
-- their number; `free_file_list` then closes nothing.
pub list_files-globbed :
    (directory pattern : Bytes) (names : List Bytes) (size : ℕ)
    → All (All IsPlain) names
    → 0 < size
    → (l : FileList) × (list_files directory (some names) pattern size ≡ some l)
      × (l.files ≡ globbed directory pattern names)
      × (l.count ≡ length l.files)
      × (l.count ≤ l.total_size)
      × (free_file_list l ≡ some ([], record { files = []; count = 0; total_size = 0 }))
list_files-globbed directory pattern names size plain h =
    let (l, e, f, c, t, r) =
      list_files-paths directory pattern names size (decided pattern names plain) h in
    (l, e, f ∙ paths-globbed directory pattern names plain, c, t, r)
