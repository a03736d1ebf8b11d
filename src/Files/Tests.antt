-- ===== src/Files/Tests.antt =====
-- Runs of src/files.c on concrete names.
use mlbtcc.Base.{ℕ, ◌≡◌, ◌≤◌, arith, refl, some, true, List, [], ◌∷◌, length, All}
use mlbtcc.Base.Bytes.{Bytes, codes}
use mlbtcc.Text.Glob.{glob, any_end, one_char, is_empty}
use mlbtcc.Files.Wildcard.Decides.{IsPlain, wildcard_match-glob}
use mlbtcc.Files.Listing.Globbed.{globbed, list_files-globbed}
use mlbtcc.Files.Wildcard.{wildcard_match}
use mlbtcc.Files.Listing.{FileList, list_files, free_file_list}

abbrev letter : ℕ
letter = b'x'

abbrev name : Bytes
name = b'b' ∷ b'l' ∷ b'k' ∷ []

-- Two stars, a question mark and a retry.
abbrev star_pattern : Bytes
star_pattern = codes "*a?*b"

star_name : All IsPlain (codes "xaaxbb")
star_name = (
  (ground arith, λ e. absurd (omega (arith, e))),
  (
    (ground arith, λ e. absurd (omega (arith, e))),
    (
      (ground arith, λ e. absurd (omega (arith, e))),
      (
        (ground arith, λ e. absurd (omega (arith, e))),
        (
          (ground arith, λ e. absurd (omega (arith, e))),
          ((ground arith, λ e. absurd (omega (arith, e))), tt),
        ),
      ),
    ),
  ),
)

wildcard_match-glob_example :
    wildcard_match (codes "xaaxbb") star_pattern ≡ some (glob star_pattern (codes "xaaxbb"))
wildcard_match-glob_example = wildcard_match-glob (codes "xaaxbb") star_pattern star_name

star_matches : glob star_pattern (codes "xaaxbb") ≡ true
unfolding glob any_end one_char is_empty
star_matches = refl

abbrev block_pattern : Bytes
block_pattern = b'b' ∷ b'*' ∷ []

abbrev two_names : List Bytes
two_names = name ∷ (b'r' ∷ []) ∷ []

two_names-IsPlain : All (All IsPlain) two_names
two_names-IsPlain = (
  (
    (ground arith, λ e. absurd (omega (arith, e))),
    (
      (ground arith, λ e. absurd (omega (arith, e))),
      ((ground arith, λ e. absurd (omega (arith, e))), tt),
    ),
  ),
  (((ground arith, λ e. absurd (omega (arith, e))), tt), tt),
)

list_files-globbed_example :
    (l : FileList) × (list_files (codes "d") (some two_names) block_pattern 1 ≡ some l)
    × (l.files ≡ globbed (codes "d") block_pattern two_names)
    × (l.count ≡ length l.files)
    × (l.count ≤ l.total_size)
    × (free_file_list l ≡ some ([], record { files = []; count = 0; total_size = 0 }))
list_files-globbed_example =
    list_files-globbed (codes "d") block_pattern two_names 1 two_names-IsPlain (omega arith)
