-- ===== src/Cbuilder/Collect.antt =====
-- CBuilder.c, `RecursiveCollectFiles`.
pub mod Slash
pub mod Flat
use mlbtcc.Base.{
  ℕ, zero, suc, Option, none, some, ◌>>=◌, Bool, true, false, ◌==◌, ◌||◌, not, List, [], ◌∷◌, ◌++◌,
  ltb, if◌then◌else◌, length, take,
}
use mlbtcc.Base.Bytes.{Bytes, codes}
use mlbtcc.Cbuilder.Strings.{CString, create_string}
use mlbtcc.Cbuilder.Patterns.{match_pattern}
use mlbtcc.Cbuilder.Host.{Host, is_dot}

-- `strrchr(text, '/')`: what stands before the last slash and behind it.
unfoldable pub last_slash : Bytes → Option (Bytes × Bytes)
last_slash [] = none
last_slash (c ∷ text) = elim (last_slash text) [
  | some (before, behind) ↦ some (c ∷ before, behind)
  | none ↦ if c == b'/' then some ([], text) else none
]

-- `strchr(text, '/') != NULL`.
unfoldable pub has_slash : Bytes → Bool
has_slash [] = false
has_slash (c ∷ text) = (c == b'/') || has_slash text

-- `baseDir`, a buffer of 1024 bytes, and `matchPattern`.
abbrev pub base_and_pattern : Bytes → Bytes × Bytes
base_and_pattern pattern = elim (last_slash pattern) [
  | none ↦ (codes ".", pattern)
  | some (before, behind) ↦ (take 1023 before, behind)
]

-- `snprintf` of `"%s/%s"` to a buffer of 1024 bytes.
abbrev pub sub_path : Bytes → Bytes → Bytes
sub_path dir name = take 1023 (dir ++ (b'/' ∷ name))

module _ {W : Type 0} (host : Host W) where
  -- The results so far, with one more when the name matches and there is room.
  unfoldable pub collect_file : Bytes → Bytes → Bytes → ℕ → List CString → Option (List CString)
  collect_file match path name max results =
      if match_pattern match name
      then if ltb (length results) max
        then (create_string (path ∷ []) >>= λ string. some (results ++ (string ∷ [])))
        else some results
      else some results

  -- The body of the loop at one entry, given the call for a directory inside.
  unfoldable pub collect_entry :
      (Bytes → List CString → Option (List CString))
      → Bytes
      → Bytes
      → ℕ
      → Bytes
      → W
      → List CString
      → Option (List CString)
  collect_entry inside base match max name w results =
      let path = sub_path base name in
      if is_dot name || not (host.exists path w)
      then some results
      else if host.is_directory path w
      then (if has_slash match then inside (sub_path path match) results else some results)
      else collect_file match path name max results

  unfoldable pub collect_entries :
      (Bytes → List CString → Option (List CString))
      → Bytes
      → Bytes
      → ℕ
      → List Bytes
      → W
      → List CString
      → Option (List CString)
  collect_entries inside base match max [] w results = some results
  collect_entries inside base match max (name ∷ names) w results =
      collect_entry inside base match max name w results >>= λ results'.
      collect_entries inside base match max names w results'

  -- The fuel is the depth of the calls; one is enough, see `Flat`.
  unfoldable pub recursive_collect_files : ℕ → Bytes → ℕ → W → List CString → Option (List CString)
  recursive_collect_files zero pattern max w results = none
  recursive_collect_files (suc fuel) pattern max w results =
      let (base, match) = base_and_pattern pattern in
      elim (host.entries base w) [
        | none ↦ some results
        | some names ↦
            collect_entries (λ p r. recursive_collect_files fuel p max w r) base match max names w
              results
      ]
