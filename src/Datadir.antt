-- ===== src/Datadir.antt =====
-- src/parser.c, `ExpandUserDir`, `SearchDefaultDatadirs` and `LoadXorKey`. The environment and the
-- file system are arguments; a text is its characters, without the terminator.
pub mod Keys
pub mod Parse
use mlbtcc.Base.{
  ℕ, zero, suc, ◌+◌, Option, none, some, ◌>>=◌, Bool, true, false, ◌&&◌, ◌||◌, List, [], ◌∷◌, ◌++◌,
  ◌==◌, ltb, if◌then◌else◌, length, take, drop, replicate,
}
use mlbtcc.Base.Bytes.{Bytes}

-- `MAX_PATH_LENGTH`, the size of each buffer.
abbrev pub max_path_length : ℕ
max_path_length = 512

-- Whether a text starts with another.
abbrev pub starts_with : Bytes → Bytes → Bool
starts_with [] text = true
starts_with (p ∷ part) [] = false
starts_with (p ∷ part) (c ∷ text) = p == c && starts_with part text

-- `strstr`: what is before the first place where the part stands, and from there on.
unfoldable pub strstr : Bytes → Bytes → Option (Bytes × Bytes)
strstr [] part = if starts_with part [] then some ([], []) else none
strstr (c ∷ text) part =
    let rest = strstr text part in
    if starts_with part (c ∷ text)
    then some ([], c ∷ text)
    else (rest >>= λ (before, from). some (c ∷ before, from))

abbrev pub dollar_user : Bytes
dollar_user = b'$' ∷ b'U' ∷ b'S' ∷ b'E' ∷ b'R' ∷ []

abbrev pub is_there {ℓ} : {A : Type ℓ} → Option A → Bool
is_there none = false
is_there (some a) = true

-- `strcpy` to a buffer of `MAX_PATH_LENGTH` bytes, with the terminator.
strcpy : Bytes → Option Bytes
strcpy text = if ltb (length text) max_path_length then some text else none

-- `user` is what `getenv("USER")` gives. `snprintf` cuts the text to the buffer. A `~` stays.
pub expand_user_dir : Option Bytes → Bytes → Option Bytes
expand_user_dir user path =
    if is_there (strstr path dollar_user) || is_there (strstr path (b'~' ∷ []))
    then elim user [
      | none ↦ strcpy path
      | some name ↦
          (strcpy path >>= λ tmp. elim (strstr tmp dollar_user) [
            | none ↦ strcpy path
            | some (before, dollar) ↦ some (take 511 (before ++ (name ++ drop 5 dollar)))
          ])
    ]
    else strcpy path

-- The loop of `SearchDefaultDatadirs` over its table; `none` inside is `return 0`.
pub search_datadirs : (Bytes → Bool) → Option Bytes → List Bytes → Option (Option Bytes)
search_datadirs is_directory user [] = some none
search_datadirs is_directory user (path ∷ paths) = do
  let rest = search_datadirs is_directory user paths
  expanded ← expand_user_dir user path
  if is_directory expanded then (strcpy expanded >>= λ out. some (some out)) else rest

-- What `gEnv.xorKey` holds afterwards; `none` for the file is one that does not open. A file that is
-- too short leaves eight zeros, and bytes behind the first eight are not read.
unfoldable pub load_xor_key : Option Bytes → Bytes
load_xor_key none = replicate 8 0
load_xor_key (some file) = if length (take 8 file) == 8 then take 8 file else replicate 8 0
