-- ===== src/Cbuilder/FileCopy.antt =====
-- CBuilder.c, `CB_CreateFile`, `CB_CreateFileWithMode`, `CB_CopyFile`, `CB_IsDirectoryEmpty` and
-- `GetCommandOutput` and `GetCompiler`, which no rule uses.
pub mod Whole
use mlbtcc.Base.{
  ℕ, zero, suc, ◌+◌, Option, none, some, ◌>>=◌, Bool, true, false, ◌||◌, not, List, [], ◌∷◌, ◌++◌,
  ◌==◌, if◌then◌else◌, length, take, drop,
}
use mlbtcc.Base.Bytes.{Bytes, codes, same_text}
use mlbtcc.Cbuilder.Host.{is_dot}

-- The content of each file that can be read.
abbrev pub Disk : Type 0
Disk = Bytes → Option Bytes

abbrev pub write_to : Disk → Bytes → Bytes → Disk
write_to disk path content other = if same_text path other then some content else disk other

-- The loop of `CB_CopyFile`, from a position of the source on. Both files stay open, and each round
-- reads what the source holds then. The fuel is the number of rounds.
unfoldable pub copy_loop : ℕ → Bytes → Bytes → ℕ → Disk → Option Disk
copy_loop zero src dest position disk = none
copy_loop (suc fuel) src dest position disk = do
  content ← disk src
  written ← disk dest
  let buffer = take 4096 (drop position content)
  let rest =
      copy_loop fuel src dest (position + length buffer) (write_to disk dest (written ++ buffer))
  if length buffer == 0 then some disk else rest

-- `writable` says which files `fopen` opens to write. The destination is emptied when it is opened.
-- A source of `n` bytes takes at most `n` rounds and the last one.
unfoldable pub cb_copy_file : (Bytes → Bool) → Bytes → Bytes → Disk → Option (Bool × Disk)
cb_copy_file writable src dest disk = elim (disk src) [
  | none ↦ some (false, disk)
  | some content ↦
      if writable dest
      then (copy_loop (suc (length content)) src dest 0 (write_to disk dest []) >>= λ after.
          some (true, after))
      else some (false, disk)
]

-- `none` for the content is a null pointer.
unfoldable pub cb_create_file : (Bytes → Bool) → Bytes → Option Bytes → Disk → Bool × Disk
cb_create_file writable path content disk =
    if writable path
    then (true, write_to disk path (elim content [ none ↦ [] | some text ↦ text ]))
    else (false, disk)

-- The loop of `CB_IsDirectoryEmpty` over the names that `readdir` gives.
only_dots : List Bytes → Bool
only_dots [] = true
only_dots (name ∷ names) = let rest = only_dots names in if not (is_dot name) then false else rest

pub cb_is_directory_empty : Option (List Bytes) → Bool
cb_is_directory_empty none = false
cb_is_directory_empty (some names) = only_dots names

-- The first line of a text, with its end, in at most `n` characters: `fgets` of `n + 1`.
fgets : ℕ → Bytes → Bytes
fgets zero text = []
fgets (suc n) [] = []
fgets (suc n) (c ∷ text) = let rest = fgets n text in if c == b'\n' then c ∷ [] else c ∷ rest

-- `buffer[len - 1] = '\0'` at a line's end.
without_newline : Bytes → Bytes
without_newline [] = []
without_newline (c ∷ []) = if c == b'\n' then [] else c ∷ []
without_newline (c ∷ d ∷ text) = c ∷ without_newline (d ∷ text)

-- What the command prints, if `popen` starts it; the result is a null pointer or a new text.
pub get_command_output : Option Bytes → Option Bytes
get_command_output none = none
get_command_output (some []) = none
get_command_output (some (c ∷ text)) = some (without_newline (fgets 511 (c ∷ text)))

-- The ends of lines at the end of a text.
without_line_ends : Bytes → Bytes
without_line_ends [] = []
without_line_ends (c ∷ text) = cut c (without_line_ends text)
  where
    cut : ℕ → Bytes → Bytes
    cut c [] = if c == b'\n' || c == b'\r' then [] else c ∷ []
    cut c (d ∷ rest) = c ∷ d ∷ rest

-- `popen` gives what a command prints, if it starts. The command's buffer has 256 bytes.
pub get_compiler : (Bytes → Option Bytes) → Option Bytes → Option Bytes
get_compiler popen none = none
get_compiler popen (some []) = none
get_compiler popen (some (c ∷ name)) =
    popen (take 255 (codes "which " ++ ((c ∷ name) ++ codes " 2>/dev/null"))) >>= path
  where
    path : Bytes → Option Bytes
    path [] = none
    path (d ∷ text) = some (without_line_ends (fgets 511 (d ∷ text)))
