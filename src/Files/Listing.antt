-- ===== src/Files/Listing.antt =====
-- src/files.c, `ListFiles`, and src/bitcoin-structs.c, `FreeFileList`. The names that the directory
-- gives are an argument.
pub mod Names
pub mod Globbed
use mlbtcc.Base.{
  ℕ, zero, suc, ◌+◌, ◌*◌, Option, none, some, ◌>>=◌, Bool, true, false, not, ◌||◌, List, [], ◌∷◌,
  ◌++◌, ◌==◌, leb, if◌then◌else◌, length,
}
use mlbtcc.Base.Bytes.{Bytes}
use mlbtcc.Files.Wildcard.{wildcard_match}

-- A FILE pointer is a number.
pub record FileInfo : Type 0 where
  pub filepath : Bytes
  pub is_open : Bool
  pub file : Option ℕ

pub record FileList : Type 0 where
  pub files : List FileInfo
  pub count : ℕ
  pub total_size : ℕ

abbrev pub closed_file : Bytes → FileInfo
closed_file path = record { filepath = path; is_open = false; file = none }

-- One round of the loop over the directory's names. The array doubles when it is full, so with
-- room for nothing it stays as it is, and the write leaves it.
add_file : Bytes → Bytes → FileList → Option FileList
add_file directory name list =
    let total' = if leb list.total_size list.count then list.total_size * 2 else list.total_size in
    if leb total' list.count
    then none
    else some (record {
      files = list.files ++ (closed_file (directory ++ (b'/' ∷ name)) ∷ []);
      count = list.count + 1;
      total_size = total';
    })

list_loop : Bytes → Bytes → List Bytes → FileList → Option FileList
list_loop directory pattern [] list = some list
list_loop directory pattern (name ∷ names) list = do
  matches ← wildcard_match name pattern
  list' ← if matches then add_file directory name list else some list
  list_loop directory pattern names list'

-- `none` for the names is a directory that does not open.
pub list_files : Bytes → Option (List Bytes) → Bytes → ℕ → Option FileList
list_files directory none pattern allocation_size =
    some (record { files = []; count = 0; total_size = 0 })
list_files directory (some names) pattern allocation_size =
    list_loop directory pattern names
      (record { files = []; count = 0; total_size = allocation_size })

-- The files that are closed, by their pointers, and the list afterwards. `fclose` of a null pointer
-- is undefined.
close_files : List FileInfo → Option (List ℕ)
close_files [] = some []
close_files (info ∷ infos) = do
  closed ← if info.is_open then (info.file >>= λ f. some (f ∷ [])) else some []
  rest ← close_files infos
  some (closed ++ rest)

pub free_file_list : FileList → Option (List ℕ × FileList)
free_file_list list = do
  closed ← close_files list.files
  some (closed, record { files = []; count = 0; total_size = 0 })
