-- ===== src/Cbuilder/Compile.antt =====
-- CBuilder.c, `CompileFilesNULL` and `LinkFilesNULL`.
pub mod Text
pub mod DryRun
use mlbtcc.Base.{
  ℕ, Option, none, some, ◌>>=◌, Bool, true, false, List, [], ◌∷◌, ◌++◌, if◌then◌else◌, take,
}
use mlbtcc.Base.Bytes.{Bytes, codes}
use mlbtcc.Cbuilder.Strings.{CString, create_string, append_to_string_va, append_args}
use mlbtcc.Cbuilder.Host.{Host, Session, execute_command, directory_exists}
use mlbtcc.Cbuilder.Collect.{last_slash, recursive_collect_files}

-- The size of the array of files.
abbrev pub max_files : ℕ
max_files = 1000

-- Behind the last slash, or the whole.
abbrev pub file_name : Bytes → Bytes
file_name source = elim (last_slash source) [ none ↦ source | some (_, after) ↦ after ]

-- `snprintf` of `"%s/%s.o"` to a buffer of 512 bytes.
abbrev pub obj_name : Bytes → Bytes → Bytes
obj_name dest source = take 511 (dest ++ (b'/' ∷ (file_name source ++ codes ".o")))

unfoldable pub compile_command : Bytes → List Bytes → Bytes → Bytes → Option CString
compile_command compiler args dest source = do
  cmd ← create_string (compiler ∷ [])
  with_args ← append_args cmd args
  append_to_string_va with_args (codes "-c" ∷ source ∷ codes "-o" ∷ obj_name dest source ∷ [])

unfoldable pub append_files : CString → List CString → Option CString
append_files cmd [] = some cmd
append_files cmd (file ∷ files) =
    append_to_string_va cmd (file.c_str ∷ []) >>= λ cmd'. append_files cmd' files

unfoldable pub link_command : Bytes → List Bytes → List CString → Bytes → Option CString
link_command linker args files output = do
  cmd ← create_string (linker ∷ [])
  with_args ← append_args cmd args
  with_files ← append_files with_args files
  append_to_string_va with_files (codes "-o" ∷ output ∷ [])

module _ {W : Type 0} (host : Host W) where
  -- A command that fails is only reported.
  unfoldable pub compile_each :
      Bytes → List Bytes → Bytes → List CString → Session W → Option (Session W)
  compile_each compiler args dest [] s = some s
  compile_each compiler args dest (file ∷ files) s =
      compile_command compiler args dest file.c_str >>= λ cmd.
      compile_each compiler args dest files ((execute_command host cmd.c_str s).1)

  -- The directory is made in a dry run too.
  unfoldable pub with_directory : Bytes → Session W → Session W
  with_directory dest s =
      if directory_exists host dest s.world
      then s
      else record { dry_run = s.dry_run; world = (host.mkdir dest s.world).1 }

  unfoldable pub compile_files : Bytes → Bytes → Bytes → List Bytes → Session W → Option (Session W)
  compile_files pattern dest compiler args s =
      recursive_collect_files host 1 pattern max_files s.world [] >>= λ files.
      compile_each compiler args dest files (with_directory dest s)

  unfoldable pub link_found :
      Bytes → Bytes → List Bytes → List CString → Session W → Option (Session W)
  link_found output linker args [] s = some s
  link_found output linker args (file ∷ files) s =
      link_command linker args (file ∷ files) output >>= λ cmd.
      some ((execute_command host cmd.c_str s).1)

  unfoldable pub link_files : Bytes → Bytes → Bytes → List Bytes → Session W → Option (Session W)
  link_files pattern output linker args s =
      recursive_collect_files host 1 pattern max_files s.world [] >>= λ files.
      link_found output linker args files s
