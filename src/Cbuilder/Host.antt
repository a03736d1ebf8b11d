-- ===== src/Cbuilder/Host.antt =====
-- CBuilder.c, what the build tool asks of the operating system: `ExecuteCommandGeneric`,
-- `CB_RemoveDirectory` and the functions that wrap one call.
use mlbtcc.Base.{
  ℕ, zero, suc, Option, none, some, ◌>>=◌, Bool, true, false, ◌&&◌, ◌||◌, not, List, [], ◌∷◌, ◌++◌,
  if◌then◌else◌, take,
}
use mlbtcc.Base.Bytes.{Bytes, codes, same_text}

-- The operating system on the state `W` of the machine. The calls that change something give
-- whether they succeeded.
pub record Host (W : Type 0) : Type 0 where
  -- `stat(path) == 0`, then `S_ISDIR` and `st_mtime` of what it found.
  pub exists : Bytes → W → Bool
  pub is_directory : Bytes → W → Bool
  pub edit_time : Bytes → W → ℕ
  -- The names that `readdir` gives after `opendir`, or its failure.
  pub entries : Bytes → W → Option (List Bytes)
  pub remove : Bytes → W → Bool × W
  pub rmdir : Bytes → W → Bool × W
  -- Success, or a directory that is there already.
  pub mkdir : Bytes → W → Bool × W
  -- `fork`, `execl` of the shell in the child and `waitpid`; whether the exit status was 0.
  pub shell : Bytes → W → Bool × W

-- `gDryRun` and the machine.
pub record Session (W : Type 0) : Type 0 where
  pub dry_run : Bool
  pub world : W

abbrev pub is_dot : Bytes → Bool
is_dot name = same_text name (codes ".") || same_text name (codes "..")

-- `snprintf` to the buffer of 4096 bytes.
abbrev pub full_path : Bytes → Bytes → Bytes
full_path path name = take 4095 (path ++ (b'/' ∷ name))

abbrev pub with_world : {W : Type 0} → Bool → Bool × W → Bool × Session W
with_world dry_run (ok, w) = (ok, record { dry_run = dry_run; world = w })

module _ {W : Type 0} (host : Host W) where
  -- `ExecuteCommandGeneric` on Unix: with `runInThread` another thread waits, and the status is not
  -- read.
  unfoldable pub execute_command_generic : Bytes → Bool → Session W → Bool × Session W
  execute_command_generic command run_in_thread s =
      if not s.dry_run
      then (let (ok, after) = with_world s.dry_run (host.shell command s.world) in
          if run_in_thread then (true, after) else (ok, after))
      else (true, s)

  -- `ExecuteCommand`.
  unfoldable pub execute_command : Bytes → Session W → Bool × Session W
  execute_command command s = execute_command_generic command false s

  -- `ExecuteCommands`. With `runInThread` each thread calls `ExecuteCommandGeneric`, which has two
  -- parameters, as a function of one, which is undefined.
  unfoldable pub execute_commands : Bool → List Bytes → Session W → Option (Session W)
  execute_commands run_in_thread [] s = some s
  execute_commands true (command ∷ commands) s = none
  execute_commands false (command ∷ commands) s =
      execute_commands false commands ((execute_command command s).1)

  unfoldable pub file_exists : Bytes → W → Bool
  file_exists path w = host.exists path w

  unfoldable pub directory_exists : Bytes → W → Bool
  directory_exists path w = host.exists path w && host.is_directory path w

  unfoldable pub get_file_last_edit_time : Bytes → W → ℕ
  get_file_last_edit_time path w = if host.exists path w then host.edit_time path w else 0

  -- The loop of `CB_RemoveDirectory`, given its call of itself, over the entries that were there
  -- when it began.
  unfoldable pub remove_entries :
      (Bytes → W → Option (Bool × W)) → Bytes → List Bytes → W → Option (Bool × W)
  remove_entries remove_inside path [] w = some (true, w)
  remove_entries remove_inside path (name ∷ names) w =
      let path' = full_path path name in
      (if is_dot name || not (host.exists path' w)
        then some (true, w)
        else if host.is_directory path' w
        then remove_inside path' w
        else some (host.remove path' w))
      >>= λ r.
          (let rest = remove_entries remove_inside path names (r.1) in
            if r.0 then rest else some (false, r.1))

  -- The fuel is the depth of the calls.
  unfoldable pub remove_directory : ℕ → Bytes → W → Option (Bool × W)
  remove_directory zero path w = none
  remove_directory (suc fuel) path w = elim (host.entries path w) [
    | none ↦ some (false, w)
    | some names ↦ remove_entries (remove_directory fuel) path names w >>= λ r.
        (if r.0 then some (host.rmdir path (r.1)) else some (false, r.1))
  ]
