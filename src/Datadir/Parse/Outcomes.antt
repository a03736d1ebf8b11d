-- ===== src/Datadir/Parse/Outcomes.antt =====
-- What `ParseCoreDatadir` leaves.
use mlbtcc.Base.{
  ℕ, ◌<◌, ◌≡◌, refl, arith, Option, some, Bool, true, List, ◌++◌, ltb, if◌then◌else◌, length,
}
use mlbtcc.Base.Bytes.{Bytes}
use mlbtcc.Datadir.{load_xor_key}
use mlbtcc.Datadir.Parse.{
  MlbtccEnv, Outcome, set_bit, has_datadir, path_of, blocks_name, indexes_name, xor_name,
  choose_datadir, index_status, use_datadir, parse_core_datadir,
}

-- With a directory whose name fits the buffer, `parse_core_datadir` returns exactly if the
-- directory has a directory of blocks, and exits if not; if it returns, the two paths are the
-- directory's, but the key is the one that stands in the directory that the environment named
-- before the call, whatever the argument was.
pub parse_core_datadir_lem :
    (is_directory : Bytes → Bool) (read_file : Bytes → Option Bytes) (user : Option Bytes)
    (defaults : List Bytes) (path : Bytes) (env : MlbtccEnv)
    → is_directory path ≡ true
    → length path < 512
    → (status : ℕ) × (parse_core_datadir is_directory read_file user defaults path env
        ≡ some (
            if is_directory (path_of path blocks_name)
            then Outcome.returned (record {
              data_dir = env.data_dir;
              blocks_dir = path_of path blocks_name;
              indexes_dir = path_of path indexes_name;
              status = status;
              xor_key = load_xor_key (read_file (env.data_dir ++ xor_name));
            })
            else Outcome.exited))
unfolding parse_core_datadir choose_datadir use_datadir
parse_core_datadir_lem is_directory read_file user defaults path env there short =
    let fits : ltb (length path) 512 ≡ true = ground arith in
    (
      index_status is_directory read_file user defaults (path_of path indexes_name)
          (set_bit env.status has_datadir),
      rw (there, fits) refl,
    )
