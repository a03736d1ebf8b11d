-- ===== src/Startup.antt =====
-- src/mlbtcc.c, `InitMLBTCC`; `IndexCoreDatadir` and `IsBitcoindRunning` of src/indexing.c; and the
-- functions of src/files.c that run shell commands.
pub mod Loaded
mod Tests
use mlbtcc.Base.{
  ℕ, ◌+◌, Option, none, some, ◌>>=◌, Bool, true, false, List, [], ◌∷◌, ◌++◌, ◌==◌, if◌then◌else◌,
  take, replicate,
}
use mlbtcc.Base.Bytes.{Bytes, codes}
use mlbtcc.Datadir.Parse.{MlbtccEnv, Outcome, parse_core_datadir}
use mlbtcc.Files.Listing.{FileList, list_files}
use mlbtcc.Indexing.Build.{IndexRecords, build_block_index_records}
use mlbtcc.Indexing.Sort.{Qsort, sort_files}
use mlbtcc.Leveldb.{Entry}

-- What the program asks of the operating system and of LevelDB. Only commands change the state.
pub record Machine : Type 1 where
  pub State : Type 0
  pub is_directory : State → Bytes → Bool
  pub read_file : State → Bytes → Option Bytes
  -- The names in a directory, if it opens.
  pub directory_names : State → Bytes → Option (List Bytes)
  -- The entries of the database in a directory, if `LDB_Open` opens it.
  pub database : State → Bytes → Option (List Entry)
  -- `system`: the result of the command.
  pub system : Bytes → State → ℕ × State
  -- `popen` and `fgets`: whether the command starts and prints a line.
  pub prints_line : Bytes → State → Bool × State
  pub user : Option Bytes

-- `snprintf` to a buffer of 1024 bytes.
abbrev command : Bytes → Bytes
command text = take 1023 text

-- The fields of `gEnv`.
pub record FullEnv : Type 0 where
  pub env : MlbtccEnv
  pub blk_files : FileList
  pub index_records : IndexRecords

-- `exit`, or the environment and the state afterwards.
pub data Ended (S : Type 0) : Type 0 where
  stopped : Ended S
  loaded : FullEnv → S → Ended S

-- `defaultDatadirs` of `SearchDefaultDatadirs` is an argument.
module _ (m : Machine) (libc : Qsort) (defaults : List Bytes) where
  -- The returned value: 0, or -1 when the command fails.
  unfoldable pub copy_directory : Bytes → Bytes → m.State → Bool × m.State
  copy_directory src_dir dest_dir s =
      let (result, s') = m.system (command (codes "cp -r " ++ (src_dir ++ (b' ' ∷ dest_dir)))) s in
      (result == 0, s')

  unfoldable pub delete_directory : Bytes → m.State → Bool × m.State
  delete_directory dir_path s =
      let (result, s') = m.system (command (codes "rm -rf " ++ dir_path)) s in (result == 0, s')

  unfoldable pub is_bitcoind_running : m.State → Bool × m.State
  is_bitcoind_running s = m.prints_line (codes "ps -A | grep '[b]itcoind'") s

  -- `BuildBlockIndexRecords` from `LDB_InitOpen` on, which ends the process on an error.
  unfoldable pub build_from : Bytes → FullEnv → m.State → Option (Ended m.State)
  build_from directory g s = elim (m.database s directory) [
    | none ↦ some stopped
    | some db ↦
        (build_block_index_records db g.index_records >>= λ tables.
        some (loaded (record g { index_records = tables }) s))
  ]

  abbrev pub tmp_blk_indexes_dir : Bytes
  tmp_blk_indexes_dir = codes "/tmp/block-index"

  -- `DeleteDirectory` behind the build, if it comes back.
  abbrev pub then_delete : Option (Ended m.State) → Option (Ended m.State)
  then_delete none = none
  then_delete (some stopped) = some stopped
  then_delete (some (loaded g s)) = some (loaded g ((delete_directory tmp_blk_indexes_dir s).1))

  -- `snprintf` to a buffer of `MAX_PATH_LENGTH` bytes.
  abbrev pub blk_indexes_dir : Bytes → Bytes
  blk_indexes_dir blocks_dir = take 511 (blocks_dir ++ codes "/index/")

  -- From the sorted list on. `IsBitcoindRunning` is called twice, the first time for a message.
  unfoldable pub index_blocks : FullEnv → m.State → Option (Ended m.State)
  index_blocks g s =
      let (_, s1) = is_bitcoind_running s in
      let (running, s2) = is_bitcoind_running s1 in
      let (_, s3) = copy_directory (blk_indexes_dir g.env.blocks_dir) tmp_blk_indexes_dir s2 in
      if running
      then then_delete (build_from tmp_blk_indexes_dir g s3)
      else build_from (blk_indexes_dir g.env.blocks_dir) g s2

  unfoldable pub index_core_datadir : FullEnv → m.State → Option (Ended m.State)
  index_core_datadir g s =
      list_files g.env.blocks_dir (m.directory_names s g.env.blocks_dir) (codes "blk*.dat") 5000
      >>= λ list. index_blocks (record g { blk_files = sort_files libc list }) s

  -- `memset(&gEnv, 0, sizeof(gEnv))`.
  abbrev pub zero_env : FullEnv
  zero_env = record {
    env = record {
      data_dir = [];
      blocks_dir = [];
      indexes_dir = [];
      status = 0;
      xor_key = replicate 8 0;
    };
    blk_files = record { files = []; count = 0; total_size = 0 };
    index_records = record {
      block_index_record = [];
      block_index_record_count = 0;
      file_information_record_count = 0;
      coin_record = [];
      coin_record_count = 0;
    };
  }

  unfoldable pub init_mlbtcc : Bytes → m.State → Option (Ended m.State)
  init_mlbtcc path s =
      parse_core_datadir (m.is_directory s) (m.read_file s) m.user defaults path zero_env.env
      >>= λ outcome. elim outcome [
        | Outcome.exited ↦ some stopped
        | Outcome.returned env ↦ index_core_datadir (record zero_env { env = env }) s
      ]
