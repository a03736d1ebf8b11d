-- ===== src/Datadir/Parse.antt =====
-- src/parser.c, `ParseCoreDatadir`.
pub mod Outcomes
use mlbtcc.Base.{
  ℕ, ◌+◌, ◌^◌, bit_or, Option, none, some, ◌>>=◌, Bool, true, false, List, [], ◌∷◌, ◌++◌, ltb,
  if◌then◌else◌, length, take,
}
use mlbtcc.Base.Bytes.{Bytes}
use mlbtcc.Datadir.{max_path_length, search_datadirs, load_xor_key}

-- The fields of `gEnv` that the function reads or sets.
pub record MlbtccEnv : Type 0 where
  pub data_dir : Bytes
  pub blocks_dir : Bytes
  pub indexes_dir : Bytes
  pub status : ℕ
  pub xor_key : Bytes

-- `exit(1)`, or the environment afterwards.
pub data Outcome : Type 0 where
  exited : Outcome
  returned : MlbtccEnv → Outcome

-- The bits are numbered by the flags of `MLBTCC_STATUS`.
abbrev pub has_datadir : ℕ
has_datadir = 0

abbrev pub has_indexes : ℕ
has_indexes = 4

abbrev pub has_txindex : ℕ
has_txindex = 8

abbrev pub has_coinstat : ℕ
has_coinstat = 16

-- `SET_BIT(status, bit)`.
pub set_bit : ℕ → ℕ → ℕ
set_bit status bit = bit_or status (2 ^ bit)

-- `snprintf` to a buffer of `MAX_PATH_LENGTH` bytes.
abbrev pub path_of : Bytes → Bytes → Bytes
path_of directory name = take 511 (directory ++ name)

abbrev pub blocks_name : Bytes
blocks_name = b'b' ∷ b'l' ∷ b'o' ∷ b'c' ∷ b'k' ∷ b's' ∷ b'/' ∷ []

abbrev pub indexes_name : Bytes
indexes_name = b'i' ∷ b'n' ∷ b'd' ∷ b'e' ∷ b'x' ∷ b'e' ∷ b's' ∷ b'/' ∷ []

abbrev pub txindex_name : Bytes
txindex_name = b'/' ∷ b't' ∷ b'x' ∷ b'i' ∷ b'n' ∷ b'd' ∷ b'e' ∷ b'x' ∷ []

abbrev pub coinstat_name : Bytes
coinstat_name = b'/' ∷ b'c' ∷ b'o' ∷ b'i' ∷ b'n' ∷ b's' ∷ b't' ∷ b'a' ∷ b't' ∷ []

-- What `LoadXorKey` puts behind its argument.
abbrev pub xor_name : Bytes
xor_name =
    b'/' ∷ b'b' ∷ b'l' ∷ b'o' ∷ b'c' ∷ b'k' ∷ b's' ∷ b'/' ∷ b'x' ∷ b'o' ∷ b'r' ∷ b'.' ∷ b'd' ∷ b'a'
    ∷ b't' ∷ []

-- What the file system and the environment answer, and the table of default directories.
module _ (is_directory : Bytes → Bool) (read_file : Bytes → Option Bytes) (user : Option Bytes)
    (defaults : List Bytes) where
  -- The directory that is used: none inside for `exit(1)`. `strncpy` of a path that fills the
  -- buffer leaves no terminator, which is undefined for what follows.
  pub choose_datadir : Bytes → Option (Option Bytes)
  choose_datadir path =
      if is_directory path
      then if ltb (length path) max_path_length then some (some path) else none
      else search_datadirs is_directory user defaults

  -- The bits of the index directories.
  pub index_status : Bytes → ℕ → ℕ
  index_status indexes_dir status =
      if is_directory indexes_dir
      then (let s1 = set_bit status has_indexes in
          let s2 =
            if is_directory (path_of indexes_dir txindex_name)
            then set_bit s1 has_txindex
            else s1 in
          if is_directory (path_of indexes_dir coinstat_name) then set_bit s2 has_coinstat else s2)
      else status

  -- From the directory on. The key is looked for in `gEnv.dataDir`, which nothing sets.
  pub use_datadir : Bytes → MlbtccEnv → Outcome
  use_datadir datadir env =
      let blocks_dir = path_of datadir blocks_name in
      let indexes_dir = path_of datadir indexes_name in
      if is_directory blocks_dir
      then Outcome.returned (record env {
        blocks_dir = blocks_dir;
        indexes_dir = indexes_dir;
        xor_key = load_xor_key (read_file (env.data_dir ++ xor_name));
        status = index_status indexes_dir (set_bit env.status has_datadir);
      })
      else Outcome.exited

  pub parse_core_datadir : Bytes → MlbtccEnv → Option Outcome
  parse_core_datadir path env = choose_datadir path >>= λ chosen. elim chosen [
    | none ↦ some Outcome.exited
    | some datadir ↦ some (use_datadir datadir env)
  ]
