-- ===== src/Leveldb.antt =====
-- src/leveldb.c, `LDB_CountEntries` and `LDB_CountEntriesForPrefixes`. A database is the list of its
-- entries in the order in which LevelDB's iterator gives them.
pub mod Counts
mod Tests
use mlbtcc.Base.{ℕ, ◌+◌, Option, none, some, ◌>>=◌, List, [], ◌∷◌, ◌==◌, if◌then◌else◌}
use mlbtcc.Base.Bytes.{Bytes}

pub record Entry : Type 0 where
  pub key : Bytes
  pub value : Bytes

-- `key[0]`.
unfoldable pub first_byte : Bytes → Option ℕ
first_byte [] = none
first_byte (byte ∷ key) = some byte

-- The loop of `LDB_CountEntries`, from `count` on.
count_loop : ℕ → List Entry → ℕ → Option ℕ
count_loop prefix [] count = some count
count_loop prefix (entry ∷ db) count = do
  byte ← first_byte entry.key
  count_loop prefix db (if byte == prefix then count + 1 else count)

pub ldb_count_entries : List Entry → ℕ → Option ℕ
ldb_count_entries db prefix = count_loop prefix db 0

-- The inner loop: `counts[i]++` for each prefix that is the byte.
unfoldable pub bump : ℕ → Bytes → List ℕ → List ℕ
bump byte (prefix ∷ prefixes) (count ∷ counts) =
    (if byte == prefix then count + 1 else count) ∷ bump byte prefixes counts
bump byte _ counts = counts

unfoldable pub prefixes_loop : Bytes → List Entry → List ℕ → Option (List ℕ)
prefixes_loop prefixes [] counts = some counts
prefixes_loop prefixes (entry ∷ db) counts = do
  byte ← first_byte entry.key
  prefixes_loop prefixes db (bump byte prefixes counts)

abbrev zeros : Bytes → List ℕ
zeros [] = []
zeros (prefix ∷ prefixes) = 0 ∷ zeros prefixes

unfoldable pub ldb_count_entries_for_prefixes : List Entry → Bytes → Option (List ℕ)
ldb_count_entries_for_prefixes db prefixes = prefixes_loop prefixes db (zeros prefixes)
