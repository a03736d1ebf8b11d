-- ===== src/Indexing/Build.antt =====
-- src/indexing.c, `BuildBlockIndexRecords` and `BuildCoinRecords`. An array is the list of its
-- places; a place that was never written is `none`, a write outside the array ends the run.
pub mod Heights
use mlbtcc.Base.{
  ℕ, ◌+◌, Option, none, some, ◌>>=◌, List, [], ◌∷◌, bit_and, ltb, leb, ◌==◌, if◌then◌else◌, length,
  set, replicate, get_elem?,
}
use mlbtcc.Leveldb.{Entry, first_byte, ldb_count_entries_for_prefixes}
use mlbtcc.Indexing.Records.{get_block_index_record, get_file_information_record, get_coin_record}
use mlbtcc.Structs.{BlockIndexRecord, CoinRecord}

-- The tables of `gEnv.indexRecords` that the two functions set.
pub record IndexRecords : Type 0 where
  pub block_index_record : List (Option BlockIndexRecord)
  pub block_index_record_count : ℕ
  pub file_information_record_count : ℕ
  pub coin_record : List (Option CoinRecord)
  pub coin_record_count : ℕ

-- `table[index] = value`.
unfoldable pub store {ℓ} : {A : Type ℓ} → List (Option A) → ℕ → A → Option (List (Option A))
store table index value =
    if ltb index (length table) then some (set table index (some value)) else none

abbrev pub block_valid_mask : ℕ
block_valid_mask = 7

abbrev pub block_valid_chain : ℕ
block_valid_chain = 4

-- A block's record is kept if its validity is at least `BLOCK_VALID_CHAIN`.
unfoldable pub keep_block : BlockIndexRecord → IndexRecords → Option IndexRecords
keep_block kept tables =
    if leb block_valid_chain (bit_and kept.validation_status block_valid_mask)
    then (store tables.block_index_record kept.height kept >>= λ table. some (record tables {
      block_index_record = table;
      block_index_record_count = tables.block_index_record_count + 1;
    }))
    else some tables

-- One round of the loop. A file's record is read and dropped.
unfoldable pub block_round : Entry → IndexRecords → Option IndexRecords
block_round entry tables = first_byte entry.key >>= λ byte.
    if byte == b'b'
    then (get_block_index_record entry.key entry.value (length entry.value) >>= λ r.
        keep_block r tables)
    else if byte == b'f'
    then (get_file_information_record entry.value >>= λ _. some (record tables {
      file_information_record_count = tables.file_information_record_count + 1;
    }))
    else some tables

unfoldable pub block_loop : List Entry → IndexRecords → Option IndexRecords
block_loop [] tables = some tables
block_loop (entry ∷ db) tables = block_round entry tables >>= block_loop db

-- The prefixes "bf".
unfoldable pub build_block_index_records : List Entry → IndexRecords → Option IndexRecords
build_block_index_records db env = do
  counts ← ldb_count_entries_for_prefixes db (b'b' ∷ b'f' ∷ [])
  blocks ← get_elem? counts 0
  block_loop db (record env {
    block_index_record = replicate blocks none;
    block_index_record_count = 0;
    file_information_record_count = 0;
  })

-- One round of the loop of `BuildCoinRecords`, on its local table and count.
pub coin_round : Entry → List (Option CoinRecord) → ℕ → Option (List (Option CoinRecord) × ℕ)
coin_round entry table count = first_byte entry.key >>= λ byte.
    if byte == b'C'
    then (get_coin_record entry.key entry.value >>= λ r.
        store table count r >>= λ table'. some (table', count + 1))
    else some (table, count)

coin_loop : List Entry → List (Option CoinRecord) → ℕ → Option (List (Option CoinRecord) × ℕ)
coin_loop [] table count = some (table, count)
coin_loop (entry ∷ db) table count =
    coin_round entry table count >>= λ (table', count'). coin_loop db table' count'

-- The table and the count are in a local copy of `gEnv.indexRecords`, which is not stored back.
pub build_coin_records : List Entry → IndexRecords → Option IndexRecords
build_coin_records db env = do
  counts ← ldb_count_entries_for_prefixes db (b'C' ∷ b'B' ∷ [])
  coins ← get_elem? counts 0
  (table, count) ← coin_loop db (replicate coins none) 0
  some env
