-- ===== src/Api.antt =====
-- src/API.c. A table of the index has a place for each record; a place that was never written is
-- `none`, and reading it, or behind the table, ends the run.
pub mod Days
pub mod FirstOfDay
pub mod DayBlocks
pub mod Consecutive
pub mod Released
pub mod Stats
pub mod Through
mod Tests
use mlbtcc.Base.{
  ℕ, zero, suc, ◌+◌, ◌-◌, ◌*◌, ◌%◌, ◌^◌, Option, none, some, ◌>>=◌, List, [], ◌∷◌, ltb, leb, Bool,
  ◌&&◌, if◌then◌else◌, length, get_elem?, replicate,
}
use mlbtcc.Base.Bytes.{Bytes}
use mlbtcc.BitcoinSpecifics.Hash.{Sha256}
use mlbtcc.Blkdat.Block.{read_block_from_blk_dat_file}
use mlbtcc.Structs.{Block, Blocks, BlockHeader, BlockIndexRecord, Transaction, Output}

abbrev pub Table : Type 0
Table = List (Option BlockIndexRecord)

-- `gIndexRecords.blockIndexRecord[index]`.
unfoldable pub record_at : Table → ℕ → Option BlockIndexRecord
record_at table index = get_elem? table index >>= λ place. place

pub get_block_header : Table → ℕ → Option BlockHeader
get_block_header table height = record_at table height >>= λ r. r.block_header

-- `timestamp - (timestamp % SECONDS_PER_DAY)` on a U32, as the preprocessor writes it out: the
-- macro `60 * 60 * 24` has no parentheses.
unfoldable pub day_start : ℕ → ℕ
day_start timestamp = (timestamp + 2 ^ 32 - timestamp % 60 * 60 * 24 % 2 ^ 32) % 2 ^ 32

-- `start + SECONDS_PER_DAY - 1`.
unfoldable pub day_end : ℕ → ℕ
day_end start = (start + 60 * 60 * 24 - 1) % 2 ^ 32

-- `blockTime >= start && blockTime <= end` for the record at an index.
unfoldable pub in_window : Table → ℕ → ℕ → ℕ → Option (BlockIndexRecord × Bool)
in_window table start end_ index = do
  r ← record_at table index
  header ← r.block_header
  some (r, leb start header.time && leb header.time end_)

-- `(Block){0}`.
abbrev pub zero_block : Block
zero_block = record {
  magic = 0;
  block_size = 0;
  tx_count = 0;
  hash = replicate 32 0;
  height = some 0;
  header = record {
    version = 0;
    prev_block_hash = replicate 32 0;
    merkle_root = replicate 32 0;
    time = 0;
    bits = 0;
    nonce = 0;
  };
  transactions = none;
}

-- `(Blocks){0}`.
abbrev pub no_blocks : Blocks
no_blocks = record { blocks = []; count = 0 }

-- The records of the days' loop: `first` and `last`, unset or an index. With `n` rounds left at
-- index `i`.
day_loop : Table → ℕ → ℕ → ℕ → ℕ → Option (ℕ × ℕ) → Option (Option (ℕ × ℕ))
day_loop table start end_ zero i found = some found
day_loop table start end_ (suc n) i found = in_window table start end_ i >>= λ (r, inside).
    r.block_header >>= λ header.
    let found' = some (widen found i) in
    let next = day_loop table start end_ n (i + 1) found' in
    let skip = day_loop table start end_ n (i + 1) found in
    if inside then next else if ltb end_ header.time then some found else skip
  where
    widen : Option (ℕ × ℕ) → ℕ → ℕ × ℕ
    widen none i = (i, i)
    widen (some (first, last)) i = (first, i)

-- The files' contents, in the order of `gEnv.blkFiles`; `current` is where a file stands.
module _ (hash_lib : Sha256) (key : Bytes) (files : List Bytes) (current : ℕ) (table : Table) where
  unfoldable pub get_block : ℕ → Option Block
  get_block height = do
    r ← record_at table height
    file ← get_elem? files r.block_file
    block ← read_block_from_blk_dat_file hash_lib key file current r.block_offset
    some (record block { height = some height })

  unfoldable pub blocks_loop : ℕ → ℕ → Option (List Block)
  blocks_loop zero height = some []
  blocks_loop (suc n) height = do
    block ← get_block height
    rest ← blocks_loop n (height + 1)
    some (block ∷ rest)

  -- `count` has the 32 bits of an `int`. Its product with 4 must not overflow; a negative one is
  -- a number above `MLBTCC_MAX_MEMORY`, 4 GiB, once it is converted.
  unfoldable pub get_blocks : ℕ → ℕ → Option Blocks
  get_blocks height count =
      if leb (2 ^ 32 - 2 ^ 29) count
      then some no_blocks
      else if leb (2 ^ 29) count
      then none
      else if ltb (4 * 2 ^ 30) (count * 4 * 2 ^ 20)
      then some no_blocks
      else (blocks_loop count height >>= λ blocks. some (record { blocks = blocks; count = count }))

  -- With `n` rounds left at index `i`. The height is converted to an `int`.
  first_loop : ℕ → ℕ → ℕ → ℕ → Option Block
  first_loop start end_ zero i = some zero_block
  first_loop start end_ (suc n) i = in_window table start end_ i >>= λ (r, inside).
      let rest = first_loop start end_ n (i + 1) in
      if inside then get_block (r.height % 2 ^ 32) else rest

  pub get_first_block_of_date : ℕ → ℕ → Option Block
  get_first_block_of_date count timestamp =
      first_loop (day_start timestamp) (day_end (day_start timestamp)) count 0

  -- From index `i` down to 1.
  last_loop : ℕ → ℕ → ℕ → Option Block
  last_loop start end_ zero = some zero_block
  last_loop start end_ (suc i) = in_window table start end_ (suc i) >>= λ (r, inside).
      let rest = last_loop start end_ i in if inside then get_block (r.height % 2 ^ 32) else rest

  pub get_last_block_of_date : ℕ → ℕ → Option Block
  get_last_block_of_date count timestamp =
      last_loop (day_start timestamp) (day_end (day_start timestamp)) count

  pub get_blocks_of_day : ℕ → ℕ → Option Blocks
  get_blocks_of_day count timestamp =
      day_loop table (day_start timestamp) (day_end (day_start timestamp)) count 0 none >>= λ found.
      elim found [
        | none ↦ some no_blocks
        | some (first, last) ↦ record_at table first >>= λ f. record_at table last >>= λ l.
            get_blocks (f.height % 2 ^ 32) ((l.height + 1 + 2 ^ 64 - f.height) % 2 ^ 32)
      ]
