-- ===== src/Api/Tests.antt =====
-- Runs of src/API.c on small tables.
use mlbtcc.Base.{zero, suc, ◌<◌}
use mlbtcc.Base.{ℕ, ◌≡◌, arith, refl, none, some, [], ◌∷◌, replicate, length}
use mlbtcc.Base.{◌≤◌, ◌+◌, inr, List}
use mlbtcc.Api.{get_blocks, get_blocks_of_day}
use mlbtcc.Api.DayBlocks.{IsEarly, IsInside, IsLate, get_blocks_of_day-get_blocks}
use mlbtcc.BitcoinSpecifics.Tests.{toy_hash}
use mlbtcc.Structs.{Block, BlockHeader, BlockIndexRecord, Transaction}
use mlbtcc.Api.{
  Table, day_start, day_end, record_at, get_first_block_of_date, get_last_block_of_date,
}
use mlbtcc.Api.Days.{get_last_block_of_date_outside}
use mlbtcc.Api.FirstOfDay.{
  Indexed, table_of, first_where, in_day_from, block_of, get_first_block_of_date-first_where,
}
use mlbtcc.Api.Stats.{get_block_stats}
use mlbtcc.Api.Stats.Totals.{get_block_stats_lem}

abbrev header_at : ℕ → BlockHeader
header_at time = record {
  version = 4;
  prev_block_hash = replicate 32 1;
  merkle_root = replicate 32 2;
  time = time;
  bits = 0x1d00ffff;
  nonce = 7;
}

abbrev record_of : ℕ → ℕ → BlockIndexRecord
record_of height time = record {
  block_hash = replicate 32 3;
  block_header = some (header_at time);
  version = 1;
  height = height;
  tx_count = 1;
  validation_status = 29;
  block_file = 0;
  block_offset = 8;
  undo_file = none;
  undo_offset = none;
}

abbrev two_records : Table
two_records = some (record_of 0 1231006505) ∷ some (record_of 1 1713571740) ∷ []

abbrev two_blocks : List Indexed
two_blocks =
    (record_of 0 1231006505, header_at 1231006505)
    ∷ (record_of 1 1713571740, header_at 1713571740)
    ∷ []

get_first_block_of_date-first_where_example :
    get_first_block_of_date toy_hash [] [] 0 (table_of two_blocks) 2 1713571740
    ≡ block_of toy_hash [] [] 0
        (table_of two_blocks)
        (first_where (in_day_from 1713571740) two_blocks)
get_first_block_of_date-first_where_example =
    get_first_block_of_date-first_where toy_hash [] [] 0 two_blocks 1713571740 1713571740
      (omega arith) (omega arith)

get_last_block_of_date_outside_example :
    get_last_block_of_date toy_hash [] [] 0 two_records (length two_records) 1713571740 ≡ none
get_last_block_of_date_outside_example =
    get_last_block_of_date_outside toy_hash [] [] 0 two_records 1713571740 (omega arith)

abbrev a_transaction : Transaction
a_transaction = record {
  version = 2;
  marker = 0;
  flag = 0;
  input_count = 0;
  inputs = [];
  output_count = 1;
  outputs = record { amount = 50; script_pub_key_size = 0; script_pub_key = [] } ∷ [];
  witnesses = none;
  locktime = 0;
  size = 19;
  txid = [];
  wtxid = [];
}

abbrev a_block : Block
a_block = record {
  magic = 0xd9b4bef9;
  block_size = 100;
  tx_count = 2;
  hash = replicate 32 4;
  height = some 7;
  header = header_at 1231006505;
  transactions = some (a_transaction ∷ a_transaction ∷ []);
}

get_block_stats_lem_example :
    get_block_stats 5 6 a_block
    ≡ some (record {
      block_hash = replicate 32 4;
      height = 7;
      ins = 0;
      outs = 2;
      time = 1231006505;
      total_out = 105;
      total_size = 44;
    })
get_block_stats_lem_example =
    get_block_stats_lem 5 6 7 a_block (a_transaction ∷ a_transaction ∷ []) (omega arith)
      (omega arith) refl refl refl (refl, (refl, tt))

-- A block of the day before, two of the day and one of a later day.
abbrev four_records : Table
four_records =
    some (record_of 0 1230990000)
    ∷ some (record_of 1 1231006505)
    ∷ some (record_of 2 1231006605)
    ∷ some (record_of 3 1231200000)
    ∷ []

abbrev the_start : ℕ
the_start = day_start 1231006505

abbrev the_end : ℕ
the_end = day_end the_start

day_fits : the_start ≤ the_end
unfolding day_start day_end
day_fits = omega arith

day-IsEarly : (j : ℕ) → j < 1 → IsEarly four_records the_start the_end j
unfolding day_start day_end record_at
day-IsEarly zero h = (record_of 0 1230990000, header_at 1230990000, refl, refl, refl, omega arith)
day-IsEarly (suc j) h = absurd (omega arith)

day-IsInside : (j : ℕ) → j < suc 1 → IsInside four_records the_start the_end (1 + j)
unfolding day_start day_end record_at
day-IsInside zero h =
    (record_of 1 1231006505, header_at 1231006505, refl, refl, refl, (omega arith, omega arith))
day-IsInside (suc zero) h =
    (record_of 2 1231006605, header_at 1231006605, refl, refl, refl, (omega arith, omega arith))
day-IsInside (suc (suc j)) h = absurd (omega arith)

day-IsLate : IsLate four_records the_start the_end 3
unfolding day_start day_end record_at
day-IsLate = (record_of 3 1231200000, header_at 1231200000, refl, refl, refl, omega arith)

get_blocks_of_day-get_blocks_example :
    get_blocks_of_day toy_hash [] [] 0 four_records 4 1231006505
    ≡ get_blocks toy_hash [] [] 0 four_records 1 2
get_blocks_of_day-get_blocks_example =
    get_blocks_of_day-get_blocks toy_hash [] [] 0 four_records 1231006505 1 1 1 day_fits
      (omega arith) day-IsEarly day-IsInside (inr day-IsLate)
