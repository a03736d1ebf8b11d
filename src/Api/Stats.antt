-- ===== src/Api/Stats.antt =====
-- src/API.c, `GetBlockStats`.
pub mod Totals
use mlbtcc.Base.{ℕ, zero, suc, ◌+◌, ◌%◌, ◌^◌, Option, none, some, ◌>>=◌, List, [], ◌∷◌, get_elem?}
use mlbtcc.Base.Bytes.{Bytes}
use mlbtcc.Structs.{Block, Transaction, Output}

-- The fields that the function sets.
pub record BlockStats : Type 0 where
  pub block_hash : Bytes
  pub height : ℕ
  pub ins : ℕ
  pub outs : ℕ
  pub time : ℕ
  pub total_out : ℕ
  pub total_size : ℕ

-- The inner loop over `outputCount` outputs.
amount_loop : ℕ → ℕ → List Output → ℕ → Option ℕ
amount_loop zero j outputs total = some total
amount_loop (suc n) j outputs total = do
  output ← get_elem? outputs j
  amount_loop n (j + 1) outputs ((total + output.amount) % 2 ^ 64)

-- One round of the outer loop.
pub add_transaction : Transaction → BlockStats → Option BlockStats
add_transaction tx stats = do
  total_out ← amount_loop tx.output_count 0 tx.outputs stats.total_out
  some (record stats {
    ins = (stats.ins + tx.input_count) % 2 ^ 64;
    outs = (stats.outs + tx.output_count) % 2 ^ 64;
    total_size = (stats.total_size + tx.size) % 2 ^ 64;
    total_out = total_out;
  })

stats_loop : ℕ → ℕ → List Transaction → BlockStats → Option BlockStats
stats_loop zero i transactions stats = some stats
stats_loop (suc n) i transactions stats = do
  tx ← get_elem? transactions i
  stats' ← add_transaction tx stats
  stats_loop n (i + 1) transactions stats'

-- `memset` clears `sizeof(Block)`, 144 of the 200 bytes of `stats`: `totalOut` and `totalSize` lie
-- behind them, and start with what was on the stack, the first two arguments.
pub get_block_stats : ℕ → ℕ → Block → Option BlockStats
get_block_stats stale_out stale_size block = do
  height ← block.height
  transactions ← block.transactions
  stats_loop block.tx_count 0 transactions (record {
    block_hash = block.hash;
    height = height;
    ins = 0;
    outs = 0;
    time = block.header.time;
    total_out = stale_out;
    total_size = stale_size;
  })
