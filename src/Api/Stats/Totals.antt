-- ===== src/Api/Stats/Totals.antt =====
-- The sums that `GetBlockStats` returns.
use mlbtcc.Base.{
  ℕ, ◌+◌, ◌%◌, ◌^◌, ◌<◌, ◌≡◌, ◌∙◌, refl, ap, arith, Option, some, List, [], ◌∷◌, ◌++◌, length,
  length-append, get_elem?, All, append_assoc,
}
use mlbtcc.Api.Stats.{BlockStats, amount_loop, add_transaction, stats_loop, get_block_stats}
use mlbtcc.Structs.{Block, Transaction, Output}

abbrev pub sum : List ℕ → ℕ
sum [] = 0
sum (x ∷ xs) = x + sum xs

abbrev pub amounts : List Output → ℕ
amounts [] = 0
amounts (output ∷ outputs) = output.amount + amounts outputs

abbrev pub all_ins : List Transaction → ℕ
all_ins [] = 0
all_ins (tx ∷ txs) = tx.input_count + all_ins txs

abbrev pub all_outs : List Transaction → ℕ
all_outs [] = 0
all_outs (tx ∷ txs) = tx.output_count + all_outs txs

abbrev pub all_sizes : List Transaction → ℕ
all_sizes [] = 0
all_sizes (tx ∷ txs) = tx.size + all_sizes txs

abbrev pub all_amounts : List Transaction → ℕ
all_amounts [] = 0
all_amounts (tx ∷ txs) = amounts tx.outputs + all_amounts txs

-- The element behind a prefix.
elem_behind :
    {A : Type 0} (front : List A) (a : A) (back : List A)
    → get_elem? (front ++ (a ∷ back)) (length front) ≡ some a
elem_behind [] a back = refl
elem_behind (x ∷ front) a back = elem_behind front a back

amount_loop_lem :
    (front back : List Output) (total : ℕ)
    → total < 2 ^ 64
    → amount_loop (length back) (length front) (front ++ back) total
      ≡ some ((total + amounts back) % 2 ^ 64)
unfolding amount_loop
amount_loop_lem front [] total h = ground arith
amount_loop_lem front (output ∷ back) total h =
    let next =
      amount_loop_lem (front ++ (output ∷ [])) back ((total + output.amount) % 2 ^ 64)
        (omega arith) in
    let place : length (front ++ (output ∷ [])) ≡ length front + 1 =
      length-append front (output ∷ []) in
    rw (elem_behind front output back)
      (rw (place, append_assoc front (output ∷ []) back) at next ∙ ap some (omega arith))

-- The output count of a transaction is the number of its outputs.
abbrev pub IsCounted : Transaction → Type 0
IsCounted tx = tx.output_count ≡ length tx.outputs

-- The statistics with transactions added.
abbrev pub plus : BlockStats → List Transaction → BlockStats
plus stats txs = record stats {
  ins = (stats.ins + all_ins txs) % 2 ^ 64;
  outs = (stats.outs + all_outs txs) % 2 ^ 64;
  total_size = (stats.total_size + all_sizes txs) % 2 ^ 64;
  total_out = (stats.total_out + all_amounts txs) % 2 ^ 64;
}

abbrev pub Fits : BlockStats → Type 0
Fits stats =
    (stats.ins < 2 ^ 64)
    × (stats.outs < 2 ^ 64)
    × (stats.total_size < 2 ^ 64)
    × (stats.total_out < 2 ^ 64)

add_transaction_lem :
    (tx : Transaction) (stats : BlockStats)
    → IsCounted tx
    → Fits stats
    → add_transaction tx stats
      ≡ some (record stats {
        ins = (stats.ins + tx.input_count) % 2 ^ 64;
        outs = (stats.outs + tx.output_count) % 2 ^ 64;
        total_size = (stats.total_size + tx.size) % 2 ^ 64;
        total_out = (stats.total_out + amounts tx.outputs) % 2 ^ 64;
      })
unfolding add_transaction
add_transaction_lem tx stats h (f1, f2, f3, f4) =
    rw h (rw (amount_loop_lem [] tx.outputs stats.total_out f4) refl)

same_stats :
    (stats : BlockStats) (ins ins' outs outs' size size' out out' : ℕ)
    → ins ≡ ins'
    → outs ≡ outs'
    → size ≡ size'
    → out ≡ out'
    → ◌≡◌ {A = Option BlockStats}
        (some (record stats { ins = ins; outs = outs; total_size = size; total_out = out }))
        (some (record stats { ins = ins'; outs = outs'; total_size = size'; total_out = out' }))
same_stats stats ins ins' outs outs' size size' out out' e1 e2 e3 e4 = cc

stats_loop_lem :
    (front back : List Transaction) (stats : BlockStats)
    → All IsCounted back
    → Fits stats
    → stats_loop (length back) (length front) (front ++ back) stats ≡ some (plus stats back)
unfolding stats_loop
stats_loop_lem front [] stats h (f1, f2, f3, f4) =
    same_stats stats _ _ _ _ _ _ _ _ (omega arith) (omega arith) (omega arith) (omega arith)
stats_loop_lem front (tx ∷ back) stats (ht, h) fits =
    let place : length (front ++ (tx ∷ [])) ≡ length front + 1 = length-append front (tx ∷ []) in
    let next =
      stats_loop_lem (front ++ (tx ∷ [])) back
        (record stats {
          ins = (stats.ins + tx.input_count) % 2 ^ 64;
          outs = (stats.outs + tx.output_count) % 2 ^ 64;
          total_size = (stats.total_size + tx.size) % 2 ^ 64;
          total_out = (stats.total_out + amounts tx.outputs) % 2 ^ 64;
        })
        h (omega arith, omega arith, omega arith, omega arith) in
    rw (elem_behind front tx back) (
      rw (add_transaction_lem tx stats ht fits) (
        rw (place, append_assoc front (tx ∷ []) back) at next
        ∙ same_stats stats _ _ _ _ _ _ _ _ (omega arith) (omega arith) (omega arith) (omega arith)))

-- For a block whose counts are the numbers of its transactions and of their outputs,
-- `get_block_stats` returns the sums of the input and output counts modulo 2 ^ 64; the sum of the
-- sizes and the sum of the amounts start from what was on the stack, whatever it was.
pub get_block_stats_lem :
    (stale_out stale_size height : ℕ) (block : Block) (txs : List Transaction)
    → stale_out < 2 ^ 64
    → stale_size < 2 ^ 64
    → block.height ≡ some height
    → block.transactions ≡ some txs
    → block.tx_count ≡ length txs
    → All IsCounted txs
    → get_block_stats stale_out stale_size block
      ≡ some (record {
        block_hash = block.hash;
        height = height;
        ins = all_ins txs % 2 ^ 64;
        outs = all_outs txs % 2 ^ 64;
        time = block.header.time;
        total_out = (stale_out + all_amounts txs) % 2 ^ 64;
        total_size = (stale_size + all_sizes txs) % 2 ^ 64;
      })
unfolding get_block_stats
get_block_stats_lem stale_out stale_size height block txs ho hs e1 e2 e3 h =
    rw (e1, e2, e3)
      (stats_loop_lem [] txs start h (omega arith, omega arith, omega arith, omega arith)
        ∙ same_stats start _ _ _ _ _ _ _ _ (omega arith) (omega arith) refl refl)
  where
    start : BlockStats
    start = record {
      block_hash = block.hash;
      height = height;
      ins = 0;
      outs = 0;
      time = block.header.time;
      total_out = stale_out;
      total_size = stale_size;
    }
