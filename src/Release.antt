-- ===== src/Release.antt =====
-- src/bitcoin-structs.c, `FreeInput`, `FreeOutput`, `FreeWitness`, `FreeTransaction`, `FreeBlock` and `FreeBlocks`, and
-- the Init functions of src/bitcoin-specifics.c. What is freed is told by the place of its pointer.
pub mod Leaks
use mlbtcc.Base.{
  ℕ, zero, suc, ◌+◌, Option, none, some, ◌>>=◌, List, [], ◌∷◌, ◌++◌, ◌==◌, ltb, leb, ◌%◌, ◌^◌, ◌&&◌,
  if◌then◌else◌, get_elem?, replicate,
}
use mlbtcc.Base.Bytes.{Bytes}
use mlbtcc.Structs.{BlockHeader, Input, Output, StackItem, Witness, Transaction, Block, Blocks}

-- The allocations of a block: the arrays and the texts that its records point to.
pub data Pointer : Type 0 where
  transaction_array : Pointer
  input_array : (tx : ℕ) → Pointer
  output_array : (tx : ℕ) → Pointer
  witness_array : (tx : ℕ) → Pointer
  sig_text : (tx index : ℕ) → Pointer
  key_text : (tx index : ℕ) → Pointer
  item_array : (tx index : ℕ) → Pointer
  item_text : (tx index place : ℕ) → Pointer

-- The pointers that a loop over `n` indexes frees.
pub each : (ℕ → Option (List Pointer)) → ℕ → ℕ → Option (List Pointer)
each free zero i = some []
each free (suc n) i = do first ← free i; rest ← each free n (i + 1); some (first ++ rest)

pub free_input : ℕ → Transaction → ℕ → Option (List Pointer)
free_input t tx i = get_elem? tx.inputs i >>= λ _. some (Pointer.sig_text t i ∷ [])

pub free_output : ℕ → Transaction → ℕ → Option (List Pointer)
free_output t tx i = get_elem? tx.outputs i >>= λ _. some (Pointer.key_text t i ∷ [])

pub free_witness : ℕ → Transaction → ℕ → Option (List Pointer)
free_witness t tx i = do
  witnesses ← tx.witnesses
  witness ← get_elem? witnesses i
  items ←
      each (λ j. get_elem? witness.stack_items j >>= λ _. some (Pointer.item_text t i j ∷ []))
        witness.stack_items_count 0
  some (items ++ (Pointer.item_array t i ∷ []))

pub free_transaction : List Transaction → ℕ → Option (List Pointer)
free_transaction txs t = do
  tx ← get_elem? txs t
  ins ← each (free_input t tx) tx.input_count 0
  outs ← each (free_output t tx) tx.output_count 0
  stacks ←
      if tx.marker == 0 && leb 1 tx.flag then each (free_witness t tx) tx.input_count 0 else some []
  some (ins ++ (outs ++ stacks))

pub free_block : Block → Option (List Pointer)
free_block block = elim block.transactions [
  | none ↦ some []
  | some txs ↦
      (each (free_transaction txs) block.tx_count 0 >>= λ freed.
      some (freed ++ (Pointer.transaction_array ∷ [])))
]

-- The loop of `FreeBlocks`, at block `i`, a U16: what each `FreeBlock` frees. With 2 ^ 16 blocks or
-- more it never ends, which is the end of the fuel.
unfoldable pub free_blocks_loop : ℕ → ℕ → Blocks → Option (List (List Pointer))
free_blocks_loop zero i blocks = none
free_blocks_loop (suc fuel) i blocks =
    if ltb i blocks.count
    then (get_elem? blocks.blocks i >>= λ block. free_block block >>= λ freed.
        free_blocks_loop fuel ((i + 1) % 2 ^ 16) blocks >>= λ rest. some (freed ∷ rest))
    else some []

unfoldable pub free_blocks : Blocks → Option (List (List Pointer))
free_blocks blocks = free_blocks_loop (2 ^ 16) 0 blocks

-- `memset` to zero.
pub init_block_header : BlockHeader
init_block_header = record {
  version = 0;
  prev_block_hash = replicate 32 0;
  merkle_root = replicate 32 0;
  time = 0;
  bits = 0;
  nonce = 0;
}

pub init_input : Input
init_input = record {
  txid = replicate 32 0;
  vout = 0;
  script_sig_size = 0;
  script_sig = [];
  sequence = 0;
}

pub init_output : Output
init_output = record { amount = 0; script_pub_key_size = 0; script_pub_key = [] }

pub init_stack_item : StackItem
init_stack_item = record { size = 0; item = [] }

pub init_witness : Witness
init_witness = record { stack_items_count = 0; stack_items = [] }

pub init_transaction : Transaction
init_transaction = record {
  version = 0;
  marker = 0;
  flag = 0;
  input_count = 0;
  inputs = [];
  output_count = 0;
  outputs = [];
  witnesses = none;
  locktime = 0;
  size = 0;
  txid = replicate 32 0;
  wtxid = replicate 32 0;
}

pub init_block : Block
init_block = record {
  magic = 0;
  block_size = 0;
  tx_count = 0;
  hash = replicate 32 0;
  height = some 0;
  header = init_block_header;
  transactions = none;
}
