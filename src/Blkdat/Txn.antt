-- ===== src/Blkdat/Txn.antt =====
-- src/blkdat.c, `ReadTxn`. The transactions are read one behind the other; `malloc` is taken to
-- succeed, as the code takes it.
pub mod Wire
pub mod Parts
pub mod RoundTrip
pub mod Sizes
pub mod Whole
pub mod Counts
use mlbtcc.Base.{
  ℕ, zero, suc, ◌+◌, ◌-◌, ◌%◌, ◌^◌, Option, none, some, Bool, true, false, ◌&&◌, List,
}
use mlbtcc.Base.{[], ◌∷◌, take, drop, leb, ◌==◌, if◌then◌else◌}
use mlbtcc.Base
use mlbtcc.Base.Bytes.{Bytes, copy, from_le}
use mlbtcc.BitcoinSpecifics.Hash.{Sha256, double_sha256}
use mlbtcc.Blkdat.Reader.{Cursor, Reader, ◌>>=◌, pure, advance, read_bytes, read_count, read_many}
use mlbtcc.Structs.{Input, Output, StackItem, Witness, Transaction}

-- The body of the input loop. The hash and the index are one copy of 36 bytes.
pub read_input : Reader Input
read_input = do
  outpoint ← read_bytes 36
  size ← read_count
  script ← read_bytes size
  sequence ← read_bytes 4
  pure (record {
    txid = take 32 outpoint;
    vout = from_le (drop 32 outpoint);
    script_sig_size = size;
    script_sig = script;
    sequence = from_le sequence;
  })

-- The body of the output loop.
pub read_output : Reader Output
read_output = do
  amount ← read_bytes 8
  size ← read_count
  script ← read_bytes size
  pure (record { amount = from_le amount; script_pub_key_size = size; script_pub_key = script })

pub read_stack_item : Reader StackItem
read_stack_item = do
  size ← read_count
  item ← read_bytes size
  pure (record { size = size; item = item })

-- The body of the witness loop.
pub read_witness : Reader Witness
read_witness = do
  count ← read_count
  items ← read_many read_stack_item count
  pure (record { stack_items_count = count; stack_items = items })

-- The first lines of the loop: version, marker and flag are one copy of six bytes, and what it
-- moves on by depends on them.
pub record Prefix : Type 0 where
  pub version : ℕ
  pub marker : ℕ
  pub flag : ℕ
  pub is_segwit : Bool

pub read_prefix : Reader Prefix
read_prefix c = elim (copy 6 c.ahead) [
  | none ↦ none
  | some head ↦
      let version = from_le (take 4 head) in
      let marker = from_le (take 1 (drop 4 head)) in
      let flag = from_le (drop 5 head) in
      if marker == 0 && leb 1 flag
      then some (
        record { version = version; marker = marker; flag = flag; is_segwit = true },
        advance 6 c,
      )
      else some (record { version = version; marker = 0; flag = 0; is_segwit = false }, advance 4 c)
]

-- Without a witness the pointer is not set.
pub read_witnesses : Bool → ℕ → Reader (Option (List Witness))
read_witnesses true count = do witnesses ← read_many read_witness count; pure (some witnesses)
read_witnesses false count = pure none

-- From the prefix to the lock time; `size` and the hashes are set afterwards.
pub read_fields : Prefix → Reader Transaction
read_fields p = do
  input_count ← read_count
  inputs ← read_many read_input input_count
  output_count ← read_count
  outputs ← read_many read_output output_count
  witnesses ← read_witnesses p.is_segwit input_count
  locktime ← read_bytes 4
  pure (record {
    version = p.version;
    marker = p.marker;
    flag = p.flag;
    input_count = input_count;
    inputs = inputs;
    output_count = output_count;
    outputs = outputs;
    witnesses = witnesses;
    locktime = from_le locktime;
    size = 0;
    txid = [];
    wtxid = [];
  })

-- The list that is returned; the offset is forgotten.
abbrev pub parsed_of : {A : Type 0} → Option (A × Cursor) → Option A
parsed_of none = none
parsed_of (some (a, c)) = some a

-- `(U16)bufferOffset - startPosOffset`, stored to a U16.
pub transaction_size : ℕ → ℕ → ℕ
transaction_size offset start = (offset % 2 ^ 16 + 2 ^ 64 - start) % 2 ^ 64 % 2 ^ 16

module _ (hash_lib : Sha256) where
  -- The last lines of the loop: the bytes from `startPosOffset` on are copied and hashed, and the
  -- one hash becomes both identifiers.
  pub finish : Cursor → Transaction → Cursor → Option (Transaction × Cursor)
  finish start transaction c =
      let size = transaction_size c.offset start.offset in
      Base.◌>>=◌ (copy size start.ahead) λ wtx_buffer.
        Base.◌>>=◌ (double_sha256 hash_lib wtx_buffer size)
          λ hash. some (record transaction { size = size; txid = hash; wtxid = hash }, c)

  -- One round of the loop over the transactions.
  pub read_transaction : Reader Transaction
  read_transaction start = ((read_prefix >>= read_fields) >>= λ t. finish start t) start

  pub read_txn : Bytes → ℕ → Option (List Transaction)
  read_txn block_buffer tx_count =
      parsed_of (read_many read_transaction tx_count (record { ahead = block_buffer; offset = 0 }))
