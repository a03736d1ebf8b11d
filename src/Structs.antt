-- ===== src/Structs.antt =====
-- src/include/bitcoin-structs.h: the records of blocks, transactions and the block index. A
-- pointer to an array that a record owns is the list of the array's elements. `none` is a pointer
-- that was never set.
use mlbtcc.Base.{ℕ, List, Option}
use mlbtcc.Base.Bytes.{Bytes}

pub record BlockHeader : Type 0 where
  -- A U8, though the header holds four bytes.
  pub version : ℕ
  pub prev_block_hash : Bytes
  pub merkle_root : Bytes
  pub time : ℕ
  pub bits : ℕ
  pub nonce : ℕ

pub record Input : Type 0 where
  pub txid : Bytes
  pub vout : ℕ
  pub script_sig_size : ℕ
  pub script_sig : Bytes
  pub sequence : ℕ

pub record Output : Type 0 where
  pub amount : ℕ
  pub script_pub_key_size : ℕ
  pub script_pub_key : Bytes

pub record StackItem : Type 0 where
  pub size : ℕ
  pub item : Bytes

pub record Witness : Type 0 where
  pub stack_items_count : ℕ
  pub stack_items : List StackItem

pub record Transaction : Type 0 where
  pub version : ℕ
  pub marker : ℕ
  pub flag : ℕ
  pub input_count : ℕ
  pub inputs : List Input
  pub output_count : ℕ
  pub outputs : List Output
  pub witnesses : Option (List Witness)
  pub locktime : ℕ
  pub size : ℕ
  pub txid : Bytes
  pub wtxid : Bytes

pub record Block : Type 0 where
  pub magic : ℕ
  pub block_size : ℕ
  pub tx_count : ℕ
  pub hash : Bytes
  -- Set by `GetBlock`.
  pub height : Option ℕ
  pub header : BlockHeader
  pub transactions : Option (List Transaction)

pub record Blocks : Type 0 where
  pub blocks : List Block
  pub count : ℕ

pub record BlockIndexRecord : Type 0 where
  pub block_hash : Bytes
  pub block_header : Option BlockHeader
  pub version : ℕ
  pub height : ℕ
  pub tx_count : ℕ
  pub validation_status : ℕ
  pub block_file : ℕ
  pub block_offset : ℕ
  pub undo_file : Option ℕ
  pub undo_offset : Option ℕ

-- `filenumber` has no value: nothing in the program sets it.
pub record FileInformationRecord : Type 0 where
  pub block_count : ℕ
  pub data_file_size : ℕ
  pub rev_file_size : ℕ
  pub lowest_height : ℕ
  pub highest_height : ℕ
  pub lowest_timestamp : ℕ
  pub highest_timestamp : ℕ

pub record CoinRecord : Type 0 where
  pub txid : Bytes
  pub height : ℕ
  pub coinbase : ℕ
