-- ===== src/Indexing/Records.antt =====
-- src/indexing.c, `GetBlockIndexRecord`, `GetFileInformationRecord`, `GetCoinRecord` and the two
-- functions that return a constant. A key and a value are the bytes that may be read from there
-- on; `val_len` is what LevelDB gives for the value.
pub mod Entries
pub mod Index
use mlbtcc.Base.{
  ℕ, ◌+◌, ◌-◌, ◌/◌, ◌%◌, ◌^◌, Option, none, some, ◌>>=◌, bit_and, drop, ltb, leb, if◌then◌else◌,
}
use mlbtcc.Base.Bytes.{Bytes, copy}
use mlbtcc.BigInts.Varint128.{decode_varint128}
use mlbtcc.BitcoinSpecifics.Header.{decode_block_header}
use mlbtcc.BitcoinSpecifics.Reverse.{reverse_string}
use mlbtcc.Structs.{BlockHeader, BlockIndexRecord, FileInformationRecord, CoinRecord}

-- `offset += DecodeVarint128(value + offset, &field)`: the field and the new offset.
pub next_number : Bytes → ℕ → Option (ℕ × ℕ)
next_number value offset = do
  (n, field) ← decode_varint128 (drop offset value)
  some (field, offset + n)

-- The hash of a key, in display order.
pub key_hash : Bytes → Option Bytes
key_hash key = copy 32 (drop 1 key) >>= λ hash. reverse_string hash 32

-- The two undo fields, read if `offset < valLen - BLOCKHEADER_SIZE`; the difference is a size_t.
-- Otherwise they keep what was on the stack, which is `none`.
pub undo_fields : Bytes → ℕ → ℕ → Option (Option ℕ × Option ℕ)
undo_fields value val_len offset =
    if ltb offset ((val_len + 2 ^ 64 - 80) % 2 ^ 64)
    then (next_number value offset >>= λ (undo_file, offset').
        next_number value offset' >>= λ (undo_offset, _). some (some undo_file, some undo_offset))
    else some (none, none)

pub last_header : Bytes → ℕ → Option (Option BlockHeader)
last_header value val_len =
    if leb 80 val_len
    then (decode_block_header (drop (val_len - 80) value) >>= λ header. some (some header))
    else some none

-- `validationStatus` is an enum of four bytes; the upper four of the number land on padding.
pub get_block_index_record : Bytes → Bytes → ℕ → Option BlockIndexRecord
get_block_index_record key value val_len = do
  block_hash ← key_hash key
  (version, o1) ← next_number value 0
  (height, o2) ← next_number value o1
  (status, o3) ← next_number value o2
  (tx_count, o4) ← next_number value o3
  (block_file, o5) ← next_number value o4
  (block_offset, o6) ← next_number value o5
  (undo_file, undo_offset) ← undo_fields value val_len o6
  block_header ← last_header value val_len
  some (record {
    block_hash = block_hash;
    block_header = block_header;
    version = version;
    height = height;
    tx_count = tx_count;
    validation_status = status % 2 ^ 32;
    block_file = block_file;
    block_offset = block_offset;
    undo_file = undo_file;
    undo_offset = undo_offset;
  })

pub get_file_information_record : Bytes → Option FileInformationRecord
get_file_information_record value = do
  (block_count, o1) ← next_number value 0
  (data_file_size, o2) ← next_number value o1
  (rev_file_size, o3) ← next_number value o2
  (lowest_height, o4) ← next_number value o3
  (highest_height, o5) ← next_number value o4
  (lowest_timestamp, o6) ← next_number value o5
  (highest_timestamp, o7) ← next_number value o6
  some (record {
    block_count = block_count;
    data_file_size = data_file_size;
    rev_file_size = rev_file_size;
    lowest_height = lowest_height;
    highest_height = highest_height;
    lowest_timestamp = lowest_timestamp;
    highest_timestamp = highest_timestamp;
  })

-- `(int32_t)(code >> 1)`, as the 32 bits that an `int` keeps; the second number is read and
-- dropped.
pub get_coin_record : Bytes → Bytes → Option CoinRecord
get_coin_record key value = do
  txid ← key_hash key
  (code, o1) ← next_number value 0
  (unspent, o2) ← next_number value o1
  some (record { txid = txid; height = code / 2 % 2 ^ 32; coinbase = bit_and code 1 })

pub get_last_block_file_number_used : Bytes → ℕ → ℕ
get_last_block_file_number_used value val_len = 0

pub get_is_database_reindexing : Bytes → ℕ → ℕ
get_is_database_reindexing value val_len = 0
