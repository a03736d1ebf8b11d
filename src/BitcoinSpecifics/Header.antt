-- ===== src/BitcoinSpecifics/Header.antt =====
-- src/bitcoin-specifics.c, `DecodeBlockHeader`.
pub mod Layout
use mlbtcc.Base.{ℕ, Option, none, some, ◌>>=◌, drop, take}
use mlbtcc.Base.Bytes.{Bytes, copy, from_le}
use mlbtcc.BitcoinSpecifics.Reverse.{reverse_string}
use mlbtcc.Structs.{BlockHeader}

-- The copy of four bytes to the one-byte field `version` leaves the first of them there. The other
-- three land at the start of `prevBlockHash`, which the next copy overwrites whole.
pub decode_block_header : Bytes → Option BlockHeader
decode_block_header raw = do
  version ← copy 4 raw
  prev ← copy 32 (drop 4 raw)
  prev_block_hash ← reverse_string prev 32
  root ← copy 32 (drop 36 raw)
  merkle_root ← reverse_string root 32
  time ← copy 4 (drop 68 raw)
  bits ← copy 4 (drop 72 raw)
  nonce ← copy 4 (drop 76 raw)
  some (record {
    version = from_le (take 1 version);
    prev_block_hash = prev_block_hash;
    merkle_root = merkle_root;
    time = from_le time;
    bits = from_le bits;
    nonce = from_le nonce;
  })
