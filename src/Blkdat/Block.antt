-- ===== src/Blkdat/Block.antt =====
-- src/blkdat.c, `ReadBlockFromBlkDatFile`: a block out of a block file, whose bytes may be XORed
-- with a key of eight bytes.
pub mod Mask
pub mod Layout
pub mod Uses
pub mod Place
use mlbtcc.Base.{
  ℕ, zero, suc, ◌+◌, ◌-◌, ◌%◌, ◌^◌, Option, none, some, ◌>>=◌, Bool, true, false, ◌||◌, List, [],
  ◌∷◌,
}
use mlbtcc.Base.{bit_xor, get_elem?, take, drop, ltb, leb, ◌==◌, not, if◌then◌else◌, length}
use mlbtcc.Base.Bytes.{Bytes, copy, from_le}
use mlbtcc.BigInts.CompactSize.{compact_size_decode}
use mlbtcc.BitcoinSpecifics.Hash.{Sha256, double_sha256}
use mlbtcc.BitcoinSpecifics.Header.{decode_block_header}
use mlbtcc.Blkdat.Reader.{max_compact_size_bytes}
use mlbtcc.Blkdat.Txn.{read_txn}
use mlbtcc.Structs.{Block}

-- The loop that sets `isXorActive`, over the eight bytes of `gEnv.xorKey`.
pub is_xor_active : Bytes → Bool
is_xor_active [] = false
is_xor_active (byte ∷ key) = not (byte == 0) || is_xor_active key

-- `bytes[i] ^= gEnv.xorKey[(start + i) % 8]` for every `i`; the sum is a size_t.
pub xor_bytes : Bytes → ℕ → Bytes → Option Bytes
xor_bytes key start [] = some []
xor_bytes key start (byte ∷ bytes) = do
  k ← get_elem? key (start % 2 ^ 64 % 8)
  rest ← xor_bytes key (start + 1) bytes
  some (bit_xor byte k ∷ rest)

pub unmask : Bytes → ℕ → Bytes → Option Bytes
unmask key start bytes = if is_xor_active key then xor_bytes key start bytes else some bytes

-- `fread` of `n` bytes at `position` of the file. After a short read the code goes on with
-- uninitialised memory, which is `none` here.
pub read_at : Bytes → ℕ → ℕ → Option Bytes
read_at file position n = copy n (drop position file)

-- `offset - 8` on a size_t.
pub before : ℕ → ℕ
before offset = (offset + 2 ^ 64 - 8) % 2 ^ 64

-- `fseek` takes the place as a signed long. With a negative one it fails, the code prints a
-- message, and the file is read where it stood.
pub seek : ℕ → ℕ → ℕ
seek place current = if ltb place (2 ^ 63) then place else current

module _ (hash_lib : Sha256) where
  -- From the block's bytes on. `txCount` is a U16, so it keeps two of the eight bytes written for
  -- it; the others land in `hash`, which is set afterwards. `block.height` is not set.
  pub read_block_buffer : ℕ → ℕ → Bytes → Option Block
  read_block_buffer magic block_size block_buffer = do
    header_buffer ← copy 80 block_buffer
    header ← decode_block_header header_buffer
    (n, stored) ← compact_size_decode (some (drop 80 block_buffer)) max_compact_size_bytes (some 0)
    value ← stored
    transactions ← read_txn hash_lib (drop (80 + n) block_buffer) (value % 2 ^ 16)
    hash ← double_sha256 hash_lib header_buffer 80
    some (record {
      magic = magic;
      block_size = block_size;
      tx_count = value % 2 ^ 16;
      hash = hash;
      height = none;
      header = header;
      transactions = some transactions;
    })

  -- `file` is the open file's content and `current` its position. The test against
  -- `MAX_BLOCKFILE_SIZE` only prints a message.
  pub read_block_from_blk_dat_file : Bytes → Bytes → ℕ → ℕ → Option Block
  read_block_from_blk_dat_file key file current offset =
      let position = seek (before offset) current in
      read_at file position 8 >>= λ masked_prefix.
      unmask key (before offset) masked_prefix >>= λ raw_prefix.
      let magic = from_le (take 4 raw_prefix) in
      let block_size = from_le (drop 4 raw_prefix) in
      read_at file (position + 8) block_size >>= λ masked.
      unmask key offset masked >>= λ block_buffer. read_block_buffer magic block_size block_buffer
