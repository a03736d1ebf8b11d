-- ===== src/Blkdat/Block/Place.antt =====
-- Where a block is read from.
use mlbtcc.Base.{ℕ, ◌<◌, ◌≤◌, ◌^◌, ◌≡◌, refl, arith}
use mlbtcc.Base.Bytes.{Bytes}
use mlbtcc.BitcoinSpecifics.Hash.{Sha256}
use mlbtcc.Blkdat.Block.{before, seek, read_block_from_blk_dat_file}

seek_anywhere :
    (a b offset : ℕ)
    → 8 ≤ offset
    → offset < 2 ^ 63
    → seek (before offset) a ≡ seek (before offset) b
unfolding seek before
seek_anywhere a b offset lo hi = ground arith

-- `fseek` succeeds, and where the file stood does not matter.
pub read_block_anywhere :
    (hash_lib : Sha256) (key content : Bytes) (a b offset : ℕ)
    → 8 ≤ offset
    → offset < 2 ^ 63
    → read_block_from_blk_dat_file hash_lib key content a offset
      ≡ read_block_from_blk_dat_file hash_lib key content b offset
unfolding read_block_from_blk_dat_file
read_block_anywhere hash_lib key content a b offset lo hi = rw (seek_anywhere a b offset lo hi) refl
