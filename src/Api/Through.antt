-- ===== src/Api/Through.antt =====
-- src/API.c, `GetBlock` and `GetBlocks` on the files of a disk, through the cache of open files.
pub mod Same
pub mod Located
pub mod Calls
mod Tests
use mlbtcc.Base.{
  ℕ, zero, suc, ◌+◌, ◌*◌, ◌-◌, ◌^◌, Option, none, some, ◌>>=◌, Bool, List, [], ◌∷◌, leb, ltb,
  if◌then◌else◌,
}
use mlbtcc.Base.Bytes.{Bytes}
use mlbtcc.Api.{Table, record_at, no_blocks}
use mlbtcc.BitcoinSpecifics.Hash.{Sha256}
use mlbtcc.Blkdat.Disk.{World, read_block_through}
use mlbtcc.Structs.{Block, Blocks}

-- `handle` is the pointer that `fopen` gives out if it is called, and `now` the time.
unfoldable pub get_block_through :
    (Bytes → Option Bytes) → Sha256 → Bytes → Table → ℕ → ℕ → ℕ → World → Option (Block × World)
get_block_through disk hash_lib key table handle now height w = do
  r ← record_at table height
  (block, after) ← read_block_through disk hash_lib key handle now r.block_file r.block_offset w
  some (record block { height = some height }, after)

-- What `fopen` gives out, by what is open, and the time at which each height is read.
module _ (disk : Bytes → Option Bytes) (hash_lib : Sha256) (key : Bytes) (table : Table)
    (handle : World → ℕ) (clock : ℕ → ℕ) where
  unfoldable pub blocks_loop_through : ℕ → ℕ → World → Option (List Block × World)
  blocks_loop_through zero height w = some ([], w)
  blocks_loop_through (suc n) height w =
      get_block_through disk hash_lib key table (handle w) (clock height) height w >>= λ p.
      blocks_loop_through n (height + 1) (p.1) >>= λ q. some (p.0 ∷ q.0, q.1)

  -- The guards are those of `Api.get_blocks`.
  unfoldable pub get_blocks_through : ℕ → ℕ → World → Option (Blocks × World)
  get_blocks_through height count w =
      if leb (2 ^ 32 - 2 ^ 29) count
      then some (no_blocks, w)
      else if leb (2 ^ 29) count
      then none
      else if ltb (4 * 2 ^ 30) (count * 4 * 2 ^ 20)
      then some (no_blocks, w)
      else (blocks_loop_through count height w >>= λ q.
          some (record { blocks = q.0; count = count }, q.1))
