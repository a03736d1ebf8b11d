-- ===== src/Api/Through/Same.antt =====
-- `GetBlock` through the cache reads what stands in the files.
use mlbtcc.Base.{
  ℕ, ◌<◌, ◌≡◌, ◌∙◌, refl, ap, sym, Option, none, some, ◌>>=◌, List, get_elem?, length,
}
use mlbtcc.Base.Bytes.{Bytes}
use mlbtcc.Api.{Table, record_at, get_block}
use mlbtcc.Api.Through.{get_block_through}
use mlbtcc.BitcoinSpecifics.Hash.{Sha256}
use mlbtcc.Blkdat.Block.{read_block_from_blk_dat_file}
use mlbtcc.Blkdat.Disk.{World, read_block_through}
use mlbtcc.Blkdat.Disk.Backed.{IsBacked, IsFresh, read_block_through-read_block}
use mlbtcc.Structs.{Block, BlockIndexRecord}

module _ (disk : Bytes → Option Bytes) (files : List Bytes) (hash_lib : Sha256) (key : Bytes)
    (table : Table) where
  abbrev leave : (ℕ → World) → Block → Option (Block × World)
  leave after block = some (block, after block.block_size)

  abbrev with_height : ℕ → Block × World → Option (Block × World)
  with_height height p = some (record (p.0) { height = some height }, p.1)

  pub get_block_lem :
      (current height : ℕ) (r : BlockIndexRecord) (content : Bytes)
      → record_at table height ≡ some r
      → get_elem? files r.block_file ≡ some content
      → get_block hash_lib key files current table height ≡ (
          read_block_from_blk_dat_file hash_lib key content current r.block_offset >>= λ block.
          some (record block { height = some height }))
  unfolding get_block
  get_block_lem current height r content e c = rw e (rw c refl)

  -- On a store where cache and table agree, each open file's pointer is a stream of the file's path,
  -- and the disk holds the table's files: `GetBlock` through the cache is the same as reading the
  -- file's content directly from some position, and all this holds again afterwards, so that the
  -- next call finds it. The height has a record, whose file is in the table, and the pointer that
  -- `fopen` gives out is not the one of another open file.
  pub get_block_through-get_block :
      (handle now height : ℕ) (w : World) (r : BlockIndexRecord) (content : Bytes)
      → IsBacked disk files w
      → record_at table height ≡ some r
      → r.block_file < length w.store.infos
      → get_elem? files r.block_file ≡ some content
      → IsFresh handle now r.block_file w.store
      → (current : ℕ) × (after : ℕ → World) × (get_block_through disk hash_lib key table handle now
            height w
          ≡ (get_block hash_lib key files current table height >>= λ block.
              some (block, after block.block_size)))
        × ((block_size : ℕ)
            → IsBacked disk files (after block_size)
              × (length (after block_size).store.infos ≡ length w.store.infos))
  unfolding get_block_through
  get_block_through-get_block handle now height w r content b e lt c fresh =
      let (current, after, same, kept) =
        read_block_through-read_block disk files hash_lib key handle now r.block_file r.block_offset
          w content b lt c fresh in
      (
        current,
        after,
        ap
              (λ (o : Option BlockIndexRecord). o >>= λ q.
                read_block_through disk hash_lib key handle now q.block_file q.block_offset w
                >>= with_height height)
              e
            ∙ ap (λ (o : Option (Block × World)). o >>= with_height height) same
            ∙ joined height after
                (read_block_from_blk_dat_file hash_lib key content current r.block_offset)
            ∙ sym (
                ap (λ (o : Option Block). o >>= leave after)
                  (get_block_lem current height r content e c)),
        kept,
      )
    where
      joined :
          (height : ℕ) (after : ℕ → World) (o : Option Block)
          → ((o >>= leave after) >>= with_height height)
            ≡ ((o >>= λ block. some (record block { height = some height })) >>= leave after)
      joined height after none = refl
      joined height after (some block) = refl
