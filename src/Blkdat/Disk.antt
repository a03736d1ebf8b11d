-- ===== src/Blkdat/Disk.antt =====
-- src/blkdat.c, `ReadBlockFromBlkDatFile` on the files of a disk, through the cache of open files.
pub mod Backed
use mlbtcc.Base.{ℕ, ◌+◌, Option, none, some, ◌>>=◌, List, [], ◌∷◌, ◌==◌, if◌then◌else◌, get_elem?}
use mlbtcc.Base.Bytes.{Bytes}
use mlbtcc.BitcoinSpecifics.Hash.{Sha256}
use mlbtcc.Blkdat.Block.{before, seek, read_block_from_blk_dat_file}
use mlbtcc.Blkdat.Cache.{Slot, Store, in_cache, open_file}
use mlbtcc.Files.Listing.{FileInfo}
use mlbtcc.Structs.{Block}

-- An open FILE: the path that it was opened with, and its position.
pub record Stream : Type 0 where
  pub path : Bytes
  pub position : ℕ

-- A FILE pointer's stream. A closed one stays, since nothing uses it before `fopen` gives its pointer
-- out again.
abbrev pub Streams : Type 0
Streams = ℕ → Option Stream

abbrev pub with_stream : Streams → ℕ → Stream → Streams
with_stream streams file stream other = if file == other then some stream else streams other

pub record World : Type 0 where
  pub store : Store
  pub streams : Streams

-- What `fopen` returns for a file: `handle`, or a null pointer if the disk does not open it.
abbrev pub fopen_answer : Option Bytes → ℕ → Option ℕ
fopen_answer none handle = none
fopen_answer (some content) handle = some handle

-- The streams after the call of `OpenFile`.
abbrev pub opened_streams : Option (List Slot) → Option Bytes → ℕ → Bytes → Streams → Streams
opened_streams (some slots) content handle path streams = streams
opened_streams none none handle path streams = streams
opened_streams none (some content) handle path streams =
    with_stream streams handle (record { path = path; position = 0 })

-- `disk` gives the content of each file that can be opened.
module _ (disk : Bytes → Option Bytes) where
  unfoldable pub open_stream : ℕ → ℕ → ℕ → World → Option (Option ℕ × World)
  open_stream handle now index w = do
    info ← get_elem? w.store.infos index
    let content = disk info.filepath
    (file, store) ← open_file (fopen_answer content handle) now index w.store
    some (
      file,
      record {
        store = store;
        streams =
            opened_streams (in_cache index now w.store info) content handle info.filepath w.streams;
      },
    )

  -- `fseek` and `fread` of a null pointer are undefined. The assignment of the result of `OpenFile`
  -- to `fileInfo->file` stores what stands there.
  unfoldable pub read_block_through :
      Sha256 → Bytes → ℕ → ℕ → ℕ → ℕ → World → Option (Block × World)
  read_block_through hash_lib key handle now index offset w = do
    (pointer, opened) ← open_stream handle now index w
    file ← pointer
    stream ← opened.streams file
    content ← disk stream.path
    block ← read_block_from_blk_dat_file hash_lib key content stream.position offset
    let end_ = seek (before offset) stream.position + 8 + block.block_size
    some (
      block,
      record opened {
        streams = with_stream opened.streams file (record stream { position = end_ });
      },
    )
