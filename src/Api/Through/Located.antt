-- ===== src/Api/Through/Located.antt =====
-- From the directory of block files to a block: `ListFiles`, `SortFiles`, `GetBlock`, `OpenFile` and
-- `ReadBlockFromBlkDatFile`, one behind the other.
use mlbtcc.Base.{
  ℕ, zero, suc, ◌+◌, ◌<◌, ◌≤◌, ◌^◌, ◌≡◌, ◌∙◌, refl, ap, sym, arith, Option, none, some, ◌>>=◌, Bool,
  true, false, List, ◌∷◌, ◌++◌, get_elem?, length, map, replicate, All,
}
use mlbtcc.Base.Bytes.{Bytes, codes, IsByte}
use mlbtcc.Api.{Table, record_at}
use mlbtcc.Api.Through.{get_block_through}
use mlbtcc.Api.Through.Same.{get_block_lem, get_block_through-get_block}
use mlbtcc.BitcoinSpecifics.Hash.{Sha256}
use mlbtcc.BitcoinSpecifics.Header.Layout.{RawHeader, IsHeader}
use mlbtcc.Blkdat.Block.Layout.{
  block_wire, the_block, block_file, read_block_from_blk_dat_file-block_file,
}
use mlbtcc.Blkdat.Block.{read_block_from_blk_dat_file}
use mlbtcc.Blkdat.Block.Mask.{IsKey}
use mlbtcc.Blkdat.Cache.{Store}
use mlbtcc.Blkdat.Cache.Coherent.{IsCoherent}
use mlbtcc.Blkdat.Cache.Held.{held, one_if}
use mlbtcc.Blkdat.Cache.Frame.{open_file-Keeps, some_inj}
use mlbtcc.Blkdat.Disk.{Streams, World}
use mlbtcc.Blkdat.Disk.Backed.{IsBacked, IsFresh}
use mlbtcc.Blkdat.Txn.Whole.{WireTx, IsWireTx}
use mlbtcc.Datadir.{strstr}
use mlbtcc.Files.Listing.{FileInfo, FileList, closed_file, list_files}
use mlbtcc.Files.Listing.Globbed.{globbed}
use mlbtcc.Files.Wildcard.Decides.{IsPlain}
use mlbtcc.Indexing.Sort.{Qsort, sort_files}
use mlbtcc.Indexing.Sort.Listed.{range, block_files, sort_files-list_files}
use mlbtcc.Indexing.Sort.Numbers.{block_name}
use mlbtcc.Structs.{Block, BlockIndexRecord}
use mathlib.Core.List.{Permᴰ}

-- Before the first call no file is open: `openFiles` is zero.
abbrev pub first_store : List FileInfo → Store
first_store infos = record {
  infos = infos;
  open_files = replicate 5 (record { file_info = none; last_access_time = 0 });
}

abbrev pub AllShut : List FileInfo → Type 0
AllShut infos = (i : ℕ) (info : FileInfo) → get_elem? infos i ≡ some info → info.is_open ≡ false

first_store-IsCoherent : (infos : List FileInfo) → AllShut infos → IsCoherent (first_store infos)
unfolding held
first_store-IsCoherent infos shut = record {
  some_slot = omega arith;
  counted = λ i info e. sym (ap one_if (shut i info e));
  handle = λ i info e o. cc (shut i info e);
  inside = λ i le. refl;
}

pub first_store-IsFresh :
    (infos : List FileInfo) (handle now index : ℕ)
    → AllShut infos
    → IsFresh handle now index (first_store infos)
first_store-IsFresh infos handle now index shut r s' i info e other g o =
    let (old, g0, (_, _, before)) =
      open_file-Keeps (some handle) now index (first_store infos) s' r e i info g in
    absurd (contrary (before other o) (shut i old g0))
  where
    contrary : {b : Bool} → b ≡ true → b ≡ false → ⊥
    contrary p q = cc

module _ (directory : Bytes) (contents : ℕ → Bytes) (disk : Bytes → Option Bytes) where
  pub block_files-shut : (i n : ℕ) → AllShut (block_files directory i n)
  block_files-shut i zero j info e = cc
  block_files-shut i (suc n) zero info e =
      ap (λ x. x.is_open) (sym (some_inj (closed_file (directory ++ (b'/' ∷ block_name i))) info e))
  block_files-shut i (suc n) (suc j) info e = block_files-shut (i + 1) n j info e

  -- The disk has each of the first block files.
  abbrev pub Stored : ℕ → ℕ → Type 0
  Stored i n =
      (k : ℕ) → i ≤ k → k < i + n → disk (directory ++ (b'/' ∷ block_name k)) ≡ some (contents k)

  block_files-on_disk :
      (i n : ℕ)
      → Stored i n
      → (j : ℕ) (info : FileInfo) → get_elem? (block_files directory i n) j ≡ some info
      → disk info.filepath ≡ get_elem? (map contents (range i n)) j
  block_files-on_disk i zero h j info e = cc
  block_files-on_disk i (suc n) h zero info e =
      ap (λ x. disk x.filepath)
        (sym (some_inj (closed_file (directory ++ (b'/' ∷ block_name i))) info e))
      ∙ h i (omega arith) (omega arith)
  block_files-on_disk i (suc n) h (suc j) info e =
      block_files-on_disk (i + 1) n (λ k lo hi. h k (omega arith) (omega arith)) j info e

  pub length-block_files : (i n : ℕ) → length (block_files directory i n) ≡ n
  length-block_files i zero = refl
  length-block_files i (suc n) = ap suc (length-block_files (i + 1) n)

  content_at :
      (i n k : ℕ) → k < n → get_elem? (map contents (range i n)) k ≡ some (contents (i + k))
  content_at i zero k h = absurd (omega arith)
  content_at i (suc n) zero h = ap (λ j. some (contents j)) (omega arith)
  content_at i (suc n) (suc k) h =
      content_at (i + 1) n k (omega arith) ∙ ap (λ j. some (contents j)) (omega arith)

  pub first_world-IsBacked :
      (n : ℕ) (streams : Streams)
      → Stored 0 n
      → IsBacked disk
          (map contents (range 0 n))
          (record { store = first_store (block_files directory 0 n); streams = streams })
  first_world-IsBacked n streams h = record {
    coherent = first_store-IsCoherent (block_files directory 0 n) (block_files-shut 0 n);
    has_streams = λ i info f e o g. absurd (contrary (block_files-shut 0 n i info e) o);
    on_disk = block_files-on_disk 0 n h;
  }
    where
      contrary : {b : Bool} → b ≡ false → b ≡ true → ⊥
      contrary p q = cc

  -- A directory without "blk" in its path, whose names that match "blk*.dat" are the first `n` block
  -- files in any order, at most 100000, no name with a star, all on the disk: once the files are
  -- listed and sorted, `GetBlock` at a height whose record names file number `k` and an offset, and
  -- where that file holds a block at that offset, opens the right file and returns that block with
  -- its height. The block is as `read_block_from_blk_dat_file` reads one back.
  pub get_block_through-sort_files :
      (hash_lib : Sha256) (key : Bytes) (table : Table) (libc : Qsort) (names : List Bytes)
      (size n handle now height : ℕ) (streams : Streams) (r : BlockIndexRecord)
      (front after : Bytes) (magic : ℕ) (h : RawHeader) (ts : List WireTx)
      → strstr directory (codes "blk") ≡ none
      → All (All IsPlain) names
      → 0 < size
      → n ≤ 100000
      → Permᴰ (block_files directory 0 n) (globbed directory (codes "blk*.dat") names)
      → Stored 0 n
      → record_at table height ≡ some r
      → r.block_file < n
      → r.block_offset ≡ length front + 8
      → contents r.block_file ≡ block_file hash_lib key front magic h ts after
      → IsKey key
      → length front + 8 < 2 ^ 63
      → magic < 2 ^ 32
      → IsHeader h
      → All IsWireTx ts
      → length ts < 2 ^ 16
      → All IsByte (block_wire h ts)
      → length (block_wire h ts) < 2 ^ 32
      → (list : FileList) × (list_files directory (some names) (codes "blk*.dat") size ≡ some list)
        × ((w : World) × (get_block_through disk hash_lib key table handle now height
                (record { store = first_store (sort_files libc list).files; streams = streams })
              ≡ some (record (the_block hash_lib magic h ts) { height = some height }, w)))
  get_block_through-sort_files hash_lib key table libc names size n handle now height streams r
        front after magic h ts clean plain room few_files p stored e lt at_offset holds k near hm wh
        wts few octets small =
      let (list, listed, sorted) =
        sort_files-list_files directory clean libc names size n plain room few_files p in
      let infos = block_files directory 0 n in
      let first : World = record { store = first_store infos; streams = streams } in
      let files = map contents (range 0 n) in
      let content = content_at 0 n r.block_file lt in
      let (current, next, same, _) =
        get_block_through-get_block disk files hash_lib key table handle now height first r
          (contents (0 + r.block_file)) (first_world-IsBacked n streams stored) e
          (omega (arith, length-block_files 0 n, lt)) content
          (first_store-IsFresh infos handle now r.block_file (block_files-shut 0 n)) in
      let block = the_block hash_lib magic h ts in
      let read : read_block_from_blk_dat_file hash_lib key (contents (0 + r.block_file)) current
            r.block_offset
          ≡ some block =
        ap (λ (c : Bytes). read_block_from_blk_dat_file hash_lib key c current r.block_offset)
          (ap contents (omega arith) ∙ holds)
        ∙ ap
            (read_block_from_blk_dat_file hash_lib key
              (block_file hash_lib key front magic h ts after) current)
            at_offset
        ∙ read_block_from_blk_dat_file-block_file hash_lib key front after current magic h ts k near
            hm wh wts few octets small in
      (
        list,
        listed,
        (
          next block.block_size,
          ap
                (λ fs.
                  get_block_through disk hash_lib key table handle now height
                    (record { store = first_store fs; streams = streams }))
                sorted
              ∙ same
              ∙ ap (λ (o : Option Block). o >>= leave next)
                  (get_block_lem disk files hash_lib key table current height r
                      (contents (0 + r.block_file)) e content
                    ∙ ap (λ (o : Option Block). o >>= λ b. some (record b { height = some height }))
                        read),
        ),
      )
    where
      leave : (ℕ → World) → Block → Option (Block × World)
      leave next b = some (b, next b.block_size)
