-- ===== src/Startup/Loaded.antt =====
-- From `InitMLBTCC` to a block.
use mlbtcc.Base.{
  ℕ, ◌+◌, ◌<◌, ◌≤◌, ◌^◌, ◌≡◌, ◌∙◌, refl, ap, arith, Option, none, some, ◌>>=◌, Bool, true, false,
  List, [], length, All, if◌then◌else◌,
}
use mlbtcc.Base.Bytes.{Bytes, codes, IsByte}
use mlbtcc.Api.Through.{get_block_through}
use mlbtcc.Api.Through.Located.{first_store, Stored, get_block_through-sort_files}
use mlbtcc.BitcoinSpecifics.Hash.{Sha256}
use mlbtcc.BitcoinSpecifics.Header.Layout.{RawHeader, IsHeader}
use mlbtcc.Blkdat.Block.Layout.{block_wire, the_block, block_file}
use mlbtcc.Blkdat.Block.Mask.{IsKey}
use mlbtcc.Blkdat.Disk.{Streams, World}
use mlbtcc.Blkdat.Txn.Whole.{WireTx, IsWireTx}
use mlbtcc.Datadir.{load_xor_key, strstr}
use mlbtcc.Datadir.Parse.{
  MlbtccEnv, Outcome, path_of, blocks_name, indexes_name, xor_name, parse_core_datadir,
}
use mlbtcc.Datadir.Parse.Outcomes.{parse_core_datadir_lem}
use mlbtcc.Files.Listing.{FileList, list_files}
use mlbtcc.Files.Listing.Globbed.{globbed}
use mlbtcc.Files.Wildcard.Decides.{IsPlain}
use mlbtcc.Indexing.Build.{IndexRecords, build_block_index_records}
use mlbtcc.Indexing.Build.Heights.{latest, build_block_index_records-latest}
use mlbtcc.Indexing.Sort.{Qsort, sort_files}
use mlbtcc.Indexing.Sort.Listed.{block_files}
use mlbtcc.Leveldb.{Entry}
use mlbtcc.Structs.{BlockIndexRecord}
use mlbtcc.Startup.{
  Machine, FullEnv, Ended, stopped, loaded, is_bitcoind_running, build_from, blk_indexes_dir,
  index_blocks, index_core_datadir, zero_env, init_mlbtcc,
}
use mathlib.Core.List.{Permᴰ}

module _ (m : Machine) (libc : Qsort) (defaults : List Bytes) where
  build_steps :
      (directory : Bytes) (g : FullEnv) (s : m.State) (db : List Entry) (tables : IndexRecords)
      → m.database s directory ≡ some db
      → build_block_index_records db g.index_records ≡ some tables
      → build_from m libc defaults directory g s
        ≡ some (loaded (record g { index_records = tables }) s)
  unfolding build_from
  build_steps directory g s db tables d b =
      ap
        (λ (o : Option (List Entry)). elim o as (λ _. Option (Ended m.State)) [
          | none ↦ some stopped
          | some db ↦
              (build_block_index_records db g.index_records >>= λ t.
              some (loaded (record g { index_records = t }) s))
        ])
        d
      ∙ ap
          (λ (o : Option IndexRecords). o >>= λ t. some (loaded (record g { index_records = t }) s))
          b

  -- Bitcoin Core does not run.
  idle_steps :
      (g : FullEnv) (s s1 s2 : m.State) (first : Bool)
      → is_bitcoind_running m libc defaults s ≡ (first, s1)
      → is_bitcoind_running m libc defaults s1 ≡ (false, s2)
      → index_blocks m libc defaults g s
        ≡ build_from m libc defaults (blk_indexes_dir m libc defaults g.env.blocks_dir) g s2
  unfolding index_blocks
  idle_steps g s s1 s2 first e1 e2 = rw e1 (rw e2 refl)

  -- `InitMLBTCC` on a directory that has the directory `D` of blocks.
  init_steps :
      (path : Bytes) (s s' : m.State) (e : MlbtccEnv) (list : FileList) (g : FullEnv)
      → parse_core_datadir
          (m.is_directory s)
          (m.read_file s)
          m.user
          defaults
          path
          (zero_env m libc defaults).env
        ≡ some (Outcome.returned e)
      → list_files e.blocks_dir (m.directory_names s e.blocks_dir) (codes "blk*.dat") 5000
        ≡ some list
      → index_blocks m libc defaults
          (record (zero_env m libc defaults) { env = e; blk_files = sort_files libc list })
          s
        ≡ some (loaded g s')
      → init_mlbtcc m libc defaults path s ≡ some (loaded g s')
  unfolding init_mlbtcc index_core_datadir
  init_steps path s s' e list g p l i =
      ap
        (λ (o : Option Outcome). o >>= λ outcome. elim outcome as (λ _. Option (Ended m.State)) [
          | Outcome.exited ↦ some stopped
          | Outcome.returned env ↦
              index_core_datadir m libc defaults (record (zero_env m libc defaults) { env = env }) s
        ])
        p
      ∙ ap
          (λ (o : Option FileList). o >>= λ list.
            index_blocks m libc defaults
              (record (zero_env m libc defaults) { env = e; blk_files = sort_files libc list }) s)
          l
      ∙ i

  -- `InitMLBTCC` and then `GetBlock`. The data directory's name and the directory `D` of its blocks
  -- fit their buffers, `D` exists and its path does not hold "blk"; the names in it that match
  -- "blk*.dat" are the first `n` block files in any order, at most 100000, none with a star; Bitcoin
  -- Core does not run the second time that it is looked for; the database in the directory of the
  -- index opens, and the tables can be built from it. Then `InitMLBTCC` comes back, and `GetBlock`
  -- at a height in the table, where the last valid entry with that height names a file and an
  -- offset, and the file holds a block at that offset, masked with the key of `gEnv`, returns this
  -- block with its height. That key is the one at "/blocks/xor.dat", whatever the data directory is.
  pub init_mlbtcc-get_block_through :
      (path : Bytes) (s s1 s2 : m.State) (first : Bool) (names : List Bytes) (n : ℕ)
      (contents : ℕ → Bytes) (disk : Bytes → Option Bytes) (db : List Entry) (tables : IndexRecords)
      (hash_lib : Sha256) (handle now height : ℕ) (streams : Streams) (r : BlockIndexRecord)
      (front after : Bytes) (magic : ℕ) (h : RawHeader) (ts : List WireTx)
      → m.is_directory s path ≡ true
      → length path < 512
      → m.is_directory s (path_of path blocks_name) ≡ true
      → strstr (path_of path blocks_name) (codes "blk") ≡ none
      → m.directory_names s (path_of path blocks_name) ≡ some names
      → All (All IsPlain) names
      → n ≤ 100000
      → Permᴰ
          (block_files (path_of path blocks_name) 0 n)
          (globbed (path_of path blocks_name) (codes "blk*.dat") names)
      → Stored (path_of path blocks_name) contents disk 0 n
      → is_bitcoind_running m libc defaults s ≡ (first, s1)
      → is_bitcoind_running m libc defaults s1 ≡ (false, s2)
      → m.database s2 (blk_indexes_dir m libc defaults (path_of path blocks_name)) ≡ some db
      → build_block_index_records db (zero_env m libc defaults).index_records ≡ some tables
      → height < length tables.block_index_record
      → latest db height ≡ some r
      → r.block_file < n
      → r.block_offset ≡ length front + 8
      → contents r.block_file
        ≡ block_file hash_lib (load_xor_key (m.read_file s xor_name)) front magic h ts after
      → IsKey (load_xor_key (m.read_file s xor_name))
      → length front + 8 < 2 ^ 63
      → magic < 2 ^ 32
      → IsHeader h
      → All IsWireTx ts
      → length ts < 2 ^ 16
      → All IsByte (block_wire h ts)
      → length (block_wire h ts) < 2 ^ 32
      → (g : FullEnv) × (init_mlbtcc m libc defaults path s ≡ some (loaded g s2))
        × ((w : World) × (get_block_through disk hash_lib g.env.xor_key
                g.index_records.block_index_record handle now height
                (record { store = first_store g.blk_files.files; streams = streams })
              ≡ some (record (the_block hash_lib magic h ts) { height = some height }, w)))
  init_mlbtcc-get_block_through path s s1 s2 first names n contents disk db tables hash_lib handle
        now height streams r front after magic h ts is_dir short has_blocks clean listed plain
        few_files p stored run1 run2 opens built inside last lt at_offset holds k near hm wh wts few
        octets small =
      let directory = path_of path blocks_name in
      let (status, parsed) =
        parse_core_datadir_lem (m.is_directory s) (m.read_file s) m.user defaults path
          (zero_env m libc defaults).env is_dir short in
      let e : MlbtccEnv = record {
        data_dir = [];
        blocks_dir = directory;
        indexes_dir = path_of path indexes_name;
        status = status;
        xor_key = load_xor_key (m.read_file s xor_name);
      } in
      let (_, _, _, found, _) =
        build_block_index_records-latest db (zero_env m libc defaults).index_records tables height
          built inside in
      let (list, l, (w, read)) =
        get_block_through-sort_files directory contents disk hash_lib e.xor_key
          tables.block_index_record libc names 5000 n handle now height streams r front after magic
          h ts clean plain (omega arith) few_files p stored (found ∙ last) lt at_offset holds k near
          hm wh wts few octets small in
      let start : FullEnv = record (zero_env m libc defaults) {
        env = e;
        blk_files = sort_files libc list;
      } in
      (
        record start { index_records = tables },
        init_steps path s s2 e list (record start { index_records = tables })
            (parsed
              ∙ ap (λ (b : Bool). some (if b then Outcome.returned e else Outcome.exited))
                  has_blocks)
            (ap (λ o. list_files directory o (codes "blk*.dat") 5000) listed ∙ l)
            (idle_steps start s s1 s2 first run1 run2
              ∙ build_steps (blk_indexes_dir m libc defaults directory) start s2 db tables opens
                  built),
        (w, read),
      )
