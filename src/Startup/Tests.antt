-- ===== src/Startup/Tests.antt =====
-- `InitMLBTCC` and `GetBlock` on a small data directory.
use mlbtcc.Base.{ℕ, ◌≡◌, arith, refl, none, some, true, false, [], ◌∷◌}
use mlbtcc.Base.Bytes.{Bytes, codes}
use mlbtcc.Api.Through.{get_block_through}
use mlbtcc.Api.Through.Located.{first_store}
use mlbtcc.BigInts.CompactSize.{compact_size_encode}
use mlbtcc.BitcoinSpecifics.Tests.{toy_hash}
use mlbtcc.BitcoinSpecifics.Header.Layout.{header_bytes}
use mlbtcc.Blkdat.Block.Layout.{the_block}
use mlbtcc.Blkdat.Disk.{World}
use mlbtcc.Blkdat.Tests.{payment-IsTx, small_header, one_payment, a_key, one_file}
use mlbtcc.Blkdat.Txn.Wire.{legacy_wire}
use mlbtcc.Blkdat.Txn.Whole.{wire}
use mlbtcc.Datadir.{strstr, load_xor_key}
use mlbtcc.Files.Listing.Globbed.{globbed}
use mlbtcc.Indexing.Sort.Insertion.{insertion_sort}
use mlbtcc.Indexing.Sort.Listed.{block_files}
use mlbtcc.Indexing.Tests.{
  three_names, three_names-IsPlain, some_hash, genesis, two_entries, one_record, one_record_built,
  latest-genesis,
}
use mlbtcc.Indexing.Records.Index.{the_record}
use mlbtcc.Startup.{Machine, FullEnv, loaded, is_bitcoind_running, init_mlbtcc}
use mlbtcc.Startup.Loaded.{init_mlbtcc-get_block_through}
use mlbtcc.Text.Glob.{glob, any_end, one_char, is_empty}
use mathlib.Core.List.{Permᴰ}

-- Every directory is there and holds the same names, every file holds the key, every database has
-- one block; no command prints a line.
abbrev small_machine : Machine
small_machine = record {
  State = ℕ;
  is_directory = λ _ _. true;
  read_file = λ _ _. some a_key;
  directory_names = λ _ _. some three_names;
  database = λ _ _. some two_entries;
  system = λ _ s. (0, s);
  prints_line = λ _ s. (false, s);
  user = none;
}

abbrev data_directory : Bytes
data_directory = codes "/d/"

abbrev its_blocks : Bytes
its_blocks = codes "/d/blocks/"

its_files : Permᴰ (block_files its_blocks 0 2) (globbed its_blocks (codes "blk*.dat") three_names)
unfolding globbed glob any_end one_char is_empty
its_files = Permᴰ.swap refl refl

no_blk : strstr its_blocks (codes "blk") ≡ none
unfolding strstr
no_blk = refl

idle : is_bitcoind_running small_machine insertion_sort [] 0 ≡ (false, 0)
unfolding is_bitcoind_running
idle = refl

init_mlbtcc-get_block_through_example :
    (g : FullEnv) × (init_mlbtcc small_machine insertion_sort [] data_directory 0
      ≡ some (loaded g 0))
    × ((w : World) × (get_block_through
            (λ _. some one_file)
            toy_hash
            g.env.xor_key
            g.index_records.block_index_record
            77
            5
            0
            (record { store = first_store g.blk_files.files; streams = λ _. none })
          ≡ some (
            record (the_block toy_hash 0xd9b4bef9 small_header one_payment) { height = some 0 },
            w,
          )))
unfolding wire legacy_wire compact_size_encode header_bytes load_xor_key
init_mlbtcc-get_block_through_example =
    init_mlbtcc-get_block_through small_machine insertion_sort [] data_directory 0 0 0 false
      three_names 2 (λ _. one_file) (λ _. some one_file) two_entries one_record toy_hash 77 5 0
      (λ _. none) (the_record some_hash genesis 4) (9 ∷ 9 ∷ 9 ∷ []) (6 ∷ []) 0xd9b4bef9 small_header
      one_payment refl (omega arith) refl no_blk refl three_names-IsPlain (omega arith) its_files
      (λ k lo hi. refl) idle idle refl one_record_built (omega arith) latest-genesis (omega arith)
      refl refl (record { size = refl; bytes = ground arith }) (omega arith) (omega arith)
      (record {
        version_fits = omega arith;
        prev_size = refl;
        root_size = refl;
        time_fits = omega arith;
        bits_fits = omega arith;
        nonce_fits = omega arith;
      })
      ((omega arith, payment-IsTx), tt) (omega arith) (ground arith) (omega arith)
