-- ===== src/Indexing/Tests.antt =====
-- Runs of src/indexing.c on concrete entries.
use mlbtcc.Base.{◌+◌, ◌*◌, ◌≡◌, arith, refl, some, [], ◌∷◌, ◌++◌, length, replicate}
use mlbtcc.Base.{ℕ, List, get_elem?}
use mlbtcc.Leveldb
use mlbtcc.Leveldb.{first_byte, bump, prefixes_loop, ldb_count_entries_for_prefixes}
use mlbtcc.Indexing.Build.{
  IndexRecords, store, keep_block, block_round, block_loop, build_block_index_records,
}
use mlbtcc.Indexing.Build.Heights.{accepted, latest, all_accepted, build_block_index_records-latest}
use mlbtcc.Api.{record_at}
use mlbtcc.Base.Bytes.{Bytes}
use mlbtcc.BigInts.Varint128.{decode_varint128, decode_varint128_loop}
use mlbtcc.BigInts.Varint128.Decode.{index_varint, leading}
use mlbtcc.BitcoinSpecifics.Header.Layout.{header_bytes}
use mlbtcc.Indexing.Records.{get_coin_record, get_block_index_record}
use mlbtcc.Indexing.Records.Entries.{Entry, entry_wire, get_coin_record-index_varint}
use mlbtcc.Indexing.Records.Index.{the_record, get_block_index_record-entry_wire}
use mlbtcc.Base.{Bool, true, ◌&&◌, not, ltb, ◌==◌, All, none}
use mlbtcc.Base.Bytes.{codes}
use mlbtcc.Datadir.{strstr}
use mlbtcc.Text.Glob.{glob, any_end, one_char, is_empty}
use mlbtcc.Files.Listing.{FileList, list_files}
use mlbtcc.Files.Listing.Globbed.{globbed}
use mlbtcc.Files.Wildcard.Decides.{IsPlain}
use mlbtcc.Indexing.Sort.{sort_files}
use mlbtcc.Indexing.Sort.Insertion.{insertion_sort}
use mlbtcc.Indexing.Sort.Listed.{block_files, sort_files-list_files}
use mathlib.Core.List.{Permᴰ}
use mathlib.Core.List.{reverse}

abbrev pub some_hash : Bytes
some_hash = replicate 32 5

get_coin_record-index_varint_example :
    get_coin_record
      (67 ∷ (some_hash ++ []))
      (index_varint (2 * 840000 + 1) ++ (index_varint 300 ++ (9 ∷ [])))
    ≡ some (record { txid = reverse some_hash; height = 840000; coinbase = 1 })
get_coin_record-index_varint_example =
    get_coin_record-index_varint 67 some_hash [] (9 ∷ []) 840000 1 300 refl (omega arith)
      (omega arith) (omega arith)

abbrev pub an_entry : Entry
an_entry = record {
  version = 259900;
  height = 840000;
  status = 157;
  tx_count = 3050;
  file = 4300;
  position = 12345678;
  undo_position = 200;
  header = record {
    version = 4;
    prev = replicate 32 1;
    root = replicate 32 2;
    time = 1713571767;
    bits = 0x17034219;
    nonce = 7;
  };
}

get_block_index_record-entry_wire_example :
    get_block_index_record
      (98 ∷ (some_hash ++ []))
      (entry_wire an_entry)
      (length (entry_wire an_entry))
    ≡ some (the_record some_hash an_entry 4)
unfolding entry_wire index_varint leading header_bytes decode_varint128 decode_varint128_loop
get_block_index_record-entry_wire_example =
    get_block_index_record-entry_wire 98 some_hash [] an_entry 1 4 refl
      (record {
        version_fits = omega arith;
        height_fits = omega arith;
        status_fits = omega arith;
        tx_count_fits = omega arith;
        file_fits = omega arith;
        position_fits = omega arith;
        undo_position_fits = omega arith;
        header_ok = record {
          version_fits = omega arith;
          prev_size = refl;
          root_size = refl;
          time_fits = omega arith;
          bits_fits = omega arith;
          nonce_fits = omega arith;
        };
      })
      refl refl (omega arith)

abbrev pub genesis : Entry
genesis = record an_entry { height = 0; file = 1; position = 11 }

abbrev pub two_entries : List Leveldb.Entry
two_entries =
    record { key = b'b' ∷ (some_hash ++ []); value = entry_wire genesis }
    ∷ record { key = b'F' ∷ []; value = [] }
    ∷ []

abbrev pub no_records : IndexRecords
no_records = record {
  block_index_record = [];
  block_index_record_count = 0;
  file_information_record_count = 0;
  coin_record = [];
  coin_record_count = 0;
}

abbrev pub one_record : IndexRecords
one_record = record no_records {
  block_index_record = some (the_record some_hash genesis 4) ∷ [];
  block_index_record_count = 1;
}

pub genesis_read :
    get_block_index_record
      (b'b' ∷ (some_hash ++ []))
      (entry_wire genesis)
      (length (entry_wire genesis))
    ≡ some (the_record some_hash genesis 4)
unfolding entry_wire index_varint leading header_bytes decode_varint128 decode_varint128_loop
genesis_read =
    get_block_index_record-entry_wire 98 some_hash [] genesis 1 4 refl
      (record {
        version_fits = omega arith;
        height_fits = omega arith;
        status_fits = omega arith;
        tx_count_fits = omega arith;
        file_fits = omega arith;
        position_fits = omega arith;
        undo_position_fits = omega arith;
        header_ok = record {
          version_fits = omega arith;
          prev_size = refl;
          root_size = refl;
          time_fits = omega arith;
          bits_fits = omega arith;
          nonce_fits = omega arith;
        };
      })
      refl refl (omega arith)

pub one_record_built : build_block_index_records two_entries no_records ≡ some one_record
unfolding build_block_index_records block_loop block_round keep_block store
    ldb_count_entries_for_prefixes prefixes_loop bump first_byte
one_record_built = rw genesis_read refl

pub latest-genesis : latest two_entries 0 ≡ some (the_record some_hash genesis 4)
unfolding latest accepted first_byte
latest-genesis = rw genesis_read refl

build_block_index_records-latest_example :
    (counts : List ℕ) × (ldb_count_entries_for_prefixes two_entries (b'b' ∷ b'f' ∷ [])
      ≡ some counts)
    × (get_elem? counts 0 ≡ some 1)
    × (record_at one_record.block_index_record 0 ≡ latest two_entries 0)
    × (one_record.block_index_record_count ≡ all_accepted two_entries)
build_block_index_records-latest_example =
    build_block_index_records-latest two_entries no_records one_record 0 one_record_built
      (omega arith)

-- Two block files, listed in the wrong order, and another file.
abbrev pub blocks_directory : Bytes
blocks_directory = codes "/d"

abbrev pub three_names : List Bytes
three_names = codes "blk00001.dat" ∷ codes "x" ∷ codes "blk00000.dat" ∷ []

all_plain : Bytes → Bool
all_plain [] = true
all_plain (c ∷ text) = ltb 0 c && not (c == b'*') && all_plain text

all_plain-IsPlain : (text : Bytes) → all_plain text ≡ true → All IsPlain text
unfolding all_plain
all_plain-IsPlain [] h = tt
all_plain-IsPlain (c ∷ text) h =
    ((ground arith, λ e. ground arith), all_plain-IsPlain text (ground arith))

pub three_names-IsPlain : All (All IsPlain) three_names
unfolding all_plain
three_names-IsPlain = (
  all_plain-IsPlain (codes "blk00001.dat") refl,
  (all_plain-IsPlain (codes "x") refl, (all_plain-IsPlain (codes "blk00000.dat") refl, tt)),
)

pub two_block_files :
    Permᴰ
      (block_files blocks_directory 0 2)
      (globbed blocks_directory (codes "blk*.dat") three_names)
unfolding globbed glob any_end one_char is_empty
two_block_files = Permᴰ.swap refl refl

pub no_blk : strstr blocks_directory (codes "blk") ≡ none
unfolding strstr
no_blk = refl

sort_files-list_files_example :
    (list : FileList) × (list_files blocks_directory (some three_names) (codes "blk*.dat") 1
      ≡ some list)
    × ((sort_files insertion_sort list).files ≡ block_files blocks_directory 0 2)
sort_files-list_files_example =
    sort_files-list_files blocks_directory no_blk insertion_sort three_names 1 2 three_names-IsPlain
      (omega arith) (omega arith) two_block_files
