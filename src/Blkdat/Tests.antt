-- ===== src/Blkdat/Tests.antt =====
-- Runs of src/blkdat.c on concrete bytes.
use mlbtcc.Base.{
  ap, sym, ◌∙◌, zero, suc, length, Option, none, Bool, true, false, ◌≡◌, arith, refl, some, List,
  [], ◌∷◌, ◌++◌, replicate, All, map,
}
use mlbtcc.Base.Bytes.{Bytes}
use mlbtcc.BigInts.CompactSize.{compact_size_encode}
use mlbtcc.BitcoinSpecifics.Tests.{toy_hash}
use mlbtcc.BitcoinSpecifics.Header.Layout.{RawHeader, header_bytes}
use mlbtcc.Blkdat.Block.{read_block_from_blk_dat_file}
use mlbtcc.Blkdat.Block.Layout.{block_file, the_block, read_block_from_blk_dat_file-block_file}
use mlbtcc.Base.{ℕ, get_elem?}
use mlbtcc.Files.Listing.{FileInfo, closed_file}
use mlbtcc.Base.{◌+◌, ◌%◌, ◌^◌}
use mlbtcc.Blkdat.Block.Uses.{read_block_from_blk_dat_file-free_block}
use mlbtcc.Release.{Pointer, free_block}
use mlbtcc.Release.Leaks.{IsReleased}
use mlbtcc.Api.Stats.{get_block_stats}
use mlbtcc.Api.Stats.Totals.{all_ins, all_outs, all_amounts, all_sizes}
use mlbtcc.Release.{free_blocks}
use mlbtcc.Api.Released.{get_blocks-free_blocks}
use mlbtcc.Structs.{Transaction, Block}
use mlbtcc.Base.{◌≤◌}
use mlbtcc.Api.{Table, record_at, get_block, blocks_loop, get_blocks}
use mlbtcc.Api.Consecutive.{get_blocks-get_block}
use mlbtcc.Blkdat.Cache.{Store, open_file}
use mlbtcc.Blkdat.Cache.Held.{one_if, held}
use mlbtcc.Blkdat.Cache.Coherent.{IsCoherent}
use mlbtcc.Blkdat.Cache.Opened.{Opened, open_file-Opened}
use mlbtcc.Blkdat.Cache.Runs.{Request, open_each, open_each-IsCoherent}
use mlbtcc.Blkdat.Reader.Reads.{all_bytes}
use mlbtcc.Blkdat.Txn.{read_txn}
use mlbtcc.Blkdat.Txn.Wire.{Tx, IsTx, legacy_wire, segwit_wire}
use mlbtcc.Blkdat.Txn.Whole.{WireTx, wire, IsWireTx, the_transaction, read_txn-wire}

-- One input and one output.
abbrev pub payment : Tx
payment = record {
  version = 2;
  inputs =
      record { txid = replicate 32 5; vout = 1; script = 0x51 ∷ []; sequence = 0xffff_fffe } ∷ [];
  outputs = record { amount = 5_000_000_000; script = 0x76 ∷ 0xa9 ∷ [] } ∷ [];
  locktime = 840000;
}

pub payment-IsTx : IsTx payment
payment-IsTx = record {
  version_fits = omega arith;
  inputs_count = omega arith;
  inputs_ok = (
    record {
      txid_size = refl;
      vout_fits = omega arith;
      script_fits = omega arith;
      sequence_fits = omega arith;
    },
    tt,
  );
  outputs_count = omega arith;
  outputs_ok = (record { amount_fits = omega arith; script_fits = omega arith }, tt);
  locktime_fits = omega arith;
}

abbrev two_payments : List WireTx
two_payments = WireTx.segwit 1 payment (((7 ∷ 8 ∷ []) ∷ [] ∷ []) ∷ []) ∷ WireTx.legacy payment ∷ []

two_payments-IsWireTx : All IsWireTx two_payments
two_payments-IsWireTx = (
  (omega arith, payment-IsTx, refl, ((omega arith, (omega arith, (omega arith, tt))), tt)),
  ((omega arith, payment-IsTx), tt),
)

read_txn-wire_example :
    read_txn toy_hash (all_bytes wire two_payments ++ (9 ∷ [])) 2
    ≡ some (map (the_transaction toy_hash) two_payments)
unfolding wire legacy_wire segwit_wire compact_size_encode
read_txn-wire_example =
    read_txn-wire toy_hash two_payments (9 ∷ []) two_payments-IsWireTx (omega arith)

abbrev pub small_header : RawHeader
small_header = record {
  version = 4;
  prev = replicate 32 1;
  root = replicate 32 2;
  time = 1231006505;
  bits = 0x1d00ffff;
  nonce = 7;
}

abbrev pub one_payment : List WireTx
one_payment = WireTx.legacy payment ∷ []

abbrev pub a_key : Bytes
a_key = 1 ∷ 2 ∷ 3 ∷ 4 ∷ 5 ∷ 6 ∷ 7 ∷ 8 ∷ []

read_block_from_blk_dat_file-block_file_example :
    read_block_from_blk_dat_file toy_hash a_key
      (block_file toy_hash a_key (9 ∷ 9 ∷ 9 ∷ []) 0xd9b4bef9 small_header one_payment (6 ∷ []))
      0
      11
    ≡ some (the_block toy_hash 0xd9b4bef9 small_header one_payment)
unfolding wire legacy_wire compact_size_encode header_bytes
read_block_from_blk_dat_file-block_file_example =
    read_block_from_blk_dat_file-block_file toy_hash a_key (9 ∷ 9 ∷ 9 ∷ []) (6 ∷ []) 0 0xd9b4bef9
      small_header one_payment (record { size = refl; bytes = ground arith }) (omega arith)
      (omega arith)
      (record {
        version_fits = omega arith;
        prev_size = refl;
        root_size = refl;
        time_fits = omega arith;
        bits_fits = omega arith;
        nonce_fits = omega arith;
      })
      ((omega arith, payment-IsTx), tt) (omega arith) (ground arith) (omega arith)

a_block_read :
    read_block_from_blk_dat_file toy_hash a_key
      (block_file toy_hash a_key (9 ∷ 9 ∷ 9 ∷ []) 0xd9b4bef9 small_header one_payment (6 ∷ []))
      0
      11
    ≡ some (the_block toy_hash 0xd9b4bef9 small_header one_payment)
unfolding wire legacy_wire compact_size_encode header_bytes
a_block_read =
    read_block_from_blk_dat_file-block_file toy_hash a_key (9 ∷ 9 ∷ 9 ∷ []) (6 ∷ []) 0 0xd9b4bef9
      small_header one_payment (record { size = refl; bytes = ground arith }) (omega arith)
      (omega arith)
      (record {
        version_fits = omega arith;
        prev_size = refl;
        root_size = refl;
        time_fits = omega arith;
        bits_fits = omega arith;
        nonce_fits = omega arith;
      })
      ((omega arith, payment-IsTx), tt) (omega arith) (ground arith) (omega arith)

read_block_from_blk_dat_file-free_block_example :
    ((freed : List Pointer) × (free_block (the_block toy_hash 0xd9b4bef9 small_header one_payment)
        ≡ some freed)
      × All IsReleased freed)
    × ((txs : List Transaction) × ((the_block toy_hash 0xd9b4bef9 small_header
            one_payment).transactions
          ≡ some txs)
        × (get_block_stats 3 4
              (record (the_block toy_hash 0xd9b4bef9 small_header one_payment) { height = some 7 })
            ≡ some (record {
              block_hash = (the_block toy_hash 0xd9b4bef9 small_header one_payment).hash;
              height = 7;
              ins = all_ins txs % 2 ^ 64;
              outs = all_outs txs % 2 ^ 64;
              time = (the_block toy_hash 0xd9b4bef9 small_header one_payment).header.time;
              total_out = (3 + all_amounts txs) % 2 ^ 64;
              total_size = (4 + all_sizes txs) % 2 ^ 64;
            })))
read_block_from_blk_dat_file-free_block_example =
    read_block_from_blk_dat_file-free_block toy_hash a_key
      (block_file toy_hash a_key (9 ∷ 9 ∷ 9 ∷ []) 0xd9b4bef9 small_header one_payment (6 ∷ [])) 0 11
      (the_block toy_hash 0xd9b4bef9 small_header one_payment) 7 3 4 (omega arith) (omega arith)
      a_block_read

-- Six files and five slots, all empty.
abbrev closed_infos : List FileInfo
closed_infos =
    closed_file (b'a' ∷ [])
    ∷ closed_file (b'b' ∷ [])
    ∷ closed_file (b'c' ∷ [])
    ∷ closed_file (b'd' ∷ [])
    ∷ closed_file (b'e' ∷ [])
    ∷ closed_file (b'f' ∷ [])
    ∷ []

abbrev empty_store : Store
empty_store = record {
  infos = closed_infos;
  open_files = replicate 5 (record { file_info = none; last_access_time = 0 });
}

all_closed :
    (infos : List FileInfo) (i : ℕ) (info : FileInfo)
    → All (λ x. x.is_open ≡ false) infos
    → get_elem? infos i ≡ some info
    → info.is_open ≡ false
all_closed [] i info closed e = cc
all_closed (x ∷ infos) zero info (c, closed) e =
    sym (ap (λ o. elim o as (λ _. Bool) [ none ↦ false | some y ↦ y.is_open ]) e) ∙ c
all_closed (x ∷ infos) (suc i) info (c, closed) e = all_closed infos i info closed e

empty_store-IsCoherent : IsCoherent empty_store
unfolding held
empty_store-IsCoherent = record {
  some_slot = omega arith;
  counted = λ i info e. sym (
      ap one_if
        (all_closed closed_infos i info (refl, (refl, (refl, (refl, (refl, (refl, tt)))))) e));
  handle = λ i info e o. absurd (
      no_both info.is_open o
        (all_closed closed_infos i info (refl, (refl, (refl, (refl, (refl, (refl, tt)))))) e));
  inside = λ i le. refl;
}
  where
    no_both : (b : Bool) → b ≡ true → b ≡ false → ⊥
    no_both b h e = cc

open_file-Opened_example :
    (r : Option ℕ) × (s' : Store) × (open_file (some 7) 1 5 empty_store ≡ some (r, s'))
    × Opened 5 empty_store r s'
open_file-Opened_example =
    open_file-Opened (some 7) 1 5 empty_store empty_store-IsCoherent (omega arith)

-- The sixth file takes a slot away, and `fopen` fails once.
abbrev requests : List Request
requests =
    (some 3, 1, 0)
    ∷ (some 4, 2, 1)
    ∷ (some 5, 3, 2)
    ∷ (none, 4, 3)
    ∷ (some 6, 5, 3)
    ∷ (some 7, 6, 4)
    ∷ (some 8, 7, 0)
    ∷ (some 9, 8, 5)
    ∷ []

open_each-IsCoherent_example :
    (s' : Store) × (open_each requests empty_store ≡ some s')
    × IsCoherent s'
    × (length s'.infos ≡ 6)
open_each-IsCoherent_example = open_each-IsCoherent requests empty_store empty_store-IsCoherent (
  omega arith,
  (
    omega arith,
    (omega arith, (omega arith, (omega arith, (omega arith, (omega arith, (omega arith, tt)))))),
  ),
)

abbrev pub one_file : Bytes
one_file = block_file toy_hash a_key (9 ∷ 9 ∷ 9 ∷ []) 0xd9b4bef9 small_header one_payment (6 ∷ [])

abbrev pub one_place : Table
one_place =
    some (record {
      block_hash = replicate 32 3;
      block_header = none;
      version = 1;
      height = 0;
      tx_count = 1;
      validation_status = 29;
      block_file = 0;
      block_offset = 11;
      undo_file = none;
      undo_offset = none;
    })
    ∷ []

abbrev first_block : Block
first_block = record (the_block toy_hash 0xd9b4bef9 small_header one_payment) { height = some 0 }

first_blocks :
    get_blocks toy_hash a_key (one_file ∷ []) 0 one_place 0 1
    ≡ some (record { blocks = first_block ∷ []; count = 1 })
unfolding get_blocks blocks_loop get_block record_at
first_blocks = rw a_block_read refl

get_blocks-get_block_example :
    (block : Block) × (get_elem? (first_block ∷ []) 0 ≡ some block)
    × (get_block toy_hash a_key (one_file ∷ []) 0 one_place (0 + 0) ≡ some block)
    × (block.height ≡ some (0 + 0))
    × (◌≡◌ {A = ℕ} 1 (length (first_block ∷ [])))
    × (1 ≤ 1024)
get_blocks-get_block_example =
    get_blocks-get_block toy_hash a_key (one_file ∷ []) 0 one_place 0 1
      (record { blocks = first_block ∷ []; count = 1 }) 0 first_blocks (omega arith)

get_blocks-free_blocks_example :
    (all : List (List Pointer)) × (free_blocks (record { blocks = first_block ∷ []; count = 1 })
      ≡ some all)
    × (length all ≡ length (first_block ∷ []))
get_blocks-free_blocks_example =
    get_blocks-free_blocks toy_hash a_key (one_file ∷ []) 0 one_place 0 1
      (record { blocks = first_block ∷ []; count = 1 }) first_blocks
