-- ===== src/Indexing/Records/Index.antt =====
-- The record that is made of an entry of the block index.
use mlbtcc.Base.{
  ℕ, ◌+◌, ◌%◌, ◌^◌, ◌<◌, ◌≡◌, ◌∙◌, refl, ap, arith, Option, some, [], ◌∷◌, ◌++◌, true,
}
use mlbtcc.Base.{length, length-append, drop, drop-append_left, length-drop}
use mlbtcc.Base.Bytes.{Bytes}
use mlbtcc.BigInts.Varint128.{decode_varint128}
use mlbtcc.BigInts.Varint128.Decode.{index_varint}
use mlbtcc.BitcoinSpecifics.Header.Layout.{header_bytes, length-header_bytes}
use mlbtcc.Indexing.Records.{
  next_number, key_hash, undo_fields, last_header, get_block_index_record,
}
use mlbtcc.Indexing.Records.Entries.{
  drop-drop, number_at, key_hash_lem, undo_fields_lem, last_header_lem,
}
use mlbtcc.Indexing.Records.Entries.{
  Entry, IsEntry, has_data, has_undo, when, entry_wire, entry_wire-has_data, if_there,
}
use mlbtcc.Structs.{BlockHeader, BlockIndexRecord}
use mathlib.Core.List.{reverse}

-- The record of an entry that has the block's data; `number` is what its header's bytes give when a
-- number is read from them.
abbrev pub the_record : Bytes → Entry → ℕ → BlockIndexRecord
the_record hash e number = record {
  block_hash = reverse hash;
  block_header = some (record {
    version = e.header.version % 256;
    prev_block_hash = reverse e.header.prev;
    merkle_root = reverse e.header.root;
    time = e.header.time;
    bits = e.header.bits;
    nonce = e.header.nonce;
  });
  version = e.version;
  height = e.height;
  tx_count = e.tx_count;
  validation_status = e.status;
  block_file = e.file;
  block_offset = e.position;
  undo_file = if_there (has_undo e.status) e.undo_position;
  undo_offset = if_there (has_undo e.status) number;
}

-- The steps of `get_block_index_record`, one after the other.
record_steps :
    (key value hash : Bytes) (n version o1 height o2 status o3 count o4 file o5 position o6 : ℕ)
    (undo_file undo_offset : Option ℕ) (header : Option BlockHeader)
    → key_hash key ≡ some hash
    → next_number value 0 ≡ some (version, o1)
    → next_number value o1 ≡ some (height, o2)
    → next_number value o2 ≡ some (status, o3)
    → next_number value o3 ≡ some (count, o4)
    → next_number value o4 ≡ some (file, o5)
    → next_number value o5 ≡ some (position, o6)
    → undo_fields value n o6 ≡ some (undo_file, undo_offset)
    → last_header value n ≡ some header
    → status % 2 ^ 32 ≡ status
    → get_block_index_record key value n
      ≡ some (record {
        block_hash = hash;
        block_header = header;
        version = version;
        height = height;
        tx_count = count;
        validation_status = status;
        block_file = file;
        block_offset = position;
        undo_file = undo_file;
        undo_offset = undo_offset;
      })
unfolding get_block_index_record
record_steps key value hash n version o1 height o2 status o3 count o4 file o5 position o6 undo_file
      undo_offset header e0 e1 e2 e3 e4 e5 e6 e7 e8 e9 =
    rw (e0, e1, e2, e3, e4, e5, e6, e7, e8, e9) refl

-- `get_block_index_record` on a byte and a block's hash, and on the block's entry as Bitcoin Core
-- writes it, with the block's data: the record has the hash reversed and the entry's version, height,
-- status, number of transactions, file, place and header, of whose version the lowest byte is kept.
-- Without undo data the two undo fields are not set. With it Core writes its place only: this place
-- becomes the number of the undo file, and the undo data's place is read from the header's bytes,
-- where a number is to be read. Every number is below 2 ^ 64, the status below 2 ^ 32.
pub get_block_index_record-entry_wire :
    (prefix : ℕ) (hash more : Bytes) (e : Entry) (k number : ℕ)
    → length hash ≡ 32
    → IsEntry e
    → has_data e.status ≡ true
    → decode_varint128 (header_bytes e.header []) ≡ some (k, number)
    → length (entry_wire e) < 2 ^ 64
    → get_block_index_record (prefix ∷ (hash ++ more)) (entry_wire e) (length (entry_wire e))
      ≡ some (the_record hash e number)
get_block_index_record-entry_wire prefix hash more e k number h w there d small =
    let value = entry_wire e in
    let header = header_bytes e.header [] in
    let undo = when (has_undo e.status) (index_varint e.undo_position) in
    let eighty = length-header_bytes e.header w.header_ok in
    let (n1, d1) = number_at value _ 0 e.version w.version_fits (entry_wire-has_data e there) in
    let (n2, d2) = number_at value _ _ e.height w.height_fits d1 in
    let (n3, d3) = number_at value _ _ e.status (omega (arith, w.status_fits)) d2 in
    let (n4, d4) = number_at value _ _ e.tx_count w.tx_count_fits d3 in
    let (n5, d5) = number_at value _ _ e.file w.file_fits d4 in
    let (n6, d6) = number_at value (undo ++ header) _ e.position w.position_fits d5 in
    let o6 =
      0
      + length (index_varint e.version)
      + length (index_varint e.height)
      + length (index_varint e.status)
      + length (index_varint e.tx_count)
      + length (index_varint e.file)
      + length (index_varint e.position) in
    let left : length (drop o6 value) ≡ length undo + 80 =
      omega (arith, ap (λ (l : Bytes). length l) d6, length-append undo header) in
    let last : drop (o6 + length undo) value ≡ header =
      drop-drop o6 (length undo) value
      ∙ ap (λ (l : Bytes). drop (length undo) l) d6
      ∙ drop-append_left (length undo) undo header refl in
    record_steps _ value _ _ _ _ _ _ _ _ _ _ _ _ _ _ _ _ _ (key_hash_lem prefix hash more h) n1 n2
      n3 n4 n5 n6
      (undo_fields_lem (has_undo e.status) e.undo_position value header o6 k number
        w.undo_position_fits eighty d (omega (arith, left, length-drop o6 value)) small d6)
      (last_header_lem value e.header (o6 + length undo) w.header_ok
        (omega (arith, left, length-drop o6 value)) last)
      (omega (arith, w.status_fits))
