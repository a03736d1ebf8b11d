-- ===== src/Indexing/Records/Entries.antt =====
-- Entries of the block index and of the coin database in Bitcoin Core's format.
use mlbtcc.Base.{
  ℕ, ◌+◌, ◌-◌, ◌*◌, ◌/◌, ◌%◌, ◌^◌, ◌<◌, ◌≤◌, ◌≡◌, ◌∙◌, refl, ap, arith, Option, none, some, [], ◌∷◌,
  ◌++◌,
}
use mlbtcc.Base.{
  length, length-append, drop, drop-append_left, length-drop, Bool, true, false, not, ◌||◌, ◌==◌,
  ltb, leb, if◌then◌else◌, bit_and,
}
use native.Mathlib.Nat.{zero-add, suc-add}
use mlbtcc.Base.{zero, suc}
use mlbtcc.Base.Bytes.{Bytes, copy-append}
use mlbtcc.Base.Bits.{bit_and-ones}
use mlbtcc.BigInts.Varint128.{decode_varint128}
use mlbtcc.BigInts.Varint128.Decode.{leading, index_varint, decode_varint128-index_varint}
use mlbtcc.BitcoinSpecifics.Header.Layout.{
  RawHeader, IsHeader, header_bytes, length-header_bytes, decode_block_header-header_bytes,
}
use mlbtcc.BitcoinSpecifics.Reverse.Swaps.{reverse_string_whole}
use mlbtcc.Indexing.Records.{next_number, key_hash, undo_fields, last_header}
use mlbtcc.Indexing.Records.{get_coin_record}
use mathlib.Core.List.{reverse}

pub drop-drop : (m n : ℕ) (bytes : Bytes) → drop (m + n) bytes ≡ drop n (drop m bytes)
drop-drop zero n bytes = ground (arith, zero-add n)
drop-drop (suc m) zero [] = ground arith
drop-drop (suc m) (suc n) [] = ground (arith, suc-add m (suc n))
drop-drop (suc m) n (byte ∷ bytes) = ground (arith, suc-add m n, drop-drop m n bytes)

-- A number that stands at an offset is read, and what follows it stands behind it.
pub number_at :
    (value rest : Bytes) (offset v : ℕ)
    → v < 2 ^ 64
    → drop offset value ≡ index_varint v ++ rest
    → (next_number value offset ≡ some (v, offset + length (index_varint v)))
      × (drop (offset + length (index_varint v)) value ≡ rest)
unfolding next_number
number_at value rest offset v h e = (
  rw e (rw (decode_varint128-index_varint v rest h) refl),
  rw (drop-drop offset (length (index_varint v)) value)
      (rw e (drop-append_left (length (index_varint v)) (index_varint v) rest refl)),
)

-- The number that is decoded from an offset on.
number_in :
    (value rest : Bytes) (offset k number : ℕ)
    → decode_varint128 rest ≡ some (k, number)
    → drop offset value ≡ rest
    → next_number value offset ≡ some (number, offset + k)
unfolding next_number
number_in value rest offset k number d e = rw e (rw d refl)

pub key_hash_lem :
    (prefix : ℕ) (hash rest : Bytes)
    → length hash ≡ 32
    → key_hash (prefix ∷ (hash ++ rest)) ≡ some (reverse hash)
unfolding key_hash
key_hash_lem prefix hash rest h =
    rw (copy-append 32 hash rest h) (reverse_string_whole 32 hash h (omega arith) (omega arith))

-- `get_coin_record` on a key, a byte and 32 bytes of a hash, and on a value that starts with the
-- number `2 * height + coinbase` and another number in the block index's format returns the
-- reversed hash, the height and the flag, for every height below 2 ^ 31.
pub get_coin_record-index_varint :
    (prefix : ℕ) (hash more rest : Bytes) (height coinbase amount : ℕ)
    → length hash ≡ 32
    → height < 2 ^ 31
    → coinbase < 2
    → amount < 2 ^ 64
    → get_coin_record
        (prefix ∷ (hash ++ more))
        (index_varint (2 * height + coinbase) ++ (index_varint amount ++ rest))
      ≡ some (record { txid = reverse hash; height = height; coinbase = coinbase })
unfolding get_coin_record
get_coin_record-index_varint prefix hash more rest height coinbase amount h small bit fits =
    let code = 2 * height + coinbase in
    let value = index_varint code ++ (index_varint amount ++ rest) in
    let (e1, d1) = number_at value _ 0 code (omega arith) refl in
    let (e2, d2) = number_at value _ _ amount fits d1 in
    rw (key_hash_lem prefix hash more h) (rw (e1, e2) (ground (arith, bit_and-ones 1 code)))

-- The fields of an entry of the block index. A block has one file number, for its data and for its
-- undo data.
pub record Entry : Type 0 where
  pub version : ℕ
  pub height : ℕ
  pub status : ℕ
  pub tx_count : ℕ
  pub file : ℕ
  pub position : ℕ
  pub undo_position : ℕ
  pub header : RawHeader

pub record IsEntry (e : Entry) : Type 0 where
  pub version_fits : e.version < 2 ^ 64
  pub height_fits : e.height < 2 ^ 64
  pub status_fits : e.status < 2 ^ 32
  pub tx_count_fits : e.tx_count < 2 ^ 64
  pub file_fits : e.file < 2 ^ 64
  pub position_fits : e.position < 2 ^ 64
  pub undo_position_fits : e.undo_position < 2 ^ 64
  pub header_ok : IsHeader e.header

-- `BLOCK_HAVE_DATA` and `BLOCK_HAVE_UNDO` of a status.
abbrev pub has_data : ℕ → Bool
has_data status = not (bit_and status 8 == 0)

abbrev pub has_undo : ℕ → Bool
has_undo status = not (bit_and status 16 == 0)

abbrev pub when : Bool → Bytes → Bytes
when there bytes = if there then bytes else []

-- An entry as Bitcoin Core writes it: four numbers, the file's number if there is data or undo data
-- in it, the data's place if there is data, the undo data's place if there is undo data, and the
-- header.
unfoldable pub entry_wire : Entry → Bytes
entry_wire e =
    index_varint e.version
    ++ (index_varint e.height
        ++ (index_varint e.status
            ++ (index_varint e.tx_count
                ++ (when (has_data e.status || has_undo e.status) (index_varint e.file)
                    ++ (when (has_data e.status) (index_varint e.position)
                        ++ (when (has_undo e.status) (index_varint e.undo_position)
                            ++ header_bytes e.header []))))))

-- With the block's data.
pub entry_wire-has_data :
    (e : Entry)
    → has_data e.status ≡ true
    → entry_wire e
      ≡ index_varint e.version
        ++ (index_varint e.height
            ++ (index_varint e.status
                ++ (index_varint e.tx_count
                    ++ (index_varint e.file
                        ++ (index_varint e.position
                            ++ (when (has_undo e.status) (index_varint e.undo_position)
                                ++ header_bytes e.header []))))))
unfolding entry_wire
entry_wire-has_data e h = rw h refl

index_varint-positive : (v : ℕ) → 0 < length (index_varint v)
unfolding index_varint
index_varint-positive v = ground (arith, length-append (leading 8 (v / 128 - 1)) (v % 128 ∷ []))

abbrev pub if_there : Bool → ℕ → Option ℕ
if_there there value = if there then some value else none

-- The undo fields are read exactly when there is something before the last 80 bytes. What is there is
-- one number, so the second one is read from the header's bytes.
pub undo_fields_lem :
    (there : Bool) (position : ℕ) (value header : Bytes) (offset k number : ℕ)
    → position < 2 ^ 64
    → length header ≡ 80
    → decode_varint128 header ≡ some (k, number)
    → offset ≤ length value
    → length value < 2 ^ 64
    → drop offset value ≡ when there (index_varint position) ++ header
    → undo_fields value (length value) offset
      ≡ some (if_there there position, if_there there number)
unfolding undo_fields
undo_fields_lem false position value header offset k number hp h d inside small e =
    ground (arith, length-drop offset value, ap (λ (l : Bytes). length l) e)
undo_fields_lem true position value header offset k number hp h d inside small e =
    let (n1, d1) = number_at value header offset position hp e in
    let n2 = number_in value header (offset + length (index_varint position)) k number d d1 in
    let sizes : length (drop offset value) ≡ length (index_varint position) + 80 =
      omega (arith, ap (λ (l : Bytes). length l) e, length-append (index_varint position) header) in
    let guard : ltb offset ((length value + 2 ^ 64 - 80) % 2 ^ 64) ≡ true =
      ground (arith, sizes, length-drop offset value, index_varint-positive position) in
    rw guard (rw (n1, n2) refl)

pub last_header_lem :
    (value : Bytes) (h : RawHeader) (offset : ℕ)
    → IsHeader h
    → offset ≤ length value
    → drop offset value ≡ header_bytes h []
    → last_header value (length value)
      ≡ some (
          some (record {
            version = h.version % 256;
            prev_block_hash = reverse h.prev;
            merkle_root = reverse h.root;
            time = h.time;
            bits = h.bits;
            nonce = h.nonce;
          }))
unfolding last_header
last_header_lem value h offset w inside e =
    let left = length-drop offset value in
    let eighty : length (drop offset value) ≡ 80 =
      ap (λ (l : Bytes). length l) e ∙ length-header_bytes h w in
    let place : length value - 80 ≡ offset = omega arith in
    let enough : leb 80 (length value) ≡ true = ground arith in
    rw enough (rw (place, e, decode_block_header-header_bytes h [] w) refl)
