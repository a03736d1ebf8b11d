-- ===== src/Blkdat/Block/Layout.antt =====
-- A block as Bitcoin Core writes it to a block file, read back.
use mlbtcc.Base.{
  ℕ, ◌+◌, ◌%◌, ◌^◌, ◌<◌, ◌≡◌, ◌∙◌, refl, ap, sym, arith, none, some, List, [], ◌++◌, map,
}
use mlbtcc.Base.{
  length, length-append, append_assoc, append-nil, All, take, drop, drop-append_left,
  take_of_length-le,
}
use mlbtcc.Base.Bytes.{Bytes, IsByte, copy, copy-append, from_le, to_le, from_le-to_le}
use mlbtcc.BigInts.CompactSize.{compact_size_encode, compact_size_decode}
use mlbtcc.BigInts.CompactSize.RoundTrip.{
  compact_size_decode-compact_size_encode, length-compact_size_encode,
}
use mlbtcc.BitcoinSpecifics.Hash.{Sha256, double_sha256}
use mlbtcc.BitcoinSpecifics.Hash.Digest.{digest, double_sha256_lem}
use mlbtcc.BitcoinSpecifics.Header.{decode_block_header}
use mlbtcc.BitcoinSpecifics.Header.Layout.{
  RawHeader, IsHeader, header_bytes, length-header_bytes, drop_more,
  decode_block_header-header_bytes,
}
use mlbtcc.Blkdat.Reader.Reads.{all_bytes}
use mlbtcc.Blkdat.Txn.{read_txn}
use mlbtcc.Blkdat.Txn.Whole.{WireTx, wire, IsWireTx, the_transaction, read_txn-wire}
use mlbtcc.Blkdat.Block.{
  read_block_buffer, unmask, before, seek, read_at, read_block_from_blk_dat_file,
}
use mlbtcc.Blkdat.Block.Mask.{masked, IsKey, length-masked, masked-append, unmask-masked}
use mlbtcc.Structs.{Block, BlockHeader, Transaction}
use mathlib.Core.List.{reverse}

-- A header, a count and the transactions.
abbrev pub block_wire : RawHeader → List WireTx → Bytes
block_wire h ts = header_bytes h [] ++ (compact_size_encode (length ts) ++ all_bytes wire ts)

abbrev pub the_header : RawHeader → BlockHeader
the_header h = record {
  version = h.version % 256;
  prev_block_hash = reverse h.prev;
  merkle_root = reverse h.root;
  time = h.time;
  bits = h.bits;
  nonce = h.nonce;
}

module _ (hash_lib : Sha256) where
  abbrev pub the_block : ℕ → RawHeader → List WireTx → Block
  the_block magic h ts = record {
    magic = magic;
    block_size = length (block_wire h ts);
    tx_count = length ts;
    hash = reverse (digest hash_lib (digest hash_lib (header_bytes h [])));
    height = none;
    header = the_header h;
    transactions = some (map (the_transaction hash_lib) ts);
  }

  -- The steps of `read_block_buffer`, one after the other.
  buffer_steps :
      (magic size n value : ℕ) (buffer head hash : Bytes) (header : BlockHeader)
      (ts : List Transaction)
      → copy 80 buffer ≡ some head
      → decode_block_header head ≡ some header
      → compact_size_decode (some (drop 80 buffer)) 10 (some 0) ≡ some (n, some value)
      → read_txn hash_lib (drop (80 + n) buffer) (value % 2 ^ 16) ≡ some ts
      → double_sha256 hash_lib head 80 ≡ some hash
      → read_block_buffer hash_lib magic size buffer
        ≡ some (record {
          magic = magic;
          block_size = size;
          tx_count = value % 2 ^ 16;
          hash = hash;
          height = none;
          header = header;
          transactions = some ts;
        })
  unfolding read_block_buffer
  buffer_steps magic size n value buffer head hash header ts e1 e2 e3 e4 e5 =
      rw (e1, e2, e3, e4, e5) refl

  header_hash :
      (head : Bytes)
      → length head ≡ 80
      → double_sha256 hash_lib head 80 ≡ some (reverse (digest hash_lib (digest hash_lib head)))
  header_hash head h =
      (double_sha256_lem hash_lib head 80 (omega arith)).1
      ∙ ap (λ b. some (reverse (digest hash_lib (digest hash_lib b))))
          (take_of_length-le 80 head (omega arith))

  buffer_lem :
      (magic : ℕ) (h : RawHeader) (ts : List WireTx)
      → IsHeader h
      → All IsWireTx ts
      → length ts < 2 ^ 16
      → length (block_wire h ts) < 2 ^ 32
      → read_block_buffer hash_lib magic (length (block_wire h ts)) (block_wire h ts)
        ≡ some (the_block magic h ts)
  buffer_lem magic h ts w ws few small =
      let head = header_bytes h [] in
      let count = compact_size_encode (length ts) in
      let txs = all_bytes wire ts in
      let eighty = length-header_bytes h w in
      let short = length-compact_size_encode (length ts) (omega arith) in
      let kept : length ts % 2 ^ 16 ≡ length ts = omega arith in
      let behind : drop (80 + length count) (block_wire h ts) ≡ txs =
        drop_more 80 (length count) head (count ++ txs) eighty
        ∙ drop-append_left (length count) count txs refl in
      let fits : length txs < 2 ^ 64 =
        omega (arith, length-append head (count ++ txs), length-append count txs) in
      let all_read : read_txn hash_lib txs (length ts) ≡ some (map (the_transaction hash_lib) ts) =
        ap (λ (l : Bytes). read_txn hash_lib l (length ts)) (sym (append-nil txs))
        ∙ read_txn-wire hash_lib ts [] ws fits in
      buffer_steps magic (length (block_wire h ts)) (length count) (length ts) (block_wire h ts)
        head _ (the_header h) (map (the_transaction hash_lib) ts)
        (copy-append 80 head (count ++ txs) eighty) (decode_block_header-header_bytes h [] w)
        (rw (drop-append_left 80 head (count ++ txs) eighty) (
          compact_size_decode-compact_size_encode (length ts) 10 0 txs (omega arith) (omega arith)))
        (rw (behind, kept) all_read) (header_hash head eighty)
      ∙ ap (λ c. some (record (the_block magic h ts) { tx_count = c })) kept

  -- The steps of `read_block_from_blk_dat_file`.
  file_steps :
      (key file : Bytes) (current offset place magic size : ℕ)
      (masked_prefix raw_prefix masked_block buffer : Bytes)
      → before offset ≡ place
      → seek place current ≡ place
      → read_at file place 8 ≡ some masked_prefix
      → unmask key place masked_prefix ≡ some raw_prefix
      → from_le (take 4 raw_prefix) ≡ magic
      → from_le (drop 4 raw_prefix) ≡ size
      → read_at file (place + 8) size ≡ some masked_block
      → unmask key offset masked_block ≡ some buffer
      → read_block_from_blk_dat_file hash_lib key file current offset
        ≡ read_block_buffer hash_lib magic size buffer
  unfolding read_block_from_blk_dat_file
  file_steps key file current offset place magic size masked_prefix raw_prefix masked_block buffer
        e1 e2 e3 e4 e5 e6 e7 e8 =
      rw (e1, e2, e3, e4, e5, e6, e7, e8) refl

  read_at_lem :
      (front bytes after : Bytes) (place n : ℕ)
      → length front ≡ place
      → length bytes ≡ n
      → read_at (front ++ (bytes ++ after)) place n ≡ some bytes
  unfolding read_at
  read_at_lem front bytes after place n h e =
      rw (drop-append_left place front (bytes ++ after) h) (copy-append n bytes after e)

  -- A block file that holds, behind `front`, a block's magic number, its size and its bytes, all
  -- XORed with the key from that place of the file on.
  abbrev pub block_file : Bytes → Bytes → ℕ → RawHeader → List WireTx → Bytes → Bytes
  block_file key front magic h ts after =
      let size = length (block_wire h ts) in
      front
      ++ (masked key (length front) ((to_le 4 magic ++ to_le 4 size) ++ block_wire h ts) ++ after)

  -- For every key of eight bytes, zero or not, `read_block_from_blk_dat_file` reads back the block
  -- whose bytes start at the offset: magic number, size, count, header, hash and transactions are
  -- the block's, wherever the file stood before and whatever stands around the block. The
  -- transactions are as `read_txn` gives them, fewer than 2 ^ 16, the header's version is its
  -- lowest byte, the block is smaller than 2 ^ 32 bytes, and the offset fits a signed long.
  pub read_block_from_blk_dat_file-block_file :
      (key front after : Bytes) (current magic : ℕ) (h : RawHeader) (ts : List WireTx)
      → IsKey key
      → length front + 8 < 2 ^ 63
      → magic < 2 ^ 32
      → IsHeader h
      → All IsWireTx ts
      → length ts < 2 ^ 16
      → All IsByte (block_wire h ts)
      → length (block_wire h ts) < 2 ^ 32
      → read_block_from_blk_dat_file hash_lib key
          (block_file key front magic h ts after)
          current
          (length front + 8)
        ≡ some (the_block magic h ts)
  unfolding before seek
  read_block_from_blk_dat_file-block_file key front after current magic h ts k near hm w ws few
        octets small =
      let place = length front in
      let block = block_wire h ts in
      let size = length block in
      let prefix = to_le 4 magic ++ to_le 4 size in
      let hidden_prefix = masked key place prefix in
      let hidden = masked key (place + 8) block in
      let file : block_file key front magic h ts after
          ≡ front ++ (hidden_prefix ++ (hidden ++ after)) =
        ap (λ (l : Bytes). front ++ (l ++ after)) (masked-append key place prefix block)
        ∙ ap (λ (l : Bytes). front ++ l) (append_assoc hidden_prefix hidden after) in
      let file' : front ++ (hidden_prefix ++ (hidden ++ after))
          ≡ (front ++ hidden_prefix) ++ (hidden ++ after) =
        sym (append_assoc front hidden_prefix (hidden ++ after)) in
      let eight : length hidden_prefix ≡ 8 = length-masked key place prefix in
      let start : length (front ++ hidden_prefix) ≡ place + 8 =
        omega (arith, length-append front hidden_prefix) in
      ap (λ (l : Bytes). read_block_from_blk_dat_file hash_lib key l current (place + 8)) file
      ∙ file_steps key (front ++ (hidden_prefix ++ (hidden ++ after))) current (place + 8) place
          magic size hidden_prefix prefix hidden block (omega arith) (ground arith)
          (read_at_lem front hidden_prefix (hidden ++ after) place 8 refl eight)
          (unmask-masked key place prefix k (ground arith)) (from_le-to_le 4 magic hm)
          (from_le-to_le 4 size small)
          (rw file' (
            read_at_lem (front ++ hidden_prefix) hidden after (place + 8) size start
              (length-masked key (place + 8) block)))
          (unmask-masked key (place + 8) block k octets)
      ∙ buffer_lem magic h ts w ws few small
