-- ===== src/Blkdat/Block/Uses.antt =====
-- A block that was read from a file, whatever the file holds, can be freed and summed up.
use mlbtcc.Base.{
  ℕ, ◌+◌, ◌%◌, ◌^◌, ◌<◌, ◌≡◌, refl, ap, sym, Option, none, some, ◌>>=◌, List, [], ◌∷◌, length, take,
  drop, All,
}
use mlbtcc.Base.Bytes.{Bytes, copy, from_le}
use mlbtcc.BigInts.CompactSize.{compact_size_decode}
use mlbtcc.BitcoinSpecifics.Hash.{Sha256, double_sha256}
use mlbtcc.BitcoinSpecifics.Header.{decode_block_header}
use mlbtcc.Blkdat.Reader.{max_compact_size_bytes}
use mlbtcc.Blkdat.Block.{
  before, seek, read_at, unmask, read_block_buffer, read_block_from_blk_dat_file,
}
use mlbtcc.Blkdat.Txn.{read_txn}
use mlbtcc.Blkdat.Txn.Counts.{read_txn-IsOwned}
use mlbtcc.Api.Stats.{get_block_stats}
use mlbtcc.Api.Stats.Totals.{
  IsCounted, all_ins, all_outs, all_amounts, all_sizes, get_block_stats_lem,
}
use mlbtcc.Release.{Pointer, free_block}
use mlbtcc.Release.Leaks.{IsOwned, IsReleased, free_block-IsReleased}
use mlbtcc.Structs.{Block, Transaction}

-- The counts of a block and of its transactions are those of its arrays.
abbrev pub IsWhole : Block → Type 0
IsWhole block =
    (txs : List Transaction) × (block.transactions ≡ some txs)
    × (block.tx_count ≡ length txs)
    × All IsOwned txs

-- The result of a step that succeeds has the property.
abbrev pub Yields : {A : Type 0} → (A → Type 0) → Option A → Type 0
Yields {A = A} P o = (a : A) → o ≡ some a → P a

Yields-bind :
    {A B : Type 0} (P : B → Type 0) (m : Option A) (f : A → Option B)
    → ((a : A) → m ≡ some a → Yields P (f a))
    → Yields P (m >>= f)
Yields-bind P none f h b e = cc
Yields-bind P (some a) f h b e = h a refl b e

Yields-some : {A : Type 0} (P : A → Type 0) (a : A) → P a → Yields P (some a)
Yields-some {A = A} P a p b e =
    let q : a ≡ b = ap (λ o. elim o as (λ _. A) [ none ↦ a | some x ↦ x ]) e in rw (sym q) p

read_block_buffer-IsWhole :
    (hash_lib : Sha256) (magic block_size : ℕ) (block_buffer : Bytes)
    → Yields IsWhole (read_block_buffer hash_lib magic block_size block_buffer)
unfolding read_block_buffer
read_block_buffer-IsWhole hash_lib magic block_size block_buffer =
    Yields-bind IsWhole (copy 80 block_buffer) _ (λ header_buffer _.
      Yields-bind IsWhole (decode_block_header header_buffer) _ (λ header _.
        Yields-bind IsWhole
          (compact_size_decode (some (drop 80 block_buffer)) max_compact_size_bytes (some 0)) _
          (λ r _. Yields-bind IsWhole (r.1) _ (λ value _.
            Yields-bind IsWhole (read_txn hash_lib (drop (80 + r.0) block_buffer) (value % 2 ^ 16))
              _
              (λ txs e. Yields-bind IsWhole (double_sha256 hash_lib header_buffer 80) _ (λ hash _.
                let w =
                  read_txn-IsOwned hash_lib (drop (80 + r.0) block_buffer) (value % 2 ^ 16) txs e in
                Yields-some IsWhole _ (txs, refl, w.0, w.1)))))))

pub read_block-IsWhole :
    (hash_lib : Sha256) (key file : Bytes) (current offset : ℕ)
    → Yields IsWhole (read_block_from_blk_dat_file hash_lib key file current offset)
unfolding read_block_from_blk_dat_file
read_block-IsWhole hash_lib key file current offset = Yields-bind IsWhole _ _ (λ masked_prefix _.
    Yields-bind IsWhole (unmask key (before offset) masked_prefix) _ (λ raw_prefix _.
      Yields-bind IsWhole
        (read_at file (seek (before offset) current + 8) (from_le (drop 4 raw_prefix))) _
        (λ masked _. Yields-bind IsWhole (unmask key offset masked) _ (λ block_buffer _.
          read_block_buffer-IsWhole hash_lib (from_le (take 4 raw_prefix))
            (from_le (drop 4 raw_prefix)) block_buffer))))

outputs-IsCounted : (txs : List Transaction) → All IsOwned txs → All IsCounted txs
outputs-IsCounted [] h = tt
outputs-IsCounted (tx ∷ txs) (w, h) = (w.outputs_counted, outputs-IsCounted txs h)

-- Whatever a block file holds, and whatever key it is read with: when a block comes out of it,
-- `free_block` ends on it and releases no array of inputs, outputs or witnesses, and, once its
-- height is set, `get_block_stats` ends with the sums of its transactions' counts, sizes and amounts,
-- the last two on top of what stood in their place.
pub read_block_from_blk_dat_file-free_block :
    (hash_lib : Sha256) (key file : Bytes) (current offset : ℕ) (block : Block)
    (height stale_out stale_size : ℕ)
    → stale_out < 2 ^ 64
    → stale_size < 2 ^ 64
    → read_block_from_blk_dat_file hash_lib key file current offset ≡ some block
    → ((freed : List Pointer) × (free_block block ≡ some freed) × All IsReleased freed)
      × ((txs : List Transaction) × (block.transactions ≡ some txs)
          × (get_block_stats stale_out stale_size (record block { height = some height })
              ≡ some (record {
                block_hash = block.hash;
                height = height;
                ins = all_ins txs % 2 ^ 64;
                outs = all_outs txs % 2 ^ 64;
                time = block.header.time;
                total_out = (stale_out + all_amounts txs) % 2 ^ 64;
                total_size = (stale_size + all_sizes txs) % 2 ^ 64;
              })))
read_block_from_blk_dat_file-free_block hash_lib key file current offset block height stale_out
      stale_size ho hs e =
    let (txs, t, n, owned) = read_block-IsWhole hash_lib key file current offset block e in
    (
      free_block-IsReleased block txs t n owned,
      (
        txs,
        t,
        get_block_stats_lem stale_out stale_size height (record block { height = some height }) txs
            ho hs refl t n (outputs-IsCounted txs owned),
      ),
    )
