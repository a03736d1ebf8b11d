-- ===== src/Blkdat/Txn/Sizes.antt =====
-- The size and the hash that `ReadTxn` gives a transaction.
use mlbtcc.Base.{ℕ, ◌+◌, ◌%◌, ◌^◌, ◌<◌, ◌≤◌, ◌≡◌, ◌∙◌, refl, ap, arith, some, ◌++◌, length, take}
use mlbtcc.Base.{length-append, take-append_le, take_of_length-le, length-take}
use mlbtcc.Base.Bytes.{Bytes, copy_of_le}
use mlbtcc.BitcoinSpecifics.Hash.{Sha256, double_sha256}
use mlbtcc.BitcoinSpecifics.Hash.Digest.{digest, double_sha256_lem}
use mlbtcc.Blkdat.Reader.Reads.{place}
use mlbtcc.Blkdat.Txn.{transaction_size, finish}
use mlbtcc.Structs.{Transaction}
use mathlib.Core.List.{reverse}

pub transaction_size_lem :
    (offset n : ℕ) → offset + n < 2 ^ 64 → transaction_size (offset + n) offset ≡ n % 2 ^ 16
unfolding transaction_size
transaction_size_lem offset n h = omega arith

module _ (hash_lib : Sha256) where
  -- The double digest of the bytes that the size counts, in display order.
  abbrev pub hash_of : Bytes → Bytes
  hash_of wire = reverse (digest hash_lib (digest hash_lib (take (length wire % 2 ^ 16) wire)))

  abbrev pub sealed : Bytes → Transaction → Transaction
  sealed wire transaction = record transaction {
    size = length wire % 2 ^ 16;
    txid = hash_of wire;
    wtxid = hash_of wire;
  }

  -- The hash of the first bytes of what is ahead.
  hash_ahead :
      (wire rest : Bytes) (n : ℕ)
      → n ≤ length wire
      → double_sha256 hash_lib (take n (wire ++ rest)) n
        ≡ some (reverse (digest hash_lib (digest hash_lib (take n wire))))
  hash_ahead wire rest n h = rw (take-append_le n wire rest h) (
      (double_sha256_lem hash_lib (take n wire) n (omega (arith, length-take n wire))).1
      ∙ ap (λ b. some (reverse (digest hash_lib (digest hash_lib b))))
          (take_of_length-le n (take n wire) (omega (arith, length-take n wire))))

  pub finish_lem :
      (wire rest : Bytes) (offset : ℕ) (transaction : Transaction)
      → offset + length wire < 2 ^ 64
      → finish hash_lib
          (place (wire ++ rest) offset)
          transaction
          (place rest (offset + length wire))
        ≡ some (sealed wire transaction, place rest (offset + length wire))
  unfolding finish
  finish_lem wire rest offset transaction h = rw (transaction_size_lem offset (length wire) h) (
      rw (copy_of_le (length wire % 2 ^ 16) (wire ++ rest) (omega (arith, length-append wire rest)))
        (rw (hash_ahead wire rest (length wire % 2 ^ 16) (omega arith)) refl))
