-- ===== src/BitcoinSpecifics/Hash/Digest.antt =====
-- The hashes as functions of the bytes they read.
use mlbtcc.Base.{ℕ, ◌≤◌, ◌<◌, ◌≡◌, none, some, arith, length, take}
use mlbtcc.Base.Bytes.{Bytes, copy_of_le, copy_of_lt, copy_whole}
use mlbtcc.BitcoinSpecifics.Reverse.{reverse_string}
use mlbtcc.BitcoinSpecifics.Reverse.Swaps.{reverse_string_whole}
use mlbtcc.BitcoinSpecifics.Hash.{Sha256, sha256, double_sha256}
use mathlib.Core.List.{reverse}

module _ (hash_lib : Sha256) where
  open hash_lib use {Context, init, update, final, length-final}

  -- The digest of a message.
  abbrev pub digest : Bytes → Bytes
  digest message = final (update init message)

  reverse-digest :
      (message : Bytes) → reverse_string (digest message) 32 ≡ some (reverse (digest message))
  reverse-digest message =
      reverse_string_whole 32 (digest message) (length-final _) (omega arith) (omega arith)

  -- With `size` readable bytes, `double_sha256` leaves the reversed digest of the digest of
  -- exactly those bytes, and `sha256` their reversed digest.
  pub double_sha256_lem :
      (bytes : Bytes) (size : ℕ)
      → size ≤ length bytes
      → (sha256 hash_lib bytes size ≡ some (reverse (digest (take size bytes))))
        × (double_sha256 hash_lib bytes size ≡ some (reverse (digest (digest (take size bytes)))))
  unfolding sha256 double_sha256
  double_sha256_lem bytes size h = rw (copy_of_le size bytes h) (
    reverse-digest (take size bytes),
    rw (copy_whole 32 (digest (take size bytes)) (length-final _)) (reverse-digest _),
  )

  -- A message that reaches behind the readable bytes is a fault.
  pub double_sha256_short :
      (bytes : Bytes) (size : ℕ) → length bytes < size → double_sha256 hash_lib bytes size ≡ none
  unfolding double_sha256
  double_sha256_short bytes size h = rw (copy_of_lt size bytes h)
