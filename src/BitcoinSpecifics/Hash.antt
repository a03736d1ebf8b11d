-- ===== src/BitcoinSpecifics/Hash.antt =====
-- src/bitcoin-specifics.c, `SHA256` and `DoubleSHA256`. The hash itself is src/extern/sha256, a
-- library that the program copies: its three functions are a parameter here.
pub mod Digest
use mlbtcc.Base.{ℕ, Option, none, some, ◌≡◌, ◌>>=◌, length}
use mlbtcc.Base.Bytes.{Bytes, copy}
use mlbtcc.BitcoinSpecifics.Reverse.{reverse_string}

-- `sha256_init`, `sha256_update` and `sha256_final`. A digest has 32 bytes.
pub record Sha256 : Type 1 where
  pub Context : Type 0
  pub init : Context
  pub update : Context → Bytes → Context
  pub final : Context → Bytes
  pub length-final : (c : Context) → length (final c) ≡ 32

module _ (hash_lib : Sha256) where
  open hash_lib use {Context, init, update, final}

  -- What the two functions leave in `hash`.
  pub sha256 : Bytes → ℕ → Option Bytes
  sha256 bytes size = do input ← copy size bytes; reverse_string (final (update init input)) 32

  pub double_sha256 : Bytes → ℕ → Option Bytes
  double_sha256 bytes size = do
    input ← copy size bytes
    let hash = final (update init input)
    first ← copy 32 hash
    reverse_string (final (update init first)) 32
