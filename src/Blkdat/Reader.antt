-- ===== src/Blkdat/Reader.antt =====
-- src/blkdat.c: a place in `blockBuffer`, and the two ways in which `ReadTxn` moves on.
pub mod Reads
use mlbtcc.Base.{ℕ, zero, suc, ◌+◌, ◌%◌, ◌^◌, Option, none, some, List, [], ◌∷◌, drop}
use mlbtcc.Base.Bytes.{Bytes, copy}
use mlbtcc.BigInts.CompactSize.{compact_size_decode}

-- `ahead` is what may be read from `blockBuffer + bufferOffset` on; `offset` is `bufferOffset`.
pub record Cursor : Type 0 where
  pub ahead : Bytes
  pub offset : ℕ

-- `bufferOffset += n`.
abbrev pub advance : ℕ → Cursor → Cursor
advance n c = record { ahead = drop n c.ahead; offset = c.offset + n }

-- A piece of code that reads and moves on. `none` is a read outside the buffer.
abbrev pub Reader : Type 0 → Type 0
Reader A = Cursor → Option (A × Cursor)

infixl 5 ◌>>=◌
abbrev pub ◌>>=◌ : {A B : Type 0} → Reader A → (A → Reader B) → Reader B
◌>>=◌ m f c = elim (m c) [ none ↦ none | some (a, c') ↦ f a c' ]

abbrev pub pure : {A : Type 0} → A → Reader A
pure a c = some (a, c)

-- `memcpy(dest, blockBuffer + bufferOffset, n); bufferOffset += n;`
pub read_bytes : ℕ → Reader Bytes
read_bytes n c = elim (copy n c.ahead) [ none ↦ none | some bytes ↦ some (bytes, advance n c) ]

-- `MAX_COMPACT_SIZE_BYTES`.
abbrev pub max_compact_size_bytes : ℕ
max_compact_size_bytes = 10

-- `bufferOffset += CompactSizeDecode(blockBuffer + bufferOffset, MAX_COMPACT_SIZE_BYTES, (U64 *)&count)`.
-- `count` is a U16, so it keeps the two lowest of the eight bytes; the others land on padding, or
-- on a pointer that is set afterwards. What `count` held before does not matter, since ten bytes
-- are enough for every form.
pub read_count : Reader ℕ
read_count c = elim (compact_size_decode (some c.ahead) max_compact_size_bytes (some 0)) [
  | none ↦ none
  | some (n, stored) ↦ elim stored [ none ↦ none | some value ↦ some (value % 2 ^ 16, advance n c) ]
]

-- A loop that reads `n` records in a row.
unfoldable pub read_many : {A : Type 0} → Reader A → ℕ → Reader (List A)
read_many read zero = pure []
read_many read (suc n) = do first ← read; others ← read_many read n; pure (first ∷ others)
