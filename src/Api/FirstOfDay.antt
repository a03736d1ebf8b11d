-- ===== src/Api/FirstOfDay.antt =====
-- `GetFirstBlockOfDate` of src/API.c on a table without gaps, as a search in the list of the blocks.
use mlbtcc.Base.{
  ℕ, suc, ◌+◌, ◌-◌, ◌*◌, ◌/◌, ◌%◌, ◌^◌, ◌≤◌, ◌≡◌, ◌∙◌, refl, ap, sym, arith, Option, none, some,
  ◌>>=◌, Bool, true, false, ◌&&◌, List, [], ◌∷◌, ◌==◌, ltb, leb, if◌then◌else◌, length, map,
}
use mlbtcc.Base.Bytes.{Bytes}
use mlbtcc.BitcoinSpecifics.Hash.{Sha256}
use mlbtcc.Structs.{Block, BlockHeader, BlockIndexRecord}
use mlbtcc.Api.{
  Table, record_at, day_start, day_end, in_window, first_loop, get_block, get_first_block_of_date,
  zero_block,
}

-- A record and its header.
abbrev pub Indexed : Type 0
Indexed = BlockIndexRecord × BlockHeader

abbrev pub place_of : Indexed → Option BlockIndexRecord
place_of (r, header) = some (record r { block_header = some header })

abbrev pub table_of : List Indexed → Table
table_of blocks = map place_of blocks

abbrev pub first_where : (Indexed → Bool) → List Indexed → Option Indexed
first_where test [] = none
first_where test (block ∷ blocks) = if test block then some block else first_where test blocks

-- The time of a block in the 86400 seconds from one on.
abbrev pub in_day_from : ℕ → Indexed → Bool
in_day_from start (r, header) = leb start header.time && ltb header.time (start + 86400)

-- The time of a block on a day, counted from 1970 on in UTC.
abbrev pub on_day : ℕ → Indexed → Bool
on_day day (r, header) = header.time / 86400 == day

module _ (hash_lib : Sha256) (key : Bytes) (files : List Bytes) (current : ℕ) where
  -- The block at the record's height, or `(Block){0}`.
  abbrev pub block_of : Table → Option Indexed → Option Block
  block_of table none = some zero_block
  block_of table (some block) = get_block hash_lib key files current table (block.0.height % 2 ^ 32)

  window_step :
      (table : Table) (start i : ℕ) (block : Indexed)
      → record_at table i ≡ place_of block
      → in_window table start (start + 86399) i
        ≡ some (record (block.0) { block_header = some (block.1) }, in_day_from start block)
  unfolding in_window
  window_step table start i (r, header) e =
      let last : leb header.time (start + 86399) ≡ ltb header.time (start + 86400) = ground arith in
      rw e
        (ap (λ b. some (record r { block_header = some header }, leb start header.time && b)) last)

  chosen :
      (table : Table) (block : Indexed) (b : Bool) (o : Option Indexed)
      → (if b
          then get_block hash_lib key files current table (block.0.height % 2 ^ 32)
          else block_of table o)
        ≡ block_of table (if b then some block else o)
  chosen table block true o = refl
  chosen table block false o = refl

  first_loop-first_where :
      (table : Table) (start i : ℕ) (blocks : List Indexed)
      → ((j : ℕ) → record_at table (i + j) ≡ record_at (table_of blocks) j)
      → first_loop hash_lib key files current table start (start + 86399) (length blocks) i
        ≡ block_of table (first_where (in_day_from start) blocks)
  unfolding first_loop record_at
  first_loop-first_where table start i [] at = refl
  first_loop-first_where table start i (block ∷ blocks) at =
      let here : i + 0 ≡ i = omega arith in
      let rest = first_loop-first_where table start (i + 1) blocks (λ j.
        let next : i + 1 + j ≡ i + suc j = omega arith in ap (record_at table) next ∙ at (suc j)) in
      ap
        (λ (o : Option (BlockIndexRecord × Bool)). o >>= λ p.
          if p.1
          then get_block hash_lib key files current table (p.0.height % 2 ^ 32)
          else first_loop hash_lib key files current table start (start + 86399) (length blocks)
              (i + 1))
        (window_step table start i block (ap (record_at table) (sym here) ∙ at 0))
      ∙ ap
          (λ (o : Option Block).
            if in_day_from start block
            then get_block hash_lib key files current table (block.0.height % 2 ^ 32)
            else o)
          rest
      ∙ chosen table block (in_day_from start block) (first_where (in_day_from start) blocks)

  -- On a table without gaps, where each record has its header, with its size as the count,
  -- `get_first_block_of_date` returns the block at the height of the first record whose time lies in the 86400 seconds from `start` on,
  -- and `(Block){0}` if there is none. `start` is the timestamp less 1440 times its seconds within
  -- the minute, neither below 0 nor less than 86400 below 2 ^ 32.
  pub get_first_block_of_date-first_where :
      (blocks : List Indexed) (timestamp start : ℕ)
      → start + timestamp % 60 * 1440 ≡ timestamp
      → start + 86400 ≤ 2 ^ 32
      → get_first_block_of_date hash_lib key files current
          (table_of blocks)
          (length blocks)
          timestamp
        ≡ block_of (table_of blocks) (first_where (in_day_from start) blocks)
  unfolding get_first_block_of_date day_start day_end
  get_first_block_of_date-first_where blocks timestamp start e h =
      let from : (timestamp + 2 ^ 32 - timestamp % 60 * 60 * 24 % 2 ^ 32) % 2 ^ 32 ≡ start =
        omega (arith, e) in
      let last : (start + 60 * 60 * 24 - 1) % 2 ^ 32 ≡ start + 86399 = omega arith in
      ap
        (λ s.
          first_loop hash_lib key files current (table_of blocks) s
            ((s + 60 * 60 * 24 - 1) % 2 ^ 32) (length blocks) 0)
        from
      ∙ ap (λ s. first_loop hash_lib key files current (table_of blocks) start s (length blocks) 0)
          last
      ∙ first_loop-first_where (table_of blocks) start 0 blocks
          (λ j. let same : 0 + j ≡ j = omega arith in ap (record_at (table_of blocks)) same)
