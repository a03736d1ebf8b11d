-- ===== src/Api/Released.antt =====
-- What `GetBlocks` returns can be released by `FreeBlocks`.
use mlbtcc.Base.{
  ℕ, zero, suc, ◌+◌, ◌%◌, ◌^◌, ◌<◌, ◌≡◌, ◌∙◌, refl, ap, sym, arith, some, ◌>>=◌, >>=-some, true,
  false, List, [], ◌∷◌, ltb, length, get_elem?,
}
use mlbtcc.Base.Bytes.{Bytes}
use mlbtcc.BitcoinSpecifics.Hash.{Sha256}
use mlbtcc.Blkdat.Block.{read_block_from_blk_dat_file}
use mlbtcc.Blkdat.Block.Uses.{read_block-IsWhole}
use mlbtcc.Release.{Pointer, free_block, free_blocks_loop, free_blocks}
use mlbtcc.Release.Leaks.{free_block-IsReleased}
use mlbtcc.Structs.{Block, Blocks}
use mlbtcc.Api.{Table, record_at, get_block, get_blocks}
use mlbtcc.Api.Consecutive.{some_same, get_blocks-get_block, get_blocks-count}

abbrev Freed : Blocks → ℕ → Type 0
Freed blocks i =
    (block : Block) × (freed : List Pointer) × (get_elem? blocks.blocks i ≡ some block)
    × (free_block block ≡ some freed)

one_more :
    (fuel i next : ℕ) (blocks : Blocks) (block : Block) (ps : List Pointer)
    (all : List (List Pointer))
    → ltb i blocks.count ≡ true
    → get_elem? blocks.blocks i ≡ some block
    → free_block block ≡ some ps
    → (i + 1) % 2 ^ 16 ≡ next
    → free_blocks_loop fuel next blocks ≡ some all
    → free_blocks_loop (suc fuel) i blocks ≡ some (ps ∷ all)
unfolding free_blocks_loop
one_more fuel i next blocks block ps all more e1 e2 q e3 = rw more (
    rw e1 (
      rw e2 (
        ap (λ k. free_blocks_loop fuel k blocks >>= λ rest. some (ps ∷ rest)) q
        ∙ ap (λ o. o >>= λ rest. some (ps ∷ rest)) e3)))

free_blocks_loop-Freed :
    (fuel i n : ℕ) (blocks : Blocks)
    → i + n ≡ blocks.count
    → n < fuel
    → blocks.count < 2 ^ 16
    → ((j : ℕ) → j < blocks.count → Freed blocks j)
    → (all : List (List Pointer)) × (free_blocks_loop fuel i blocks ≡ some all) × (length all ≡ n)
unfolding free_blocks_loop
free_blocks_loop-Freed zero i n blocks e enough fits freed = absurd (omega arith)
free_blocks_loop-Freed (suc fuel) i zero blocks e enough fits freed =
    let stop : ltb i blocks.count ≡ false = ground arith in ([], rw stop refl, refl)
free_blocks_loop-Freed (suc fuel) i (suc n) blocks e enough fits freed =
    let more : ltb i blocks.count ≡ true = ground arith in
    let (block, ps, e1, e2) = freed i (omega (arith, e)) in
    let next : (i + 1) % 2 ^ 16 ≡ i + 1 = ground arith in
    let (all, e3, l) =
      free_blocks_loop-Freed fuel (i + 1) n blocks (omega (arith, e)) (omega (arith, enough)) fits
        freed in
    (ps ∷ all, one_more fuel i (i + 1) blocks block ps all more e1 e2 next e3, ap suc l)

module _ (hash_lib : Sha256) (key : Bytes) (files : List Bytes) (current : ℕ) (table : Table) where
  get_block-Freed :
      (height : ℕ) (block : Block)
      → get_block hash_lib key files current table height ≡ some block
      → (freed : List Pointer) × (free_block block ≡ some freed)
  unfolding get_block
  get_block-Freed height block e =
      let (r, _, e1) =
        >>=-some (record_at table height)
          (λ r. get_elem? files r.block_file >>= λ file.
            read_block_from_blk_dat_file hash_lib key file current r.block_offset >>= λ block.
            some (record block { height = some height }))
          e in
      let (file, _, e2) =
        >>=-some (get_elem? files r.block_file)
          (λ file.
            read_block_from_blk_dat_file hash_lib key file current r.block_offset >>= λ block.
            some (record block { height = some height }))
          e1 in
      let (b, h, e3) =
        >>=-some (read_block_from_blk_dat_file hash_lib key file current r.block_offset)
          (λ block. some (record block { height = some height })) e2 in
      let (txs, t, n, owned) = read_block-IsWhole hash_lib key file current r.block_offset b h in
      let (freed, f, _) = free_block-IsReleased (record b { height = some height }) txs t n owned in
      (freed, ap free_block (sym (some_same (record b { height = some height }) block e3)) ∙ f)

  each-Freed :
      (height count : ℕ) (blocks : Blocks) (j : ℕ)
      → get_blocks hash_lib key files current table height count ≡ some blocks
      → j < length blocks.blocks
      → Freed blocks j
  each-Freed height count blocks j e h =
      let (block, g, k, _, _, _) =
        get_blocks-get_block hash_lib key files current table height count blocks j e h in
      let (freed, f) = get_block-Freed (height + j) block k in (block, freed, g, f)

  -- Whatever the block files hold: when `get_blocks` returns blocks, `free_blocks` ends on them, with
  -- one call of `free_block` for each, none of which reads outside an array.
  pub get_blocks-free_blocks :
      (height count : ℕ) (blocks : Blocks)
      → get_blocks hash_lib key files current table height count ≡ some blocks
      → (all : List (List Pointer)) × (free_blocks blocks ≡ some all)
        × (length all ≡ length blocks.blocks)
  unfolding free_blocks
  get_blocks-free_blocks height count blocks e =
      let (c, small) = get_blocks-count hash_lib key files current table height count blocks e in
      let (all, f, l) =
        free_blocks_loop-Freed (2 ^ 16) 0 blocks.count blocks (omega arith) (omega (arith, small))
          (omega (arith, small))
          (λ j h. each-Freed height count blocks j e (omega (arith, h, c))) in
      (all, f, l ∙ c)
