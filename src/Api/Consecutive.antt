-- ===== src/Api/Consecutive.antt =====
-- The blocks that `GetBlocks` returns.
use mlbtcc.Base.{
  ℕ, zero, suc, ◌+◌, ◌*◌, ◌-◌, ◌^◌, ◌<◌, ◌≤◌, ◌≡◌, ◌∙◌, refl, ap, sym, arith, none, some, ◌>>=◌,
  >>=-some, Bool, true, false, List, [], ◌∷◌, ltb, leb, if◌then◌else◌, length, get_elem?,
}
use mlbtcc.Base.Bytes.{Bytes}
use mlbtcc.BitcoinSpecifics.Hash.{Sha256}
use mlbtcc.Blkdat.Block.{read_block_from_blk_dat_file}
use mlbtcc.Structs.{Block, Blocks}
use mlbtcc.Api.{Table, record_at, no_blocks, get_block, blocks_loop, get_blocks}

pub some_same : {A : Type 0} (x y : A) → some x ≡ some y → x ≡ y
some_same {A = A} x y e = ap (λ o. elim o as (λ _. A) [ none ↦ x | some z ↦ z ]) e

module _ (hash_lib : Sha256) (key : Bytes) (files : List Bytes) (current : ℕ) (table : Table) where
  -- The block that is asked for carries its height.
  get_block-height :
      (height : ℕ) (block : Block)
      → get_block hash_lib key files current table height ≡ some block
      → block.height ≡ some height
  unfolding get_block
  get_block-height height block e =
      let (r, _, e1) =
        >>=-some (record_at table height)
          (λ r. get_elem? files r.block_file >>= λ file.
            read_block_from_blk_dat_file hash_lib key file current r.block_offset >>= λ block.
            some (record block { height = some height }))
          e in
      let (file, _, e2) =
        >>=-some (get_elem? files r.block_file)
          (λ file.
            read_block_from_blk_dat_file hash_lib key file current r.block_offset >>= λ block.
            some (record block { height = some height }))
          e1 in
      let (b, _, e3) =
        >>=-some (read_block_from_blk_dat_file hash_lib key file current r.block_offset)
          (λ block. some (record block { height = some height })) e2 in
      sym (ap (λ x. x.height) (some_same (record b { height = some height }) block e3))

  -- What stands at a place of the loop's result.
  abbrev IsAt : List Block → ℕ → ℕ → Type 0
  IsAt blocks i height =
      (block : Block) × (get_elem? blocks i ≡ some block)
      × (get_block hash_lib key files current table height ≡ some block)

  blocks_loop-IsAt :
      (n height : ℕ) (blocks : List Block) (i : ℕ)
      → blocks_loop hash_lib key files current table n height ≡ some blocks
      → (length blocks ≡ n) × (i < n → IsAt blocks i (height + i))
  unfolding blocks_loop
  blocks_loop-IsAt zero height blocks i e =
      (sym (ap length (some_same [] blocks e)), λ h. absurd (omega (arith, h)))
  blocks_loop-IsAt (suc n) height blocks i e =
      let next = λ (block : Block).
        blocks_loop hash_lib key files current table n (height + 1) >>= λ rest.
        some (block ∷ rest) in
      let (block, e1, f1) = >>=-some (get_block hash_lib key files current table height) next e in
      let (rest, e2, f2) =
        >>=-some (blocks_loop hash_lib key files current table n (height + 1))
          (λ rest. some (block ∷ rest)) f1 in
      let q = some_same (block ∷ rest) blocks f2 in
      (
        sym (ap length q) ∙ ap suc ((blocks_loop-IsAt n (height + 1) rest 0 e2).0),
        λ h.
            at_place block rest blocks i q e1
              (λ j l. (blocks_loop-IsAt n (height + 1) rest j e2).1 l) h,
      )
    where
      at_place :
          (block : Block) (rest blocks : List Block) (i : ℕ)
          → block ∷ rest ≡ blocks
          → get_block hash_lib key files current table height ≡ some block
          → ((j : ℕ) → j < n → IsAt rest j (height + 1 + j))
          → i < suc n
          → IsAt blocks i (height + i)
      at_place block rest blocks zero q e1 later h =
          let z : height + 0 ≡ height = omega arith in
          (
            block,
            ap (λ x. get_elem? x 0) (sym q),
            ap (get_block hash_lib key files current table) z ∙ e1,
          )
      at_place block rest blocks (suc j) q e1 later h =
          let z : height + suc j ≡ height + 1 + j = omega arith in
          let (b, g, k) = later j (omega (arith, h)) in
          (
            b,
            ap (λ x. get_elem? x (suc j)) (sym q) ∙ g,
            ap (get_block hash_lib key files current table) z ∙ k,
          )

  nothing :
      {X : Type 0}
      → (blocks : Blocks) (i : ℕ) → some no_blocks ≡ some blocks
      → i < length blocks.blocks
      → X
  nothing blocks i e h =
      absurd (omega (arith, h, ap (λ x. length x.blocks) (some_same no_blocks blocks e)))

  asked :
      (a b c : Bool) (height count : ℕ) (blocks : Blocks) (i : ℕ)
      → (if a
          then some no_blocks
          else if b
          then none
          else if c
          then some no_blocks
          else (blocks_loop hash_lib key files current table count height >>= λ bs.
              some (record { blocks = bs; count = count })))
        ≡ some blocks
      → i < length blocks.blocks
      → (bs : List Block) × (blocks_loop hash_lib key files current table count height ≡ some bs)
        × (record { blocks = bs; count = count } ≡ blocks)
        × (c ≡ false)
  asked true b c height count blocks i e h = nothing blocks i e h
  asked false true c height count blocks i e h = cc
  asked false false true height count blocks i e h = nothing blocks i e h
  asked false false false height count blocks i e h =
      let (bs, e1, e2) =
        >>=-some (blocks_loop hash_lib key files current table count height)
          (λ bs. some (record { blocks = bs; count = count })) e in
      (bs, e1, some_same (record { blocks = bs; count = count }) blocks e2, refl)

  -- Each block that `get_blocks` returns is the one that `get_block` gives at its place behind the
  -- first height, and carries that height. There are as many as the result's count says, and it was
  -- asked for 1024 at most.
  pub get_blocks-get_block :
      (height count : ℕ) (blocks : Blocks) (i : ℕ)
      → get_blocks hash_lib key files current table height count ≡ some blocks
      → i < length blocks.blocks
      → (block : Block) × (get_elem? blocks.blocks i ≡ some block)
        × (get_block hash_lib key files current table (height + i) ≡ some block)
        × (block.height ≡ some (height + i))
        × (blocks.count ≡ length blocks.blocks)
        × (count ≤ 1024)
  unfolding get_blocks
  get_blocks-get_block height count blocks i e h =
      let (bs, e1, q, small) =
        asked (leb (2 ^ 32 - 2 ^ 29) count) (leb (2 ^ 29) count)
          (ltb (4 * 2 ^ 30) (count * 4 * 2 ^ 20)) height count blocks i e h in
      let same : length bs ≡ length blocks.blocks = ap (λ x. length x.blocks) q in
      let (total, place) = blocks_loop-IsAt count height bs i e1 in
      let (block, g, k) = place (omega (arith, h, same, total)) in
      (
        block,
        ap (λ x. get_elem? x.blocks i) (sym q) ∙ g,
        k,
        get_block-height (height + i) block k,
        sym (ap (λ x. x.count) q) ∙ sym total ∙ same,
        ground (arith, small),
      )

  counted :
      (a b c : Bool) (height count : ℕ) (blocks : Blocks)
      → (c ≡ false → count ≤ 1024)
      → (if a
          then some no_blocks
          else if b
          then none
          else if c
          then some no_blocks
          else (blocks_loop hash_lib key files current table count height >>= λ bs.
              some (record { blocks = bs; count = count })))
        ≡ some blocks
      → (blocks.count ≡ length blocks.blocks) × (blocks.count ≤ 1024)
  counted true b c height count blocks small e =
      rw (sym (some_same no_blocks blocks e)) (refl, omega arith)
  counted false true c height count blocks small e = cc
  counted false false true height count blocks small e =
      rw (sym (some_same no_blocks blocks e)) (refl, omega arith)
  counted false false false height count blocks small e =
      let (bs, e1, e2) =
        >>=-some (blocks_loop hash_lib key files current table count height)
          (λ bs. some (record { blocks = bs; count = count })) e in
      let total = (blocks_loop-IsAt count height bs 0 e1).0 in
      let q = some_same (record { blocks = bs; count = count }) blocks e2 in
      (
        sym (ap (λ x. x.count) q) ∙ sym total ∙ ap (λ x. length x.blocks) q,
        omega (arith, ap (λ x. x.count) q, small refl),
      )

  pub get_blocks-count :
      (height count : ℕ) (blocks : Blocks)
      → get_blocks hash_lib key files current table height count ≡ some blocks
      → (blocks.count ≡ length blocks.blocks) × (blocks.count ≤ 1024)
  unfolding get_blocks
  get_blocks-count height count blocks e =
      counted (leb (2 ^ 32 - 2 ^ 29) count) (leb (2 ^ 29) count)
        (ltb (4 * 2 ^ 30) (count * 4 * 2 ^ 20)) height count blocks (λ small. ground (arith, small))
        e
