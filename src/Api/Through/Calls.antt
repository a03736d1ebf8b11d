-- ===== src/Api/Through/Calls.antt =====
-- `GetBlocks` through the cache reads what stands in the files, whatever the earlier calls left open.
use mlbtcc.Base.{
  ℕ, zero, suc, ◌+◌, ◌*◌, ◌-◌, ◌^◌, ◌<◌, ◌≤◌, ◌≡◌, ◌≢◌, ◌∙◌, refl, ap, sym, arith, Option, none,
  some, ◌>>=◌, Bool, true, false, List, ◌∷◌, ltb, leb, if◌then◌else◌, length, get_elem?,
}
use mlbtcc.Base.Bytes.{Bytes}
use mlbtcc.Api.{Table, record_at, no_blocks, get_block, blocks_loop, get_blocks}
use mlbtcc.Api.Through.{blocks_loop_through, get_blocks_through}
use mlbtcc.Api.Through.Same.{get_block_lem, get_block_through-get_block}
use mlbtcc.BitcoinSpecifics.Hash.{Sha256}
use mlbtcc.Blkdat.Block.Place.{read_block_anywhere}
use mlbtcc.Blkdat.Cache.Frame.{open_file-Keeps}
use mlbtcc.Blkdat.Disk.{World}
use mlbtcc.Blkdat.Disk.Backed.{IsBacked, IsFresh}
use mlbtcc.Files.Listing.{FileInfo}
use mlbtcc.Structs.{Block, Blocks, BlockIndexRecord}

-- `fopen` gives out a pointer that no open file has.
abbrev pub IsUnused : (World → ℕ) → Type 0
IsUnused handle =
    (w : World) (i : ℕ) (info : FileInfo)
    → get_elem? w.store.infos i ≡ some info
    → info.is_open ≡ true
    → info.file ≢ some (handle w)

IsUnused-IsFresh :
    (handle : World → ℕ) (w : World) (now index : ℕ)
    → IsUnused handle
    → IsFresh (handle w) now index w.store
IsUnused-IsFresh handle w now index unused r s' i info e other g o f =
    let (old, g0, (_, file, open_before)) =
      open_file-Keeps (some (handle w)) now index w.store s' r e i info g in
    unused w i old g0 (open_before other o) (sym (file other) ∙ f)

module _ (disk : Bytes → Option Bytes) (files : List Bytes) (hash_lib : Sha256) (key : Bytes)
    (table : Table) where
  -- The heights from one on have a record, its file is among the first `m`, its content is given,
  -- and the place of the block's magic is a signed long.
  abbrev pub IsLocated : ℕ → ℕ → ℕ → Type 0
  IsLocated m height n =
      (i : ℕ)
      → height ≤ i
      → i < height + n
      → (r : BlockIndexRecord) × (content : Bytes) × (record_at table i ≡ some r)
        × (r.block_file < m)
        × (get_elem? files r.block_file ≡ some content)
        × (8 ≤ r.block_offset)
        × (r.block_offset < 2 ^ 63)

  module _ (handle : World → ℕ) (clock : ℕ → ℕ) (current : ℕ) where
    abbrev blocks_of : Option (List Block × World) → Option (List Block)
    blocks_of o = o >>= λ q. some (q.0)

    blocks_loop_through-blocks_loop :
        (n height m : ℕ) (w : World)
        → IsUnused handle
        → IsBacked disk files w
        → length w.store.infos ≡ m
        → IsLocated m height n
        → blocks_of (blocks_loop_through disk hash_lib key table handle clock n height w)
          ≡ blocks_loop hash_lib key files current table n height
    unfolding blocks_loop_through blocks_loop
    blocks_loop_through-blocks_loop zero height m w unused b l at = refl
    blocks_loop_through-blocks_loop (suc n) height m w unused b l at =
        let (r, content, e, lt, c, lo, hi) = at height (omega arith) (omega arith) in
        let (position, after, same, kept) =
          get_block_through-get_block disk files hash_lib key table (handle w) (clock height) height
            w r content b e (omega (arith, lt, l)) c
            (IsUnused-IsFresh handle w (clock height) r.block_file unused) in
        let moved : get_block hash_lib key files position table height
            ≡ get_block hash_lib key files current table height =
          get_block_lem disk files hash_lib key table position height r content e c
          ∙ ap (λ (o : Option Block). o >>= λ block. some (record block { height = some height }))
              (read_block_anywhere hash_lib key content position current r.block_offset lo hi)
          ∙ sym (get_block_lem disk files hash_lib key table current height r content e c) in
        ap (λ (o : Option (Block × World)). blocks_of (o >>= next)) same
        ∙ ap (λ (o : Option Block). blocks_of ((o >>= leave after) >>= next)) moved
        ∙ rounds after (get_block hash_lib key files current table height) (λ block_size.
          let (b', l') = kept block_size in
          blocks_loop_through-blocks_loop n (height + 1) m (after block_size) unused b' (l' ∙ l)
            (λ i low high. at i (omega (arith, low)) (omega (arith, high))))
      where
        next : Block × World → Option (List Block × World)
        next p =
            blocks_loop_through disk hash_lib key table handle clock n (height + 1) (p.1) >>= λ q.
            some (p.0 ∷ q.0, q.1)

        leave : (ℕ → World) → Block → Option (Block × World)
        leave after block = some (block, after block.block_size)

        one :
            (block : Block) (o : Option (List Block × World))
            → blocks_of (o >>= λ q. some (block ∷ q.0, q.1))
              ≡ (blocks_of o >>= λ rest. some (block ∷ rest))
        one block none = refl
        one block (some q) = refl

        rounds :
            (after : ℕ → World) (o : Option Block)
            → ((block_size : ℕ)
                → blocks_of (
                    blocks_loop_through disk hash_lib key table handle clock n
                      (height + 1)
                      (after block_size))
                  ≡ blocks_loop hash_lib key files current table n (height + 1))
            → blocks_of ((o >>= leave after) >>= next) ≡ (
                o >>= λ block.
                blocks_loop hash_lib key files current table n (height + 1) >>= λ rest.
                some (block ∷ rest))
        rounds after none later = refl
        rounds after (some block) later =
            one block (
              blocks_loop_through disk hash_lib key table handle clock n (height + 1)
                (after block.block_size))
            ∙ ap (λ (o : Option (List Block)). o >>= λ rest. some (block ∷ rest))
                (later block.block_size)

    guarded :
        (a b c : Bool) (count : ℕ) (w : World) (o : Option (List Block × World))
        (o' : Option (List Block))
        → blocks_of o ≡ o'
        → ((if a
              then some (no_blocks, w)
              else if b
              then none
              else if c
              then some (no_blocks, w)
              else (o >>= λ q. some (record { blocks = q.0; count = count }, q.1)))
            >>= λ (q : Blocks × World). some (q.0))
          ≡ (if a
              then some no_blocks
              else if b
              then none
              else if c
              then some no_blocks
              else (o' >>= λ bs. some (record { blocks = bs; count = count })))
    guarded true b c count w o o' e = refl
    guarded false true c count w o o' e = refl
    guarded false false true count w o o' e = refl
    guarded false false false count w none o' e =
        ap (λ (o : Option (List Block)). o >>= λ bs. some (record { blocks = bs; count = count })) e
    guarded false false false count w (some q) o' e =
        ap (λ (o : Option (List Block)). o >>= λ bs. some (record { blocks = bs; count = count })) e

    -- Any number of calls of `GetBlock`, one behind the other, through the cache, as `GetBlocks`
    -- makes them, on a store where cache and table agree and whose open files are backed by the
    -- disk, while `fopen` never gives out the pointer of a file that is open, at any times: the
    -- blocks are those that are read directly from the files' contents, wherever these stand, and
    -- where one fails the other does. Each height has a record, whose file is in the table and
    -- whose offset is at least 8 and below 2 ^ 63.
    pub get_blocks_through-get_blocks :
        (height count : ℕ) (w : World)
        → IsUnused handle
        → IsBacked disk files w
        → IsLocated (length w.store.infos) height count
        → (get_blocks_through disk hash_lib key table handle clock height count w >>= λ q.
            some (q.0))
          ≡ get_blocks hash_lib key files current table height count
    unfolding get_blocks_through get_blocks
    get_blocks_through-get_blocks height count w unused b at =
        guarded (leb (2 ^ 32 - 2 ^ 29) count) (leb (2 ^ 29) count)
          (ltb (4 * 2 ^ 30) (count * 4 * 2 ^ 20)) count w
          (blocks_loop_through disk hash_lib key table handle clock count height w)
          (blocks_loop hash_lib key files current table count height)
          (blocks_loop_through-blocks_loop count height (length w.store.infos) w unused b refl at)
