-- ===== src/Api/Through/Tests.antt =====
-- Runs of `GetBlock` through the cache, on a directory of two block files.
use mlbtcc.Base.{
  ℕ, zero, suc, ◌+◌, ◌<◌, ◌≡◌, ap, arith, refl, Option, none, some, ◌>>=◌, List, [], ◌∷◌, ◌++◌, ◌∙◌,
  length, get_elem?, map,
}
use mlbtcc.Base.Bytes.{Bytes}
use mlbtcc.Api.{Table, record_at, get_block, get_blocks}
use mlbtcc.Api.Through.{get_block_through, get_blocks_through}
use mlbtcc.Api.Through.Calls.{IsUnused, IsLocated, get_blocks_through-get_blocks}
use mlbtcc.Api.Through.Same.{get_block_through-get_block}
use mlbtcc.Api.Through.Located.{
  first_store, first_store-IsFresh, block_files-shut, first_world-IsBacked,
}
use mlbtcc.BitcoinSpecifics.Tests.{toy_hash}
use mlbtcc.Blkdat.Cache.Frame.{some_inj}
use mlbtcc.Blkdat.Disk.{World}
use mlbtcc.Blkdat.Disk.Backed.{IsBacked}
use mlbtcc.Blkdat.Tests.{a_key, one_file, one_place}
use mlbtcc.Files.Listing.{FileInfo}
use mlbtcc.Indexing.Sort.Listed.{range, block_files}
use mlbtcc.Indexing.Tests.{blocks_directory}
use mlbtcc.Structs.{BlockIndexRecord}

-- Every path opens the same file.
abbrev one_disk : Bytes → Option Bytes
one_disk path = some one_file

abbrev every_file : ℕ → Bytes
every_file k = one_file

abbrev first_world : World
first_world = record {
  store = first_store (block_files blocks_directory 0 2);
  streams = λ _. Option.none;
}

get_block_through-get_block_example :
    (current : ℕ) × (after : ℕ → World) × (get_block_through one_disk toy_hash a_key one_place 77 5
        0 first_world
      ≡ (get_block toy_hash a_key (map every_file (range 0 2)) current one_place 0 >>= λ block.
          some (block, after block.block_size)))
    × ((block_size : ℕ)
        → IsBacked one_disk (map every_file (range 0 2)) (after block_size)
          × (length (after block_size).store.infos ≡ length first_world.store.infos))
unfolding record_at
get_block_through-get_block_example =
    get_block_through-get_block one_disk (map every_file (range 0 2)) toy_hash a_key one_place 77 5
      0 first_world _ one_file
      (first_world-IsBacked blocks_directory every_file one_disk 2 (λ _. Option.none)
        (λ k lo hi. refl))
      refl (omega arith) refl
      (first_store-IsFresh (block_files blocks_directory 0 2) 77 5 0
        (block_files-shut blocks_directory every_file one_disk 0 2))

-- A number above every pointer of the files.
abbrev pointer : Option ℕ → ℕ
pointer none = 0
pointer (some f) = f

above : List FileInfo → ℕ
above [] = 1
above (info ∷ infos) = pointer info.file + above infos

above-positive : (infos : List FileInfo) → 0 < above infos
unfolding above
above-positive [] = omega arith
above-positive (x ∷ infos) = let more = above-positive infos in omega (arith, more)

above-lt :
    (infos : List FileInfo) (i : ℕ) (info : FileInfo) (f : ℕ)
    → get_elem? infos i ≡ some info
    → info.file ≡ some f
    → f < above infos
unfolding above
above-lt [] i info f g h = cc
above-lt (x ∷ infos) zero info f g h =
    let at : pointer x.file ≡ f = ap (λ y. pointer y.file) (some_inj x info g) ∙ ap pointer h in
    let more = above-positive infos in omega (arith, at, more)
above-lt (x ∷ infos) (suc i) info f g h =
    let more = above-lt infos i info f g h in omega (arith, more)

abbrev unused : World → ℕ
unused w = above w.store.infos

unused-IsUnused : IsUnused unused
unused-IsUnused w i info g o h =
    let lt = above-lt w.store.infos i info (unused w) g h in omega (arith, lt)

abbrev second_file : Option BlockIndexRecord → Option BlockIndexRecord
second_file none = none
second_file (some r) = some (record r { block_file = 1 })

-- The same block in both files.
abbrev two_places : Table
two_places = one_place ++ map second_file one_place

two_places-IsLocated :
    IsLocated one_disk (map every_file (range 0 2)) toy_hash a_key two_places 2 0 2
unfolding record_at
two_places-IsLocated zero lo hi = (_, one_file, refl, omega arith, refl, omega arith, omega arith)
two_places-IsLocated (suc zero) lo hi =
    (_, one_file, refl, omega arith, refl, omega arith, omega arith)
two_places-IsLocated (suc (suc i)) lo hi = absurd (omega (arith, hi))

get_blocks_through-get_blocks_example :
    (get_blocks_through one_disk toy_hash a_key two_places unused
        (λ height. height + 5)
        0
        2
        first_world
      >>= λ q. some (q.0))
    ≡ get_blocks toy_hash a_key (map every_file (range 0 2)) 3 two_places 0 2
get_blocks_through-get_blocks_example =
    get_blocks_through-get_blocks one_disk (map every_file (range 0 2)) toy_hash a_key two_places
      unused (λ height. height + 5) 3 0 2 first_world unused-IsUnused
      (first_world-IsBacked blocks_directory every_file one_disk 2 (λ _. Option.none)
        (λ k lo hi. refl))
      two_places-IsLocated
