-- ===== src/Blkdat/Cache.antt =====
-- src/blkdat.c, `OpenFile` and `CloseLRUFile`: at most `MAX_OPEN_FILES` block files are open at once.
-- A pointer to a file's record is its index in `gEnv.blkFiles`.
pub mod Oldest
pub mod Held
pub mod Coherent
pub mod Opened
pub mod Runs
pub mod Frame
use mlbtcc.Base.{
  ℕ, zero, suc, ◌+◌, Option, none, some, ◌>>=◌, Bool, true, false, ◌&&◌, List, [], ◌∷◌, ◌==◌, ltb,
  if◌then◌else◌, get_elem?, set, drop,
}
use mlbtcc.Files.Listing.{FileInfo}

-- An entry of `openFiles`.
pub record OpenFileCache : Type 0 where
  pub file_info : Option ℕ
  pub last_access_time : ℕ

abbrev pub Slot : Type 0
Slot = OpenFileCache

pub record Store : Type 0 where
  pub infos : List FileInfo
  pub open_files : List Slot

abbrev pub is_set {ℓ} : {A : Type ℓ} → Option A → Bool
is_set none = false
is_set (some a) = true

-- Whether a slot holds the file.
abbrev pub holds : ℕ → Slot → Bool
holds index slot = elim slot.file_info [ none ↦ false | some i ↦ i == index ]

-- The loop of `CloseLRUFile`, at slot `i`.
lru_loop : List Slot → ℕ → ℕ → ℕ → ℕ
lru_loop [] i lru_index oldest_time = lru_index
lru_loop (slot ∷ slots) i lru_index oldest_time =
    if is_set slot.file_info && ltb slot.last_access_time oldest_time
    then lru_loop slots (i + 1) i slot.last_access_time
    else lru_loop slots (i + 1) lru_index oldest_time

pub lru_index : List Slot → ℕ
lru_index [] = 0
lru_index (slot ∷ slots) = lru_loop slots 1 0 slot.last_access_time

-- A slot without a file, and `fclose` of a null pointer, are undefined.
pub close_lru_file : Store → Option Store
close_lru_file s = do
  let lru = lru_index s.open_files
  slot ← get_elem? s.open_files lru
  index ← slot.file_info
  info ← get_elem? s.infos index
  file ← info.file
  some (record {
    infos = set s.infos index (record info { is_open = false });
    open_files = set s.open_files lru (record slot { file_info = none });
  })

-- The loop over the slots in which the file's time is updated; `none` if no slot holds it.
pub touch : ℕ → ℕ → List Slot → Option (List Slot)
touch index now [] = none
touch index now (slot ∷ slots) =
    if holds index slot
    then some (record slot { last_access_time = now } ∷ slots)
    else (touch index now slots >>= λ rest. some (slot ∷ rest))

-- `openSlots`.
pub open_slots : List Slot → ℕ
open_slots [] = 0
open_slots (slot ∷ slots) = if is_set slot.file_info then open_slots slots else open_slots slots + 1

-- The last loop: the file goes to the first free slot.
pub place : ℕ → ℕ → List Slot → List Slot
place index now [] = []
place index now (slot ∷ slots) =
    if is_set slot.file_info
    then slot ∷ place index now slots
    else record { file_info = some index; last_access_time = now } ∷ slots

-- From the count of the slots on. `fopen` is what the call of that name returns.
pub open_anew : Option ℕ → ℕ → ℕ → Store → Option (Option ℕ × Store)
open_anew fopen now index s = do
  s' ← if open_slots s.open_files == 0 then close_lru_file s else some s
  info ← get_elem? s'.infos index
  elim fopen [
    | none ↦ some (none, record s' { infos = set s'.infos index (record info { file = none }) })
    | some file ↦ some (
      some file,
      record {
        infos = set s'.infos index (record info { file = some file; is_open = true });
        open_files = place index now s'.open_files;
      },
    )
  ]

-- What `OpenFile` finds in the cache: the slots with the file's time updated.
abbrev pub in_cache : ℕ → ℕ → Store → FileInfo → Option (List Slot)
in_cache index now s info = if info.is_open then touch index now s.open_files else none

-- The returned pointer, and the store afterwards; `now` is the time.
pub open_file : Option ℕ → ℕ → ℕ → Store → Option (Option ℕ × Store)
open_file fopen now index s = do
  info ← get_elem? s.infos index
  elim (in_cache index now s info) [
    | none ↦ open_anew fopen now index s
    | some slots ↦ some (info.file, record s { open_files = slots })
  ]
