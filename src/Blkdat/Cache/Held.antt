-- ===== src/Blkdat/Cache/Held.antt =====
-- How many slots of the cache hold a file, through the loops of `OpenFile`.
use mlbtcc.Base.{
  ℕ, zero, suc, ◌+◌, ◌<◌, ◌≡◌, ◌≢◌, ◌∙◌, refl, ap, sym, arith, Option, none, some, Bool, true,
  false, List, [], ◌∷◌, ◌==◌, if◌then◌else◌, length, get_elem?, set, All, Bool-cases, inl, inr,
}
use mlbtcc.Blkdat.Cache.{Slot, is_set, holds, touch, open_slots, place, lru_index}
use mlbtcc.Blkdat.Cache.Oldest.{IsTaken, lru_index-IsLater}

abbrev pub one_if : Bool → ℕ
one_if b = if b then 1 else 0

-- The slots that hold the file with this index.
unfoldable pub held : ℕ → List Slot → ℕ
held index [] = 0
held index (slot ∷ slots) = one_if (holds index slot) + held index slots

abbrev at_index : ℕ → ℕ → Slot
at_index index now = record { file_info = some index; last_access_time = now }

pub held-set :
    (j k : ℕ) (slots : List Slot) (old new : Slot)
    → get_elem? slots k ≡ some old
    → held j (set slots k new) + one_if (holds j old) ≡ held j slots + one_if (holds j new)
unfolding held
held-set j k [] old new e = cc
held-set j zero (slot ∷ slots) old new e =
    omega (arith, ap (λ o. elim o as (λ _. ℕ) [ none ↦ 0 | some x ↦ one_if (holds j x) ]) e)
held-set j (suc k) (slot ∷ slots) old new e = omega (arith, held-set j k slots old new e)

behind : (b : Bool) (n : ℕ) → b ≡ false → 0 < one_if b + n → 0 < n
behind true n e h = cc
behind false n e h = omega arith

touch_later :
    (index now : ℕ) (slot : Slot) (slots slots' : List Slot)
    → holds index slot ≡ false
    → touch index now slots ≡ some slots'
    → touch index now (slot ∷ slots) ≡ some (slot ∷ slots')
unfolding touch
touch_later index now slot slots slots' other e = rw other (rw e refl)

pub touch-held :
    (index now : ℕ) (slots : List Slot)
    → 0 < held index slots
    → (slots' : List Slot) × (touch index now slots ≡ some slots')
      × (length slots' ≡ length slots)
      × ((j : ℕ) → held j slots' ≡ held j slots)
unfolding held touch
touch-held index now [] h = absurd (omega arith)
touch-held index now (slot ∷ slots) h = elim (Bool-cases (holds index slot)) [
  | inl here ↦ (record slot { last_access_time = now } ∷ slots, rw here refl, refl, λ j. refl)
  | inr other ↦
      let (slots', e, l, same) =
        touch-held index now slots (behind (holds index slot) (held index slots) other h) in
      (
        slot ∷ slots',
        touch_later index now slot slots slots' other e,
        ap suc l,
        λ j. ap (λ n. one_if (holds j slot) + n) (same j),
      )
]

-- In a full cache every slot holds a file.
pub open_slots-IsTaken : (slots : List Slot) → open_slots slots ≡ 0 → All IsTaken slots
unfolding open_slots
open_slots-IsTaken [] e = tt
open_slots-IsTaken (slot ∷ slots) e = elim (Bool-cases (is_set slot.file_info)) [
  | inl taken ↦ (
    taken,
    open_slots-IsTaken slots
        (sym (ap (λ b. if b then open_slots slots else open_slots slots + 1) taken) ∙ e),
  )
  | inr free ↦
      absurd (
        omega
          (arith, sym (ap (λ b. if b then open_slots slots else open_slots slots + 1) free) ∙ e))
]

abbrev pub Placed : ℕ → ℕ → List Slot → Type 0
Placed index now slots =
    (length (place index now slots) ≡ length slots)
    × ((j : ℕ) → held j (place index now slots) ≡ held j slots + one_if (index == j))

place_slot :
    (index now : ℕ) (file_info : Option ℕ) (time : ℕ) (slots : List Slot)
    → (open_slots slots ≢ 0 → Placed index now slots)
    → open_slots (record { file_info = file_info; last_access_time = time } ∷ slots) ≢ 0
    → Placed index now (record { file_info = file_info; last_access_time = time } ∷ slots)
unfolding held place open_slots
place_slot index now none time slots ih free = (refl, λ j. omega arith)
place_slot index now (some i) time slots ih free =
    let (l, h) = ih free in (ap suc l, λ j. omega (arith, h j))

-- A slot that is free is found.
pub place-held : (index now : ℕ) (slots : List Slot) → open_slots slots ≢ 0 → Placed index now slots
unfolding open_slots
place-held index now [] free = absurd (free refl)
place-held index now (slot ∷ slots) free =
    place_slot index now slot.file_info slot.last_access_time slots (place-held index now slots)
      free

pub open_slots-set :
    (slots : List Slot) (k time : ℕ)
    → k < length slots
    → open_slots (set slots k (record { file_info = none; last_access_time = time })) ≢ 0
unfolding open_slots
open_slots-set [] k time h e = omega (arith, h)
open_slots-set (slot ∷ slots) zero time h e = omega (arith, e)
open_slots-set (slot ∷ slots) (suc k) time h e =
    open_slots-set slots k time (omega arith) (smaller (is_set slot.file_info) _ e)
  where
    smaller : (b : Bool) (n : ℕ) → (if b then n else n + 1) ≡ 0 → n ≡ 0
    smaller true n e = e
    smaller false n e = omega arith

-- The slot that `CloseLRUFile` takes holds a file.
pub lru_taken :
    (slots : List Slot)
    → 0 < length slots
    → All IsTaken slots
    → (slot : Slot) × (index : ℕ) × (get_elem? slots (lru_index slots) ≡ some slot)
      × (slot.file_info ≡ some index)
      × (lru_index slots < length slots)
lru_taken [] h taken = absurd (omega arith)
lru_taken (first ∷ slots) h (t, taken) =
    let (slot, e, _) = lru_index-IsLater first slots taken in
    let (set_, lt) = taken_at (first ∷ slots) (lru_index (first ∷ slots)) slot (t, taken) e in
    let (index, f) = some_file slot.file_info set_ in (slot, index, e, f, lt)
  where
    some_file : (o : Option ℕ) → is_set o ≡ true → (i : ℕ) × (o ≡ some i)
    some_file none h = cc
    some_file (some i) h = (i, refl)

    taken_at :
        (slots : List Slot) (k : ℕ) (slot : Slot)
        → All IsTaken slots
        → get_elem? slots k ≡ some slot
        → IsTaken slot × (k < length slots)
    taken_at [] k slot taken e = cc
    taken_at (first ∷ slots) zero slot (t, taken) e = (
      sym (ap (λ o. elim o as (λ _. Bool) [ none ↦ true | some x ↦ is_set x.file_info ]) e) ∙ t,
      omega arith,
    )
    taken_at (first ∷ slots) (suc k) slot (t, taken) e =
        let (set_, lt) = taken_at slots k slot taken e in (set_, omega (arith, lt))
