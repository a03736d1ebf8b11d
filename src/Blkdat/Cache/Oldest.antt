-- ===== src/Blkdat/Cache/Oldest.antt =====
-- The file that `CloseLRUFile` closes.
use mlbtcc.Base.{
  ℕ, suc, ◌+◌, ◌≤◌, ◌≡◌, refl, arith, some, true, List, [], ◌∷◌, ◌⊎◌, ltb, get_elem?, All,
  Bool-cases, inl, inr,
}
use mlbtcc.Blkdat.Cache.{Slot, is_set, lru_loop, lru_index}

-- A slot that holds a file used at `time` or later.
abbrev pub IsLater : ℕ → Slot → Type 0
IsLater time slot = time ≤ slot.last_access_time

abbrev pub IsTaken : Slot → Type 0
IsTaken slot = is_set slot.file_info ≡ true

All-IsLater :
    (t t' : ℕ) (slots : List Slot) → t' ≤ t → All (IsLater t) slots → All (IsLater t') slots
All-IsLater t t' [] h hs = tt
All-IsLater t t' (slot ∷ slots) h (hl, hs) = (omega arith, All-IsLater t t' slots h hs)

-- What the loop makes of `lru`: the index it had, whose time is the oldest, or that of a slot that
-- is left.
abbrev Found : List Slot → ℕ → ℕ → ℕ → ℕ → ℕ → Type 0
Found slots i lru oldest result time =
    ((result ≡ lru) × (time ≡ oldest))
    ⊎ ((k : ℕ) × (slot : Slot) × (result ≡ i + k)
        × (get_elem? slots k ≡ some slot)
        × (slot.last_access_time ≡ time))

from_here :
    (slot : Slot) (slots : List Slot) (i lru oldest result time : ℕ)
    → Found slots (i + 1) i slot.last_access_time result time
    → Found (slot ∷ slots) i lru oldest result time
from_here slot slots i lru oldest result time (inl (e, t)) =
    inr (0, slot, omega (arith, e), refl, omega (arith, t))
from_here slot slots i lru oldest result time (inr (k, s, e, g, t)) =
    inr (suc k, s, omega (arith, e), g, t)

from_before :
    (slot : Slot) (slots : List Slot) (i lru oldest result time : ℕ)
    → Found slots (i + 1) lru oldest result time
    → Found (slot ∷ slots) i lru oldest result time
from_before slot slots i lru oldest result time (inl (e, t)) = inl (e, t)
from_before slot slots i lru oldest result time (inr (k, s, e, g, t)) =
    inr (suc k, s, omega (arith, e), g, t)

lru_loop-IsLater :
    (slots : List Slot) (i lru oldest : ℕ)
    → All IsTaken slots
    → (time : ℕ) × (time ≤ oldest)
      × All (IsLater time) slots
      × Found slots i lru oldest (lru_loop slots i lru oldest) time
unfolding lru_loop
lru_loop-IsLater [] i lru oldest h = (oldest, omega arith, tt, inl (refl, refl))
lru_loop-IsLater (slot ∷ slots) i lru oldest (taken, h) =
    elim (Bool-cases (ltb slot.last_access_time oldest)) [
      | inl older ↦
          let (time, le, later, found) = lru_loop-IsLater slots (i + 1) i slot.last_access_time h in
          rw (taken, older)
            (time, ground arith, (le, later), from_here slot slots i lru oldest _ time found)
      | inr newer ↦
          let (time, le, later, found) = lru_loop-IsLater slots (i + 1) lru oldest h in
          rw (taken, newer)
            (time, le, (ground arith, later), from_before slot slots i lru oldest _ time found)
    ]

-- When every slot holds a file, `lru_index` is the index of a slot, and no slot's file was used
-- longer ago than that one's.
pub lru_index-IsLater :
    (first : Slot) (slots : List Slot)
    → All IsTaken slots
    → (slot : Slot) × (get_elem? (first ∷ slots) (lru_index (first ∷ slots)) ≡ some slot)
      × All (IsLater slot.last_access_time) (first ∷ slots)
unfolding lru_index
lru_index-IsLater first slots h =
    let (time, le, later, found) = lru_loop-IsLater slots 1 0 first.last_access_time h in
    elim found [
      | inl (e, t) ↦ (
        first,
        rw e refl,
        (omega arith, All-IsLater time first.last_access_time slots (omega (arith, t)) later),
      )
      | inr (k, slot, e, g, t) ↦ (
        slot,
        rw (e, one_plus k) g,
        (
          omega (arith, t, le),
          All-IsLater time slot.last_access_time slots (omega (arith, t)) later,
        ),
      )
    ]
  where
    one_plus : (k : ℕ) → 1 + k ≡ suc k
    one_plus k = omega arith
