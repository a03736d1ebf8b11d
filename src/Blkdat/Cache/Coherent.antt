-- ===== src/Blkdat/Cache/Coherent.antt =====
-- `OpenFile` keeps the cache and the files' records in step.
use mlbtcc.Base.{
  ℕ, ◌+◌, ◌<◌, ◌≤◌, ◌≡◌, ◌≢◌, ◌∙◌, refl, ap, sym, arith, Option, none, some, Bool, true, false,
  List, ◌==◌, ltb, length, length-set, get_elem?, get_elem?-set_self, get_elem?-set_ne, set, ◌⊎◌,
  Bool-cases, inl, inr,
}
use mlbtcc.Base.Index.{get_elem?-lt}
use mlbtcc.Files.Listing.{FileInfo}
use mlbtcc.Blkdat.Cache.{Slot, Store, is_set, holds, lru_index, close_lru_file, open_slots}
use mlbtcc.Blkdat.Cache.Held.{one_if, held, held-set, open_slots-IsTaken, open_slots-set, lru_taken}

-- A file is in one slot while it is open and in none while it is closed, and an open one has its
-- handle; no slot holds a file outside the table. There is a slot.
pub record IsCoherent (s : Store) : Type 0 where
  pub some_slot : 0 < length s.open_files
  pub counted :
      (i : ℕ) (info : FileInfo)
      → get_elem? s.infos i ≡ some info
      → held i s.open_files ≡ one_if info.is_open
  pub handle :
      (i : ℕ) (info : FileInfo)
      → get_elem? s.infos i ≡ some info
      → info.is_open ≡ true
      → is_set info.file ≡ true
  pub inside : (i : ℕ) → length s.infos ≤ i → held i s.open_files ≡ 0

pub index-cases : (i j : ℕ) → (i ≡ j) ⊎ (i ≢ j)
index-cases i j = elim (Bool-cases (i == j)) [
  | inl e ↦ inl (ground arith)
  | inr e ↦ inr (λ h. ground arith)
]

-- What is read where it was written.
set_there :
    (infos : List FileInfo) (index i : ℕ) (info info' : FileInfo)
    → index < length infos
    → i ≡ index
    → get_elem? (set infos index info) i ≡ some info'
    → info ≡ info'
set_there infos index i info info' lt q e =
    ap (λ o. elim o as (λ _. FileInfo) [ none ↦ info | some x ↦ x ])
      (sym (get_elem?-set_self infos index info lt)
        ∙ ap (get_elem? (set infos index info)) (sym q)
        ∙ e)

-- The record of a file that is set anew, and the slots that follow it.
pub replaced :
    (s : Store) (index : ℕ) (info : FileInfo) (slots : List Slot)
    → IsCoherent s
    → index < length s.infos
    → 0 < length slots
    → held index slots ≡ one_if info.is_open
    → (info.is_open ≡ true → is_set info.file ≡ true)
    → ((j : ℕ) → j ≢ index → held j slots ≡ held j s.open_files)
    → IsCoherent (record { infos = set s.infos index info; open_files = slots })
replaced s index info slots w lt some_slot here handle others = record {
  some_slot = some_slot;
  counted = λ i info' e. elim (index-cases i index) [
    | inl q ↦
        ap (λ j. held j slots) q
        ∙ here
        ∙ ap (λ x. one_if x.is_open) (set_there s.infos index i info info' lt q e)
    | inr n ↦
        others i n ∙ w.counted i info' (sym (get_elem?-set_ne s.infos info (λ q. n (sym q))) ∙ e)
  ];
  handle = λ i info' e o. elim (index-cases i index) [
    | inl q ↦
        let p = set_there s.infos index i info info' lt q e in
        sym (ap (λ x. is_set x.file) p) ∙ handle (ap (λ x. x.is_open) p ∙ o)
    | inr n ↦ w.handle i info' (sym (get_elem?-set_ne s.infos info (λ q. n (sym q))) ∙ e) o
  ];
  inside = λ i le.
      let le' : length s.infos ≤ i = omega (arith, le, length-set s.infos index info) in
      others i (λ q. omega (arith, q, le', lt)) ∙ w.inside i le';
}

-- A file that a slot holds is in the table, open, and has its handle.
pub held_open :
    (s : Store) (i : ℕ)
    → IsCoherent s
    → 0 < held i s.open_files
    → (info : FileInfo) × (f : ℕ) × (get_elem? s.infos i ≡ some info)
      × (info.is_open ≡ true)
      × (info.file ≡ some f)
      × (i < length s.infos)
held_open s i w h = elim (Bool-cases (ltb i (length s.infos))) [
  | inl in_ ↦
      let (info, g) = get_elem?-lt s.infos i (ground arith) in
      let o = open_one info.is_open (held i s.open_files) h (w.counted i info g) in
      let (f, e) = some_file info.file (w.handle i info g o) in (info, f, g, o, e, ground arith)
  | inr out ↦ absurd (omega (arith, h, w.inside i (ground arith)))
]
  where
    open_one : (b : Bool) (n : ℕ) → 0 < n → n ≡ one_if b → b ≡ true
    open_one true n h e = refl
    open_one false n h e = absurd (omega (arith, h, e))

    some_file : (o : Option ℕ) → is_set o ≡ true → (i : ℕ) × (o ≡ some i)
    some_file none h = cc
    some_file (some i) h = (i, refl)

holds-some : (j index : ℕ) (slot : Slot) → slot.file_info ≡ some index → holds j slot ≡ (index == j)
holds-some j index slot e = ap (λ o. elim o as (λ _. Bool) [ none ↦ false | some i ↦ i == j ]) e

-- A full cache loses the file of one slot, which is closed, and no other file's record changes.
pub close_lru_file-IsCoherent :
    (s : Store)
    → IsCoherent s
    → open_slots s.open_files ≡ 0
    → (s' : Store) × (close_lru_file s ≡ some s')
      × IsCoherent s'
      × (open_slots s'.open_files ≢ 0)
      × (length s'.infos ≡ length s.infos)
      × ((i : ℕ)
          → held i s.open_files ≡ 0
          → (get_elem? s'.infos i ≡ get_elem? s.infos i) × (held i s'.open_files ≡ 0))
unfolding close_lru_file
close_lru_file-IsCoherent s w full =
    let slots = s.open_files in
    let (slot, index, e, fi, lt) = lru_taken slots w.some_slot (open_slots-IsTaken slots full) in
    let lru = lru_index slots in
    let free : Slot = record { file_info = none; last_access_time = slot.last_access_time } in
    let count : (j : ℕ) → held j (set slots lru free) + one_if (index == j) ≡ held j slots =
      λ j. left_out j index lru slots slot free fi refl e in
    let here : 0 < held index slots = ground (arith, count index) in
    let (info, f, g, o, ef, in_) = held_open s index w here in
    let closed : FileInfo = record info { is_open = false } in
    let one : held index slots ≡ 1 = w.counted index info g ∙ ap one_if o in
    (
      record { infos = set s.infos index closed; open_files = set slots lru free },
      rw e (rw fi (rw g (rw ef refl))),
      replaced s index closed (set slots lru free) w in_
          (omega (arith, length-set slots lru free, lt)) (ground (arith, count index, one))
          (λ h. cc) (λ j n. ground (arith, count j, n)),
      open_slots-set slots lru slot.last_access_time lt,
      length-set s.infos index closed,
      λ i z. (
        get_elem?-set_ne s.infos closed (λ q. omega (arith, here, z, ap (λ x. held x slots) q)),
        omega (arith, count i, z),
      ),
    )
  where
    left_out :
        (j index k : ℕ) (slots : List Slot) (old new : Slot)
        → old.file_info ≡ some index
        → new.file_info ≡ none
        → get_elem? slots k ≡ some old
        → held j (set slots k new) + one_if (index == j) ≡ held j slots
    left_out j index k slots old new fi fn e = omega (
      arith,
      held-set j k slots old new e,
      ap one_if (holds-some j index old fi),
      ap (λ o. one_if (elim o as (λ _. Bool) [ none ↦ false | some i ↦ i == j ])) fn,
    )
