-- ===== src/Blkdat/Cache/Opened.antt =====
-- `OpenFile`, on a cache that agrees with the table.
use mlbtcc.Base.{
  ℕ, ◌<◌, ◌≡◌, ◌≢◌, ◌∙◌, refl, ap, sym, arith, Option, none, some, Bool, true, false, List, ◌==◌,
  if◌then◌else◌, length, length-set, get_elem?, get_elem?-set_self, set, Bool-cases, inl, inr,
}
use mlbtcc.Base.Index.{get_elem?-lt}
use mlbtcc.Files.Listing.{FileInfo}
use mlbtcc.Blkdat.Cache.{
  Slot, Store, is_set, close_lru_file, touch, open_slots, place, open_anew, open_file,
}
use mlbtcc.Blkdat.Cache.Held.{one_if, held, touch-held, place-held}
use mlbtcc.Blkdat.Cache.Coherent.{IsCoherent, index-cases, replaced, close_lru_file-IsCoherent}

-- Room is made when there is none.
make_room :
    (s : Store) (index : ℕ)
    → IsCoherent s
    → held index s.open_files ≡ 0
    → (s' : Store) × ((if open_slots s.open_files == 0 then close_lru_file s else some s) ≡ some s')
      × IsCoherent s'
      × (open_slots s'.open_files ≢ 0)
      × (length s'.infos ≡ length s.infos)
      × (held index s'.open_files ≡ 0)
make_room s index w z = elim (index-cases (open_slots s.open_files) 0) [
  | inl full ↦
      let (s', e, w', free, l, kept) = close_lru_file-IsCoherent s w full in
      let test : (open_slots s.open_files == 0) ≡ true = ground arith in
      (s', rw test e, w', free, l, (kept index z).1)
  | inr free ↦
      let test : (open_slots s.open_files == 0) ≡ false = ground arith in
      (s, rw test refl, w, free, refl, z)
]

-- What a call leaves of the store, when it returns `r`.
abbrev pub Opened : ℕ → Store → Option ℕ → Store → Type 0
Opened index s r s' =
    IsCoherent s'
    × (length s'.infos ≡ length s.infos)
    × ((info : FileInfo) × (get_elem? s'.infos index ≡ some info)
        × (info.file ≡ r)
        × (info.is_open ≡ is_set r))

not_open : (info : FileInfo) (n : ℕ) → n ≡ 0 → n ≡ one_if info.is_open → info.is_open ≡ false
not_open info n z e = closed info.is_open n z e
  where
    closed : (b : Bool) (n : ℕ) → n ≡ 0 → n ≡ one_if b → b ≡ false
    closed true n z e = absurd (omega (arith, z, e))
    closed false n z e = refl

Opened-room :
    (fopen : Option ℕ) (now index : ℕ) (s : Store) (info : FileInfo)
    → IsCoherent s
    → index < length s.infos
    → open_slots s.open_files ≢ 0
    → held index s.open_files ≡ 0
    → get_elem? s.infos index ≡ some info
    → (r : Option ℕ) × (s' : Store) × ((elim fopen as (λ _. Option (Option ℕ × Store)) [
      | none ↦ some (none, record s { infos = set s.infos index (record info { file = none }) })
      | some file ↦ some (
        some file,
        record {
          infos = set s.infos index (record info { file = some file; is_open = true });
          open_files = place index now s.open_files;
        },
      )
    ])
        ≡ some (r, s'))
      × Opened index s r s'
Opened-room none now index s info w lt free z g =
    let info' : FileInfo = record info { file = none } in
    let shut = not_open info (held index s.open_files) z (w.counted index info g) in
    (
      none,
      record s { infos = set s.infos index info' },
      refl,
      (
        replaced s index info' s.open_files w lt w.some_slot (w.counted index info g) (λ o. cc)
            (λ j n. refl),
        length-set s.infos index info',
        (info', get_elem?-set_self s.infos index info' lt, refl, shut),
      ),
    )
Opened-room (some file) now index s info w lt free z g =
    let info' : FileInfo = record info { file = some file; is_open = true } in
    let (l, h) = place-held index now s.open_files free in
    let same : (index == index) ≡ true = ground arith in
    (
      some file,
      record { infos = set s.infos index info'; open_files = place index now s.open_files },
      refl,
      (
        replaced s index info' (place index now s.open_files) w lt (omega (arith, l, w.some_slot))
            (omega (arith, h index, z, ap one_if same)) (λ _. refl) (λ j n. ground (arith, h j, n)),
        length-set s.infos index info',
        (info', get_elem?-set_self s.infos index info' lt, refl, refl),
      ),
    )

open_anew-Opened :
    (fopen : Option ℕ) (now index : ℕ) (s : Store)
    → IsCoherent s
    → index < length s.infos
    → held index s.open_files ≡ 0
    → (r : Option ℕ) × (s' : Store) × (open_anew fopen now index s ≡ some (r, s'))
      × Opened index s r s'
unfolding open_anew
open_anew-Opened fopen now index s w lt z =
    let (room, e, w', free, l, z') = make_room s index w z in
    let lt' : index < length room.infos = omega (arith, l, lt) in
    let (info, g) = get_elem?-lt room.infos index lt' in
    let (r, s', f, (w2, l2, rest)) = Opened-room fopen now index room info w' lt' free z' g in
    (r, s', rw e (rw g f), (w2, l2 ∙ l, rest))

open_found :
    (fopen : Option ℕ) (now index : ℕ) (s : Store) (info : FileInfo) (slots : List Slot)
    → get_elem? s.infos index ≡ some info
    → info.is_open ≡ true
    → touch index now s.open_files ≡ some slots
    → open_file fopen now index s ≡ some (info.file, record s { open_files = slots })
unfolding open_file
open_found fopen now index s info slots g o e = rw g (rw o (rw e refl))

open_shut :
    (fopen : Option ℕ) (now index : ℕ) (s : Store) (info : FileInfo) (r : Option (Option ℕ × Store))
    → get_elem? s.infos index ≡ some info
    → info.is_open ≡ false
    → open_anew fopen now index s ≡ r
    → open_file fopen now index s ≡ r
unfolding open_file
open_shut fopen now index s info r g shut e = rw g (rw shut e)

touched :
    (s : Store) (slots : List Slot)
    → IsCoherent s
    → length slots ≡ length s.open_files
    → ((j : ℕ) → held j slots ≡ held j s.open_files)
    → IsCoherent (record s { open_files = slots })
touched s slots w l same = record {
  some_slot = omega (arith, l, w.some_slot);
  counted = λ i info e. same i ∙ w.counted i info e;
  handle = w.handle;
  inside = λ i le. same i ∙ w.inside i le;
}

-- `open_file`, whatever `fopen` answers, of a file of the table on a store where cache and table
-- agree: it never meets a null pointer, and they agree afterwards: each open file is in one slot
-- and has its handle, each closed file in none. The pointer returned is the file's handle, and the
-- file is open exactly when it is not null.
pub open_file-Opened :
    (fopen : Option ℕ) (now index : ℕ) (s : Store)
    → IsCoherent s
    → index < length s.infos
    → (r : Option ℕ) × (s' : Store) × (open_file fopen now index s ≡ some (r, s'))
      × Opened index s r s'
unfolding open_file
open_file-Opened fopen now index s w lt =
    let (info, g) = get_elem?-lt s.infos index lt in
    elim (Bool-cases info.is_open) [
      | inl o ↦
          let (slots, e, l, same) =
            touch-held index now s.open_files
              (omega (arith, w.counted index info g, ap one_if o)) in
          (
            info.file,
            record s { open_files = slots },
            open_found fopen now index s info slots g o e,
            (touched s slots w l same, refl, (info, g, refl, o ∙ sym (w.handle index info g o))),
          )
      | inr shut ↦
          let (r, s', e, k) =
            open_anew-Opened fopen now index s w lt (w.counted index info g ∙ ap one_if shut) in
          (r, s', open_shut fopen now index s info (some (r, s')) g shut e, k)
    ]
