-- ===== src/Blkdat/Cache/Frame.antt =====
-- What `OpenFile` leaves of the files' records.
use mathlib.Core.Path.{subst}
use mlbtcc.Base.{
  ℕ, zero, suc, [], ◌∷◌, ◌≡◌, ◌≢◌, ◌∙◌, refl, ap, sym, Option, none, some, ◌>>=◌, >>=-some, Bool,
  true, false, List, ◌==◌, if◌then◌else◌, get_elem?, set,
}
use mlbtcc.Files.Listing.{FileInfo}
use mlbtcc.Blkdat.Cache.{
  Slot, Store, in_cache, lru_index, close_lru_file, open_slots, place, open_anew, open_file,
}

-- The same path; where `same` holds, the same handle too, and no file is opened.
abbrev pub Same : Type 0 → FileInfo → FileInfo → Type 0
Same P a b =
    (b.filepath ≡ a.filepath) × (P → b.file ≡ a.file) × (P → b.is_open ≡ true → a.is_open ≡ true)

-- Each record afterwards is one from before; those of which `P` holds are the same.
abbrev pub Keeps : (ℕ → Type 0) → List FileInfo → List FileInfo → Type 0
Keeps P infos infos' =
    (i : ℕ) (info' : FileInfo)
    → get_elem? infos' i ≡ some info'
    → (info : FileInfo) × (get_elem? infos i ≡ some info) × Same (P i) info info'

pub some_inj : {A : Type 0} (a b : A) → ◌≡◌ {A = Option A} (some a) (some b) → a ≡ b
some_inj {A = A} a b e = ap (λ o. elim o as (λ _. A) [ none ↦ a | some x ↦ x ]) e

Same-self : (P : Type 0) (a : FileInfo) → Same P a a
Same-self P a = (refl, (λ _. refl), (λ _ o. o))

Keeps-set :
    (P : ℕ → Type 0) (infos : List FileInfo) (index : ℕ) (info info' : FileInfo)
    → get_elem? infos index ≡ some info
    → Same (P index) info info'
    → Keeps P infos (set infos index info')
Keeps-set P [] index info info' g s i b e = cc
Keeps-set P (x ∷ infos) zero info info' g s zero b e =
    (info, g, subst (Same (P 0) info) (some_inj info' b e) s)
Keeps-set P (x ∷ infos) zero info info' g s (suc i) b e = (b, e, Same-self (P (suc i)) b)
Keeps-set P (x ∷ infos) (suc index) info info' g s zero b e = (b, e, Same-self (P 0) b)
Keeps-set P (x ∷ infos) (suc index) info info' g s (suc i) b e =
    Keeps-set (λ n. P (suc n)) infos index info info' g s i b e

Keeps-trans : (P : ℕ → Type 0) (a b c : List FileInfo) → Keeps P a b → Keeps P b c → Keeps P a c
Keeps-trans P a b c p q i z e =
    let (y, ey, (s1, s2, s3)) = q i z e in
    let (x, ex, (t1, t2, t3)) = p i y ey in
    (x, ex, (s1 ∙ t1, (λ h. s2 h ∙ t2 h), (λ h o. t3 h (s3 h o))))

close_lru_file-Keeps :
    (P : ℕ → Type 0) (s s' : Store) → close_lru_file s ≡ some s' → Keeps P s.infos s'.infos
unfolding close_lru_file
close_lru_file-Keeps P s s' e =
    let lru = lru_index s.open_files in
    let (slot, _, e1) =
      >>=-some (get_elem? s.open_files lru)
        (λ slot. slot.file_info >>= λ index.
          get_elem? s.infos index >>= λ info. info.file >>= λ file. some (closed slot index info))
        e in
    let (index, _, e2) =
      >>=-some (slot.file_info)
        (λ index.
          get_elem? s.infos index >>= λ info. info.file >>= λ file. some (closed slot index info))
        e1 in
    let (info, g, e3) =
      >>=-some (get_elem? s.infos index)
        (λ info. info.file >>= λ file. some (closed slot index info)) e2 in
    let (file, _, e4) = >>=-some (info.file) (λ file. some (closed slot index info)) e3 in
    subst (λ t. Keeps P s.infos t.infos) (some_inj (closed slot index info) s' e4)
      (Keeps-set P s.infos index info (record info { is_open = false }) g
        (refl, (λ _. refl), (λ _ o. cc)))
  where
    closed : Slot → ℕ → FileInfo → Store
    closed slot index info = record {
      infos = set s.infos index (record info { is_open = false });
      open_files = set s.open_files (lru_index s.open_files) (record slot { file_info = none });
    }

-- Every file but the one at the index.
abbrev pub Other : ℕ → ℕ → Type 0
Other index i = i ≢ index

open_anew-Keeps :
    (fopen : Option ℕ) (now index : ℕ) (s s' : Store) (r : Option ℕ)
    → open_anew fopen now index s ≡ some (r, s')
    → Keeps (Other index) s.infos s'.infos
unfolding open_anew
open_anew-Keeps fopen now index s s' r e =
    let (t, et, e1) =
      >>=-some (if open_slots s.open_files == 0 then close_lru_file s else some s)
        (λ t. get_elem? t.infos index >>= λ info. placed fopen t info) e in
    let (info, g, e2) = >>=-some (get_elem? t.infos index) (λ info. placed fopen t info) e1 in
    Keeps-trans (Other index) s.infos t.infos s'.infos (made (open_slots s.open_files == 0) t et)
      (at_index fopen t info g e2)
  where
    placed : Option ℕ → Store → FileInfo → Option (Option ℕ × Store)
    placed fopen t info = elim fopen [
      | none ↦ some (none, record t { infos = set t.infos index (record info { file = none }) })
      | some file ↦ some (
        some file,
        record {
          infos = set t.infos index (record info { file = some file; is_open = true });
          open_files = place index now t.open_files;
        },
      )
    ]

    made :
        (b : Bool) (t : Store)
        → (if b then close_lru_file s else some s) ≡ some t
        → Keeps (Other index) s.infos t.infos
    made true t h = close_lru_file-Keeps (Other index) s t h
    made false t h =
        subst (λ u. Keeps (Other index) s.infos u.infos) (some_inj s t h)
          (λ i b g. (b, g, Same-self (Other index i) b))

    at_index :
        (fopen : Option ℕ) (t : Store) (info : FileInfo)
        → get_elem? t.infos index ≡ some info
        → placed fopen t info ≡ some (r, s')
        → Keeps (Other index) t.infos s'.infos
    at_index none t info g h =
        let u : Store = record t { infos = set t.infos index (record info { file = none }) } in
        subst (λ v. Keeps (Other index) t.infos v.infos)
          (ap (λ (p : Option ℕ × Store). p.1) (some_inj (none, u) (r, s') h))
          (Keeps-set (Other index) t.infos index info (record info { file = none }) g
            (refl, (λ n. absurd (n refl)), (λ n _. absurd (n refl))))
    at_index (some file) t info g h =
        let info' : FileInfo = record info { file = some file; is_open = true } in
        let u : Store = record {
          infos = set t.infos index info';
          open_files = place index now t.open_files;
        } in
        subst (λ v. Keeps (Other index) t.infos v.infos)
          (ap (λ (p : Option ℕ × Store). p.1) (some_inj (some file, u) (r, s') h))
          (Keeps-set (Other index) t.infos index info info' g
            (refl, (λ n. absurd (n refl)), (λ n _. absurd (n refl))))

-- The two ways of `OpenFile`.
abbrev by_slots :
    Option ℕ → ℕ → ℕ → Store → FileInfo → Option (List Slot) → Option (Option ℕ × Store)
by_slots fopen now index s info o = elim o [
  | none ↦ open_anew fopen now index s
  | some slots ↦ some (info.file, record s { open_files = slots })
]

open_file-by_slots :
    (fopen : Option ℕ) (now index : ℕ) (s : Store) (info : FileInfo)
    → get_elem? s.infos index ≡ some info
    → open_file fopen now index s ≡ by_slots fopen now index s info (in_cache index now s info)
unfolding open_file
open_file-by_slots fopen now index s info g =
    ap (λ (o : Option FileInfo). o >>= λ i. by_slots fopen now index s i (in_cache index now s i)) g

pub open_file_anew :
    (fopen : Option ℕ) (now index : ℕ) (s : Store) (info : FileInfo)
    → get_elem? s.infos index ≡ some info
    → in_cache index now s info ≡ none
    → open_file fopen now index s ≡ open_anew fopen now index s
open_file_anew fopen now index s info g n =
    open_file-by_slots fopen now index s info g ∙ ap (by_slots fopen now index s info) n

pub open_file_cached :
    (fopen : Option ℕ) (now index : ℕ) (s : Store) (info : FileInfo) (slots : List Slot)
    → get_elem? s.infos index ≡ some info
    → in_cache index now s info ≡ some slots
    → open_file fopen now index s ≡ some (info.file, record s { open_files = slots })
open_file_cached fopen now index s info slots g n =
    open_file-by_slots fopen now index s info g ∙ ap (by_slots fopen now index s info) n

pub open_anew_handle :
    (handle now index : ℕ) (s s' : Store) (r : Option ℕ)
    → open_anew (some handle) now index s ≡ some (r, s')
    → r ≡ some handle
unfolding open_anew
open_anew_handle handle now index s s' r e =
    let (t, _, e1) =
      >>=-some (if open_slots s.open_files == 0 then close_lru_file s else some s)
        (λ t. get_elem? t.infos index >>= λ info. some (placed t info)) e in
    let (info, _, e2) = >>=-some (get_elem? t.infos index) (λ info. some (placed t info)) e1 in
    sym (ap (λ (p : Option ℕ × Store). p.0) (some_inj (placed t info) (r, s') e2))
  where
    placed : Store → FileInfo → Option ℕ × Store
    placed t info = (
      some handle,
      record {
        infos = set t.infos index (record info { file = some handle; is_open = true });
        open_files = place index now t.open_files;
      },
    )

-- Whatever `fopen` answers, `open_file` changes no path, opens no file but the one it is asked for,
-- and leaves the handles of the others.
pub open_file-Keeps :
    (fopen : Option ℕ) (now index : ℕ) (s s' : Store) (r : Option ℕ)
    → open_file fopen now index s ≡ some (r, s')
    → Keeps (Other index) s.infos s'.infos
unfolding open_file
open_file-Keeps fopen now index s s' r e =
    let (info, g, e1) =
      >>=-some (get_elem? s.infos index)
        (λ info. by_slots fopen now index s info (in_cache index now s info)) e in
    of_slots info (in_cache index now s info) e1
  where
    of_slots :
        (info : FileInfo) (o : Option (List Slot))
        → by_slots fopen now index s info o ≡ some (r, s')
        → Keeps (Other index) s.infos s'.infos
    of_slots info none h = open_anew-Keeps fopen now index s s' r h
    of_slots info (some slots) h =
        subst (λ v. Keeps (Other index) s.infos v.infos)
          (ap (λ (p : Option ℕ × Store). p.1)
            (some_inj (info.file, record s { open_files = slots }) (r, s') h))
          (λ i b g. (b, g, Same-self (Other index i) b))
