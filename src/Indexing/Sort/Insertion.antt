-- ===== src/Indexing/Sort/Insertion.antt =====
-- An insertion sort, as one that `qsort` may be.
use mlbtcc.Base.{
  ℕ, ◌≤◌, ◌≡◌, refl, arith, Bool-cases, inl, inr, List, [], ◌∷◌, ltb, if◌then◌else◌, map, All,
}
use mlbtcc.Files.Listing.{FileInfo}
use mlbtcc.Indexing.Sort.{Qsort, is_positive}
use mlbtcc.Indexing.Sort.Ascending.{IsAscending, All-perm}
use mathlib.Core.List.{Permᴰ}
use mathlib.Core.List.Permᴰ

module _ (cmp : FileInfo → FileInfo → ℕ) where
  pub insert_by : FileInfo → List FileInfo → List FileInfo
  insert_by a [] = a ∷ []
  insert_by a (b ∷ l) =
      let rest = insert_by a l in if is_positive (cmp a b) then b ∷ rest else a ∷ b ∷ l

  pub sort_by : List FileInfo → List FileInfo
  sort_by [] = []
  sort_by (a ∷ l) = insert_by a (sort_by l)

  insert_by-perm : (a : FileInfo) (l : List FileInfo) → Permᴰ (insert_by a l) (a ∷ l)
  unfolding insert_by
  insert_by-perm a [] = Permᴰ.refl (a ∷ [])
  insert_by-perm a (b ∷ l) = elim (Bool-cases (is_positive (cmp a b))) [
    | inl e ↦ rw e (Permᴰ.trans (Permᴰ.cons refl (insert_by-perm a l)) (Permᴰ.swap refl refl))
    | inr e ↦ rw e (Permᴰ.refl (a ∷ b ∷ l))
  ]

  pub sort_by-perm : (l : List FileInfo) → Permᴰ (sort_by l) l
  unfolding sort_by
  sort_by-perm [] = Permᴰ.nil
  sort_by-perm (a ∷ l) =
      Permᴰ.trans (insert_by-perm a (sort_by l)) (Permᴰ.cons refl (sort_by-perm l))

  module _ (key : FileInfo → ℕ) where
    abbrev Agrees : FileInfo → FileInfo → Type 0
    Agrees a b = is_positive (cmp a b) ≡ ltb (key b) (key a)

    All-map_key :
        (P : ℕ → Type 0) {l r : List FileInfo} → Permᴰ l r → All P (map key l) → All P (map key r)
    All-map_key P p h = All-perm P (Permᴰ.map key p) h

    insert_by-IsAscending :
        (a : FileInfo) (l : List FileInfo)
        → All (Agrees a) l
        → IsAscending (map key l)
        → IsAscending (map key (insert_by a l))
    unfolding insert_by
    insert_by-IsAscending a [] h s = (tt, tt)
    insert_by-IsAscending a (b ∷ l) (hb, h) (first, s) = elim (Bool-cases (is_positive (cmp a b))) [
      | inl e ↦
          let le : key b ≤ key a = ground (arith, hb, e) in
          rw e (
            All-map_key (λ y. key b ≤ y) (Permᴰ.symm (insert_by-perm a l)) (le, first),
            insert_by-IsAscending a l h s,
          )
      | inr e ↦
          let le : key a ≤ key b = ground (arith, hb, e) in
          rw e ((le, weaken (key a) (key b) (map key l) le first), (first, s))
    ]
      where
        weaken : (x y : ℕ) (l : List ℕ) → x ≤ y → All (λ z. y ≤ z) l → All (λ z. x ≤ z) l
        weaken x y [] le h = tt
        weaken x y (z ∷ l) le (hz, h) = (omega (arith, le, hz), weaken x y l le h)

    drop_first :
        (a : FileInfo) (l r : List FileInfo)
        → All (λ b. All (Agrees b) (a ∷ l)) r
        → All (λ b. All (Agrees b) l) r
    drop_first a l [] h = tt
    drop_first a l (b ∷ r) ((_, hb), h) = (hb, drop_first a l r h)

    pub sort_by-IsAscending :
        (l : List FileInfo) → All (λ a. All (Agrees a) l) l → IsAscending (map key (sort_by l))
    unfolding sort_by
    sort_by-IsAscending [] h = tt
    sort_by-IsAscending (a ∷ l) ((_, ha), h) =
        insert_by-IsAscending a (sort_by l) (All-perm (Agrees a) (Permᴰ.symm (sort_by-perm l)) ha)
          (sort_by-IsAscending l (drop_first a l l h))

abbrev pub insertion_sort : Qsort
insertion_sort = record {
  sort = sort_by;
  sort-perm = sort_by-perm;
  sort-IsAscending = sort_by-IsAscending;
}
