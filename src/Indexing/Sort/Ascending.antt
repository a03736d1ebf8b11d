-- ===== src/Indexing/Sort/Ascending.antt =====
-- Ascending lists of numbers: there is one for the numbers that a list has.
use mlbtcc.Base.{
  ℕ, suc, ◌+◌, ◌≤◌, ◌<◌, ◌≡◌, ◌∙◌, refl, sym, ap, arith, List, [], ◌∷◌, ltb, if◌then◌else◌, length,
  All,
}
use mathlib.Core.List.{Permᴰ}
use native.Mathlib.Decide.{dec_le}
use mathlib.Core.Path.{subst, ap₂}

abbrev pub IsAscending : List ℕ → Type 0
IsAscending [] = Unit
IsAscending (x ∷ l) = All (λ y. x ≤ y) l × IsAscending l

abbrev one_below : ℕ → ℕ → ℕ
one_below k x = if ltb x k then 1 else 0

-- How many elements are below a bound.
unfoldable below : ℕ → List ℕ → ℕ
below k [] = 0
below k (x ∷ l) = one_below k x + below k l

below_none : (k : ℕ) (l : List ℕ) → All (λ y. k ≤ y) l → below k l ≡ 0
unfolding below
below_none k [] h = refl
below_none k (x ∷ l) (h, hs) = ground (arith, below_none k l hs)

below-perm : (k : ℕ) {l r : List ℕ} → Permᴰ l r → below k l ≡ below k r
unfolding below
below-perm k Permᴰ.nil = refl
below-perm k (Permᴰ.cons e p) = ap₂ (λ (x n : ℕ). one_below k x + n) e (below-perm k p)
below-perm k (Permᴰ.swap {a} {b} {a'} {b'} {l} e f) =
    let one : one_below k a ≡ one_below k b' = ap (one_below k) e in
    let two : one_below k b ≡ one_below k a' = ap (one_below k) f in omega (arith, one, two)
below-perm k (Permᴰ.trans p q) = below-perm k p ∙ below-perm k q

pub All-perm : {A : Type 0} (P : A → Type 0) {l r : List A} → Permᴰ l r → All P l → All P r
All-perm P Permᴰ.nil h = tt
All-perm P (Permᴰ.cons e p) (h, hs) = (subst P e h, All-perm P p hs)
All-perm P (Permᴰ.swap e f) (ha, (hb, hs)) = (subst P f hb, (subst P e ha, hs))
All-perm P (Permᴰ.trans p q) h = All-perm P q (All-perm P p h)

pub length-perm : {A : Type 0} {l r : List A} → Permᴰ l r → length l ≡ length r
length-perm Permᴰ.nil = refl
length-perm (Permᴰ.cons e p) = ap suc (length-perm p)
length-perm (Permᴰ.swap e f) = refl
length-perm (Permᴰ.trans p q) = length-perm p ∙ length-perm q

below_first : (x : ℕ) (l : List ℕ) → 0 < below (suc x) (x ∷ l)
unfolding below
below_first x l = ground arith

heads_le :
    (x y : ℕ) (l r : List ℕ)
    → below (suc x) (x ∷ l) ≡ below (suc x) (y ∷ r)
    → IsAscending (y ∷ r)
    → y ≤ x
unfolding below
heads_le x y l r e (h, hs) = elim (dec_le y x) [
  | yes p ↦ p
  | no n ↦ absurd (ground (arith, below_none (suc x) r (weaken r (omega arith) h), e))
]
  where
    weaken : (r : List ℕ) → x < y → All (λ z. y ≤ z) r → All (λ z. suc x ≤ z) r
    weaken [] lt h = tt
    weaken (z ∷ r) lt (p, h) = (omega (arith, lt, p), weaken r lt h)

below_tail :
    (k x y : ℕ) (l r : List ℕ) → x ≡ y → below k (x ∷ l) ≡ below k (y ∷ r) → below k l ≡ below k r
unfolding below
below_tail k x y l r same h = omega (arith, ap (one_below k) same, h)

ascending_eq :
    (l r : List ℕ)
    → IsAscending l
    → IsAscending r
    → length l ≡ length r
    → ((k : ℕ) → below k l ≡ below k r)
    → l ≡ r
ascending_eq [] [] al ar e h = refl
ascending_eq [] (y ∷ r) al ar e h = absurd (omega arith)
ascending_eq (x ∷ l) [] al ar e h = absurd (omega arith)
ascending_eq (x ∷ l) (y ∷ r) al ar e h =
    let same : x ≡ y =
      omega (arith, heads_le x y l r (h (suc x)) ar, heads_le y x r l (sym (h (suc y))) al) in
    ap₂ ◌∷◌ same
      (ascending_eq l r (al.1) (ar.1) (omega arith) (λ k. below_tail k x y l r same (h k)))

pub IsAscending-eq : {l r : List ℕ} → IsAscending l → IsAscending r → Permᴰ l r → l ≡ r
IsAscending-eq {l} {r} al ar p = ascending_eq l r al ar (length-perm p) (λ k. below-perm k p)
