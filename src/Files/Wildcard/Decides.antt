-- ===== src/Files/Wildcard/Decides.antt =====
-- `WildcardMatch` ends and decides what its pattern means.
use mlbtcc.Base.{
  ℕ, zero, suc, ◌+◌, ◌*◌, ◌<◌, ◌≤◌, ◌≡◌, ◌≢◌, ◌∙◌, refl, ap, sym, arith, Option, none, some, Bool,
  true, false, ◌||◌, [], ◌∷◌, ◌==◌, length, All, Bool-cases, inl, inr,
}
use mlbtcc.Base.Bytes.{Bytes}
use mlbtcc.Text.Glob.{
  any_end, one_char, is_empty, glob, any_end-any_end, any_end-one_char, any_end_whole,
  any_end_later, any_end_behind, any_end-same, glob-star, glob-one_char, glob_end, glob_matching,
  glob_differing,
}
use mlbtcc.Files.Wildcard.{Place, only_stars, again, wildcard_round, wildcard_loop, wildcard_match}

-- A character of a file's name: neither the terminator nor a star.
abbrev pub IsPlain : ℕ → Type 0
IsPlain c = (0 < c) × (c ≢ b'*')

abbrev Star : Type 0
Star = Option (Bytes × Bytes)

abbrev at_place : Bytes → Bytes → Star → Place
at_place s p star = record { text = s; pattern = p; star = star }

only_stars-glob : (p : Bytes) → only_stars p ≡ glob p []
unfolding only_stars glob any_end one_char is_empty
only_stars-glob [] = refl
only_stars-glob (q ∷ p) = ground (arith, only_stars-glob p)

no_match : (a b : Bool) → (a ≡ true → b ≡ true) → b ≡ false → a ≡ false
no_match true b h e = sym (h refl) ∙ e
no_match false b h e = refl

same_answer : (a b : Bool) → (a ≡ true → b ≡ true) → (b ≡ true → a ≡ true) → a ≡ b
same_answer true b to back = sym (to refl)
same_answer false true to back = back refl
same_answer false false to back = refl

-- The goal is the answer to the question asked at the start; every pattern in play is shorter
-- than `k`.
module _ (goal : Bool) (k : ℕ) where
  -- What the saved star means: the question is whether the pattern behind it matches some end of
  -- the text from where it stands, and what was read since then is a match of its first part.
  -- `m` bounds the text that is left to retry.
  abbrev Saved : ℕ → Bytes → Bytes → Star → Type 0
  Saved m p s none = goal ≡ true → glob p s ≡ true
  Saved m p s (some (after, from)) =
      (goal ≡ true → any_end (glob after) from ≡ true)
      × (any_end (glob after) from ≡ true → goal ≡ true)
      × (glob after from ≡ true → glob p s ≡ true)
      × (length s ≤ length from)
      × (length from ≤ m)
      × (length after < k)
      × All IsPlain from

  record IsGood (fuel m : ℕ) (p s : Bytes) (star : Star) : Type 0 where
    now : glob p s ≡ true → goal ≡ true
    later : goal ≡ true → any_end (glob p) s ≡ true
    saved : Saved m p s star
    plain : All IsPlain s
    text_bound : length s ≤ m
    pattern_bound : length p < k
    enough : m * k + length p < fuel

  -- At a star the question becomes whether an end of the text matches.
  at_star :
      (fuel m : ℕ) (p s : Bytes)
      → (goal ≡ true → any_end (glob p) s ≡ true)
      → (any_end (glob p) s ≡ true → goal ≡ true)
      → All IsPlain s
      → length s ≤ m
      → length p < k
      → m * k + length p < fuel
      → IsGood fuel m p s (some (p, s))
  at_star fuel m p s to from plain hs hp hf = record {
    now = λ e. from (any_end_whole (glob p) s e);
    later = to;
    saved = (to, from, λ e. e, omega arith, hs, hp, plain);
    plain = plain;
    text_bound = hs;
    pattern_bound = hp;
    enough = hf;
  }

  Saved-matching :
      (m q c : ℕ) (p s : Bytes) (star : Star)
      → (q == b'*') ≡ false
      → (q == b'?' || q == c) ≡ true
      → Saved m (q ∷ p) (c ∷ s) star
      → Saved m p s star
  Saved-matching m q c p s none h e saved = λ g. sym (glob_matching q c p s h e) ∙ saved g
  Saved-matching m q c p s (some (after, from)) h e (to, back, down, shorter, hs, hp, plain) =
      (to, back, λ g. sym (glob_matching q c p s h e) ∙ down g, omega arith, hs, hp, plain)

  IsGood-matching :
      (fuel m q c : ℕ) (p s : Bytes) (star : Star)
      → (q == b'*') ≡ false
      → (q == b'?' || q == c) ≡ true
      → IsGood (suc fuel) m (q ∷ p) (c ∷ s) star
      → IsGood fuel m p s star
  IsGood-matching fuel m q c p s star h e i = record {
    now = λ g. i.now (glob_matching q c p s h e ∙ g);
    later = λ g. any_end-one_char q c (glob p) s (starred (i.later g));
    saved = Saved-matching m q c p s star h e i.saved;
    plain = i.plain.1;
    text_bound = omega arith;
    pattern_bound = omega arith;
    enough = omega arith;
  }
    where
      starred : any_end (glob (q ∷ p)) (c ∷ s) ≡ true → any_end (one_char q (glob p)) (c ∷ s) ≡ true
      starred g =
          sym
            (any_end-same (glob (q ∷ p)) (one_char q (glob p)) (λ t. glob-one_char q p t h) (c ∷ s))
          ∙ g

  -- A second star: the question is the same with one of them.
  starred_twice :
      (q : ℕ) (p s : Bytes)
      → (q == b'*') ≡ true
      → any_end (glob (q ∷ p)) s ≡ true
      → any_end (glob p) s ≡ true
  starred_twice q p s h g =
      any_end-any_end (glob p) s
        (sym (any_end-same (glob (q ∷ p)) (any_end (glob p)) (λ t. glob-star q p t h) s) ∙ g)

  IsGood-star :
      (fuel m q : ℕ) (p s : Bytes) (star : Star)
      → (q == b'*') ≡ true
      → IsGood (suc fuel) m (q ∷ p) s star
      → IsGood fuel m p s (some (p, s))
  IsGood-star fuel m q p s star h i =
      at_star fuel m p s (λ g. starred_twice q p s h (i.later g))
        (λ g. i.now (glob-star q p s h ∙ g)) i.plain i.text_bound (omega arith) (omega arith)

  -- What the loop makes of a round.
  after_round : ℕ → Option Place → Option Bool
  after_round fuel none = some false
  after_round fuel (some next) = wildcard_loop fuel next

  -- What the loop makes of a mismatch.
  retried : ℕ → Star → Option Bool
  retried fuel star = after_round fuel (again star)

  retried_lem :
      (fuel m c : ℕ) (p s : Bytes) (star : Star)
      → ((m' : ℕ) (p' s' : Bytes) (star' : Star)
          → IsGood fuel m' p' s' star'
          → wildcard_loop fuel (at_place s' p' star') ≡ some goal)
      → IsGood (suc fuel) m p (c ∷ s) star
      → glob p (c ∷ s) ≡ false
      → retried fuel star ≡ some goal
  unfolding retried after_round again
  retried_lem fuel m c p s none ih i differs = ground (arith, i.saved, Bool-cases goal)
  retried_lem fuel m c p s (some (after, [])) ih i differs = absurd (omega (arith, i.saved))
  retried_lem fuel zero c p s (some (after, d ∷ from)) ih i differs =
      absurd (omega (arith, i.text_bound))
  retried_lem fuel (suc m) c p s (some (after, d ∷ from)) ih i differs =
      let (to, back, down, shorter, hs, hp, plain) = i.saved in
      ih m after from (some (after, from)) (
        at_star fuel m after from
          (λ g. any_end_behind (glob after) d from (no_match _ _ down differs) (to g))
          (λ g. back (any_end_later (glob after) d from g)) plain.1 (omega arith) hp
          (omega (arith, i.enough)))

  -- One round of the loop from what `wildcard_round` gives.
  loop_step :
      (fuel c : ℕ) (p s : Bytes) (star : Star) (r : Option Place)
      → wildcard_round c (at_place (c ∷ s) p star) ≡ r
      → wildcard_loop (suc fuel) (at_place (c ∷ s) p star) ≡ after_round fuel r
  unfolding wildcard_loop after_round
  loop_step fuel c p s star r e = ap (after_round fuel) e

  round_matching :
      (fuel q c : ℕ) (p s : Bytes) (star : Star)
      → (q == b'?' || q == c) ≡ true
      → wildcard_loop (suc fuel) (at_place (c ∷ s) (q ∷ p) star)
        ≡ wildcard_loop fuel (at_place s p star)
  unfolding wildcard_round after_round
  round_matching fuel q c p s star e =
      loop_step fuel c (q ∷ p) s star (some (at_place s p star)) (rw e refl)

  round_star :
      (fuel q c : ℕ) (p s : Bytes) (star : Star)
      → (q == b'?' || q == c) ≡ false
      → (q == b'*') ≡ true
      → wildcard_loop (suc fuel) (at_place (c ∷ s) (q ∷ p) star)
        ≡ wildcard_loop fuel (at_place (c ∷ s) p (some (p, c ∷ s)))
  unfolding wildcard_round after_round
  round_star fuel q c p s star e h =
      loop_step fuel c (q ∷ p) s star (some (at_place (c ∷ s) p (some (p, c ∷ s))))
        (rw e (rw h refl))

  round_mismatch :
      (fuel q c : ℕ) (p s : Bytes) (star : Star)
      → (q == b'?' || q == c) ≡ false
      → (q == b'*') ≡ false
      → wildcard_loop (suc fuel) (at_place (c ∷ s) (q ∷ p) star) ≡ retried fuel star
  unfolding wildcard_round retried
  round_mismatch fuel q c p s star e h =
      loop_step fuel c (q ∷ p) s star (again star) (rw e (rw h refl))

  round_end :
      (fuel c : ℕ) (s : Bytes) (star : Star)
      → 0 < c
      → wildcard_loop (suc fuel) (at_place (c ∷ s) [] star) ≡ retried fuel star
  unfolding wildcard_round retried
  round_end fuel c s star h = loop_step fuel c [] s star (again star) (ground arith)

  star_differs : (q c : ℕ) → IsPlain c → (q == b'*') ≡ true → (q == b'?' || q == c) ≡ false
  star_differs q c plain h = ground arith

  wildcard_loop-IsGood :
      (fuel m : ℕ) (p s : Bytes) (star : Star)
      → IsGood fuel m p s star
      → wildcard_loop fuel (at_place s p star) ≡ some goal
  wildcard_loop-IsGood zero m p s star i = absurd (omega arith)
  wildcard_loop-IsGood (suc fuel) m p [] star i =
      unfold wildcard_loop in
      unfold any_end in ap some (only_stars-glob p ∙ same_answer (glob p []) goal i.now i.later)
  wildcard_loop-IsGood (suc fuel) m [] (c ∷ s) star i =
      round_end fuel c s star i.plain.0.0
      ∙ retried_lem fuel m c [] s star (wildcard_loop-IsGood fuel) i (glob_end c s)
  wildcard_loop-IsGood (suc fuel) m (q ∷ p) (c ∷ s) star i = elim (Bool-cases (q == b'*')) [
    | inl h ↦
        round_star fuel q c p s star (star_differs q c i.plain.0 h) h
        ∙ wildcard_loop-IsGood fuel m p (c ∷ s) (some (p, c ∷ s))
            (IsGood-star fuel m q p (c ∷ s) star h i)
    | inr h ↦ elim (Bool-cases (q == b'?' || q == c)) [
      | inl e ↦
          round_matching fuel q c p s star e
          ∙ wildcard_loop-IsGood fuel m p s star (IsGood-matching fuel m q c p s star h e i)
      | inr e ↦
          round_mismatch fuel q c p s star e h
          ∙ retried_lem fuel m c (q ∷ p) s star (wildcard_loop-IsGood fuel) i
              (glob_differing q c p s h e)
    ]
  ]

-- For every pattern and every name without a star in it, `wildcard_match` ends within its fuel, and
-- answers what the pattern means: a star stands for any characters, a question mark for any one,
-- and every other character for itself.
pub wildcard_match-glob :
    (str pattern : Bytes) → All IsPlain str → wildcard_match str pattern ≡ some (glob pattern str)
unfolding wildcard_match
wildcard_match-glob str pattern plain =
    wildcard_loop-IsGood (glob pattern str) (length pattern + 1) _ (length str) pattern str none
      (record {
        now = λ g. g;
        later = λ g. any_end_whole (glob pattern) str g;
        saved = λ g. g;
        plain = plain;
        text_bound = omega arith;
        pattern_bound = omega arith;
        enough = grind arith;
      })
