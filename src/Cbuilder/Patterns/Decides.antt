-- ===== src/Cbuilder/Patterns/Decides.antt =====
-- `match_pattern` against the meaning of a pattern, and against `WildcardMatch` of src/files.c.
use mlbtcc.Base.{
  ℕ, ◌≡◌, ◌∙◌, refl, ap, sym, arith, some, Bool, true, false, ◌==◌, ◌&&◌, [], ◌∷◌, if◌then◌else◌,
  Bool-cases, inl, inr, All,
}
use mathlib.Core.Path.{fun_ext}
use mlbtcc.Base.Bytes.{Bytes}
use mlbtcc.Text.Glob.{any_end, one_char, is_empty, glob, glob-star}
use mlbtcc.Cbuilder.Patterns.{trailing_stars, some_place, match_pattern}
use mlbtcc.Files.Wildcard.{wildcard_match}
use mlbtcc.Files.Wildcard.Decides.{IsPlain, wildcard_match-glob}

-- The character is not the question mark, which `MatchPattern` has no meaning for.
abbrev pub IsCertain : ℕ → Type 0
IsCertain p = (p == b'?') ≡ false

trailing_stars-glob :
    (pattern : Bytes) → All IsCertain pattern → trailing_stars pattern ≡ glob pattern []
unfolding trailing_stars glob any_end one_char is_empty
trailing_stars-glob [] _ = refl
trailing_stars-glob (p ∷ pattern) (_, certain) = ground (arith, trailing_stars-glob pattern certain)

any_end-empty : (s : Bytes) → any_end (glob []) s ≡ true
unfolding any_end glob is_empty
any_end-empty [] = refl
any_end-empty (c ∷ s) = ground (arith, any_end-empty s)

any_end_all : (f : Bytes → Bool) → ((s : Bytes) → f s ≡ true) → (s : Bytes) → any_end f s ≡ true
unfolding any_end
any_end_all f h [] = h []
any_end_all f h (c ∷ s) = rw (h (c ∷ s)) refl

-- A pattern that matches the empty text is stars only, and matches every text.
glob_of_stars :
    (p : ℕ) (pattern : Bytes)
    → glob (p ∷ pattern) [] ≡ true
    → (s : Bytes) → glob (p ∷ pattern) s ≡ true
unfolding glob any_end one_char
glob_of_stars p [] h s = ground (arith, any_end-empty s)
glob_of_stars p (q ∷ pattern) h s = elim (Bool-cases (p == b'*')) [
  | inl star ↦
      glob-star p (q ∷ pattern) s star
      ∙ any_end_all (glob (q ∷ pattern))
          (λ t. glob_of_stars q pattern (sym (glob-star p (q ∷ pattern) [] star) ∙ h) t) s
  | inr other ↦ ground arith
]

-- The empty end of the text makes no difference where the test fails on it.
some_place-any_end : (f : Bytes → Bool) → f [] ≡ false → (s : Bytes) → some_place f s ≡ any_end f s
unfolding some_place any_end
some_place-any_end f h [] = sym h
some_place-any_end f h (c ∷ s) = ground (arith, some_place-any_end f h s)

some_place-glob :
    (p : ℕ) (pattern : Bytes) (c : ℕ) (s : Bytes)
    → some_place (glob (p ∷ pattern)) (c ∷ s) ≡ any_end (glob (p ∷ pattern)) (c ∷ s)
unfolding some_place any_end
some_place-glob p pattern c s = elim (Bool-cases (glob (p ∷ pattern) [])) [
  | inl h ↦ let e = glob_of_stars p pattern h (c ∷ s) in rw e refl
  | inr h ↦ some_place-any_end (glob (p ∷ pattern)) h (c ∷ s)
]

literal :
    (p d : ℕ) (pattern s : Bytes)
    → IsCertain p
    → (p == b'*') ≡ false
    → (if p == d then glob pattern s else false) ≡ glob (p ∷ pattern) (d ∷ s)
unfolding glob one_char
literal p d pattern s c other = rw other (rw c (alike (p == d) (glob pattern s)))
  where
    alike : (b x : Bool) → (if b then x else false) ≡ (b && x)
    alike true x = refl
    alike false x = refl

-- One step of `match_pattern`, with the rest of the pattern read as its meaning.
step :
    (p : ℕ) (pattern : Bytes) (s : Bytes)
    → IsCertain p
    → All IsCertain pattern
    → ((t : Bytes) → match_pattern pattern t ≡ glob pattern t)
    → match_pattern (p ∷ pattern) s ≡ glob (p ∷ pattern) s
unfolding match_pattern
step p pattern [] c certain ih = trailing_stars-glob (p ∷ pattern) (c, certain)
step p [] (d ∷ s) c certain ih = elim (Bool-cases (p == b'*')) [
  | inl star ↦ rw star (sym (glob-star p [] (d ∷ s) star ∙ any_end-empty (d ∷ s)))
  | inr other ↦ rw other (ap (λ b. if p == d then b else false) (ih s) ∙ literal p d [] s c other)
]
step p (q ∷ pattern) (d ∷ s) c certain ih = elim (Bool-cases (p == b'*')) [
  | inl star ↦ rw star (
      ap (λ f. some_place f (d ∷ s)) (fun_ext ih)
      ∙ some_place-glob q pattern d s
      ∙ sym (glob-star p (q ∷ pattern) (d ∷ s) star))
  | inr other ↦
      rw other (ap (λ b. if p == d then b else false) (ih s) ∙ literal p d (q ∷ pattern) s c other)
]

-- For a pattern without question marks, `MatchPattern` answers what the pattern means: each star
-- stands for any characters, the empty text included.
pub match_pattern-glob :
    (pattern text : Bytes) → All IsCertain pattern → match_pattern pattern text ≡ glob pattern text
unfolding match_pattern glob is_empty
match_pattern-glob [] [] certain = refl
match_pattern-glob [] (c ∷ text) certain = refl
match_pattern-glob (p ∷ pattern) text (c, certain) =
    step p pattern text c certain (λ t. match_pattern-glob pattern t certain)

-- The build tool's test of a file's name and the library's, both asked about a name with no star
-- and a pattern with no question mark, agree.
pub match_pattern-wildcard_match :
    (pattern text : Bytes)
    → All IsCertain pattern
    → All IsPlain text
    → wildcard_match text pattern ≡ some (match_pattern pattern text)
match_pattern-wildcard_match pattern text certain plain =
    wildcard_match-glob text pattern plain ∙ ap some (sym (match_pattern-glob pattern text certain))
