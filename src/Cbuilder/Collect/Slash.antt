-- ===== src/Cbuilder/Collect/Slash.antt =====
-- The part of a pattern that names are matched with holds no slash.
use mlbtcc.Base.{
  ℕ, ◌≡◌, ◌∙◌, refl, ap, Option, none, some, Bool, true, false, ◌==◌, ◌||◌, [], ◌∷◌, if◌then◌else◌,
  take,
}
use mlbtcc.Base.Bytes.{Bytes, codes}
use mlbtcc.Cbuilder.Collect.{last_slash, has_slash, base_and_pattern}

-- The part that is read as a pattern, which is the whole text when no slash is found.
abbrev NoSlash : Bytes → Option (Bytes × Bytes) → Type 0
NoSlash text none = has_slash text ≡ false
NoSlash text (some (dir, after)) = has_slash after ≡ false

char_step :
    (c : ℕ) (text : Bytes) (b : Bool)
    → (c == b'/') ≡ b
    → has_slash text ≡ false
    → NoSlash (c ∷ text) (if b then some ([], text) else none)
unfolding has_slash
char_step c text true e h = h
char_step c text false e h = ap (λ b. b || has_slash text) e ∙ h

last_slash-NoSlash : (text : Bytes) → NoSlash text (last_slash text)
unfolding last_slash has_slash
last_slash-NoSlash [] = refl
last_slash-NoSlash (c ∷ text) = slash_step c text (last_slash text) (last_slash-NoSlash text)
  where
    slash_step :
        (c : ℕ) (text : Bytes) (o : Option (Bytes × Bytes))
        → NoSlash text o
        → NoSlash (c ∷ text) (elim o [
          | some (dir, after) ↦ some (c ∷ dir, after)
          | none ↦ if c == b'/' then some ([], text) else none
        ])
    slash_step c text (some (dir, after)) h = h
    slash_step c text none h = char_step c text (c == b'/') refl h

-- Behind the last slash there is none.
pub base_and_pattern-flat : (pattern : Bytes) → has_slash ((base_and_pattern pattern).1) ≡ false
base_and_pattern-flat pattern = of_split pattern (last_slash pattern) (last_slash-NoSlash pattern)
  where
    of_split :
        (pattern : Bytes) (o : Option (Bytes × Bytes))
        → NoSlash pattern o
        → has_slash (
            (elim o as (λ _. Bytes × Bytes) [
              | none ↦ (codes ".", pattern)
              | some (before, after) ↦ (take 1023 before, after)
            ]).1)
          ≡ false
    of_split pattern none h = h
    of_split pattern (some (dir, after)) h = h
