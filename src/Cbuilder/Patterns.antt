-- ===== src/Cbuilder/Patterns.antt =====
-- CBuilder.c, `MatchPattern`.
pub mod Decides
use mlbtcc.Base.{Bool, true, false, ◌==◌, List, [], ◌∷◌, if◌then◌else◌}
use mlbtcc.Base.Bytes.{Bytes}

-- `while (*pattern == '*') pattern++` and the test of the pattern behind it.
unfoldable pub trailing_stars : Bytes → Bool
trailing_stars [] = true
trailing_stars (p ∷ pattern) = if p == b'*' then trailing_stars pattern else false

-- The inner loop: the first place of the text, its end excepted, where the rest of the pattern matches.
unfoldable pub some_place : (Bytes → Bool) → Bytes → Bool
some_place rest [] = false
some_place rest (c ∷ text) =
    let later = some_place rest text in if rest (c ∷ text) then true else later

abbrev pub at_end : Bytes → Bool
at_end [] = true
at_end (c ∷ text) = false

unfoldable pub match_pattern : Bytes → Bytes → Bool
match_pattern [] text = at_end text
match_pattern (p ∷ pattern) [] = trailing_stars (p ∷ pattern)
match_pattern (p ∷ pattern) (c ∷ text) =
    let rest = match_pattern pattern in
    if p == b'*'
    then (if at_end pattern then true else some_place rest (c ∷ text))
    else if p == c
    then rest text
    else false
