-- ===== src/Files/Wildcard.antt =====
-- src/files.c, `WildcardMatch` and `SanitizeDirString`.
pub mod Plain
pub mod Decides
use mlbtcc.Base.{
  ℕ, zero, suc, ◌+◌, ◌*◌, Option, none, some, Bool, true, false, ◌||◌, List, [], ◌∷◌, ◌++◌, ◌==◌,
  if◌then◌else◌, length,
}
use mlbtcc.Base.Bytes.{Bytes}

-- The loop `while (*p == '*')` and the test behind it.
unfoldable pub only_stars : Bytes → Bool
only_stars [] = true
only_stars (p ∷ pattern) = if p == b'*' then only_stars pattern else false

-- The first character of the pattern, 0 at its end.
abbrev pub head_char : Bytes → ℕ
head_char [] = 0
head_char (p ∷ pattern) = p

abbrev pub tail_chars : Bytes → Bytes
tail_chars [] = []
tail_chars (p ∷ pattern) = pattern

-- The text and the pattern that are left, and, once a star was met, the pattern behind it and the
-- text from where it matches.
pub record Place : Type 0 where
  pub text : Bytes
  pub pattern : Bytes
  pub star : Option (Bytes × Bytes)

-- `p = star + 1; s = ++ss;`.
unfoldable pub again : Option (Bytes × Bytes) → Option Place
again none = none
again (some (after, from)) =
    some (record { text = tail_chars from; pattern = after; star = some (after, tail_chars from) })

-- One round of the main loop at the character `c`, which is not 0; `none` is `return 0`.
unfoldable pub wildcard_round : ℕ → Place → Option Place
wildcard_round c at_ =
    if head_char at_.pattern == b'?' || head_char at_.pattern == c
    then some
        (record { text = tail_chars at_.text; pattern = tail_chars at_.pattern; star = at_.star })
    else if head_char at_.pattern == b'*'
    then some (record {
      text = at_.text;
      pattern = tail_chars at_.pattern;
      star = some (tail_chars at_.pattern, at_.text);
    })
    else again at_.star

-- The main loop, then the stars at the end. The fuel is for the rounds.
unfoldable pub wildcard_loop : ℕ → Place → Option Bool
wildcard_loop zero at_ = none
wildcard_loop (suc fuel) at_ = elim at_.text [
  | [] ↦ some (only_stars at_.pattern)
  | c ∷ _ ↦ elim (wildcard_round c at_) [ none ↦ some false | some next ↦ wildcard_loop fuel next ]
]

-- Each position of the star meets each position of the text at most once.
unfoldable pub wildcard_match : Bytes → Bytes → Option Bool
wildcard_match str pattern =
    wildcard_loop ((length str + 2) * (length str + length pattern + 2))
      (record { text = str; pattern = pattern; star = none })

-- What `dir` holds afterwards; the buffer has room.
pub sanitize_dir_string : Bytes → Bytes
sanitize_dir_string [] = []
sanitize_dir_string (c ∷ []) = if c == b'/' then c ∷ [] else c ∷ b'/' ∷ []
sanitize_dir_string (c ∷ d ∷ dir) = c ∷ sanitize_dir_string (d ∷ dir)
