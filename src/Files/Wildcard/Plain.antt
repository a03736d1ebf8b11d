-- ===== src/Files/Wildcard/Plain.antt =====
-- Patterns without a wildcard, and the end of a directory's name.
use mlbtcc.Base.{
  ℕ, zero, suc, ◌+◌, ◌*◌, ◌<◌, ◌≡◌, ◌≢◌, ◌∙◌, refl, ap, arith, none, some, Bool, true, false, [],
  ◌∷◌, ◌++◌, ◌==◌, if◌then◌else◌, length, All, append_assoc, Bool-cases, inl, inr,
}
use mlbtcc.Base.Bytes.{Bytes}
use mlbtcc.Files.Wildcard.{
  only_stars, again, wildcard_round, wildcard_loop, wildcard_match, sanitize_dir_string,
}

-- A character of a text, and a character of a pattern that stands for itself.
abbrev pub IsChar : ℕ → Type 0
IsChar c = 0 < c

abbrev pub IsLiteral : ℕ → Type 0
IsLiteral c = (0 < c) × (c ≢ b'?') × (c ≢ b'*')

-- Whether two texts are the same.
abbrev pub same_text : Bytes → Bytes → Bool
same_text [] [] = true
same_text [] (q ∷ p) = false
same_text (c ∷ s) [] = false
same_text (c ∷ s) (q ∷ p) = if c == q then same_text s p else false

wildcard_loop-same_text :
    (fuel : ℕ) (s p : Bytes)
    → length s < fuel
    → All IsChar s
    → All IsLiteral p
    → wildcard_loop fuel (record { text = s; pattern = p; star = none }) ≡ some (same_text s p)
unfolding wildcard_loop wildcard_round only_stars again
wildcard_loop-same_text zero s p h hs hp = absurd (omega arith)
wildcard_loop-same_text (suc fuel) [] [] h hs hp = refl
wildcard_loop-same_text (suc fuel) [] (q ∷ p) h hs (hq, hp) = ground arith
wildcard_loop-same_text (suc fuel) (c ∷ s) [] h (hc, hs) hp = ground arith
wildcard_loop-same_text (suc fuel) (c ∷ s) (q ∷ p) h (hc, hs) (hq, hp) =
    elim (Bool-cases (q == c)) [
      | inl same ↦ ground (arith, wildcard_loop-same_text fuel s p (omega arith) hs hp)
      | inr differs ↦ ground arith
    ]

-- With a pattern in which no character is `?` or `*`, `wildcard_match` ends, and it accepts exactly
-- the text that is the pattern.
pub wildcard_match-same_text :
    (str pattern : Bytes)
    → All IsChar str
    → All IsLiteral pattern
    → wildcard_match str pattern ≡ some (same_text str pattern)
unfolding wildcard_match
wildcard_match-same_text str pattern hs hp =
    wildcard_loop-same_text ((length str + 2) * (length str + length pattern + 2)) str pattern
      (grind arith) hs hp

with_slash : Bytes → ℕ → Bytes
with_slash front c = if c == b'/' then front ++ (c ∷ []) else front ++ (c ∷ b'/' ∷ [])

with_slash_cons :
    (d : ℕ) (front : Bytes) (c : ℕ) → d ∷ with_slash front c ≡ with_slash (d ∷ front) c
unfolding with_slash
with_slash_cons d front c = elim (Bool-cases (c == b'/')) [
  | inl slash ↦ rw slash refl
  | inr other ↦ rw other refl
]

sanitize-with_slash :
    (front : Bytes) (c : ℕ) → sanitize_dir_string (front ++ (c ∷ [])) ≡ with_slash front c
unfolding sanitize_dir_string
sanitize-with_slash [] c = unfold with_slash in refl
sanitize-with_slash (d ∷ []) c = ap (◌∷◌ d) (sanitize-with_slash [] c) ∙ with_slash_cons d [] c
sanitize-with_slash (d ∷ e ∷ front) c =
    ap (◌∷◌ d) (sanitize-with_slash (e ∷ front) c) ∙ with_slash_cons d (e ∷ front) c

-- `sanitize_dir_string` adds a slash at the end of a text that has none there, and leaves a text
-- that has one as it is; so a second run changes nothing.
pub sanitize_dir_string_lem :
    (front : Bytes) (c : ℕ)
    → c ≢ b'/'
    → (sanitize_dir_string (front ++ (b'/' ∷ [])) ≡ front ++ (b'/' ∷ []))
      × (sanitize_dir_string (front ++ (c ∷ [])) ≡ (front ++ (c ∷ [])) ++ (b'/' ∷ []))
      × (sanitize_dir_string ((front ++ (c ∷ [])) ++ (b'/' ∷ []))
          ≡ (front ++ (c ∷ [])) ++ (b'/' ∷ []))
unfolding with_slash
sanitize_dir_string_lem front c other = (
  sanitize-with_slash front b'/',
  sanitize-with_slash front c ∙ unslashed front c other,
  sanitize-with_slash (front ++ (c ∷ [])) b'/',
)
  where
    unslashed :
        (front : Bytes) (c : ℕ) → c ≢ b'/' → with_slash front c ≡ (front ++ (c ∷ [])) ++ (b'/' ∷ [])
    unslashed front c other = ground (arith, append_assoc front (c ∷ []) (b'/' ∷ []))
