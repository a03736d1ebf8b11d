-- ===== src/Text/Glob.antt =====
-- A star stands for any characters, a question mark for any one, another character for itself.
use mlbtcc.Base.{ℕ, ◌≡◌, refl, arith, Bool, true, false, ◌&&◌, ◌||◌, [], ◌∷◌, ◌==◌, if◌then◌else◌}
use mlbtcc.Base.Bytes.{Bytes}
use mathlib.Core.Path.{ap, fun_ext}

-- Whether some end of a text, the whole text and the empty one included, passes a test.
unfoldable pub any_end : (Bytes → Bool) → Bytes → Bool
any_end f [] = f []
any_end f (c ∷ s) = f (c ∷ s) || any_end f s

-- Whether the first character is the pattern's, and what is behind it passes a test.
unfoldable pub one_char : ℕ → (Bytes → Bool) → Bytes → Bool
one_char q f [] = false
one_char q f (c ∷ s) = (q == b'?' || q == c) && f s

unfoldable pub is_empty : Bytes → Bool
is_empty [] = true
is_empty (c ∷ s) = false

unfoldable pub glob : Bytes → Bytes → Bool
glob [] s = is_empty s
glob (q ∷ p) s = let rest = glob p in if q == b'*' then any_end rest s else one_char q rest s

-- One star is as good as two.
pub any_end-any_end :
    (f : Bytes → Bool) (s : Bytes) → any_end (any_end f) s ≡ true → any_end f s ≡ true
unfolding any_end
any_end-any_end f [] h = h
any_end-any_end f (c ∷ s) h = ground (arith, any_end-any_end f s)

any_end-tail :
    (q : ℕ) (f : Bytes → Bool) (s : Bytes) → any_end (one_char q f) s ≡ true → any_end f s ≡ true
unfolding any_end one_char
any_end-tail q f [] h = cc
any_end-tail q f (c ∷ []) h = ground arith
any_end-tail q f (c ∷ d ∷ s) h = ground (arith, any_end-tail q f (d ∷ s))

-- Where a star and a character match, the star and what is behind the character match the rest.
pub any_end-one_char :
    (q c : ℕ) (f : Bytes → Bool) (s : Bytes)
    → any_end (one_char q f) (c ∷ s) ≡ true
    → any_end f s ≡ true
unfolding any_end one_char
any_end-one_char q c f [] h = ground arith
any_end-one_char q c f (d ∷ s) h = ground (arith, any_end-tail q f (d ∷ s))

pub any_end_whole : (f : Bytes → Bool) (s : Bytes) → f s ≡ true → any_end f s ≡ true
unfolding any_end
any_end_whole f [] h = h
any_end_whole f (c ∷ s) h = ground arith

pub any_end_later :
    (f : Bytes → Bool) (c : ℕ) (s : Bytes) → any_end f s ≡ true → any_end f (c ∷ s) ≡ true
unfolding any_end
any_end_later f c s h = ground arith

pub glob-star : (q : ℕ) (p s : Bytes) → (q == b'*') ≡ true → glob (q ∷ p) s ≡ any_end (glob p) s
unfolding glob
glob-star q p s h = rw h refl

pub glob-one_char :
    (q : ℕ) (p s : Bytes) → (q == b'*') ≡ false → glob (q ∷ p) s ≡ one_char q (glob p) s
unfolding glob
glob-one_char q p s h = rw h refl

-- A character that matches leaves the question to what is behind it.
pub glob_matching :
    (q c : ℕ) (p s : Bytes)
    → (q == b'*') ≡ false
    → (q == b'?' || q == c) ≡ true
    → glob (q ∷ p) (c ∷ s) ≡ glob p s
unfolding glob one_char
glob_matching q c p s h m = rw h (rw m refl)

pub glob_differing :
    (q c : ℕ) (p s : Bytes)
    → (q == b'*') ≡ false
    → (q == b'?' || q == c) ≡ false
    → glob (q ∷ p) (c ∷ s) ≡ false
unfolding glob one_char
glob_differing q c p s h m = rw h (rw m refl)

pub any_end-same :
    (f g : Bytes → Bool) → ((s : Bytes) → f s ≡ g s) → (s : Bytes) → any_end f s ≡ any_end g s
any_end-same f g h s = ap (λ t. any_end t s) (fun_ext h)

pub any_end_behind :
    (f : Bytes → Bool) (c : ℕ) (s : Bytes)
    → f (c ∷ s) ≡ false
    → any_end f (c ∷ s) ≡ true
    → any_end f s ≡ true
unfolding any_end
any_end_behind f c s e h = ground arith

pub glob_end : (c : ℕ) (s : Bytes) → glob [] (c ∷ s) ≡ false
unfolding glob is_empty
glob_end c s = refl
