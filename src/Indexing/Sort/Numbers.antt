-- ===== src/Indexing/Sort/Numbers.antt =====
-- The number in a block file's path.
use mlbtcc.Base.{
  ℕ, ◌+◌, ◌-◌, ◌*◌, ◌/◌, ◌%◌, ◌^◌, ◌<◌, ◌≡◌, ◌∙◌, refl, ap, arith, none, some, Bool-cases,
  Option-cases, inl, inr, false, [], ◌∷◌, ◌++◌, drop,
}
use Prim.Native.Nat.{min}
use mlbtcc.Base.Bytes.{Bytes, codes}
use mlbtcc.Datadir.{strstr, starts_with}
use mlbtcc.Indexing.Sort.{extract_block_number, atoi, signed_number, leading_number}

abbrev digit_of : ℕ → ℕ
digit_of d = b'0' + d % 10

-- "blk", a number in five digits, ".dat".
abbrev pub block_name : ℕ → Bytes
block_name k =
    b'b'
    ∷ b'l'
    ∷ b'k'
    ∷ digit_of (k / 10000)
    ∷ digit_of (k / 1000)
    ∷ digit_of (k / 100)
    ∷ digit_of (k / 10)
    ∷ digit_of k
    ∷ codes ".dat"

leading_number-digit :
    (a value : ℕ) (text : Bytes)
    → a < 10
    → leading_number ((b'0' + a) ∷ text) value ≡ leading_number text (value * 10 + a)
unfolding leading_number
leading_number-digit a value text h = let e : b'0' + a - b'0' ≡ a = omega arith in ground (arith, e)

leading_number_end : (text : Bytes) (value : ℕ) → leading_number (b'.' ∷ text) value ≡ value
unfolding leading_number
leading_number_end text value = refl

atoi-digit :
    (a : ℕ) (text : Bytes)
    → a < 10
    → atoi ((b'0' + a) ∷ text) ≡ min (leading_number ((b'0' + a) ∷ text) 0) (2 ^ 63 - 1) % 2 ^ 32
unfolding atoi signed_number
atoi-digit a text h = ground arith

atoi-digits :
    (a b c d e : ℕ) (text : Bytes)
    → a < 10
    → b < 10
    → c < 10
    → d < 10
    → e < 10
    → atoi ((b'0' + a) ∷ (b'0' + b) ∷ (b'0' + c) ∷ (b'0' + d) ∷ (b'0' + e) ∷ b'.' ∷ text)
      ≡ a * 10000 + b * 1000 + c * 100 + d * 10 + e
atoi-digits a b c d e text ha hb hc hd he =
    atoi-digit a _ ha
    ∙ ap (λ (n : ℕ). min n (2 ^ 63 - 1) % 2 ^ 32)
        (leading_number-digit a 0 _ ha
          ∙ leading_number-digit b (0 * 10 + a) _ hb
          ∙ leading_number-digit c ((0 * 10 + a) * 10 + b) _ hc
          ∙ leading_number-digit d (((0 * 10 + a) * 10 + b) * 10 + c) _ hd
          ∙ leading_number-digit e ((((0 * 10 + a) * 10 + b) * 10 + c) * 10 + d) (b'.' ∷ text) he
          ∙ leading_number_end text _)
    ∙ omega arith

strstr-none :
    (c : ℕ) (text part : Bytes)
    → strstr (c ∷ text) part ≡ none
    → (starts_with part (c ∷ text) ≡ false) × (strstr text part ≡ none)
unfolding strstr
strstr-none c text part h = elim (Bool-cases (starts_with part (c ∷ text))) [
  | inl e ↦ absurd (ground arith)
  | inr e ↦
      (e, elim (Option-cases (strstr text part)) [ inl n ↦ n | inr (r, n) ↦ absurd (ground arith) ])
]

-- A slash is no part of "blk".
starts_with-append :
    (front rest : Bytes)
    → starts_with (codes "blk") front ≡ false
    → starts_with (codes "blk") (front ++ (b'/' ∷ rest)) ≡ false
starts_with-append [] rest h = refl
starts_with-append (c ∷ []) rest h = ground arith
starts_with-append (c ∷ d ∷ []) rest h = ground arith
starts_with-append (c ∷ d ∷ e ∷ front) rest h = ground arith

strstr-append :
    (front rest : Bytes)
    → strstr front (codes "blk") ≡ none
    → strstr (front ++ (b'/' ∷ b'b' ∷ b'l' ∷ b'k' ∷ rest)) (codes "blk")
      ≡ some (front ++ (b'/' ∷ []), b'b' ∷ b'l' ∷ b'k' ∷ rest)
unfolding strstr
strstr-append [] rest h = refl
strstr-append (c ∷ front) rest h =
    let (not_here, later) = strstr-none c front (codes "blk") h in
    rw (starts_with-append (c ∷ front) (b'b' ∷ b'l' ∷ b'k' ∷ rest) not_here)
      (rw (strstr-append front rest later) refl)

found :
    (filename before from : Bytes)
    → strstr filename (codes "blk") ≡ some (before, from)
    → extract_block_number filename ≡ atoi (drop 3 from)
unfolding extract_block_number
found filename before from h =
    ap (λ o. elim o as (λ _. ℕ) [ none ↦ 0 | some r ↦ atoi (drop 3 (r.1)) ]) h

-- In a directory without "blk" in its path, the number of a block file is read back.
pub extract_block_number-block_name :
    (directory : Bytes) (k : ℕ)
    → strstr directory (codes "blk") ≡ none
    → k < 100000
    → extract_block_number (directory ++ (b'/' ∷ block_name k)) ≡ k
extract_block_number-block_name directory k clean h =
    found (directory ++ (b'/' ∷ block_name k)) (directory ++ (b'/' ∷ [])) (block_name k)
      (strstr-append directory (drop 3 (block_name k)) clean)
    ∙ atoi-digits (k / 10000 % 10) (k / 1000 % 10) (k / 100 % 10) (k / 10 % 10) (k % 10)
        (codes "dat") (omega arith) (omega arith) (omega arith) (omega arith) (omega arith)
    ∙ omega arith
