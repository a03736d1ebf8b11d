-- ===== src/BitcoinSpecifics/Reverse/Swaps.antt =====
-- `reverse_string` reverses the first `size` bytes and leaves the others.
use mlbtcc.Base.{ℕ, zero, suc, ◌+◌, ◌-◌, ◌%◌, ◌^◌, ◌<◌, ◌≤◌, ◌≡◌, ◌∙◌, refl, ap, arith}
use mlbtcc.Base.{some, [], ◌++◌, length, length-append, get_elem?, set, ltb, ltb→lt, ◌==◌}
use mlbtcc.Base.{if◌then◌else◌, ◌||◌, length-set, Bool-cases, inl, inr, ◌⊎◌, append-nil}
use mlbtcc.Base.Bytes.{Bytes}
use mlbtcc.BitcoinSpecifics.Reverse.{swap, reverse_loop, reverse_string}
use mlbtcc.Base.Index.{
  get_elem?-set, get_elem?-lt, list_ext, get_elem?-append, length-reverse, get_elem?-reverse,
}
use mathlib.Core.List.{reverse}

-- `s` has the bytes of `str`, those before `i` and behind `j` reversed within the first `size`.
record Swapped (str : Bytes) (size i j : ℕ) (s : Bytes) : Type 0 where
  middle : i + j + 1 ≡ size
  fits : size ≤ length str
  same_length : length s ≡ length str
  outer : (k : ℕ) → k < size → (k < i) ⊎ (j < k) → get_elem? s k ≡ get_elem? str (size - 1 - k)
  inner : (k : ℕ) → i ≤ k → k ≤ j → get_elem? s k ≡ get_elem? str k
  beyond : (k : ℕ) → size ≤ k → get_elem? s k ≡ get_elem? str k

swap-Swapped :
    (str : Bytes) (size i j : ℕ) (s : Bytes)
    → i < j
    → Swapped str size i j s
    → (s' : Bytes) × (swap i j s ≡ some s') × Swapped str size (i + 1) (j - 1) s'
unfolding swap
swap-Swapped str size i j s h w =
    let (x, ex) = get_elem?-lt s i (omega arith) in
    let (y, ey) = get_elem?-lt s j (omega arith) in
    let after : (k : ℕ)
        → get_elem? (set (set s i y) j x) k
          ≡ (if j == k then some x else if i == k then some y else get_elem? s k) =
      λ k.
        ground (arith, get_elem?-set (set s i y) j k x, get_elem?-set s i k y, length-set s i y) in
    (
      set (set s i y) j x,
      ground (arith, ex, ey),
      record {
        middle = omega arith;
        fits = w.fits;
        same_length = length-set (set s i y) j x ∙ length-set s i y ∙ w.same_length;
        outer = λ k hk side. elim (Bool-cases (j == k)) [
          | inl at_j ↦
              let e : size - 1 - k ≡ i = ground arith in rw e (ground (arith, after k, w.inner i))
          | inr not_j ↦ elim (Bool-cases (i == k)) [
            | inl at_i ↦
                let e : size - 1 - k ≡ j = ground arith in rw e (ground (arith, after k, w.inner j))
            | inr not_i ↦ ground (arith, after k, w.outer k hk (ground arith))
          ]
        ];
        inner = λ k lo hi. ground (arith, after k, w.inner k);
        beyond = λ k hk. ground (arith, after k, w.beyond k);
      },
    )

-- `s` has the first `size` bytes of `str` reversed, and the others as they are.
record Reversed (str : Bytes) (size : ℕ) (s : Bytes) : Type 0 where
  kept_length : length s ≡ length str
  front : (k : ℕ) → k < size → get_elem? s k ≡ get_elem? str (size - 1 - k)
  back : (k : ℕ) → size ≤ k → get_elem? s k ≡ get_elem? str k

Swapped-Reversed :
    (str : Bytes) (size i j : ℕ) (s : Bytes)
    → j ≤ i
    → i ≤ j + 1
    → Swapped str size i j s
    → Reversed str size s
Swapped-Reversed str size i j s h lo w = record {
  kept_length = w.same_length;
  front = λ k hk. elim (Bool-cases (ltb k i || ltb j k)) [
    | inl out ↦ w.outer k hk (ground arith)
    | inr mid ↦
        let e : size - 1 - k ≡ k = ground arith in rw e (w.inner k (ground arith) (ground arith))
  ];
  back = w.beyond;
}

-- With enough fuel the loop ends, and every byte is in its place.
reverse_loop-Reversed :
    (str : Bytes) (size fuel i j : ℕ) (s : Bytes)
    → j + 1 < fuel + i
    → i ≤ j + 1
    → Swapped str size i j s
    → (s' : Bytes) × (reverse_loop fuel i j s ≡ some s') × Reversed str size s'
unfolding reverse_loop
reverse_loop-Reversed str size zero i j s hf lo w = absurd (omega arith)
reverse_loop-Reversed str size (suc fuel) i j s hf lo w = elim (Bool-cases (ltb i j)) [
  | inl more ↦
      let (s1, e, w1) = swap-Swapped str size i j s (ltb→lt i j more) w in
      let (s', e', r) =
        reverse_loop-Reversed str size fuel (i + 1) (j - 1) s1 (ground arith) (ground arith) w1 in
      (s', ground (arith, e, e'), r)
  | inr done ↦ (s, ground arith, Swapped-Reversed str size i j s (ground arith) lo w)
]

reverse_string-Reversed :
    (str : Bytes) (size : ℕ)
    → 0 < size
    → size < 2 ^ 64
    → size ≤ length str
    → (s : Bytes) × (reverse_string str size ≡ some s) × Reversed str size s
unfolding reverse_string
reverse_string-Reversed str size pos small fits =
    let e : (size + 2 ^ 64 - 1) % 2 ^ 64 ≡ size - 1 = omega arith in
    rw e (
      reverse_loop-Reversed str size (suc size) 0 (size - 1) str (omega arith) (omega arith)
        (record {
          middle = omega arith;
          fits = fits;
          same_length = refl;
          outer = λ k hk side. absurd (omega arith);
          inner = λ k lo hi. refl;
          beyond = λ k hk. refl;
        }))

-- With `size` readable bytes, `reverse_string` reverses exactly the first `size` bytes, for any
-- size from 1 on that fits a size_t.
pub reverse_string-reverse :
    (bytes rest : Bytes)
    → 0 < length bytes
    → length bytes < 2 ^ 64
    → reverse_string (bytes ++ rest) (length bytes) ≡ some (reverse bytes ++ rest)
reverse_string-reverse bytes rest pos small =
    let (s, e, r) =
      reverse_string-Reversed (bytes ++ rest) (length bytes) pos small
        (omega (arith, length-append bytes rest)) in
    e
    ∙ ap some (
        list_ext s (reverse bytes ++ rest) (λ i. elim (Bool-cases (ltb i (length bytes))) [
          | inl front ↦ ground (
            arith,
            r.front i,
            get_elem?-append bytes rest (length bytes - 1 - i),
            get_elem?-append (reverse bytes) rest i,
            get_elem?-reverse bytes i,
            length-reverse bytes,
          )
          | inr back ↦ ground (
            arith,
            r.back i,
            get_elem?-append bytes rest i,
            get_elem?-append (reverse bytes) rest i,
            length-reverse bytes,
          )
        ]))

pub reverse_string_whole :
    (n : ℕ) (bytes : Bytes)
    → length bytes ≡ n
    → 0 < n
    → n < 2 ^ 64
    → reverse_string bytes n ≡ some (reverse bytes)
reverse_string_whole n bytes h pos small =
    let whole : reverse_string (bytes ++ []) (length bytes) ≡ some (reverse bytes ++ []) =
      reverse_string-reverse bytes [] (omega arith) (omega arith) in
    ground (arith, whole, append-nil bytes, append-nil (reverse bytes))
