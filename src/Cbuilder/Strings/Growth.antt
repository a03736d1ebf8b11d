-- ===== src/Cbuilder/Strings/Growth.antt =====
-- The buffer has room for every text that is appended.
use mlbtcc.Base.{
  ℕ, zero, suc, ◌+◌, ◌*◌, ◌%◌, ◌^◌, ◌<◌, ◌≤◌, ◌≡◌, ◌∙◌, refl, ap, sym, arith, some, ◌>>=◌, ◌++◌,
  true, false, ltb, if◌then◌else◌, length, length-append, Bool-cases, inl, inr,
}
use native.Mathlib.Nat.{pow-suc}
use mlbtcc.Base.{◌⊎◌}
use mlbtcc.Base.Bytes.{Bytes}
use mlbtcc.Cbuilder.Strings.{CString, grow, written, append_to_string}

-- The text with its terminator fits the allocation.
pub record IsString (s : CString) : Type 0 where
  pub counted : s.length ≡ length s.c_str
  pub room : s.length < s.size
  pub fits : s.size < 2 ^ 32

abbrev Grown : ℕ → ℕ → ℕ → Type 0
Grown new_size required size =
    (required ≤ size) × (size < 2 ^ 32) × ((size ≡ new_size) ⊎ (size < 2 * required))

grow_step :
    (fuel new_size required : ℕ)
    → ltb new_size required ≡ true
    → new_size * 2 % 2 ^ 32 ≡ new_size * 2
    → grow (suc (suc fuel)) new_size required ≡ grow (suc fuel) (new_size * 2) required
unfolding grow
grow_step fuel new_size required more e = rw more (ap (λ n. grow (suc fuel) n required) e)

-- Enough doublings reach the size that is wanted, and the last one does not pass twice that.
grow-Grown :
    (fuel new_size required : ℕ)
    → required ≤ 2 ^ 31
    → new_size < 2 ^ 32
    → required ≤ new_size * 2 ^ fuel
    → (size : ℕ) × (grow (suc fuel) new_size required ≡ some size) × Grown new_size required size
unfolding grow
grow-Grown zero new_size required small fits enough =
    (new_size, ground arith, (omega arith, fits, inl refl))
grow-Grown (suc fuel) new_size required small fits enough =
    elim (Bool-cases (ltb new_size required)) [
      | inl more ↦
          let e : new_size * 2 % 2 ^ 32 ≡ new_size * 2 = ground arith in
          let far : required ≤ new_size * 2 * 2 ^ fuel =
            omega (arith, enough, ap (λ (t : ℕ). new_size * t) (pow-suc 2 fuel)) in
          let (size, g, (reached, below, bound)) =
            grow-Grown fuel (new_size * 2) required small (ground arith) far in
          (
            size,
            grow_step fuel new_size required more e ∙ g,
            (reached, below, inr (at_most new_size required size more bound)),
          )
      | inr done ↦ (new_size, rw done refl, (ground arith, fits, inl refl))
    ]
  where
    at_most :
        (new_size required size : ℕ)
        → ltb new_size required ≡ true
        → (size ≡ new_size * 2) ⊎ (size < 2 * required)
        → size < 2 * required
    at_most new_size required size more bound = ground arith

-- What the code does with a buffer of 32 bits, while the sizes stay below `2 ^ 31`.
append_step :
    (str : CString) (element : Bytes) (required : ℕ)
    → (str.length + length element + 1) % 2 ^ 64 ≡ required
    → append_to_string str element ≡ (
        if ltb str.size required
        then (grow 33 (str.size * 2 % 2 ^ 32) required >>= λ size. some (written str element size))
        else some (written str element str.size))
unfolding append_to_string
append_step str element required e =
    ap
      (λ r.
        if ltb str.size r
        then (grow 33 (str.size * 2 % 2 ^ 32) r >>= λ size. some (written str element size))
        else some (written str element str.size))
      e

append_grown :
    (str : CString) (element : Bytes) (required doubled size : ℕ)
    → ltb str.size required ≡ true
    → str.size * 2 % 2 ^ 32 ≡ doubled
    → grow 33 doubled required ≡ some size
    → (if ltb str.size required
        then (grow 33 (str.size * 2 % 2 ^ 32) required >>= λ s. some (written str element s))
        else some (written str element str.size))
      ≡ some (written str element size)
append_grown str element required doubled size more e g = rw more (rw e (rw g refl))

append_kept :
    (str : CString) (element : Bytes) (required : ℕ)
    → ltb str.size required ≡ false
    → (if ltb str.size required
        then (grow 33 (str.size * 2 % 2 ^ 32) required >>= λ s. some (written str element s))
        else some (written str element str.size))
      ≡ some (written str element str.size)
append_kept str element required e = rw e refl

written-IsString :
    (str : CString) (element : Bytes) (size : ℕ)
    → IsString str
    → str.length + length element + 1 ≤ 2 ^ 31
    → str.length + length element + 1 ≤ size
    → size < 2 ^ 32
    → IsString (written str element size)
written-IsString str element size w small enough below =
    let kept : (str.length + length element) % 2 ^ 32 ≡ str.length + length element =
      ground arith in
    record {
      counted =
          kept ∙ ap (λ n. n + length element) w.counted ∙ sym (length-append str.c_str element);
      room = rw kept (omega arith);
      fits = below;
    }

bounded :
    (old size len more counted total : ℕ)
    → old < len + more + 1
    → (size ≡ old * 2) ⊎ (size < 2 * (len + more + 1))
    → len ≡ counted
    → total ≡ counted + more
    → size < 2 * (total + 1)
bounded old size len more counted total lt bound e f = ground arith

-- `append_to_string` on a string with a buffer, while what is written stays below `2 ^ 31`: it
-- ends, the element stands behind the text, and the result has its room; the allocation stays, or
-- stays below twice what is needed.
pub append_to_string-IsString :
    (str : CString) (element : Bytes)
    → IsString str
    → 0 < str.size
    → str.length + length element + 1 ≤ 2 ^ 31
    → (s : CString) × (append_to_string str element ≡ some s)
      × IsString s
      × (s.c_str ≡ str.c_str ++ element)
      × ((s.size ≡ str.size) ⊎ (s.size < 2 * (length s.c_str + 1)))
append_to_string-IsString str element w pos small =
    let required : ℕ = str.length + length element + 1 in
    let e : required % 2 ^ 64 ≡ required = ground arith in
    let step = append_step str element required e in
    elim (Bool-cases (ltb str.size required)) [
      | inl more ↦
          let lt : str.size < required = ground arith in
          let doubled : str.size * 2 % 2 ^ 32 ≡ str.size * 2 = ground arith in
          let (size, g, (reached, below, bound)) =
            grow-Grown 32 (str.size * 2) required small (omega arith) (omega arith) in
          let z = append_grown str element required (str.size * 2) size more doubled g in
          let ws = written-IsString str element size w small reached below in
          (
            written str element size,
            step ∙ z,
            ws,
            refl,
            inr (
                bounded (str.size) size (str.length) (length element) (length str.c_str)
                  (length (str.c_str ++ element)) lt bound w.counted
                  (length-append str.c_str element)),
          )
      | inr enough ↦
          let z = append_kept str element required enough in
          (
            written str element str.size,
            step ∙ z,
            written-IsString str element str.size w small (ground arith) w.fits,
            refl,
            inl refl,
          )
    ]
