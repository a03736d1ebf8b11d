-- ===== src/Api/DayBlocks.antt =====
-- `GetBlocksOfDay` on a table in the order of its blocks' times.
use mlbtcc.Base.{
  ℕ, zero, suc, ◌+◌, ◌-◌, ◌%◌, ◌^◌, ◌<◌, ◌≤◌, ◌≡◌, ◌∙◌, ◌⊎◌, refl, ap, sym, arith, Option, none,
  some, true, false, ltb, leb, inl, inr,
}
use mlbtcc.Base.Bytes.{Bytes}
use mlbtcc.Base.{List}
use mlbtcc.BitcoinSpecifics.Hash.{Sha256}
use mlbtcc.Structs.{BlockIndexRecord, BlockHeader}
use mlbtcc.Api.{
  Table, record_at, day_start, day_end, in_window, day_loop, get_blocks, get_blocks_of_day,
}

-- A property of one height is one of an equal height.
at_same : (P : ℕ → Type 0) (i l : ℕ) → i ≡ l → P i → P l
at_same P i l q h = rw (sym q) h

module _ (table : Table) (start end_ : ℕ) where
  -- The table holds, at its height, a block of this time.
  abbrev pub HasTime : ℕ → (ℕ → Type 0) → Type 0
  HasTime i P =
      (r : BlockIndexRecord) × (header : BlockHeader) × (record_at table i ≡ some r)
      × (r.block_header ≡ some header)
      × (r.height ≡ i)
      × P header.time

  abbrev pub IsEarly : ℕ → Type 0
  IsEarly i = HasTime i (λ time. time < start)

  abbrev pub IsInside : ℕ → Type 0
  IsInside i = HasTime i (λ time. (start ≤ time) × (time ≤ end_))

  abbrev pub IsLate : ℕ → Type 0
  IsLate i = HasTime i (λ time. end_ < time)

  pass_early :
      (n i : ℕ) (found : Option (ℕ × ℕ))
      → start ≤ end_
      → IsEarly i
      → day_loop table start end_ (suc n) i found ≡ day_loop table start end_ n (i + 1) found
  unfolding day_loop in_window
  pass_early n i found le (r, header, e, h, _, t) =
      let a : leb start header.time ≡ false = ground arith in
      let b : ltb end_ header.time ≡ false = ground arith in rw e (rw h (rw (a, b) refl))

  pass_first :
      (n i : ℕ)
      → IsInside i
      → day_loop table start end_ (suc n) i none ≡ day_loop table start end_ n (i + 1) (some (i, i))
  unfolding day_loop in_window
  pass_first n i (r, header, e, h, _, (t1, t2)) =
      let a : leb start header.time ≡ true = ground arith in
      let b : leb header.time end_ ≡ true = ground arith in rw e (rw h (rw (a, b) refl))

  pass_inside :
      (n i first last : ℕ)
      → IsInside i
      → day_loop table start end_ (suc n) i (some (first, last))
        ≡ day_loop table start end_ n (i + 1) (some (first, i))
  unfolding day_loop in_window
  pass_inside n i first last (r, header, e, h, _, (t1, t2)) =
      let a : leb start header.time ≡ true = ground arith in
      let b : leb header.time end_ ≡ true = ground arith in rw e (rw h (rw (a, b) refl))

  stop_late :
      (n i : ℕ) (found : Option (ℕ × ℕ))
      → start ≤ end_
      → IsLate i
      → day_loop table start end_ (suc n) i found ≡ some found
  unfolding day_loop in_window
  stop_late n i found le (r, header, e, h, _, t) =
      let a : leb start header.time ≡ true = ground arith in
      let b : leb header.time end_ ≡ false = ground arith in
      let c : ltb end_ header.time ≡ true = ground arith in rw e (rw h (rw (a, b, c) refl))

  -- Where the search ends: behind the table, or at a block of a later day.
  abbrev pub Ends : ℕ → ℕ → Type 0
  Ends n i = (n ≡ 0) ⊎ IsLate i

  search-Ends :
      (n i : ℕ) (found : Option (ℕ × ℕ))
      → start ≤ end_
      → Ends n i
      → day_loop table start end_ n i found ≡ some found
  unfolding day_loop
  search-Ends zero i found le ends = refl
  search-Ends (suc n) i found le (inl z) = absurd (omega (arith, z))
  search-Ends (suc n) i found le (inr late) = stop_late n i found le late

  -- The early blocks are passed over.
  search_early :
      (k n rounds i : ℕ)
      → rounds ≡ k + n
      → start ≤ end_
      → ((j : ℕ) → j < k → IsEarly (i + j))
      → day_loop table start end_ rounds i none ≡ day_loop table start end_ n (i + k) none
  search_early zero n rounds i e le early =
      let p : rounds ≡ n = omega (arith, e) in
      let q : i ≡ i + 0 = omega arith in
      ap (λ x. day_loop table start end_ x i none) p
      ∙ ap (λ x. day_loop table start end_ n x none) q
  search_early (suc k) n zero i e le early = absurd (omega (arith, e))
  search_early (suc k) n (suc rounds) i e le early =
      let q : i + 1 + k ≡ i + suc k = omega arith in
      pass_early rounds i none le (at_same IsEarly (i + 0) i (omega arith) (early 0 (omega arith)))
      ∙ search_early k n rounds (i + 1) (omega (arith, e)) le (λ j h.
        at_same IsEarly (i + suc j) (i + 1 + j) (omega arith) (early (suc j) (omega (arith, h))))
      ∙ ap (λ x. day_loop table start end_ n x none) q

  -- The blocks of the day, from the second on.
  search_inside :
      (m n rounds first last : ℕ)
      → rounds ≡ m + n
      → start ≤ end_
      → ((j : ℕ) → j < m → IsInside (last + 1 + j))
      → Ends n (last + 1 + m)
      → day_loop table start end_ rounds (last + 1) (some (first, last))
        ≡ some (some (first, last + m))
  search_inside zero n rounds first last e le inside ends =
      let p : rounds ≡ n = omega (arith, e) in
      let q : last + 1 + 0 ≡ last + 1 = omega arith in
      let z : last ≡ last + 0 = omega arith in
      ap (λ x. day_loop table start end_ x (last + 1) (some (first, last))) p
      ∙ search-Ends n (last + 1) (some (first, last)) le (rw q at ends)
      ∙ ap (λ x. some (some (first, x))) z
  search_inside (suc m) n zero first last e le inside ends = absurd (omega (arith, e))
  search_inside (suc m) n (suc rounds) first last e le inside ends =
      let z : last + 1 + m ≡ last + suc m = omega arith in
      let q : last + 1 + suc m ≡ last + 1 + 1 + m = omega arith in
      pass_inside rounds (last + 1) first last
        (at_same IsInside (last + 1 + 0) (last + 1) (omega arith) (inside 0 (omega arith)))
      ∙ search_inside m n rounds first (last + 1) (omega (arith, e)) le
          (λ j h.
            at_same IsInside (last + 1 + suc j) (last + 1 + 1 + j) (omega arith)
              (inside (suc j) (omega (arith, h))))
          (rw q at ends)
      ∙ ap (λ x. some (some (first, x))) z

  search_lem :
      (first m n : ℕ)
      → start ≤ end_
      → ((j : ℕ) → j < first → IsEarly j)
      → ((j : ℕ) → j < suc m → IsInside (first + j))
      → Ends n (first + suc m)
      → day_loop table start end_ (first + suc m + n) 0 none ≡ some (some (first, first + m))
  search_lem first m n le early inside ends =
      let q : 0 + first ≡ first = omega arith in
      search_early first (suc (m + n)) (first + suc m + n) 0 (omega arith) le
        (λ j h. at_same IsEarly j (0 + j) (omega arith) (early j h))
      ∙ ap (λ x. day_loop table start end_ (suc (m + n)) x none) q
      ∙ pass_first (m + n) first
          (at_same IsInside (first + 0) first (omega arith) (inside 0 (omega arith)))
      ∙ search_inside m n (m + n) first first refl le
          (λ j h.
            at_same IsInside (first + suc j) (first + 1 + j) (omega arith)
              (inside (suc j) (omega (arith, h))))
          (at_same (Ends n) (first + suc m) (first + 1 + m) (omega arith) ends)

-- On a table whose first heights hold blocks before the day, then at least one of the day, and then
-- nothing or a block after it, `get_blocks_of_day` asks `get_blocks` for exactly the heights of the
-- day's blocks. The day is the one that `day_start` gives, and does not reach the end of 32 bits.
pub get_blocks_of_day-get_blocks :
    (hash_lib : Sha256) (key : Bytes) (files : List Bytes) (current : ℕ) (table : Table)
    (timestamp first m n : ℕ)
    → day_start timestamp ≤ day_end (day_start timestamp)
    → first + suc m + n < 2 ^ 32
    → ((j : ℕ) → j < first → IsEarly table (day_start timestamp) (day_end (day_start timestamp)) j)
    → ((j : ℕ)
        → j < suc m
        → IsInside table (day_start timestamp) (day_end (day_start timestamp)) (first + j))
    → Ends table (day_start timestamp) (day_end (day_start timestamp)) n (first + suc m)
    → get_blocks_of_day hash_lib key files current table (first + suc m + n) timestamp
      ≡ get_blocks hash_lib key files current table first (m + 1)
unfolding get_blocks_of_day
get_blocks_of_day-get_blocks hash_lib key files current table timestamp first m n le fits early
      inside ends =
    let start = day_start timestamp in
    let end_ = day_end start in
    let e = search_lem table start end_ first m n le early inside ends in
    let (f, _, ef, _, hf, _) = inside 0 (omega arith) in
    let (l, _, el, _, hl, _) = inside m (omega arith) in
    let q : first + 0 ≡ first = omega arith in
    let a : f.height % 2 ^ 32 ≡ first = ground arith in
    let b : (l.height + 1 + 2 ^ 64 - f.height) % 2 ^ 32 ≡ m + 1 = ground arith in
    rw e (rw (rw q at ef) (rw el (rw (a, b) refl)))
