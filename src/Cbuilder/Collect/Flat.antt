-- ===== src/Cbuilder/Collect/Flat.antt =====
-- `RecursiveCollectFiles` never calls itself, and collects what its pattern means.
use mlbtcc.Base.{
  ℕ, zero, suc, ◌-◌, ◌≤◌, ◌<◌, ◌≡◌, ◌∙◌, refl, ap, sym, arith, Option, none, some, ◌>>=◌, Bool,
  true, false, ◌||◌, not, List, [], ◌∷◌, ◌++◌, map, append-nil, append_assoc, ltb, if◌then◌else◌,
  length, length-append, length-take, take, All, Bool-cases, inl, inr,
}
use mathlib.Core.Path.{fun_ext}
use mlbtcc.Base.Bytes.{Bytes}
use mlbtcc.Text.Glob.{glob}
use mlbtcc.Cbuilder.Strings.{CString}
use mlbtcc.Cbuilder.Strings.Spaces.{spaced, spaced_size, behind, create_string-spaced}
use mlbtcc.Cbuilder.Patterns.{match_pattern}
use mlbtcc.Cbuilder.Patterns.Decides.{IsCertain, match_pattern-glob}
use mlbtcc.Cbuilder.Host.{Host, is_dot}
use mlbtcc.Cbuilder.Collect.{
  has_slash, base_and_pattern, sub_path, collect_file, collect_entry, collect_entries,
  recursive_collect_files,
}
use mlbtcc.Cbuilder.Collect.Slash.{base_and_pattern-flat}

module _ {W : Type 0} (host : Host W) (w : W) where
  -- Whether an entry is passed over.
  abbrev pub is_skipped : (Bytes → Bool) → Bytes → Bytes → Bool
  is_skipped test base name =
      (is_dot name || not (host.exists (sub_path base name) w))
      || (host.is_directory (sub_path base name) w || not (test name))

  -- The paths of the entries that are not directories and whose names pass a test.
  unfoldable pub chosen : (Bytes → Bool) → Bytes → List Bytes → List Bytes
  chosen test base [] = []
  chosen test base (name ∷ names) =
      let rest = chosen test base names in
      if is_skipped test base name then rest else sub_path base name ∷ rest

  -- What one entry adds to the results.
  abbrev Adds : List CString → Option (List CString) → List Bytes → Type 0
  Adds results o paths =
      (r : List CString) × (o ≡ some r) × (map CString.c_str r ≡ map CString.c_str results ++ paths)

  Adds-nothing :
      (results : List CString) (o : Option (List CString)) → o ≡ some results → Adds results o []
  Adds-nothing results o e = (results, e, sym (append-nil (map CString.c_str results)))

  spaced_one : (path : Bytes) → spaced (path ∷ []) ≡ path
  unfolding spaced behind
  spaced_one [] = refl
  spaced_one (c ∷ path) = append-nil (c ∷ path)

  map-append :
      (xs ys : List CString)
      → map CString.c_str (xs ++ ys) ≡ map CString.c_str xs ++ map CString.c_str ys
  map-append [] ys = refl
  map-append (x ∷ xs) ys = ap (λ t. CString.c_str x ∷ t) (map-append xs ys)

  take_room : (n : ℕ) (path : Bytes) → 0 < n → take n (path ∷ []) ≡ path ∷ []
  take_room zero path h = absurd (omega arith)
  take_room (suc zero) path h = refl
  take_room (suc (suc n)) path h = refl

  take_none : (n : ℕ) (path : Bytes) → n ≡ 0 → take n (path ∷ []) ≡ []
  take_none zero path h = refl
  take_none (suc n) path h = absurd (omega arith)

  Adds-path :
      (match path name : Bytes) (max : ℕ) (results : List CString)
      → length path ≤ 1023
      → match_pattern match name ≡ true
      → ltb (length results) max ≡ true
      → Adds results (collect_file host match path name max results) (path ∷ [])
  unfolding collect_file spaced_size
  Adds-path match path name max results short m room =
      let (s, e, _, c) = create_string-spaced (path ∷ []) (omega arith) in
      (
        results ++ (s ∷ []),
        rw m (rw room (ap (λ o. o >>= λ string. some (results ++ (string ∷ []))) e)),
        map-append results (s ∷ [])
            ∙ ap (λ x. map CString.c_str results ++ (x ∷ [])) (c ∙ spaced_one path),
      )

  full_lem :
      (match path name : Bytes) (max : ℕ) (results : List CString)
      → match_pattern match name ≡ true
      → ltb (length results) max ≡ false
      → collect_file host match path name max results ≡ some results
  unfolding collect_file
  full_lem match path name max results m full = rw m (rw full refl)

  collect_file-Adds :
      (match path name : Bytes) (max : ℕ) (results : List CString)
      → length path ≤ 1023
      → match_pattern match name ≡ true
      → Adds results
          (collect_file host match path name max results)
          (take (max - length results) (path ∷ []))
  collect_file-Adds match path name max results short m =
      elim (Bool-cases (ltb (length results) max)) [
        | inl room ↦
            let (r, e, c) = Adds-path match path name max results short m room in
            (
              r,
              e,
              c
                  ∙ ap (λ x. map CString.c_str results ++ x)
                      (sym (take_room (max - length results) path (ground arith))),
            )
        | inr full ↦ (
          results,
          full_lem match path name max results m full,
          sym (append-nil (map CString.c_str results))
              ∙ ap (λ x. map CString.c_str results ++ x)
                  (sym (take_none (max - length results) path (ground arith))),
        )
      ]

  unmatched :
      (match path name : Bytes) (max : ℕ) (results : List CString)
      → match_pattern match name ≡ false
      → collect_file host match path name max results ≡ some results
  unfolding collect_file
  unmatched match path name max results m = rw m refl

  pub length-sub_path : (base name : Bytes) → length (sub_path base name) ≤ 1023
  length-sub_path base name = omega (arith, length-take 1023 (base ++ (b'/' ∷ name)))

  -- One entry adds its path when it is not passed over and there is room. A pattern without a slash
  -- makes no call for a directory inside.
  collect_entry-Adds :
      (inside : Bytes → List CString → Option (List CString)) (base match name : Bytes) (max : ℕ)
      (results : List CString)
      → has_slash match ≡ false
      → Adds results (collect_entry host inside base match max name w results) (
          if is_skipped (match_pattern match) base name
          then []
          else take (max - length results) (sub_path base name ∷ []))
  unfolding collect_entry
  collect_entry-Adds inside base match name max results flat =
      elim (Bool-cases (is_dot name || not (host.exists (sub_path base name) w))) [
        | inl skip ↦ rw skip (Adds-nothing results (some results) refl)
        | inr here ↦ elim (Bool-cases (host.is_directory (sub_path base name) w)) [
          | inl dir ↦ rw here (rw dir (rw flat (Adds-nothing results (some results) refl)))
          | inr file ↦ elim (Bool-cases (match_pattern match name)) [
            | inl m ↦ rw here (
                rw file (
                  rw m (
                    collect_file-Adds match (sub_path base name) name max results
                      (length-sub_path base name) m)))
            | inr m ↦ rw here (
                rw file (
                  rw m (
                    Adds-nothing results
                      (collect_file host match (sub_path base name) name max results)
                      (unmatched match (sub_path base name) name max results m))))
          ]
        ]
      ]

  length-map : (xs : List CString) → length (map CString.c_str xs) ≡ length xs
  length-map [] = refl
  length-map (x ∷ xs) = ap suc (length-map xs)

  take_nil : (n : ℕ) → take {A = Bytes} n [] ≡ []
  take_nil zero = refl
  take_nil (suc n) = refl

  less_one : (n : ℕ) → suc (suc n) - 1 ≡ suc n
  less_one n = omega arith

  take_split :
      (n : ℕ) (path : Bytes) (rest : List Bytes)
      → take n (path ∷ []) ++ take (n - length (take n (path ∷ []))) rest ≡ take n (path ∷ rest)
  take_split zero path rest = refl
  take_split (suc zero) path rest = refl
  take_split (suc (suc n)) path rest = ap (λ k. path ∷ take k rest) (less_one n)

  -- What fits of an entry and of those behind it.
  fit_split :
      (skipped : Bool) (n : ℕ) (path : Bytes) (rest : List Bytes)
      → (if skipped then [] else take n (path ∷ []))
          ++ take (n - length (if skipped then [] else take n (path ∷ []))) rest
        ≡ take n (if skipped then rest else path ∷ rest)
  fit_split true n path rest = ap (λ k. take k rest) (omega arith)
  fit_split false n path rest = take_split n path rest

  room_left :
      (r results : List CString) (added : List Bytes) (max : ℕ)
      → map CString.c_str r ≡ map CString.c_str results ++ added
      → max - length r ≡ max - length results - length added
  room_left r results added max e = omega (
    arith,
    length-map r,
    length-map results,
    ap length e,
    length-append (map CString.c_str results) added,
  )

  collect_entries-Adds :
      (inside : Bytes → List CString → Option (List CString)) (base match : Bytes) (max : ℕ)
      (names : List Bytes) (results : List CString)
      → has_slash match ≡ false
      → Adds results
          (collect_entries host inside base match max names w results)
          (take (max - length results) (chosen (match_pattern match) base names))
  unfolding collect_entries chosen
  collect_entries-Adds inside base match max [] results flat = (
    results,
    refl,
    sym (append-nil (map CString.c_str results))
        ∙ ap (λ x. map CString.c_str results ++ x) (sym (take_nil (max - length results))),
  )
  collect_entries-Adds inside base match max (name ∷ names) results flat =
      let path = sub_path base name in
      let skipped = is_skipped (match_pattern match) base name in
      let rest = chosen (match_pattern match) base names in
      let n = max - length results in
      let added = if skipped then [] else take n (path ∷ []) in
      let (r, e, c) = collect_entry-Adds inside base match name max results flat in
      let (r', e', c') = collect_entries-Adds inside base match max names r flat in
      (
        r',
        ap (λ o. o >>= λ x. collect_entries host inside base match max names w x) e ∙ e',
        c'
            ∙ ap (λ x. x ++ take (max - length r) rest) c
            ∙ append_assoc (map CString.c_str results) added (take (max - length r) rest)
            ∙ ap (λ k. map CString.c_str results ++ (added ++ take k rest))
                (room_left r results added max c)
            ∙ ap (λ x. map CString.c_str results ++ x) (fit_split skipped n path rest),
      )

  less_none : (n : ℕ) → n - 0 ≡ n
  less_none n = omega arith

  -- What a pattern means in a directory with these entries, if it opens.
  abbrev pub meant : Bytes → Option (List Bytes) → List Bytes
  meant pattern none = []
  meant pattern (some names) =
      chosen (glob ((base_and_pattern pattern).1)) ((base_and_pattern pattern).0) names

  of_entries :
      (inside : Bytes → List CString → Option (List CString)) (pattern : Bytes) (max : ℕ)
      (o : Option (List Bytes))
      → All IsCertain ((base_and_pattern pattern).1)
      → (r : List CString) × (elim o as (λ _. Option (List CString)) [
        | none ↦ some []
        | some names ↦
            collect_entries host inside
              ((base_and_pattern pattern).0)
              ((base_and_pattern pattern).1)
              max
              names
              w
              []
      ]
          ≡ some r)
        × (map CString.c_str r ≡ take max (meant pattern o))
  of_entries inside pattern max none certain = ([], refl, sym (take_nil max))
  of_entries inside pattern max (some names) certain =
      let base = (base_and_pattern pattern).0 in
      let match = (base_and_pattern pattern).1 in
      let (r, e, c) =
        collect_entries-Adds inside base match max names [] (base_and_pattern-flat pattern) in
      (
        r,
        e,
        c
            ∙ ap (λ k. take k (chosen (match_pattern match) base names)) (less_none max)
            ∙ ap (λ f. take max (chosen f base names))
                (fun_ext (λ name. match_pattern-glob match name certain)),
      )

  -- Whatever the fuel past one: where the directory opens, the results are the first `max` of the
  -- paths of its entries, in order, that are not directories and whose names the part of the pattern
  -- behind its last slash means; where it does not open there are none. That part holds no question
  -- mark.
  pub recursive_collect_files-meant :
      (fuel : ℕ) (pattern : Bytes) (max : ℕ)
      → All IsCertain ((base_and_pattern pattern).1)
      → (r : List CString) × (recursive_collect_files host (suc fuel) pattern max w [] ≡ some r)
        × (map CString.c_str r
            ≡ take max (meant pattern (host.entries ((base_and_pattern pattern).0) w)))
  unfolding recursive_collect_files
  recursive_collect_files-meant fuel pattern max certain =
      of_entries (λ p r. recursive_collect_files host fuel p max w r) pattern max
        (host.entries ((base_and_pattern pattern).0) w) certain
