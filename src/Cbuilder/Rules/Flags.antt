-- ===== src/Cbuilder/Rules/Flags.antt =====
-- `ParseGlobalFlags` moves the other arguments to the front.
use mlbtcc.Base.{
  ℕ, zero, suc, ◌+◌, ◌≤◌, ◌<◌, ◌≡◌, ◌∙◌, refl, ap, sym, arith, some, ◌>>=◌, Bool, true, false, ◌||◌,
  List, [], ◌∷◌, ◌++◌, append_assoc, append-nil, if◌then◌else◌, length, length-set, take, drop,
  get_elem?, set, Bool-cases, inl, inr,
}
use mlbtcc.Base.Bytes.{Bytes, same_text}
use mlbtcc.Cbuilder.Rules.{dry_run_flag, parse_flag, parse_flags_loop, parse_global_flags}

-- The arguments that are not the flag, and whether one is.
unfoldable pub without_flag : List Bytes → List Bytes
without_flag [] = []
without_flag (arg ∷ args) =
    if same_text arg dry_run_flag then without_flag args else arg ∷ without_flag args

unfoldable pub has_flag : List Bytes → Bool
has_flag [] = false
has_flag (arg ∷ args) = same_text arg dry_run_flag || has_flag args

module _ {A : Type 0} where
  get_elem?-drop :
      (xs : List A) (r : ℕ) (x : A) (ys : List A)
      → drop r xs ≡ x ∷ ys
      → (get_elem? xs r ≡ some x) × (drop (suc r) xs ≡ ys) × (r < length xs)
  get_elem?-drop [] zero x ys e = cc
  get_elem?-drop [] (suc r) x ys e = cc
  get_elem?-drop (y ∷ xs) zero x ys e = ground (arith, e)
  get_elem?-drop (y ∷ xs) (suc r) x ys e =
      let (g, d, l) = get_elem?-drop xs r x ys e in (g, d, omega (arith, l))

  drop-set : (xs : List A) (w r : ℕ) (v : A) → w < r → drop r (set xs w v) ≡ drop r xs
  drop-set [] w r v h = refl
  drop-set (x ∷ xs) w zero v h = absurd (omega arith)
  drop-set (x ∷ xs) zero (suc r) v h = refl
  drop-set (x ∷ xs) (suc w) (suc r) v h = drop-set xs w r v (omega arith)

  take-set :
      (xs : List A) (w : ℕ) (v : A)
      → w < length xs
      → take (suc w) (set xs w v) ≡ take w xs ++ (v ∷ [])
  take-set [] w v h = absurd (omega arith)
  take-set (x ∷ xs) zero v h = refl
  take-set (x ∷ xs) (suc w) v h = ap (λ t. x ∷ t) (take-set xs w v (omega arith))

-- What the loop leaves of an array whose part from `read` on is `rest`.
abbrev IsCompacted : List Bytes → ℕ → Bool → List Bytes → List Bytes × ℕ × Bool → Type 0
IsCompacted argv write_index dry_run rest (argv', argc, dry_run') =
    (take argc argv' ≡ take write_index argv ++ without_flag rest)
    × (argc ≡ write_index + length (without_flag rest))
    × (dry_run' ≡ (dry_run || has_flag rest))
    × (length argv' ≡ length argv)

or_assoc : (a b c : Bool) → ((a || b) || c) ≡ (a || (b || c))
or_assoc true b c = refl
or_assoc false b c = refl

or_true : (b : Bool) → true ≡ (b || true)
or_true true = refl
or_true false = refl

or_false : (b : Bool) → b ≡ (b || false)
or_false true = refl
or_false false = refl

-- One round at an argument that is known, with what it does.
round :
    (rounds read_index write_index : ℕ) (argv : List Bytes) (dry_run : Bool) (arg : Bytes)
    (next : List Bytes × ℕ × Bool)
    → get_elem? argv read_index ≡ some arg
    → parse_flag arg argv write_index dry_run ≡ next
    → parse_flags_loop (suc rounds) read_index (argv, write_index, dry_run)
      ≡ parse_flags_loop rounds (suc read_index) next
unfolding parse_flags_loop
round rounds read_index write_index argv dry_run arg next g e =
    ap
      (λ o.
        o >>= λ a. parse_flags_loop rounds (suc read_index) (parse_flag a argv write_index dry_run))
      g
    ∙ ap (parse_flags_loop rounds (suc read_index)) e

loop_lem :
    (rest argv : List Bytes) (read_index write_index : ℕ) (dry_run : Bool)
    → drop read_index argv ≡ rest
    → write_index ≤ read_index
    → (r : List Bytes × ℕ × Bool) × (parse_flags_loop
          (length rest)
          read_index
          (argv, write_index, dry_run)
        ≡ some r)
      × IsCompacted argv write_index dry_run rest r
unfolding parse_flags_loop without_flag has_flag
loop_lem [] argv read_index write_index dry_run e le = (
  (argv, write_index, dry_run),
  refl,
  (sym (append-nil (take write_index argv)), omega arith, or_false dry_run, refl),
)
loop_lem (arg ∷ rest) argv read_index write_index dry_run e le =
    let (g, d, lt) = get_elem?-drop argv read_index arg rest e in
    elim (Bool-cases (same_text arg dry_run_flag)) [
      | inl flag ↦
          let (r, f, (t, n, b, l)) =
            loop_lem rest argv (suc read_index) write_index true d (omega arith) in
          (
            r,
            round (length rest) read_index write_index argv dry_run arg (argv, write_index, true) g
                  (rw flag refl)
                ∙ f,
            rw flag (t, n, b ∙ or_true dry_run, l),
          )
      | inr other ↦
          let argv' = set argv write_index arg in
          let d' = drop-set argv write_index (suc read_index) arg (omega arith) ∙ d in
          let (r, f, (t, n, b, l)) =
            loop_lem rest argv' (suc read_index) (suc write_index) dry_run d' (omega arith) in
          let front = take-set argv write_index arg (omega arith) in
          (
            r,
            round (length rest) read_index write_index argv dry_run arg
                  (argv', suc write_index, dry_run) g (rw other refl)
                ∙ f,
            rw other (
              t
                  ∙ ap (λ x. x ++ without_flag rest) front
                  ∙ append_assoc (take write_index argv) (arg ∷ []) (without_flag rest),
              omega (arith, n),
              b,
              l ∙ length-set argv write_index arg,
            ),
          )
    ]

-- The array keeps its size, and its first `argc` places hold the arguments that are not
-- `--dry-run`, in order; the dry run is on when it was on or the flag was given.
pub parse_global_flags-without_flag :
    (argv : List Bytes) (dry_run : Bool)
    → (argv' : List Bytes) × (parse_global_flags argv dry_run
        ≡ some (argv', length (without_flag argv), dry_run || has_flag argv))
      × (take (length (without_flag argv)) argv' ≡ without_flag argv)
      × (length argv' ≡ length argv)
unfolding parse_global_flags
parse_global_flags-without_flag argv dry_run =
    let ((argv', argc, dry), f, (t, n, b, l)) = loop_lem argv argv 0 0 dry_run refl (omega arith) in
    let count : argc ≡ length (without_flag argv) = omega (arith, n) in
    (
      argv',
      f
          ∙ ap (λ x. some (argv', x, dry)) count
          ∙ ap (λ x. some (argv', length (without_flag argv), x)) b,
      ap (λ x. take x argv') (sym count) ∙ t,
      l,
    )
