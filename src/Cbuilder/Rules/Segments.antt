-- ===== src/Cbuilder/Rules/Segments.antt =====
-- What `ManageRules` runs: the arguments in parts, each the name of a rule and what belongs to it.
use mlbtcc.Base.{
  ℕ, zero, suc, ◌<◌, ◌≡◌, ◌∙◌, refl, ap, arith, Option, none, some, true, false, List, [], ◌∷◌,
  ◌++◌, length, length-append, All,
}
use mlbtcc.Base.Bytes.{Bytes}
use mlbtcc.Cbuilder.Rules.{
  Run, running, exited, Rule, then_run, is_rule_name, execute_rule, until_rule, run_rules,
  manage_rules,
}

-- A rule's name and the arguments it is run with.
abbrev pub Segment : Type 0
Segment = Bytes × List Bytes

-- The segments on one command line.
abbrev pub joined : List Segment → List Bytes
joined [] = []
joined ((rule_name, args) ∷ segments) = rule_name ∷ (args ++ joined segments)

module _ {S : Type 0} (rules : List (Rule S)) where
  -- The argument does not name a rule.
  abbrev pub IsOther : Bytes → Type 0
  IsOther arg = is_rule_name rules arg ≡ false

  -- No argument of a segment is a rule's name, and every segment but the first starts with one.
  abbrev pub IsSplit : List Segment → Type 0
  IsSplit [] = Unit {0}
  IsSplit ((rule_name, args) ∷ []) = All IsOther args
  IsSplit ((rule_name, args) ∷ (next, own) ∷ segments) =
      All IsOther args × (is_rule_name rules next ≡ true) × IsSplit ((next, own) ∷ segments)

  -- Each segment's rule on its arguments, in order.
  unfoldable pub run_each : List Segment → S → Option (Run S)
  run_each [] s = some (running s)
  run_each ((rule_name, args) ∷ segments) s =
      then_run ((execute_rule rules rule_name args s).1) (λ t. run_each segments t)

  until_rule_last :
      (args : List Bytes) → All IsOther args → until_rule rules (args ++ []) ≡ (args, [])
  unfolding until_rule
  until_rule_last [] others = refl
  until_rule_last (arg ∷ args) (other, others) = rw other (rw (until_rule_last args others) refl)

  until_rule_next :
      (args : List Bytes) (next : Bytes) (rest : List Bytes)
      → All IsOther args
      → is_rule_name rules next ≡ true
      → until_rule rules (args ++ (next ∷ rest)) ≡ (args, next ∷ rest)
  unfolding until_rule
  until_rule_next [] next rest others named = rw named refl
  until_rule_next (arg ∷ args) next rest (other, others) named =
      rw other (rw (until_rule_next args next rest others named) refl)

  -- One round, when the arguments are known to part into `own` and `next`.
  round :
      (fuel : ℕ) (rule_name : Bytes) (args own next : List Bytes) (s : S)
      → until_rule rules args ≡ (own, next)
      → run_rules (suc fuel) rules (rule_name ∷ args) s
        ≡ then_run ((execute_rule rules rule_name own s).1) (λ t. run_rules fuel rules next t)
  unfolding run_rules
  round fuel rule_name args own next s e =
      ap
        (λ x.
          then_run ((execute_rule rules rule_name (x.0) s).1) (λ t. run_rules fuel rules (x.1) t))
        e

  same_after :
      (r : Option (Run S)) (f g : S → Option (Run S))
      → ((t : S) → f t ≡ g t)
      → then_run r f ≡ then_run r g
  same_after none f g h = refl
  same_after (some (running t)) f g h = h t
  same_after (some (exited status t)) f g h = refl

  run_rules-run_each :
      (fuel : ℕ) (segments : List Segment) (s : S)
      → IsSplit segments
      → length (joined segments) < fuel
      → run_rules fuel rules (joined segments) s ≡ run_each segments s
  unfolding run_each run_rules
  run_rules-run_each zero segments s split enough = absurd (omega arith)
  run_rules-run_each (suc fuel) [] s split enough = refl
  run_rules-run_each (suc zero) ((rule_name, args) ∷ segments) s split enough = absurd (omega arith)
  run_rules-run_each (suc (suc fuel)) ((rule_name, args) ∷ []) s split enough =
      round (suc fuel) rule_name (args ++ []) args [] s (until_rule_last args split)
  run_rules-run_each (suc (suc fuel)) ((rule_name, args) ∷ (next, own) ∷ segments) s
        (others, named, split) enough =
      round (suc fuel) rule_name (args ++ joined ((next, own) ∷ segments)) args
        (joined ((next, own) ∷ segments)) s
        (until_rule_next args next (own ++ joined segments) others named)
      ∙ same_after ((execute_rule rules rule_name args s).1)
          (λ t. run_rules (suc fuel) rules (joined ((next, own) ∷ segments)) t)
          (λ t. run_each ((next, own) ∷ segments) t)
          (λ t.
            run_rules-run_each (suc fuel) ((next, own) ∷ segments) t split
              (omega (arith, enough, length-append args (joined ((next, own) ∷ segments)))))

  -- A command line with at least one argument behind the program's name, read as segments of a
  -- name and the arguments before the next rule's name: after `ManageRebuild` each segment's rule is
  -- run on its own arguments, in order, up to the end of the process; the loops end.
  pub manage_rules-run_each :
      (manage_rebuild : List Bytes → S → Option (Run S)) (program : Bytes) (first : Segment)
      (segments : List Segment) (s : S)
      → IsSplit (first ∷ segments)
      → manage_rules manage_rebuild rules (program ∷ joined (first ∷ segments)) s
        ≡ then_run
            (manage_rebuild (program ∷ joined (first ∷ segments)) s)
            (λ t. run_each (first ∷ segments) t)
  unfolding manage_rules
  manage_rules-run_each manage_rebuild program first segments s split =
      same_after (manage_rebuild (program ∷ joined (first ∷ segments)) s)
        (λ t.
          run_rules (suc (length (joined (first ∷ segments)))) rules (joined (first ∷ segments)) t)
        (λ t. run_each (first ∷ segments) t)
        (λ t.
          run_rules-run_each (suc (length (joined (first ∷ segments)))) (first ∷ segments) t split
            (omega arith))
