-- ===== src/Cbuilder/Rules/Every.antt =====
-- Every command line parts into segments.
use mlbtcc.Base.{
  ◌≡◌, ◌∙◌, refl, ap, sym, true, false, List, [], ◌∷◌, ◌++◌, if◌then◌else◌, Bool-cases, inl, inr,
  Option,
}
use mlbtcc.Base.Bytes.{Bytes}
use mlbtcc.Cbuilder.Rules.{Run, Rule, then_run, is_rule_name, manage_rules}
use mlbtcc.Cbuilder.Rules.Segments.{Segment, joined, IsSplit, run_each, manage_rules-run_each}

module _ {S : Type 0} (rules : List (Rule S)) where
  -- The arguments before the first rule's name, and the segments from there on.
  unfoldable pub parts : List Bytes → List Bytes × List Segment
  parts [] = ([], [])
  parts (arg ∷ args) =
      let (own, segments) = parts args in
      if is_rule_name rules arg then ([], (arg, own) ∷ segments) else (arg ∷ own, segments)

  unfoldable pub segments_behind : Bytes → List Bytes → List Segment
  segments_behind first args = let (own, segments) = parts args in (first, own) ∷ segments

  abbrev IsParted : List Bytes → List Bytes → List Segment → Type 0
  IsParted args own segments =
      (own ++ joined segments ≡ args) × ((first : Bytes) → IsSplit rules ((first, own) ∷ segments))

  IsParted-rule :
      (arg : Bytes) (args own : List Bytes) (segments : List Segment)
      → is_rule_name rules arg ≡ true
      → IsParted args own segments
      → IsParted (arg ∷ args) [] ((arg, own) ∷ segments)
  IsParted-rule arg args own segments named (e, split) =
      (ap (λ x. arg ∷ x) e, λ first. (tt, named, split arg))

  IsParted-other :
      (arg : Bytes) (args own : List Bytes) (segments : List Segment)
      → is_rule_name rules arg ≡ false
      → IsParted args own segments
      → IsParted (arg ∷ args) (arg ∷ own) segments
  IsParted-other arg args own [] other (e, split) =
      (ap (λ x. arg ∷ x) e, λ first. (other, split first))
  IsParted-other arg args own ((next, more) ∷ segments) other (e, split) =
      (ap (λ x. arg ∷ x) e, λ first. ((other, (split first).0), (split first).1, (split first).2))

  parts-IsParted : (args : List Bytes) → IsParted args ((parts args).0) ((parts args).1)
  unfolding parts
  parts-IsParted [] = (refl, λ first. tt)
  parts-IsParted (arg ∷ args) = elim (Bool-cases (is_rule_name rules arg)) [
    | inl named ↦
        rw named
          (IsParted-rule arg args ((parts args).0) ((parts args).1) named (parts-IsParted args))
    | inr other ↦
        rw other
          (IsParted-other arg args ((parts args).0) ((parts args).1) other (parts-IsParted args))
  ]

  -- Every command line with an argument behind the program's name parts into segments: the words in
  -- order, no rule's name among a segment's arguments, and one at the start of each segment but the
  -- first. After `ManageRebuild` each segment's rule is run on its own arguments, in order, up to
  -- the end of the process.
  pub manage_rules-segments_behind :
      (manage_rebuild : List Bytes → S → Option (Run S)) (program first : Bytes) (args : List Bytes)
      (s : S)
      → (joined (segments_behind first args) ≡ first ∷ args)
        × IsSplit rules (segments_behind first args)
        × (manage_rules manage_rebuild rules (program ∷ first ∷ args) s
            ≡ then_run
                (manage_rebuild (program ∷ first ∷ args) s)
                (λ t. run_each rules (segments_behind first args) t))
  unfolding segments_behind
  manage_rules-segments_behind manage_rebuild program first args s =
      let (e, split) = parts-IsParted args in
      let own = (parts args).0 in
      let segments = (parts args).1 in
      (
        ap (λ x. first ∷ x) e,
        split first,
        ap (λ x. manage_rules manage_rebuild rules (program ∷ first ∷ x) s) (sym e)
            ∙ manage_rules-run_each rules manage_rebuild program (first, own) segments s
                (split first)
            ∙ ap
                (λ x.
                  then_run (manage_rebuild (program ∷ first ∷ x) s)
                    (λ t. run_each rules ((first, own) ∷ segments) t))
                e,
      )
