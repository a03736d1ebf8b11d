-- ===== src/Cbuilder/Rules.antt =====
-- CBuilder.c, the table of rules, `ParseGlobalFlags` and `ManageRules`.
pub mod Flags
pub mod Segments
pub mod Every
use mlbtcc.Base.{
  ℕ, zero, suc, ◌+◌, Option, none, some, ◌>>=◌, Bool, true, false, ◌==◌, List, [], ◌∷◌, ◌++◌, leb,
  if◌then◌else◌, length, get_elem?, set,
}
use mlbtcc.Base.Bytes.{Bytes, codes, same_text}

-- What a call leaves: the state, or the process at its end.
pub data Run (S : Type 0) : Type 0 where
  running : S → Run S
  exited : ℕ → S → Run S

-- `Rule`. The function is given its `argc` arguments.
pub record Rule (S : Type 0) : Type 0 where
  pub name : Bytes
  pub function : List Bytes → S → Option (Run S)

-- `MAX_RULES`.
abbrev pub max_rules : ℕ
max_rules = 100

abbrev pub dry_run_flag : Bytes
dry_run_flag = codes "--dry-run"

-- One round of the loop of `ParseGlobalFlags` at the argument that was read: the array of
-- arguments, the place to write the next one to, and `gDryRun`.
abbrev pub parse_flag : Bytes → List Bytes → ℕ → Bool → List Bytes × ℕ × Bool
parse_flag arg argv write_index dry_run =
    if same_text arg dry_run_flag
    then (argv, write_index, true)
    else (set argv write_index arg, suc write_index, dry_run)

-- The arguments are moved to the front of the array that they are read from. The first number is
-- the rounds that are left.
unfoldable pub parse_flags_loop : ℕ → ℕ → List Bytes × ℕ × Bool → Option (List Bytes × ℕ × Bool)
parse_flags_loop zero read_index (argv, write_index, dry_run) = some (argv, write_index, dry_run)
parse_flags_loop (suc rounds) read_index (argv, write_index, dry_run) =
    get_elem? argv read_index >>= λ arg.
    parse_flags_loop rounds (suc read_index) (parse_flag arg argv write_index dry_run)

-- The array, the new `argc` and `gDryRun`.
unfoldable pub parse_global_flags : List Bytes → Bool → Option (List Bytes × ℕ × Bool)
parse_global_flags argv dry_run = parse_flags_loop (length argv) 0 (argv, 0, dry_run)

module _ {S : Type 0} where
  -- Steps in order, up to the end of the process.
  abbrev pub then_run : Option (Run S) → (S → Option (Run S)) → Option (Run S)
  then_run none next = none
  then_run (some (running s)) next = next s
  then_run (some (exited status s)) next = some (exited status s)

  -- `gRules` up to `gRuleCount`.
  unfoldable pub create_rule :
      List (Rule S) → Bytes → (List Bytes → S → Option (Run S)) → List (Rule S)
  create_rule rules rule_name function =
      if leb max_rules (length rules)
      then rules
      else rules ++ (record { name = rule_name; function = function } ∷ [])

  unfoldable pub is_rule_name : List (Rule S) → Bytes → Bool
  is_rule_name [] name = false
  is_rule_name (r ∷ rules) name =
      let later = is_rule_name rules name in if same_text r.name name then true else later

  -- The result and what the rule's function leaves. `LOG_WARN` and `HelpRule` only print.
  unfoldable pub execute_rule : List (Rule S) → Bytes → List Bytes → S → ℕ × Option (Run S)
  execute_rule [] rule args s = (0, some (running s))
  execute_rule (r ∷ rules) rule args s =
      let later = execute_rule rules rule args s in
      if same_text r.name rule then (1, r.function args s) else later

  -- The inner loop: the arguments before the next name of a rule, and the rest.
  unfoldable pub until_rule : List (Rule S) → List Bytes → List Bytes × List Bytes
  until_rule rules [] = ([], [])
  until_rule rules (arg ∷ args) =
      let (own, next) = until_rule rules args in
      if is_rule_name rules arg then ([], arg ∷ args) else (arg ∷ own, next)

  -- The outer loop, on the arguments from `i` on. Each round takes one at least, so their number
  -- is fuel enough; see `Segments`.
  unfoldable pub run_rules : ℕ → List (Rule S) → List Bytes → S → Option (Run S)
  run_rules zero rules args s = none
  run_rules (suc fuel) rules [] s = some (running s)
  run_rules (suc fuel) rules (rule_name ∷ args) s =
      let (own, next) = until_rule rules args in
      then_run ((execute_rule rules rule_name own s).1) (λ t. run_rules fuel rules next t)

  -- A call of `gRules[0].function`, which is a null pointer in an empty table.
  abbrev pub first_rule : List (Rule S) → List Bytes → S → Option (Run S)
  first_rule [] argv s = none
  first_rule (r ∷ rules) argv s = r.function argv s

  abbrev pub manage_args : List (Rule S) → List Bytes → S → Option (Run S)
  manage_args rules [] s = some (running s)
  manage_args rules (program ∷ []) s = first_rule rules (program ∷ []) s
  manage_args rules (program ∷ arg ∷ args) s =
      run_rules (suc (length (arg ∷ args))) rules (arg ∷ args) s

  -- The first argument is `ManageRebuild`.
  unfoldable pub manage_rules :
      (List Bytes → S → Option (Run S)) → List (Rule S) → List Bytes → S → Option (Run S)
  manage_rules manage_rebuild rules argv s =
      then_run (manage_rebuild argv s) (manage_args rules argv)
