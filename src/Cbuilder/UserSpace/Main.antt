-- ===== src/Cbuilder/UserSpace/Main.antt =====
-- CBuilder.c, `RebuildSelf`, `RunSelf`, `ManageRebuild`, `BuildDebugSelf`, `CleanRule` and `main`.
use mlbtcc.Base.{ℕ, Option, some, ◌>>=◌, false, List, [], ◌∷◌, ltb, if◌then◌else◌, map, take}
use mlbtcc.Base.Bytes.{Bytes, codes}
use mlbtcc.Cbuilder.Strings.{CString, create_string, append_to_string_va, append_args}
use mlbtcc.Cbuilder.Rules.{
  Run, running, exited, Rule, then_run, create_rule, parse_global_flags, manage_rules,
}
use mlbtcc.Cbuilder.Host.{
  Host, Session, execute_command, file_exists, directory_exists, get_file_last_edit_time,
  remove_directory,
}
use mlbtcc.Cbuilder.UserSpace.{
  Args, has_arg, builder_source, builder_name, static_execname, dynamic_execname, tests_name,
}
use mlbtcc.Cbuilder.UserSpace.Build.{build_rule, exec_rule, build_tests}

-- `argv + 1`.
abbrev pub arguments : List Bytes → List Bytes
arguments [] = []
arguments (program ∷ args) = args

module _ {W : Type 0} (host : Host W) (default_compiler : Bytes) (depth : ℕ) where
  -- `BUILDER_CFLAGS` is the empty text.
  unfoldable pub rebuild_self : Session W → Option (Run (Session W))
  rebuild_self s = create_string [] >>= λ empty.
      append_to_string_va empty
        (default_compiler ∷ [] ∷ builder_source ∷ codes "-o" ∷ builder_name ∷ [])
      >>= λ cmd. some (
          let r = execute_command host cmd.c_str s in if r.0 then running (r.1) else exited 1 (r.1))

  unfoldable pub run_self : CString → Session W → Option (Session W)
  run_self args s = create_string [] >>= λ empty.
      append_to_string_va empty (builder_name ∷ []) >>= λ named.
      append_to_string_va named (args.c_str ∷ []) >>= λ cmd.
      some ((execute_command host cmd.c_str s).1)

  unfoldable pub manage_rebuild : List Bytes → Session W → Option (Run (Session W))
  manage_rebuild argv s =
      if ltb (get_file_last_edit_time host builder_name s.world)
        (get_file_last_edit_time host builder_source s.world)
      then (create_string [] >>= λ empty. append_args empty (arguments argv) >>= λ args.
          then_run (rebuild_self s) (λ t. run_self args t >>= λ u. some (exited 0 u)))
      else some (running s)

  unfoldable pub build_debug_self : Args → Session W → Option (Session W)
  build_debug_self argv s = do
    cmd ← create_string (default_compiler ∷ [])
    asan ← has_arg argv (codes "asan")
    with_asan ← if asan then append_to_string_va cmd (codes "-fsanitize=address" ∷ []) else some cmd
    gdb ← has_arg argv (codes "gdb")
    with_gdb ← if gdb then append_to_string_va with_asan (codes "-g3" ∷ []) else some with_asan
    whole ← append_to_string_va with_gdb (builder_source ∷ codes "-o" ∷ builder_name ∷ [])
    some ((execute_command host whole.c_str s).1)

  -- `if (CB_FileExists(path)) CB_RemoveFile(path)`.
  abbrev pub remove_if_there : Bytes → W → W
  remove_if_there path w = if file_exists host path w then (host.remove path w).1 else w

  -- The files go in a dry run too.
  unfoldable pub clean_rule : Args → Session W → Option (Session W)
  clean_rule argv s =
      let w1 = remove_if_there static_execname s.world in
      let w2 = remove_if_there dynamic_execname w1 in
      let w3 = remove_if_there tests_name w2 in
      (if directory_exists host (codes "build") w3
        then (remove_directory host depth (codes "build") w3 >>= λ r. some (r.1))
        else some w3)
      >>= λ w4. has_arg argv (codes "all") >>= λ all. some (record {
        dry_run = s.dry_run;
        world = if all then remove_if_there builder_name w4 else w4;
      })

  -- A rule that never ends the process, as a function of the table.
  abbrev pub as_rule :
      (Args → Session W → Option (Session W)) → List Bytes → Session W → Option (Run (Session W))
  as_rule rule argv s = rule (map some argv) s >>= λ t. some (running t)

  -- The calls of `CreateRule`; the last registered is `self-build-debug`.
  abbrev pub rule_table : List (Rule (Session W))
  rule_table =
      let r1 = create_rule [] (codes "build") (as_rule (build_rule host default_compiler depth)) in
      let r2 = create_rule r1 (codes "exec") (as_rule (exec_rule host default_compiler depth)) in
      let r3 = create_rule r2 (codes "clean") (as_rule clean_rule) in
      let r4 =
        create_rule r3 (codes "build-tests") (as_rule (build_tests host default_compiler depth)) in
      let r5 = create_rule r4 (codes "help") (λ _ s. some (running s)) in
      let r6 = create_rule r5 (codes "self-rebuild") (λ _ s. rebuild_self s) in
      create_rule r6 (codes "self-build-debug") (as_rule build_debug_self)

  -- `gDryRun` starts as 0.
  unfoldable pub main : List Bytes → W → Option (Run (Session W))
  main argv w = parse_global_flags argv false >>= λ (kept, argc, dry_run).
      manage_rules manage_rebuild rule_table (take argc kept)
        (record { dry_run = dry_run; world = w })
