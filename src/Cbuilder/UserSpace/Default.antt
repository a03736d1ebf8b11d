-- ===== src/Cbuilder/UserSpace/Default.antt =====
-- The tool started without arguments, and `build-tests debug`.
use mlbtcc.Base.{ℕ, ◌≡◌, refl, ap, Option, none, some, ◌>>=◌, >>=-none, true, false, [], ◌∷◌, ltb}
use mlbtcc.Base.Bytes.{Bytes, codes, same_text}
use mlbtcc.Cbuilder.Rules.{
  running, create_rule, parse_flags_loop, parse_global_flags, dry_run_flag, manage_rules,
}
use mlbtcc.Cbuilder.Host.{Host, Session, get_file_last_edit_time}
use mlbtcc.Cbuilder.UserSpace.{Args, has_arg, cflags_of, builder_source, builder_name}
use mlbtcc.Cbuilder.UserSpace.Build.{
  build_leveldb, build_static, build_library, drop_objects, build_rule, build_tests, debug_args,
}
use mlbtcc.Cbuilder.UserSpace.Main.{manage_rebuild, main, as_rule}

bind_same :
    {A B : Type 0}
    → (o : Option A) (f g : A → Option B) → ((a : A) → f a ≡ g a)
    → (o >>= f) ≡ (o >>= g)
bind_same none f g h = refl
bind_same (some a) f g h = h a

bind_done : {A : Type 0} → (o : Option A) → (o >>= λ a. some a) ≡ o
bind_done none = refl
bind_done (some a) = refl

has_arg_one :
    (arg target : Bytes)
    → same_text arg target ≡ false
    → has_arg (some arg ∷ []) target ≡ some false
unfolding has_arg
has_arg_one arg target h = rw h refl

module _ {W : Type 0} (host : Host W) (default_compiler : Bytes) (depth : ℕ) where
  debug_fails : (s : Session W) → build_library host default_compiler depth debug_args s ≡ none
  unfolding has_arg same_text build_static cflags_of
  debug_fails s = refl

  build_rule_debug : (s : Session W) → build_rule host default_compiler depth debug_args s ≡ none
  unfolding build_rule
  build_rule_debug s =
      >>=-none (build_leveldb host default_compiler depth debug_args s)
        (λ t. build_library host default_compiler depth debug_args t >>= λ u.
          drop_objects host default_compiler depth debug_args u)
        (λ t.
          ap (λ o. o >>= λ u. drop_objects host default_compiler depth debug_args u)
            (debug_fails t))

  -- `build-tests` with `debug` among its arguments reads a null pointer, whatever the state of the
  -- machine: the count it passes on takes in the null pointer behind its array.
  pub build_tests_debug :
      (av : Args) (s : Session W)
      → has_arg av (codes "debug") ≡ some true
      → build_tests host default_compiler depth av s ≡ none
  unfolding build_tests build_rule
  build_tests_debug av s h = rw h (rw (build_rule_debug s) refl)

  build_rule_alone :
      (program : Bytes) (s : Session W)
      → same_text program (codes "static") ≡ false
      → same_text program (codes "dynamic") ≡ false
      → same_text program (codes "no-obj") ≡ false
      → build_rule host default_compiler depth (some program ∷ []) s
        ≡ build_leveldb host default_compiler depth (some program ∷ []) s
  unfolding build_rule
  build_rule_alone program s static dynamic no_obj =
      rw (has_arg_one program (codes "static") static) (
        rw (has_arg_one program (codes "dynamic") dynamic) (
          rw (has_arg_one program (codes "no-obj") no_obj)
            (bind_done (build_leveldb host default_compiler depth (some program ∷ []) s))))

  -- The tool started with its own name only, which is not one of the words its rules know, when its
  -- source is not newer than itself: all it does is what `BuildLevelDB` does; the library is not
  -- built.
  pub main_alone :
      (program : Bytes) (w : W)
      → same_text program dry_run_flag ≡ false
      → same_text program (codes "static") ≡ false
      → same_text program (codes "dynamic") ≡ false
      → same_text program (codes "no-obj") ≡ false
      → ltb
          (get_file_last_edit_time host builder_name w)
          (get_file_last_edit_time host builder_source w)
        ≡ false
      → main host default_compiler depth (program ∷ []) w
        ≡ as_rule host default_compiler depth
            (build_leveldb host default_compiler depth)
            (program ∷ [])
            (record { dry_run = false; world = w })
  unfolding main parse_global_flags parse_flags_loop manage_rules manage_rebuild create_rule
  main_alone program w flag static dynamic no_obj old = rw flag (
      rw old (
        ap (λ o. o >>= λ t. some (running t))
          (build_rule_alone program (record { dry_run = false; world = w }) static dynamic no_obj)))
