-- ===== src/Cbuilder/UserSpace/Build.antt =====
-- CBuilder.c, `BuildLevelDB`, `BuildStatic`, `BuildDynamic`, `BuildRule`, `ExecRule` and `BuildTests`.
use mlbtcc.Base.{
  ℕ, Option, none, some, ◌>>=◌, true, ◌==◌, List, [], ◌∷◌, ◌++◌, if◌then◌else◌, length,
}
use mlbtcc.Base.Bytes.{Bytes, codes}
use mlbtcc.Cbuilder.Strings.{create_string, append_to_string_va}
use mlbtcc.Cbuilder.Host.{Host, Session, execute_command, file_exists, remove_directory}
use mlbtcc.Cbuilder.Compile.{compile_files, link_files}
use mlbtcc.Cbuilder.UserSpace.{
  Args, has_arg, cflags_of, ldflags_of, static_execname, dynamic_execname, ld, base_ldflags,
  build_leveldb_cmd, tests_name,
}

-- The arrays that `BuildTests` passes on; the count of the first takes the null pointer in.
abbrev pub debug_args : Args
debug_args = some (codes "static") ∷ some (codes "debug") ∷ some (codes "no-obj") ∷ none ∷ []

abbrev pub release_args : Args
release_args = some (codes "static") ∷ some (codes "no-obj") ∷ some (codes "release") ∷ []

-- The system, the compiler that the tool was built with, and the depth to which directories are
-- removed.
module _ {W : Type 0} (host : Host W) (default_compiler : Bytes) (depth : ℕ) where
  -- A command of these words, run.
  abbrev pub run_words : List Bytes → Session W → Option (Session W)
  run_words words s = create_string words >>= λ cmd. some ((execute_command host cmd.c_str s).1)

  -- The second test is made when the file is there.
  unfoldable pub build_leveldb : Args → Session W → Option (Session W)
  build_leveldb av s =
      (if file_exists host (codes "src/extern/leveldb-1.22/build/libleveldb.a") s.world
        then has_arg av (codes "force")
        else some true)
      >>= λ wanted.
          (if wanted
            then (create_string [] >>= λ cmd.
                append_to_string_va cmd
                  (codes "cd src/extern/leveldb-1.22/ &&" ∷ build_leveldb_cmd ∷ [])
                >>= λ whole. some ((execute_command host whole.c_str s).1))
            else some s)

  -- The objects of the library, the same for both kinds.
  abbrev pub compile_objects : Bytes → Session W → Option (Session W)
  compile_objects cflags s =
      compile_files host (codes "src/extern/sha256/*.c") (codes "build") default_compiler
        (cflags ∷ []) s
      >>= λ t. compile_files host (codes "src/*.c") (codes "build") default_compiler (cflags ∷ []) t

  unfoldable pub build_static : Args → Session W → Option (Session W)
  build_static av s = cflags_of av >>= λ cflags. compile_objects cflags s >>= λ t.
      run_words (codes "ar rcs" ∷ static_execname ∷ codes "build/*.o" ∷ []) t

  unfoldable pub build_dynamic : Args → Session W → Option (Session W)
  build_dynamic av s = cflags_of av >>= λ cflags. ldflags_of av >>= λ ldflags.
      compile_objects cflags s >>= λ t.
      link_files host (codes "build/*.o") dynamic_execname (ld ++ codes " -dynamiclib")
        (ldflags ∷ []) t

  -- The test of `argc` is made when `static` is not among the arguments.
  abbrev pub build_library : Args → Session W → Option (Session W)
  build_library argv s = has_arg argv (codes "static") >>= λ static.
      (if static
        then build_static argv s
        else if length argv == 0
        then build_static argv s
        else (has_arg argv (codes "dynamic") >>= λ dynamic.
            if dynamic then build_dynamic argv s else some s))

  abbrev pub drop_objects : Args → Session W → Option (Session W)
  drop_objects argv s = has_arg argv (codes "no-obj") >>= λ no_obj.
      (if no_obj
        then (remove_directory host depth (codes "build") s.world >>= λ r.
            some (record { dry_run = s.dry_run; world = r.1 }))
        else some s)

  unfoldable pub build_rule : Args → Session W → Option (Session W)
  build_rule argv s =
      build_leveldb argv s >>= λ t. build_library argv t >>= λ u. drop_objects argv u

  unfoldable pub exec_rule : Args → Session W → Option (Session W)
  exec_rule argv s =
      if file_exists host (codes "./mlbtcc-tests") s.world
      then run_words (codes "./mlbtcc-tests" ∷ []) s
      else some s

  unfoldable pub build_tests : Args → Session W → Option (Session W)
  build_tests av s = has_arg av (codes "debug") >>= λ debug.
      (if debug
        then (build_rule debug_args s >>= λ t.
            run_words
              (ld
                ∷ base_ldflags
                ∷ codes "-fsanitize=address,undefined"
                ∷ codes "*.a"
                ∷ codes "test/*.c"
                ∷ codes "-o"
                ∷ tests_name
                ∷ [])
              t)
        else (build_rule release_args s >>= λ t.
            run_words
              (ld ∷ base_ldflags ∷ codes "*.a" ∷ codes "test/*.c" ∷ codes "-o" ∷ tests_name ∷ [])
              t))
