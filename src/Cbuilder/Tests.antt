-- ===== src/Cbuilder/Tests.antt =====
-- Runs of the build tool on concrete commands, arguments and directories.
use mlbtcc.Cbuilder.FileCopy.{Disk, cb_copy_file}
use mlbtcc.Cbuilder.FileCopy.Whole.{Written, cb_copy_file-Written}
use mlbtcc.Base.{
  ◌+◌, ◌≤◌, ◌^◌, ◌≡◌, arith, refl, Option, none, some, true, false, ◌||◌, List, [], ◌∷◌, ◌++◌, map,
  ltb, if◌then◌else◌, length, take, All,
}
use mlbtcc.Base.Bytes.{Bytes, codes, same_text}
use mlbtcc.Cbuilder.Strings.{CString, create_string}
use mlbtcc.Cbuilder.Strings.Growth.{IsString}
use mlbtcc.Cbuilder.Strings.Spaces.{spaced, spaced_size, create_string-spaced}
use mlbtcc.Cbuilder.Patterns.{match_pattern}
use mlbtcc.Cbuilder.Patterns.Decides.{IsCertain, match_pattern-wildcard_match}
use mlbtcc.Cbuilder.Rules.{
  Run, running, Rule, then_run, dry_run_flag, parse_global_flags, manage_rules,
}
use mlbtcc.Cbuilder.Rules.Flags.{without_flag, has_flag, parse_global_flags-without_flag}
use mlbtcc.Cbuilder.Rules.Segments.{joined, IsSplit, run_each}
use mlbtcc.Cbuilder.Rules.Every.{segments_behind, manage_rules-segments_behind}
use mlbtcc.Cbuilder.Host.{Host, Session, get_file_last_edit_time}
use mlbtcc.Cbuilder.Collect.{base_and_pattern, last_slash, recursive_collect_files}
use mlbtcc.Cbuilder.Collect.Flat.{meant, recursive_collect_files-meant}
use mlbtcc.Cbuilder.Compile.{compile_files, with_directory}
use mlbtcc.Cbuilder.Compile.DryRun.{compile_files-with_directory}
use mlbtcc.Cbuilder.UserSpace.{has_arg, builder_source, builder_name}
use mlbtcc.Cbuilder.UserSpace.Build.{build_leveldb, build_tests}
use mlbtcc.Cbuilder.UserSpace.Main.{main, as_rule}
use mlbtcc.Cbuilder.UserSpace.Default.{main_alone, build_tests_debug}
use mlbtcc.Files.Wildcard.{wildcard_match}

abbrev words : List Bytes
words = [] ∷ codes "cc" ∷ codes "-c" ∷ []

words_fit : spaced_size words + 1 ≤ 2 ^ 31
unfolding spaced_size
words_fit = ground arith

create_string-spaced_example :
    (s : CString) × (create_string words ≡ some s) × IsString s × (s.c_str ≡ spaced words)
create_string-spaced_example = create_string-spaced words words_fit

match_pattern-wildcard_match_example :
    wildcard_match (codes "a.c") (codes "*.c") ≡ some (match_pattern (codes "*.c") (codes "a.c"))
match_pattern-wildcard_match_example =
    match_pattern-wildcard_match (codes "*.c") (codes "a.c") (refl, (refl, (refl, tt)))
      (
        (ground arith, λ e. absurd (omega (arith, e))),
        (
          (ground arith, λ e. absurd (omega (arith, e))),
          ((ground arith, λ e. absurd (omega (arith, e))), tt),
        ),
      )

abbrev flagged : List Bytes
flagged = codes "tool" ∷ dry_run_flag ∷ codes "build" ∷ dry_run_flag ∷ codes "debug" ∷ []

parse_global_flags-without_flag_example :
    (argv : List Bytes) × (parse_global_flags flagged false
      ≡ some (argv, length (without_flag flagged), false || has_flag flagged))
    × (take (length (without_flag flagged)) argv ≡ without_flag flagged)
    × (length argv ≡ length flagged)
parse_global_flags-without_flag_example = parse_global_flags-without_flag flagged false

-- Two rules that write down their arguments.
abbrev note : Bytes → List Bytes → List Bytes → Option (Run (List Bytes))
note rule_name args s = some (running (s ++ (rule_name ∷ args)))

abbrev two_rules : List (Rule (List Bytes))
two_rules =
    record { name = codes "build"; function = note (codes "build") }
    ∷ record { name = codes "clean"; function = note (codes "clean") }
    ∷ []

abbrev no_rebuild : List Bytes → List Bytes → Option (Run (List Bytes))
no_rebuild argv s = some (running s)

manage_rules-segments_behind_example :
    (joined (segments_behind two_rules (codes "build") (codes "debug" ∷ codes "clean" ∷ []))
      ≡ codes "build" ∷ codes "debug" ∷ codes "clean" ∷ [])
    × IsSplit two_rules
        (segments_behind two_rules (codes "build") (codes "debug" ∷ codes "clean" ∷ []))
    × (manage_rules no_rebuild two_rules
          (codes "tool" ∷ codes "build" ∷ codes "debug" ∷ codes "clean" ∷ [])
          []
        ≡ then_run
            (no_rebuild (codes "tool" ∷ codes "build" ∷ codes "debug" ∷ codes "clean" ∷ []) [])
            (λ t.
              run_each two_rules
                (segments_behind two_rules (codes "build") (codes "debug" ∷ codes "clean" ∷ []))
                t))
manage_rules-segments_behind_example =
    manage_rules-segments_behind two_rules no_rebuild (codes "tool") (codes "build")
      (codes "debug" ∷ codes "clean" ∷ []) []

-- One directory of sources; the machine is the calls that changed it.
abbrev sources : Host (List Bytes)
sources = record {
  exists = λ path w. true;
  is_directory = λ path w. same_text path (codes "src/sub");
  edit_time = λ path w. 7;
  entries = λ path w.
      if same_text path (codes "src")
      then some (codes "." ∷ codes "b.c" ∷ codes "b.h" ∷ codes "sub" ∷ codes "a.c" ∷ [])
      else none;
  remove = λ path w. (true, path ∷ w);
  rmdir = λ path w. (true, path ∷ w);
  mkdir = λ path w. (true, path ∷ w);
  shell = λ command w. (true, command ∷ w);
}

certain : All IsCertain ((base_and_pattern (codes "src/*.c")).1)
unfolding last_slash
certain = (refl, (refl, (refl, tt)))

recursive_collect_files-meant_example :
    (r : List CString) × (recursive_collect_files sources 1 (codes "src/*.c") 1000 [] [] ≡ some r)
    × (map CString.c_str r
        ≡ take 1000 (
            meant sources []
              (codes "src/*.c")
              (sources.entries ((base_and_pattern (codes "src/*.c")).0) [])))
recursive_collect_files-meant_example =
    recursive_collect_files-meant sources [] 0 (codes "src/*.c") 1000 certain

flags_fit : spaced_size (codes "cc" ∷ codes "-g3" ∷ []) + 1600 ≤ 2 ^ 31
unfolding spaced_size
flags_fit = ground arith

abbrev dry : Session (List Bytes)
dry = record { dry_run = true; world = [] }

compile_files-with_directory_example :
    compile_files sources (codes "src/*.c") (codes "build") (codes "cc") (codes "-g3" ∷ []) dry
    ≡ some (with_directory sources (codes "build") dry)
compile_files-with_directory_example =
    compile_files-with_directory sources (codes "src/*.c") (codes "build") (codes "cc")
      (codes "-g3" ∷ []) dry refl certain flags_fit

not_newer :
    ltb
      (get_file_last_edit_time sources builder_name [])
      (get_file_last_edit_time sources builder_source [])
    ≡ false
unfolding get_file_last_edit_time
not_newer = refl

not_a_word :
    (same_text builder_name dry_run_flag ≡ false)
    × (same_text builder_name (codes "static") ≡ false)
    × (same_text builder_name (codes "dynamic") ≡ false)
    × (same_text builder_name (codes "no-obj") ≡ false)
unfolding same_text
not_a_word = (refl, refl, refl, refl)

main_alone_example :
    main sources (codes "cc") 9 (builder_name ∷ []) []
    ≡ as_rule sources
        (codes "cc")
        9
        (build_leveldb sources (codes "cc") 9)
        (builder_name ∷ [])
        (record { dry_run = false; world = [] })
main_alone_example =
    main_alone sources (codes "cc") 9 builder_name [] (not_a_word.0) (not_a_word.1) (not_a_word.2)
      (not_a_word.3) not_newer

debug_given : has_arg (some (codes "debug") ∷ []) (codes "debug") ≡ some true
unfolding has_arg same_text
debug_given = refl

build_tests_debug_example :
    build_tests sources (codes "cc") 9 (some (codes "debug") ∷ []) dry ≡ none
build_tests_debug_example =
    build_tests_debug sources (codes "cc") 9 (some (codes "debug") ∷ []) dry debug_given

-- One file, which is copied to another.
abbrev one_text : Disk
one_text path = if same_text path (codes "a") then some (1 ∷ 2 ∷ 3 ∷ []) else none

a_there : one_text (codes "a") ≡ some (1 ∷ 2 ∷ 3 ∷ [])
unfolding same_text
a_there = refl

cb_copy_file-Written_example :
    (disk' : Disk) × (cb_copy_file (λ _. true) (codes "a") (codes "b") one_text
      ≡ some (true, disk'))
    × Written
        (codes "b")
        (if same_text (codes "b") (codes "a") then [] else (1 ∷ 2 ∷ 3 ∷ []))
        one_text
        disk'
cb_copy_file-Written_example =
    cb_copy_file-Written (λ _. true) (codes "a") (codes "b") (1 ∷ 2 ∷ 3 ∷ []) one_text a_there refl
