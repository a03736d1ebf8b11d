-- ===== src/Cbuilder/Compile/DryRun.antt =====
-- What `CompileFilesNULL` does in a dry run.
use mlbtcc.Base.{
  ℕ, zero, suc, ◌+◌, ◌≤◌, ◌^◌, ◌≡◌, ◌∙◌, refl, ap, arith, Option, none, some, ◌>>=◌, Bool, true,
  List, [], ◌∷◌, ◌++◌, map, length, length-take, take, All, Bool-cases, inl, inr,
}
use mlbtcc.Base.Bytes.{Bytes, codes}
use mlbtcc.Cbuilder.Strings.{CString}
use mlbtcc.Cbuilder.Strings.Spaces.{spaced_size}
use mlbtcc.Cbuilder.Patterns.Decides.{IsCertain}
use mlbtcc.Cbuilder.Host.{Host, Session, execute_command, execute_command_generic, directory_exists}
use mlbtcc.Cbuilder.Collect.{base_and_pattern}
use mlbtcc.Cbuilder.Collect.Flat.{
  is_skipped, chosen, meant, length-sub_path, recursive_collect_files-meant,
}
use mlbtcc.Cbuilder.Compile.{
  max_files, file_name, obj_name, compile_each, with_directory, compile_files,
}
use mlbtcc.Cbuilder.Compile.Text.{compile_words, compile_command-spaced}

abbrev IsShort : Bytes → Type 0
IsShort path = length path ≤ 1023

module _ {W : Type 0} (host : Host W) where
  chosen-IsShort :
      (w : W) (test : Bytes → Bool) (base : Bytes) (names : List Bytes)
      → All IsShort (chosen host w test base names)
  unfolding chosen
  chosen-IsShort w test base [] = tt
  chosen-IsShort w test base (name ∷ names) = elim (Bool-cases (is_skipped host w test base name)) [
    | inl skip ↦ rw skip (chosen-IsShort w test base names)
    | inr keep ↦ rw keep (length-sub_path host w base name, chosen-IsShort w test base names)
  ]

  take-All : {A : Type 0} → (P : A → Type 0) (n : ℕ) (xs : List A) → All P xs → All P (take n xs)
  take-All P zero xs h = tt
  take-All P (suc n) [] h = tt
  take-All P (suc n) (x ∷ xs) (p, h) = (p, take-All P n xs h)

  meant-IsShort :
      (w : W) (pattern : Bytes) (o : Option (List Bytes)) → All IsShort (meant host w pattern o)
  meant-IsShort w pattern none = tt
  meant-IsShort w pattern (some names) = chosen-IsShort w _ _ names

  spaced_size-append :
      (xs ys : List Bytes) → spaced_size (xs ++ ys) ≡ spaced_size xs + spaced_size ys
  unfolding spaced_size
  spaced_size-append [] ys = omega arith
  spaced_size-append (x ∷ xs) ys = omega (arith, spaced_size-append xs ys)

  words_fit :
      (compiler : Bytes) (args : List Bytes) (dest source : Bytes)
      → spaced_size (compiler ∷ args) + 1600 ≤ 2 ^ 31
      → IsShort source
      → spaced_size (compile_words compiler args dest source) + 1 ≤ 2 ^ 31
  unfolding spaced_size
  words_fit compiler args dest source fits short = omega (
    arith,
    fits,
    short,
    spaced_size-append args (codes "-c" ∷ source ∷ codes "-o" ∷ obj_name dest source ∷ []),
    length-take 511 (dest ++ (b'/' ∷ (file_name source ++ codes ".o"))),
  )

  idle :
      (command : Bytes) (s : Session W) → s.dry_run ≡ true → (execute_command host command s).1 ≡ s
  unfolding execute_command execute_command_generic
  idle command s dry = rw dry refl

  compile_each_idle :
      (compiler : Bytes) (args : List Bytes) (dest : Bytes) (files : List CString) (s : Session W)
      → s.dry_run ≡ true
      → spaced_size (compiler ∷ args) + 1600 ≤ 2 ^ 31
      → All IsShort (map CString.c_str files)
      → compile_each host compiler args dest files s ≡ some s
  unfolding compile_each
  compile_each_idle compiler args dest [] s dry fits short = refl
  compile_each_idle compiler args dest (file ∷ files) s dry fits (one, short) =
      let (cmd, e, _, _) =
        compile_command-spaced compiler args dest file.c_str
          (words_fit compiler args dest file.c_str fits one) in
      ap
        (λ o. o >>= λ c.
          compile_each host compiler args dest files ((execute_command host c.c_str s).1))
        e
      ∙ ap (λ t. compile_each host compiler args dest files t) (idle cmd.c_str s dry)
      ∙ compile_each_idle compiler args dest files s dry fits short

  with_directory-dry_run :
      (dest : Bytes) (s : Session W)
      → s.dry_run ≡ true
      → (with_directory host dest s).dry_run ≡ true
  unfolding with_directory
  with_directory-dry_run dest s dry = elim (Bool-cases (directory_exists host dest s.world)) [
    | inl there ↦ rw there dry
    | inr missing ↦ rw missing dry
  ]

  -- In a dry run, for a pattern without a question mark behind its last slash and a compiler and
  -- arguments that leave room for the file names, compiling ends, runs no command and changes nothing
  -- but that the directory for the objects is made when it is not there.
  pub compile_files-with_directory :
      (pattern dest compiler : Bytes) (args : List Bytes) (s : Session W)
      → s.dry_run ≡ true
      → All IsCertain ((base_and_pattern pattern).1)
      → spaced_size (compiler ∷ args) + 1600 ≤ 2 ^ 31
      → compile_files host pattern dest compiler args s ≡ some (with_directory host dest s)
  unfolding compile_files
  compile_files-with_directory pattern dest compiler args s dry certain fits =
      let (files, e, texts) =
        recursive_collect_files-meant host s.world 0 pattern max_files certain in
      let short =
        take-All IsShort max_files
          (meant host s.world pattern (host.entries ((base_and_pattern pattern).0) s.world))
          (meant-IsShort s.world pattern (host.entries ((base_and_pattern pattern).0) s.world)) in
      ap (λ o. o >>= λ fs. compile_each host compiler args dest fs (with_directory host dest s)) e
      ∙ compile_each_idle compiler args dest files (with_directory host dest s)
          (with_directory-dry_run dest s dry) fits (rw texts short)
