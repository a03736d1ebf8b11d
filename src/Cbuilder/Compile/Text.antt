-- ===== src/Cbuilder/Compile/Text.antt =====
-- The commands that `CompileFilesNULL` and `LinkFilesNULL` build, as texts.
use mlbtcc.Base.{
  ◌+◌, ◌≤◌, ◌^◌, ◌≡◌, ◌∙◌, refl, ap, sym, Option, none, some, ◌>>=◌, List, [], ◌∷◌, ◌++◌, map, ltb,
  if◌then◌else◌,
}
use mathlib.Core.Path.{fun_ext}
use mlbtcc.Base.Bytes.{Bytes, codes}
use mlbtcc.Cbuilder.Strings.{
  CString, create_string_empty, append_to_string, append_to_string_va, create_string,
}
use mlbtcc.Cbuilder.Strings.Growth.{IsString}
use mlbtcc.Cbuilder.Strings.Spaces.{
  spaced, spaced_size, create_string-spaced, append_args-append_to_string_va,
}
use mlbtcc.Cbuilder.Compile.{obj_name, compile_command, append_files, link_command}

bind_chain :
    (x : Option CString) (f g h k : CString → Option CString)
    → ((s : CString) → k s ≡ (g s >>= h))
    → (x >>= λ s. f s >>= k) ≡ ((x >>= λ s. f s >>= g) >>= h)
bind_chain none f g h k same = refl
bind_chain (some s) f g h k same = one (f s)
  where
    one : (y : Option CString) → (y >>= k) ≡ ((y >>= g) >>= h)
    one none = refl
    one (some t) = same t

-- Words in two calls are the words of one.
append_to_string_va-append :
    (str : CString) (xs ys : List Bytes)
    → append_to_string_va str (xs ++ ys)
      ≡ (append_to_string_va str xs >>= λ s. append_to_string_va s ys)
unfolding append_to_string_va
append_to_string_va-append str [] ys = refl
append_to_string_va-append str (x ∷ xs) ys =
    bind_chain (if ltb 0 str.length then append_to_string str (b' ' ∷ []) else some str)
      (λ s. append_to_string s x) (λ s. append_to_string_va s xs) (λ s. append_to_string_va s ys)
      (λ s. append_to_string_va s (xs ++ ys)) (λ s. append_to_string_va-append s xs ys)

append_files-append_to_string_va :
    (cmd : CString) (files : List CString)
    → append_files cmd files ≡ append_to_string_va cmd (map CString.c_str files)
unfolding append_files append_to_string_va
append_files-append_to_string_va cmd [] = refl
append_files-append_to_string_va cmd (file ∷ files) =
    ap (λ f. append_to_string_va cmd (file.c_str ∷ []) >>= f)
      (fun_ext (λ c. append_files-append_to_string_va c files))
    ∙ sym (append_to_string_va-append cmd (file.c_str ∷ []) (map CString.c_str files))

-- The words of the two commands.
abbrev pub compile_words : Bytes → List Bytes → Bytes → Bytes → List Bytes
compile_words compiler args dest source =
    compiler ∷ (args ++ (codes "-c" ∷ source ∷ codes "-o" ∷ obj_name dest source ∷ []))

abbrev pub link_words : Bytes → List Bytes → List Bytes → Bytes → List Bytes
link_words linker args files output = linker ∷ (args ++ (files ++ (codes "-o" ∷ output ∷ [])))

compile_command-create_string :
    (compiler : Bytes) (args : List Bytes) (dest source : Bytes)
    → compile_command compiler args dest source
      ≡ create_string (compile_words compiler args dest source)
unfolding compile_command create_string
compile_command-create_string compiler args dest source =
    let tail = codes "-c" ∷ source ∷ codes "-o" ∷ obj_name dest source ∷ [] in
    ap (λ f. append_to_string_va create_string_empty (compiler ∷ []) >>= f)
      (fun_ext (λ c.
        ap (λ o. o >>= λ d. append_to_string_va d tail) (append_args-append_to_string_va c args)
        ∙ sym (append_to_string_va-append c args tail)))
    ∙ sym (append_to_string_va-append create_string_empty (compiler ∷ []) (args ++ tail))

link_command-create_string :
    (linker : Bytes) (args : List Bytes) (files : List CString) (output : Bytes)
    → link_command linker args files output
      ≡ create_string (link_words linker args (map CString.c_str files) output)
unfolding link_command create_string
link_command-create_string linker args files output =
    let tail = codes "-o" ∷ output ∷ [] in
    let names = map CString.c_str files in
    ap (λ f. append_to_string_va create_string_empty (linker ∷ []) >>= f)
      (fun_ext (λ c.
        ap (λ o. o >>= λ d. append_files d files >>= λ e. append_to_string_va e tail)
          (append_args-append_to_string_va c args)
        ∙ ap (λ g. append_to_string_va c args >>= g)
            (fun_ext (λ d.
              ap (λ o. o >>= λ e. append_to_string_va e tail)
                (append_files-append_to_string_va d files)
              ∙ sym (append_to_string_va-append d names tail)))
        ∙ sym (append_to_string_va-append c args (names ++ tail))))
    ∙ sym (append_to_string_va-append create_string_empty (linker ∷ []) (args ++ (names ++ tail)))

-- The command for one file, while its words with one byte more for each stay below `2 ^ 31`, is the
-- compiler, the arguments, `-c`, the file, `-o` and the object's name, with spaces between; it has
-- its room in the buffer.
pub compile_command-spaced :
    (compiler : Bytes) (args : List Bytes) (dest source : Bytes)
    → spaced_size (compile_words compiler args dest source) + 1 ≤ 2 ^ 31
    → (s : CString) × (compile_command compiler args dest source ≡ some s)
      × IsString s
      × (s.c_str ≡ spaced (compile_words compiler args dest source))
compile_command-spaced compiler args dest source small =
    let (s, e, w, c) = create_string-spaced (compile_words compiler args dest source) small in
    (s, compile_command-create_string compiler args dest source ∙ e, w, c)

-- The command that links, while its words with one byte more for each stay below `2 ^ 31`, is the
-- linker, the arguments, the files in order, `-o` and the output's name, with spaces between; it has
-- its room in the buffer.
pub link_command-spaced :
    (linker : Bytes) (args : List Bytes) (files : List CString) (output : Bytes)
    → spaced_size (link_words linker args (map CString.c_str files) output) + 1 ≤ 2 ^ 31
    → (s : CString) × (link_command linker args files output ≡ some s)
      × IsString s
      × (s.c_str ≡ spaced (link_words linker args (map CString.c_str files) output))
link_command-spaced linker args files output small =
    let (s, e, w, c) =
      create_string-spaced (link_words linker args (map CString.c_str files) output) small in
    (s, link_command-create_string linker args files output ∙ e, w, c)
