-- ===== src/Cbuilder/Strings/Spaces.antt =====
-- The text of a command is its arguments with a space between them.
use mlbtcc.Base.{
  ℕ, suc, ◌+◌, ◌<◌, ◌≤◌, ◌^◌, ◌≡◌, ◌∙◌, refl, ap, sym, arith, Option, none, some, ◌>>=◌, List, [],
  ◌∷◌, ◌++◌, true, false, ltb, if◌then◌else◌, length, length-append, append_assoc, append-nil,
  append_assoc,
}
use mlbtcc.Base.Bytes.{Bytes}
use mlbtcc.Cbuilder.Strings.{
  CString, create_string_empty, append_to_string, append_to_string_va, create_string, append_args,
  command_from_args,
}
use mlbtcc.Cbuilder.Strings.Growth.{IsString, append_to_string-IsString}

-- The words behind the first one, each with a space before it.
unfoldable pub behind : List Bytes → Bytes
behind [] = []
behind (word ∷ words) = (b' ' ∷ word) ++ behind words

-- The words with a space between neighbours; empty words at the front leave no trace.
unfoldable pub spaced : List Bytes → Bytes
spaced [] = []
spaced ([] ∷ words) = spaced words
spaced ((c ∷ word) ∷ words) = (c ∷ word) ++ behind words

-- The bytes of the words, with one more for each.
unfoldable pub spaced_size : List Bytes → ℕ
spaced_size [] = 0
spaced_size (word ∷ words) = length word + 1 + spaced_size words

bind_some :
    {A : Type 0}
    → (x : Option A) (f : A → Option A) (a b : A) → x ≡ some a
    → f a ≡ some b
    → (x >>= f) ≡ some b
bind_some x f a b e g = ap (λ t. t >>= f) e ∙ g

pub bind_assoc :
    (x : Option CString) (f g : CString → Option CString)
    → (x >>= λ a. f a >>= g) ≡ ((x >>= f) >>= g)
bind_assoc none f g = refl
bind_assoc (some a) f g = refl

-- One more word, behind a text that is not empty.
append_spaced :
    (str : CString) (word : Bytes)
    → IsString str
    → 0 < str.length
    → str.length + length word + 2 ≤ 2 ^ 31
    → (s : CString) × ((append_to_string str (b' ' ∷ []) >>= λ t. append_to_string t word) ≡ some s)
      × IsString s
      × (s.c_str ≡ str.c_str ++ (b' ' ∷ word))
      × (s.length ≡ str.length + length word + 1)
append_spaced str word w pos small =
    let room = w.room in
    let counted = w.counted in
    let (s, e, ws, c, _) =
      append_to_string-IsString str (b' ' ∷ []) w (omega arith) (ground arith) in
    let sroom = ws.room in
    let l : s.length ≡ str.length + 1 =
      ws.counted
      ∙ ap length c
      ∙ length-append str.c_str (b' ' ∷ [])
      ∙ ap (λ n. n + 1) (sym counted) in
    let (t, f, wt, d, _) = append_to_string-IsString s word ws (omega arith) (omega arith) in
    let txt : t.c_str ≡ str.c_str ++ (b' ' ∷ word) =
      d ∙ ap (λ x. x ++ word) c ∙ append_assoc str.c_str (b' ' ∷ []) word in
    let m : t.length ≡ str.length + length word + 1 =
      wt.counted
      ∙ ap length d
      ∙ length-append s.c_str word
      ∙ ap (λ n. n + length word) (sym ws.counted ∙ l)
      ∙ omega arith in
    (
      t,
      bind_some (append_to_string str (b' ' ∷ [])) (λ x. append_to_string x word) s t e f,
      wt,
      txt,
      m,
    )

va_word :
    (str : CString) (word : Bytes) (words : List Bytes) (s r : CString)
    → (0 < str.length)
    → (append_to_string str (b' ' ∷ []) >>= λ t. append_to_string t word) ≡ some s
    → append_to_string_va s words ≡ some r
    → append_to_string_va str (word ∷ words) ≡ some r
unfolding append_to_string_va
va_word str word words s r pos e f =
    let h : ltb 0 str.length ≡ true = ground arith in
    rw h (
      bind_assoc (append_to_string str (b' ' ∷ [])) (λ t. append_to_string t word)
        (λ t. append_to_string_va t words)
      ∙ ap (λ t. t >>= λ u. append_to_string_va u words) e
      ∙ f)

-- The words of a call behind a text that is not empty.
va_behind :
    (str : CString) (words : List Bytes)
    → IsString str
    → 0 < str.length
    → str.length + spaced_size words + 1 ≤ 2 ^ 31
    → (s : CString) × (append_to_string_va str words ≡ some s)
      × IsString s
      × (s.c_str ≡ str.c_str ++ behind words)
unfolding append_to_string_va behind spaced_size
va_behind str [] w pos small = (str, refl, w, sym (append-nil str.c_str))
va_behind str (word ∷ words) w pos small =
    let (s, e, ws, c, l) = append_spaced str word w pos (omega arith) in
    let (t, f, wt, d) = va_behind s words ws (omega arith) (omega arith) in
    (
      t,
      va_word str word words s t pos e f,
      wt,
      d ∙ ap (λ x. x ++ behind words) c ∙ append_assoc str.c_str (b' ' ∷ word) (behind words),
    )

-- The first word that is not empty, behind an empty text.
va_first :
    (str : CString) (word : Bytes) (words : List Bytes) (s r : CString)
    → (str.length ≡ 0)
    → append_to_string str word ≡ some s
    → append_to_string_va s words ≡ some r
    → append_to_string_va str (word ∷ words) ≡ some r
unfolding append_to_string_va
va_first str word words s r none_yet e f =
    let h : ltb 0 str.length ≡ false = ground arith in
    rw h (ap (λ t. t >>= λ u. append_to_string_va u words) e ∙ f)

empty_text : (s : CString) → IsString s → s.length ≡ 0 → s.c_str ≡ []
empty_text s w e = length-zero s.c_str (sym w.counted ∙ e)
  where
    length-zero : (x : Bytes) → length x ≡ 0 → x ≡ []
    length-zero [] h = refl
    length-zero (c ∷ x) h = ground arith

-- The words of a call behind an empty text.
va_spaced :
    (str : CString) (words : List Bytes)
    → IsString str
    → str.length ≡ 0
    → spaced_size words + 1 ≤ 2 ^ 31
    → (s : CString) × (append_to_string_va str words ≡ some s)
      × IsString s
      × (s.c_str ≡ spaced words)
unfolding append_to_string_va spaced spaced_size
va_spaced str [] w z small = (str, refl, w, empty_text str w z)
va_spaced str ([] ∷ words) w z small =
    let room = w.room in
    let (s, e, ws, c, _) = append_to_string-IsString str [] w (omega arith) (omega arith) in
    let l : s.length ≡ 0 =
      ws.counted
      ∙ ap length c
      ∙ length-append str.c_str []
      ∙ ap (λ n. n + 0) (sym w.counted)
      ∙ omega arith in
    let (t, f, wt, d) = va_spaced s words ws l (omega arith) in
    (t, va_first str [] words s t z e f, wt, d)
va_spaced str ((a ∷ word) ∷ words) w z small =
    let room = w.room in
    let (s, e, ws, c, _) = append_to_string-IsString str (a ∷ word) w (omega arith) (omega arith) in
    let c' : s.c_str ≡ a ∷ word = c ∙ ap (λ x. x ++ (a ∷ word)) (empty_text str w z) in
    let l : s.length ≡ suc (length word) = ws.counted ∙ ap length c' in
    let (t, f, wt, d) = va_behind s words ws (omega arith) (omega arith) in
    (t, va_first str (a ∷ word) words s t z e f, wt, d ∙ ap (λ x. x ++ behind words) c')

-- A command made of words, while their bytes with one more for each stay below `2 ^ 31`: the loops
-- that double the buffer end, the text is the words with a space between neighbours (empty words
-- at the front leave no space), `length` is its length, and it fits the allocation.
pub create_string-spaced :
    (words : List Bytes)
    → spaced_size words + 1 ≤ 2 ^ 31
    → (s : CString) × (create_string words ≡ some s) × IsString s × (s.c_str ≡ spaced words)
unfolding create_string create_string_empty
create_string-spaced words small =
    va_spaced create_string_empty words
      (record { counted = refl; room = ground arith; fits = ground arith }) refl small

bind_once :
    (x : Option CString) (g h : CString → Option CString)
    → ((s : CString) → g s ≡ h s)
    → ((x >>= λ s. some s) >>= g) ≡ (x >>= h)
bind_once none g h same = refl
bind_once (some s) g h same = same s

bind_twice :
    (x : Option CString) (f g h : CString → Option CString)
    → ((s : CString) → g s ≡ h s)
    → ((x >>= λ s. f s >>= λ t. some t) >>= g) ≡ (x >>= λ s. f s >>= h)
bind_twice none f g h same = refl
bind_twice (some s) f g h same = bind_once (f s) g h same

pub append_args-append_to_string_va :
    (cmd : CString) (args : List Bytes) → append_args cmd args ≡ append_to_string_va cmd args
unfolding append_args append_to_string_va
append_args-append_to_string_va cmd [] = refl
append_args-append_to_string_va cmd (arg ∷ args) =
    bind_twice (if ltb 0 cmd.length then append_to_string cmd (b' ' ∷ []) else some cmd)
      (λ s. append_to_string s arg) (λ s. append_args s args) (λ s. append_to_string_va s args)
      (λ s. append_args-append_to_string_va s args)

-- One call for each argument gives the command that one call for all of them gives.
pub command_from_args-create_string :
    (args : List Bytes) → command_from_args args ≡ create_string args
unfolding command_from_args create_string append_to_string_va
command_from_args-create_string args = append_args-append_to_string_va create_string_empty args
