-- ===== src/BitcoinSpecifics/Print/Pieces.antt =====
-- Pieces of text that are kept when white space outside strings is left out.
use mlbtcc.Base.{
  ℕ, zero, suc, ◌+◌, ◌/◌, ◌%◌, ◌≡◌, ◌≢◌, ◌∙◌, refl, ap, arith, [], ◌∷◌, ◌++◌, append_assoc, All,
  All-append, Bool-cases, inl, inr, Bool, true, false, ltb, if◌then◌else◌,
}
use mlbtcc.Base.Bytes.{Bytes}
use mlbtcc.BigInts.Words.{print_byte_string}
use mlbtcc.BitcoinSpecifics.Formats.{
  hex_word, digits, decimal, Localtime, Tm, convert_timestamp_to_string, lower_digit, two_digits,
  behind_year,
}
use mlbtcc.BitcoinSpecifics.Print.{}
use mlbtcc.BitcoinSpecifics.Print.Json.{strip, hex_text}

-- A character that `strip` keeps everywhere.
abbrev IsPlain : ℕ → Type 0
IsPlain c = (c ≢ b'"') × (c ≢ b' ') × (c ≢ b'\n')

strip-append :
    (inside : Bool) (text rest : Bytes)
    → All IsPlain text
    → strip inside (text ++ rest) ≡ text ++ strip inside rest
unfolding strip
strip-append inside [] rest h = refl
strip-append inside (c ∷ text) rest (h, hs) = ground (arith, strip-append inside text rest)

digits-IsPlain : (n value : ℕ) → All IsPlain (digits n value)
unfolding digits
digits-IsPlain zero value = tt
digits-IsPlain (suc n) value =
    All-append IsPlain (if ltb value 10 then [] else digits n (value / 10))
      ((b'0' + value % 10) ∷ [])
      (elim (Bool-cases (ltb value 10)) [
        | inl e ↦ rw e tt
        | inr e ↦ rw e (digits-IsPlain n (value / 10))
      ])
      (last_digit value)
  where
    last_digit : (value : ℕ) → All IsPlain ((b'0' + value % 10) ∷ [])
    last_digit value = ((λ h. omega (arith, h), λ h. omega (arith, h), λ h. omega (arith, h)), tt)

-- Outside a string.
strip-decimal :
    (value : ℕ) (rest : Bytes)
    → strip false (decimal value ++ rest) ≡ decimal value ++ strip false rest
unfolding decimal
strip-decimal value rest = strip-append false (digits 20 value) rest (digits-IsPlain 20 value)

-- Inside a string every character but a quotation mark is kept.
abbrev pub IsInner : ℕ → Type 0
IsInner c = c ≢ b'"'

strip-inner :
    (text rest : Bytes) → All IsInner text → strip true (text ++ rest) ≡ text ++ strip true rest
unfolding strip
strip-inner [] rest h = refl
strip-inner (c ∷ text) rest (h, hs) = ground (arith, strip-inner text rest)

hex_text-IsInner : (bytes : Bytes) → All IsInner (hex_text bytes)
unfolding hex_text
hex_text-IsInner [] = tt
hex_text-IsInner (byte ∷ bytes) =
    ((λ h. ground arith), ((λ h. ground arith), hex_text-IsInner bytes))

strip-hex_text :
    (bytes rest : Bytes) → strip true (hex_text bytes ++ rest) ≡ hex_text bytes ++ strip true rest
strip-hex_text bytes rest = strip-inner (hex_text bytes) rest (hex_text-IsInner bytes)

-- A piece of a text that is kept, in front of others.
pub keep_number :
    (value : ℕ) (tail rest out : Bytes)
    → strip false (tail ++ rest) ≡ out
    → strip false ((decimal value ++ tail) ++ rest) ≡ decimal value ++ out
keep_number value tail rest out h =
    ap (strip false) (append_assoc (decimal value) tail rest)
    ∙ strip-decimal value (tail ++ rest)
    ∙ ap (◌++◌ (decimal value)) h

pub keep_inner :
    (text : Bytes) (tail rest out : Bytes)
    → All IsInner text
    → strip true (tail ++ rest) ≡ out
    → strip true ((text ++ tail) ++ rest) ≡ text ++ out
keep_inner text tail rest out plain h =
    ap (strip true) (append_assoc text tail rest)
    ∙ strip-inner text (tail ++ rest) plain
    ∙ ap (◌++◌ text) h

pub keep_hex :
    (bytes : Bytes) (tail rest out : Bytes)
    → strip true (tail ++ rest) ≡ out
    → strip true ((hex_text bytes ++ tail) ++ rest) ≡ hex_text bytes ++ out
keep_hex bytes tail rest out h =
    keep_inner (hex_text bytes) tail rest out (hex_text-IsInner bytes) h

-- A piece whose text is known up to what follows it.
pub keep_piece :
    (text tail rest out : Bytes) (f : Bytes → Bytes)
    → ((rest : Bytes) → strip false (text ++ rest) ≡ f (strip false rest))
    → strip false (tail ++ rest) ≡ out
    → strip false ((text ++ tail) ++ rest) ≡ f out
keep_piece text tail rest out f w h =
    ap (strip false) (append_assoc text tail rest) ∙ w (tail ++ rest) ∙ ap f h

print_byte_string-IsInner : (bytes : Bytes) → All IsInner (print_byte_string bytes)
unfolding print_byte_string
print_byte_string-IsInner [] = tt
print_byte_string-IsInner (byte ∷ bytes) =
    ((λ h. ground arith), ((λ h. ground arith), print_byte_string-IsInner bytes))

hex_word-IsInner : (n value : ℕ) → All IsInner (hex_word n value)
unfolding hex_word
hex_word-IsInner zero value = tt
hex_word-IsInner (suc n) value =
    All-append IsInner (hex_word n (value / 16)) (lower_digit (value % 16) ∷ [])
      (hex_word-IsInner n (value / 16)) ((λ h. ground arith), tt)

pub keep_bytes :
    (bytes : Bytes) (tail rest out : Bytes)
    → strip true (tail ++ rest) ≡ out
    → strip true ((print_byte_string bytes ++ tail) ++ rest) ≡ print_byte_string bytes ++ out
keep_bytes bytes tail rest out h =
    keep_inner (print_byte_string bytes) tail rest out (print_byte_string-IsInner bytes) h

-- A text behind "0x".
pub keep_word :
    (value : ℕ) (tail rest out : Bytes)
    → strip true (tail ++ rest) ≡ out
    → strip true ((hex_word 8 value ++ tail) ++ rest) ≡ hex_word 8 value ++ out
keep_word value tail rest out h =
    keep_inner (hex_word 8 value) tail rest out (hex_word-IsInner 8 value) h

two_digits-IsInner : (n : ℕ) (back : Bytes) → All IsInner back → All IsInner (two_digits n ++ back)
two_digits-IsInner n back h = ((λ e. omega (arith, e)), ((λ e. omega (arith, e)), h))

IsPlain-IsInner : (text : Bytes) → All IsPlain text → All IsInner text
IsPlain-IsInner [] h = tt
IsPlain-IsInner (c ∷ text) ((q, s, n), h) = (q, IsPlain-IsInner text h)

convert_timestamp_to_string-IsInner :
    (localtime : Localtime) (time : ℕ) → All IsInner (convert_timestamp_to_string localtime time)
unfolding convert_timestamp_to_string decimal
convert_timestamp_to_string-IsInner localtime time =
    let tm = localtime time in
    All-append IsInner (decimal (tm.tm_year + 1900)) (behind_year tm)
      (IsPlain-IsInner _ (digits-IsPlain 20 (tm.tm_year + 1900)))
      (
        (λ h. cc),
        two_digits-IsInner (tm.tm_mon + 1) (b'-' ∷ day tm) (
          (λ h. cc),
          two_digits-IsInner tm.tm_mday (b' ' ∷ hour tm) (
            (λ h. cc),
            two_digits-IsInner tm.tm_hour (b':' ∷ minute tm) (
              (λ h. cc),
              two_digits-IsInner tm.tm_min (b':' ∷ two_digits tm.tm_sec)
                  ((λ h. cc), two_digits-IsInner tm.tm_sec [] tt),
            ),
          ),
        ),
      )
  where
    minute : Tm → Bytes
    minute tm = two_digits tm.tm_min ++ (b':' ∷ two_digits tm.tm_sec)

    hour : Tm → Bytes
    hour tm = two_digits tm.tm_hour ++ (b':' ∷ minute tm)

    day : Tm → Bytes
    day tm = two_digits tm.tm_mday ++ (b' ' ∷ hour tm)

pub keep_time :
    (localtime : Localtime) (time : ℕ) (tail rest out : Bytes)
    → strip true (tail ++ rest) ≡ out
    → strip true ((convert_timestamp_to_string localtime time ++ tail) ++ rest)
      ≡ convert_timestamp_to_string localtime time ++ out
keep_time localtime time tail rest out h =
    keep_inner (convert_timestamp_to_string localtime time) tail rest out
      (convert_timestamp_to_string-IsInner localtime time) h
