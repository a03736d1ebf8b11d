-- ===== src/BitcoinSpecifics/Print/Scripts.antt =====
-- The hexadecimal text of a script and of a transaction's identifier, as src/bitcoin-specifics.c
-- prints them.
use mlbtcc.Base.{
  ℕ, zero, suc, ◌+◌, ◌*◌, ◌/◌, ◌%◌, ◌^◌, ◌<◌, ◌≤◌, ◌≡◌, ◌∙◌, refl, sym, ap, arith, Option, none,
  some, List, [], ◌∷◌, ◌++◌, map, append-nil, append_assoc, length, length-append, set, replicate,
  get_elem?, take, All,
}
use mlbtcc.Base.Bytes.{Bytes}
use mlbtcc.BitcoinSpecifics.Formats.{hex_byte, lower_digit}
use mlbtcc.BitcoinSpecifics.Print.{
  Buffer, put, put_hex, script_loop, text_of, script_hex, reversed_hex,
}
use mlbtcc.BitcoinSpecifics.Print.Json.{hex_text}
use mathlib.Core.List.{reverse, reverse_aux-append}

set-append :
    {A : Type 0} (front : List A) (old new : A) (back : List A)
    → set (front ++ (old ∷ back)) (length front) new ≡ (front ++ (new ∷ [])) ++ back
set-append [] old new back = refl
set-append (x ∷ front) old new back = ap (◌∷◌ x) (set-append front old new back)

-- A write at the end of what was written.
put-append :
    (front : Buffer) (old : Option ℕ) (back : Buffer) (place c : ℕ)
    → place ≡ length front
    → put (front ++ (old ∷ back)) place c ≡ some ((front ++ (some c ∷ [])) ++ back)
unfolding put
put-append front old back place c e =
    rw e (ground (arith, length-append front (old ∷ back), set-append front old (some c) back))

put_hex-append :
    (front : Buffer) (x y z : Option ℕ) (back : Buffer) (offset byte : ℕ)
    → offset ≡ length front
    → put_hex (front ++ (x ∷ y ∷ z ∷ back)) offset (hex_byte byte)
      ≡ some ((front ++ map some (hex_byte byte)) ++ (some 0 ∷ back))
unfolding put_hex
put_hex-append front x y z back offset byte e =
    let h = some (lower_digit (byte / 16 % 16)) in
    let l = some (lower_digit (byte % 16)) in
    let one : length (front ++ (h ∷ [])) ≡ length front + 1 = length-append front (h ∷ []) in
    let two : length ((front ++ (h ∷ [])) ++ (l ∷ [])) ≡ length front + 2 =
      omega (arith, length-append (front ++ (h ∷ [])) (l ∷ []), one) in
    rw (put-append front x (y ∷ z ∷ back) offset (lower_digit (byte / 16 % 16)) e) (
      rw
        (put-append (front ++ (h ∷ [])) y (z ∷ back) (offset + 1) (lower_digit (byte % 16))
          (omega (arith, one)))
        (put-append ((front ++ (h ∷ [])) ++ (l ∷ [])) z back (offset + 1 + 1) 0 (omega (arith, two))
          ∙ simp (append_assoc) refl))

next_round :
    (n : ℕ) (script : Bytes) (byte offset : ℕ) (front : Buffer) (z w : Option ℕ)
    → put_hex (front ++ (z ∷ none ∷ none ∷ replicate (n * 2) none)) offset (hex_byte byte)
      ≡ some ((front ++ map some (hex_byte byte)) ++ (some 0 ∷ replicate (n * 2) none))
    → script_loop n script
        ((offset + 2) % 2 ^ 16)
        ((front ++ map some (hex_byte byte)) ++ (some 0 ∷ replicate (n * 2) none))
      ≡ some (((front ++ map some (hex_byte byte)) ++ map some (hex_text script)) ++ (w ∷ []))
    → script_loop (suc n) (byte ∷ script) offset (front ++ (z ∷ replicate (suc n * 2) none))
      ≡ some ((front ++ map some (hex_text (byte ∷ script))) ++ (w ∷ []))
unfolding script_loop hex_text
next_round n script byte offset front z w put rest =
    let double : suc n * 2 ≡ suc (suc (n * 2)) = omega arith in
    rw double (rw put (rest ∙ simp (append_assoc) refl))

-- The buffer after the loop, from a buffer that is written up to `offset`.
script_loop-hex_text :
    (n : ℕ) (script : Bytes) (offset : ℕ) (front : Buffer) (z : Option ℕ)
    → length script ≡ n
    → length front + n * 2 ≤ 2 ^ 16
    → offset ≡ length front % 2 ^ 16
    → (w : Option ℕ) × (script_loop n script offset (front ++ (z ∷ replicate (n * 2) none))
        ≡ some ((front ++ map some (hex_text script)) ++ (w ∷ [])))
unfolding script_loop hex_text
script_loop-hex_text zero [] offset front z l h e = (z, rw append-nil refl)
script_loop-hex_text zero (byte ∷ script) offset front z l h e = absurd (omega arith)
script_loop-hex_text (suc n) [] offset front z l h e = absurd (omega arith)
script_loop-hex_text (suc n) (byte ∷ script) offset front z l h e =
    let digits_ = map some (hex_byte byte) in
    let long : length (front ++ digits_) ≡ length front + 2 = length-append front digits_ in
    let (w, ih) =
      script_loop-hex_text n script ((offset + 2) % 2 ^ 16) (front ++ digits_) (some 0)
        (omega arith) (omega (arith, long)) (omega (arith, long)) in
    (
      w,
      next_round n script byte offset front z w
          (put_hex-append front z none none (replicate (n * 2) none) offset byte (omega arith)) ih,
    )

text_of-map :
    (text : Bytes) (back : Buffer)
    → All (λ c. 0 < c) text
    → text_of (map some text ++ (some 0 ∷ back)) ≡ some text
unfolding text_of
text_of-map [] back h = refl
text_of-map (c ∷ text) back (hc, h) = ground (arith, text_of-map text back h)

hex_text_pos : (script : Bytes) → All (λ c. 0 < c) (hex_text script)
unfolding hex_text
hex_text_pos [] = tt
hex_text_pos (byte ∷ script) = (ground arith, (ground arith, hex_text_pos script))

length-hex_text : (script : Bytes) → length (hex_text script) ≡ length script * 2
unfolding hex_text
length-hex_text [] = omega arith
length-hex_text (byte ∷ script) = omega (arith, length-hex_text script)

length-map : (text : Bytes) → length (map {B = Option ℕ} some text) ≡ length text
length-map [] = refl
length-map (c ∷ text) = ap suc (length-map text)

pub script_hex-hex_text :
    (size : ℕ) (script : Bytes)
    → length script ≡ size
    → size ≤ 2 ^ 15
    → script_hex size script ≡ some (hex_text script)
unfolding script_hex
script_hex-hex_text size script l h =
    let (w, e) = script_loop-hex_text size script 0 [] none l (omega arith) (omega arith) in
    let text = map some (hex_text script) in
    let long : size * 2 ≡ length text =
      omega (arith, length-map (hex_text script), length-hex_text script) in
    let one : size * 2 + 1 ≡ suc (size * 2) = omega arith in
    rw one (
      rw e (
        rw (put-append text w [] (size * 2) 0 long)
          (rw append-nil (text_of-map (hex_text script) [] (hex_text_pos script)))))

-- The last of the first bytes.
take_more :
    (n : ℕ) (xs : Bytes)
    → n < length xs
    → (x : ℕ) × (get_elem? xs n ≡ some x) × (take (suc n) xs ≡ take n xs ++ (x ∷ []))
take_more n [] h = absurd (omega arith)
take_more zero (x ∷ xs) h = (x, refl, refl)
take_more (suc n) (x ∷ xs) h = let (y, e, t) = take_more n xs (omega arith) in (y, e, ap (◌∷◌ x) t)

pub reversed_hex-hex_text :
    (n : ℕ) (txid : Bytes)
    → n ≤ length txid
    → reversed_hex n txid ≡ some (hex_text (reverse (take n txid)))
unfolding reversed_hex hex_text
reversed_hex-hex_text zero txid h = refl
reversed_hex-hex_text (suc n) txid h =
    let (x, e, t) = take_more n txid (omega arith) in
    rw (e, t)
      (rw (reversed_hex-hex_text n txid (omega arith))
        (ap (λ o. some (hex_text o)) (sym (reverse_aux-append (take n txid) (x ∷ []) []))))
