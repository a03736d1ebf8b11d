-- ===== src/Blkdat/Reader/Reads.antt =====
-- What it means for a reader to parse bytes, whatever follows them, and the rules for a chain.
use mlbtcc.Base.{
  ℕ, ◌+◌, ◌%◌, ◌^◌, ◌<◌, ◌≡◌, ◌∙◌, refl, ap, Option, some, List, [], ◌∷◌, ◌++◌, arith,
}
use mlbtcc.Base.{length, length-append, append_assoc, drop-append_left, All, map}
use mlbtcc.Base.Bytes.{Bytes, copy-append}
use mlbtcc.BigInts.CompactSize.{compact_size_encode, compact_size_decode}
use mathlib.Core.Path.{subst}
use mlbtcc.BigInts.CompactSize.RoundTrip.{
  compact_size_decode-compact_size_encode, length-compact_size_encode,
}
use mlbtcc.Blkdat.Reader.{
  Cursor, Reader, ◌>>=◌, pure, read_bytes, read_count, read_many, advance, max_compact_size_bytes,
}

-- The cursor `offset` bytes into the buffer, with `bytes` ahead.
abbrev pub place : Bytes → ℕ → Cursor
place bytes offset = record { ahead = bytes; offset = offset }

-- In front of `bytes`, whatever follows, the reader returns `a` and stops right behind `bytes`.
abbrev pub Reads : {A : Type 0} → Reader A → A → Bytes → Type 0
Reads read a bytes =
    (rest : Bytes) (offset : ℕ)
    → read (place (bytes ++ rest) offset) ≡ some (a, place rest (offset + length bytes))

pub Reads-pure : {A : Type 0} (a : A) → Reads (pure a) a []
Reads-pure a rest offset = ground arith

-- A chain whose first reader ends goes on behind it.
pub >>=-step :
    {A B : Type 0} (m : Reader A) (f : A → Reader B) (c c' : Cursor) (a : A)
    → m c ≡ some (a, c')
    → (m >>= f) c ≡ f a c'
>>=-step m f c c' a e = rw (e, ◌>>=◌) refl

-- A cursor is what is ahead and where.
same_place :
    {A : Type 0} (a : A) (l l' : Bytes) (o o' : ℕ)
    → l ≡ l'
    → o ≡ o'
    → ◌≡◌ {A = Option (A × Cursor)} (some (a, place l o)) (some (a, place l' o'))
same_place a l l' o o' p q = cc

pub Reads-bind :
    {A B : Type 0} (m : Reader A) (f : A → Reader B) (a : A) (b : B) (front back : Bytes)
    → Reads m a front
    → Reads (f a) b back
    → Reads (m >>= f) b (front ++ back)
Reads-bind m f a b front back first second rest offset =
    ap (λ (l : Bytes). (m >>= f) (place l offset)) (append_assoc front back rest)
    ∙ >>=-step m f _ _ a (first (back ++ rest) offset)
    ∙ second rest (offset + length front)
    ∙ same_place b rest rest _ _ refl (omega (arith, length-append front back))

-- The last step of a chain builds the result.
pub Reads-last :
    {A B : Type 0} (m : Reader A) (a : A) (g : A → B) (bytes : Bytes)
    → Reads m a bytes
    → Reads (m >>= λ x. pure (g x)) (g a) bytes
Reads-last m a g bytes h rest offset = >>=-step m _ _ _ a (h rest offset)

-- The last step of a chain, up to an equation between results.
pub Reads-end :
    {A B : Type 0} (m : Reader A) (f : A → Reader B) (a : A) (b b' : B) (bytes : Bytes)
    → Reads m a bytes
    → ((c : Cursor) → f a c ≡ some (b, c))
    → b ≡ b'
    → Reads (m >>= f) b' bytes
Reads-end m f a b b' bytes h k e rest offset =
    >>=-step m f _ _ a (h rest offset) ∙ k _ ∙ same_result b b' e _
  where
    same_result :
        {B : Type 0} (b b' : B)
        → b ≡ b'
        → (c : Cursor) → ◌≡◌ {A = Option (B × Cursor)} (some (b, c)) (some (b', c))
    same_result b b' e c = ap (λ x. some (x, c)) e

pub Reads-bytes : (n : ℕ) (bytes : Bytes) → length bytes ≡ n → Reads (read_bytes n) bytes bytes
unfolding read_bytes
Reads-bytes n bytes h rest offset =
    rw (copy-append n bytes rest h, read_bytes)
      (same_place bytes _ _ _ _ (drop-append_left n bytes rest h) (omega arith))

read_count-step :
    (c : Cursor) (n value : ℕ)
    → compact_size_decode (some c.ahead) max_compact_size_bytes (some 0) ≡ some (n, some value)
    → read_count c ≡ some (value % 2 ^ 16, advance n c)
unfolding read_count
read_count-step c n value e = rw (e, read_count) refl

-- A count, in its compact form: the reader keeps 16 bits of it.
pub Reads-count_any :
    (value : ℕ) → value < 2 ^ 64 → Reads read_count (value % 2 ^ 16) (compact_size_encode value)
Reads-count_any value h rest offset =
    let bytes = compact_size_encode value in
    let size = length-compact_size_encode value h in
    let decoded = compact_size_decode-compact_size_encode value 10 0 rest h (omega arith) in
    read_count-step (place (bytes ++ rest) offset) (length bytes) value decoded
    ∙ same_place (value % 2 ^ 16) _ _ _ _ (drop-append_left (length bytes) bytes rest refl) refl

pub Reads-count : (value : ℕ) → value < 2 ^ 16 → Reads read_count value (compact_size_encode value)
Reads-count value h =
    let e : value % 2 ^ 16 ≡ value = omega arith in
    subst (λ v. Reads read_count v (compact_size_encode value)) e
      (Reads-count_any value (omega arith))

-- The wire forms of a list's elements, one behind the other.
abbrev pub all_bytes {ℓ} : {B : Type ℓ} → (B → Bytes) → List B → Bytes
all_bytes wire [] = []
all_bytes wire (b ∷ bs) = wire b ++ all_bytes wire bs

pub Reads-many :
    {A B : Type 0} (read : Reader A) (result : B → A) (wire : B → Bytes) (P : B → Type 0)
    → ((b : B) → P b → Reads read (result b) (wire b))
    → (bs : List B) → All P bs
    → Reads (read_many read (length bs)) (map result bs) (all_bytes wire bs)
unfolding read_many
Reads-many read result wire P h [] ps = Reads-pure []
Reads-many read result wire P h (b ∷ bs) (p, ps) =
    Reads-bind read _ (result b) (map result (b ∷ bs)) (wire b) (all_bytes wire bs) (h b p) (
      Reads-last (read_many read (length bs)) (map result bs) (λ others. result b ∷ others)
        (all_bytes wire bs) (Reads-many read result wire P h bs ps))
