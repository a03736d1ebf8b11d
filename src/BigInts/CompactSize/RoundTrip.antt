-- ===== src/BigInts/CompactSize/RoundTrip.antt =====
-- `compact_size_decode` on what `compact_size_encode` wrote, and on any input.
use mlbtcc.Base.{ℕ, zero, suc, ◌+◌, ◌*◌, ◌/◌, ◌%◌, ◌^◌, ◌<◌, ◌≤◌, ◌≡◌, arith, ap, refl, ◌⊎◌}
use mlbtcc.Base.{
  some, [], ◌∷◌, ◌++◌, length, All, drop, take, length-drop, leb, ltb, ◌==◌, Bool-cases, inl, inr,
  if◌then◌else◌,
}
use mlbtcc.Base.Bytes.{
  Bytes, IsByte, from_le, to_le, copy, copy-append, length-to_le, from_le-to_le,
}
use mlbtcc.Base.Bytes.{to_le-IsByte}
use mlbtcc.Base.Bits.{bit_and-ones, bit_or_above}
use mlbtcc.BigInts.CompactSize.{octet, compact_size_encode, or_bytes, wide_field, decode_first}
use mlbtcc.BigInts.CompactSize.{compact_size_decode}
use native.Mathlib.Numerals.{towards_suc}

octet_lem : (value shift : ℕ) → octet value shift ≡ value / 2 ^ shift % 256
unfolding octet
octet_lem value shift = omega (arith, bit_and-ones 8 (value / 2 ^ shift))

shift_eight : (s : ℕ) → 2 ^ (s + 8) ≡ 256 * 2 ^ s
shift_eight s = simp towards_suc (omega arith)

room :
    (byte acc shift : ℕ) → byte < 256 → acc < 2 ^ shift → acc + byte * 2 ^ shift < 2 ^ (shift + 8)
room byte acc shift hb ha = rw (shift_eight shift) (grind arith)

one_more :
    (byte above acc shift : ℕ)
    → acc + (byte + 256 * above) * 2 ^ shift ≡ acc + byte * 2 ^ shift + above * 2 ^ (shift + 8)
one_more byte above acc shift = omega (arith, ap (λ (t : ℕ). above * t) (shift_eight shift))

-- Joining bytes by `|` is reading them as a little-endian number.
or_bytes_lem :
    (bytes : Bytes) (acc shift : ℕ)
    → All IsByte bytes
    → acc < 2 ^ shift
    → acc + from_le bytes * 2 ^ shift < 2 ^ 64
    → or_bytes acc shift bytes ≡ acc + from_le bytes * 2 ^ shift
unfolding or_bytes
or_bytes_lem [] acc shift h ha fits = omega arith
or_bytes_lem (byte ∷ bytes) acc shift (hb, h) ha fits = ground (
  arith,
  one_more byte (from_le bytes) acc shift,
  bit_or_above shift acc byte ha,
  room byte acc shift hb ha,
  or_bytes_lem bytes (acc + byte * 2 ^ shift) (shift + 8) h,
)

or_bytes-to_le :
    (n value : ℕ) → value < 256 ^ n → value < 2 ^ 64 → or_bytes 0 0 (to_le n value) ≡ value
or_bytes-to_le n value h h64 =
    let e : from_le (to_le n value) ≡ value = from_le-to_le n value h in
    omega (
      arith,
      or_bytes_lem (to_le n value) 0 0 (to_le-IsByte n value) (omega arith) (rw e (omega arith)),
    )

-- The encoding as a prefix byte and a little-endian field.
unfoldable pub plain : ℕ → Bytes
plain value =
    if leb value 252
    then value ∷ []
    else if leb value 0xffff
    then 0xfd ∷ to_le 2 value
    else if leb value 0xffff_ffff
    then 0xfe ∷ to_le 4 value
    else 0xff ∷ to_le 8 value

pub compact_size_encode-plain : (value : ℕ) → compact_size_encode value ≡ plain value
unfolding compact_size_encode plain
compact_size_encode-plain value = ground (
  arith,
  octet_lem value 0,
  octet_lem value 8,
  octet_lem value 16,
  octet_lem value 24,
  octet_lem value 32,
  octet_lem value 40,
  octet_lem value 48,
  octet_lem value 56,
)

wide_field-to_le :
    (width value prefix size old : ℕ) (rest : Bytes)
    → value < 256 ^ width
    → value < 2 ^ 64
    → width < size
    → wide_field width (prefix ∷ (to_le width value ++ rest)) size old
      ≡ some (width + 1, some value)
unfolding wide_field
wide_field-to_le width value prefix size old rest h h64 hs = ground (
  arith,
  copy-append width (to_le width value) rest (length-to_le width value),
  or_bytes-to_le width value h h64,
)

plain_case :
    (value size old : ℕ) (rest : Bytes)
    → value < 2 ^ 64
    → length (plain value) ≤ size
    → compact_size_decode (some (plain value ++ rest)) size (some old)
      ≡ some (length (plain value), some value)
unfolding compact_size_decode decode_first plain
plain_case value zero old rest h hs = absurd (ground arith)
plain_case value (suc size) old rest h hs = ground (
  arith,
  wide_field-to_le 2 value 0xfd (suc size) old rest,
  wide_field-to_le 4 value 0xfe (suc size) old rest,
  wide_field-to_le 8 value 0xff (suc size) old rest,
)

-- For every U64, `compact_size_decode` on the bytes that `compact_size_encode` wrote, with anything
-- behind them, returns how many bytes were written and stores the value, if `dataSize` is at
-- least that number.
pub compact_size_decode-compact_size_encode :
    (value size old : ℕ) (rest : Bytes)
    → value < 2 ^ 64
    → length (compact_size_encode value) ≤ size
    → compact_size_decode (some (compact_size_encode value ++ rest)) size (some old)
      ≡ some (length (compact_size_encode value), some value)
compact_size_decode-compact_size_encode value size old rest h hs =
    rw (compact_size_encode-plain value)
      (plain_case value size old rest h (rw (compact_size_encode-plain value) at hs))

-- The encoding takes 1, 3, 5 or 9 bytes, and is a list of bytes.
pub length-compact_size_encode :
    (value : ℕ)
    → value < 2 ^ 64
    → All IsByte (compact_size_encode value)
      × (0 < length (compact_size_encode value))
      × (length (compact_size_encode value) ≤ 9)
length-compact_size_encode value h =
    rw (compact_size_encode-plain value) (unfold plain in ground arith)

wide_field_total :
    (width : ℕ) (bytes : Bytes) (size old : ℕ)
    → size ≤ length bytes
    → (n : ℕ) × (value : ℕ) × (wide_field width bytes size old ≡ some (n, some value)) × (n ≤ size)
unfolding wide_field copy
wide_field_total width bytes size old h = elim (Bool-cases (ltb size (width + 1))) [
  | inl short ↦ (size, old, rw short, omega arith)
  | inr enough ↦ (
    width + 1,
    or_bytes 0 0 (take width (drop 1 bytes)),
    ground (arith, length-drop 1 bytes),
    ground arith,
  )
]

-- With a pointer to `dataSize` readable bytes and a variable, `compact_size_decode` reads nothing
-- out of bounds, and returns at most `dataSize`.
pub compact_size_decode_total :
    (bytes : Bytes) (size old : ℕ)
    → size ≤ length bytes
    → (n : ℕ) × (value : ℕ) × (compact_size_decode (some bytes) size (some old)
        ≡ some (n, some value))
      × (n ≤ size)
unfolding compact_size_decode decode_first
compact_size_decode_total bytes zero old h = (0, 0, refl, omega arith)
compact_size_decode_total [] (suc size) old h = absurd (omega arith)
compact_size_decode_total (first ∷ rest) (suc size) old h = elim (Bool-cases (leb first 0xfc)) [
  | inl small ↦ (1, first, rw small, omega arith)
  | inr wide ↦ elim (Bool-cases (first == 0xfd)) [
    | inl two ↦ rw (wide, two) (wide_field_total 2 (first ∷ rest) (suc size) old h)
    | inr not_two ↦ elim (Bool-cases (first == 0xfe)) [
      | inl four ↦ rw (wide, not_two, four) (wide_field_total 4 (first ∷ rest) (suc size) old h)
      | inr eight ↦ rw (wide, not_two, eight) (wide_field_total 8 (first ∷ rest) (suc size) old h)
    ]
  ]
]

-- Where the first byte announces more bytes than `dataSize`, `compact_size_decode` returns
-- `dataSize` and leaves the variable as it was.
pub compact_size_decode_short :
    (first size old : ℕ) (rest : Bytes)
    → ((first ≡ 0xfd) × (size < 3))
      ⊎ (((first ≡ 0xfe) × (size < 5)) ⊎ ((first ≡ 0xff) × (size < 9)))
    → 0 < size
    → compact_size_decode (some (first ∷ rest)) size (some old) ≡ some (size, some old)
unfolding compact_size_decode decode_first wide_field
compact_size_decode_short first zero old rest h hs = absurd (omega arith)
compact_size_decode_short first (suc size) old rest h hs = ground arith

plain_first :
    (value : ℕ)
    → 0 < value
    → (first : ℕ) × (more : Bytes) × (plain value ≡ first ∷ more) × (0 < first)
unfolding plain
plain_first value h = elim (Bool-cases (leb value 252)) [
  | inl one ↦ (value, [], rw one, h)
  | inr not_one ↦ elim (Bool-cases (leb value 0xffff)) [
    | inl two ↦ (0xfd, to_le 2 value, rw (not_one, two) refl, omega arith)
    | inr not_two ↦ elim (Bool-cases (leb value 0xffff_ffff)) [
      | inl four ↦ (0xfe, to_le 4 value, rw (not_one, not_two, four) refl, omega arith)
      | inr eight ↦ (0xff, to_le 8 value, rw (not_one, not_two, eight) refl, omega arith)
    ]
  ]
]

-- Only 0 is encoded with a first byte 0.
pub compact_size_encode_first :
    (value : ℕ)
    → 0 < value
    → (first : ℕ) × (more : Bytes) × (compact_size_encode value ≡ first ∷ more) × (0 < first)
compact_size_encode_first value h = rw (compact_size_encode-plain value) (plain_first value h)
