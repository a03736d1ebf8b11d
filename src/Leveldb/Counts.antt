-- ===== src/Leveldb/Counts.antt =====
-- The counts of src/leveldb.c, independently of their loops.
use mlbtcc.Base.{
  ℕ, ◌+◌, ◌<◌, ◌≡◌, ◌∙◌, refl, ap, some, List, [], ◌∷◌, ◌==◌, if◌then◌else◌, arith, length, All,
  map,
}
use mlbtcc.Base.Bytes.{Bytes}
use mlbtcc.Leveldb.{
  Entry, first_byte, count_loop, ldb_count_entries, bump, prefixes_loop, zeros,
  ldb_count_entries_for_prefixes,
}

-- Every key has a first byte.
abbrev pub HasKey : Entry → Type 0
HasKey entry = 0 < length entry.key

-- How many keys start with a byte.
abbrev starts : ℕ → Bytes → ℕ
starts prefix [] = 0
starts prefix (byte ∷ key) = if byte == prefix then 1 else 0

abbrev pub occurrences : List Entry → ℕ → ℕ
occurrences [] prefix = 0
occurrences (entry ∷ db) prefix = starts prefix entry.key + occurrences db prefix

first_of_key :
    (key : Bytes)
    → 0 < length key
    → (byte : ℕ) × (first_byte key ≡ some byte)
      × ((prefix : ℕ) → starts prefix key ≡ (if byte == prefix then 1 else 0))
unfolding first_byte
first_of_key [] h = absurd (omega arith)
first_of_key (byte ∷ key) h = (byte, refl, λ prefix. refl)

count_loop_lem :
    (prefix : ℕ) (db : List Entry) (count : ℕ)
    → All HasKey db
    → count_loop prefix db count ≡ some (count + occurrences db prefix)
unfolding count_loop
count_loop_lem prefix [] count h = ground arith
count_loop_lem prefix (entry ∷ db) count (hk, h) =
    let (byte, e, same) = first_of_key entry.key hk in
    rw e (
      ground (
        arith,
        same prefix,
        count_loop_lem prefix db count h,
        count_loop_lem prefix db (count + 1) h,
      ))

-- Each count with the occurrences of its prefix added.
abbrev totals : List Entry → Bytes → List ℕ → List ℕ
totals db (prefix ∷ prefixes) (count ∷ counts) =
    (count + occurrences db prefix) ∷ totals db prefixes counts
totals db _ counts = counts

totals-bump :
    (byte : ℕ) (entry : Entry) (db : List Entry) (prefixes counts : List ℕ)
    → ((prefix : ℕ) → starts prefix entry.key ≡ (if byte == prefix then 1 else 0))
    → totals db prefixes (bump byte prefixes counts) ≡ totals (entry ∷ db) prefixes counts
unfolding bump
totals-bump byte entry db [] counts same = refl
totals-bump byte entry db (prefix ∷ prefixes) [] same = refl
totals-bump byte entry db (prefix ∷ prefixes) (count ∷ counts) same =
    ground (arith, same prefix, totals-bump byte entry db prefixes counts same)

totals_none : (prefixes counts : List ℕ) → totals [] prefixes counts ≡ counts
totals_none [] counts = refl
totals_none (prefix ∷ prefixes) [] = refl
totals_none (prefix ∷ prefixes) (count ∷ counts) = ground (arith, totals_none prefixes counts)

prefixes_loop_lem :
    (prefixes : Bytes) (db : List Entry) (counts : List ℕ)
    → All HasKey db
    → prefixes_loop prefixes db counts ≡ some (totals db prefixes counts)
unfolding prefixes_loop
prefixes_loop_lem prefixes [] counts h = ground (arith, totals_none prefixes counts)
prefixes_loop_lem prefixes (entry ∷ db) counts (hk, h) =
    let (byte, e, same) = first_of_key entry.key hk in
    rw e (
      prefixes_loop_lem prefixes db (bump byte prefixes counts) h
      ∙ ap (λ l. some l) (totals-bump byte entry db prefixes counts same))

totals-zeros :
    (db : List Entry) (prefixes : Bytes)
    → totals db prefixes (zeros prefixes) ≡ map (occurrences db) prefixes
totals-zeros db [] = refl
totals-zeros db (prefix ∷ prefixes) = ground (arith, totals-zeros db prefixes)

-- On a database without an empty key, `ldb_count_entries` is the number of keys that start with
-- the prefix, and `ldb_count_entries_for_prefixes` has that number for each of its prefixes, in
-- their order.
pub ldb_count_entries_for_prefixes_lem :
    (db : List Entry) (prefixes : Bytes)
    → All HasKey db
    → ((prefix : ℕ) → ldb_count_entries db prefix ≡ some (occurrences db prefix))
      × (ldb_count_entries_for_prefixes db prefixes ≡ some (map (occurrences db) prefixes))
unfolding ldb_count_entries ldb_count_entries_for_prefixes
ldb_count_entries_for_prefixes_lem db prefixes h = (
  λ prefix. count_loop_lem prefix db 0 h ∙ ap some (omega arith),
  prefixes_loop_lem prefixes db (zeros prefixes) h ∙ ap some (totals-zeros db prefixes),
)
