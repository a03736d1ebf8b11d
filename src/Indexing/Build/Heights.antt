-- ===== src/Indexing/Build/Heights.antt =====
-- The table that `BuildBlockIndexRecords` fills, as the API looks things up in it.
use mlbtcc.Base.{
  ℕ, zero, suc, ◌+◌, ◌<◌, ◌≡◌, ◌∙◌, refl, ap, sym, arith, Option, none, some, ◌>>=◌, >>=-some, Bool,
  true, false, ◌&&◌, List, [], ◌∷◌, bit_and, ltb, leb, ◌==◌, if◌then◌else◌, length, length-set,
  length-replicate, set, replicate, get_elem?,
}
use mlbtcc.Base.Index.{get_elem?-set}
use mlbtcc.Leveldb.{Entry, first_byte, ldb_count_entries_for_prefixes}
use mlbtcc.Indexing.Records.{get_block_index_record, get_file_information_record}
use mlbtcc.Indexing.Build.{
  IndexRecords, store, keep_block, block_round, block_loop, build_block_index_records,
  block_valid_chain, block_valid_mask,
}
use mlbtcc.Api.{Table, record_at}
use mlbtcc.Structs.{BlockIndexRecord}

-- The block that an entry describes, if its validity is `BLOCK_VALID_CHAIN` at least.
abbrev pub valid : BlockIndexRecord → Option BlockIndexRecord
valid r =
    if leb block_valid_chain (bit_and r.validation_status block_valid_mask) then some r else none

unfoldable pub accepted : Entry → Option BlockIndexRecord
accepted entry = first_byte entry.key >>= λ byte.
    if byte == b'b'
    then (get_block_index_record entry.key entry.value (length entry.value) >>= valid)
    else none

abbrev pub at_height : ℕ → Option BlockIndexRecord → Option BlockIndexRecord
at_height i none = none
at_height i (some r) = if r.height == i then some r else none

abbrev pub or_else : Option BlockIndexRecord → Option BlockIndexRecord → Option BlockIndexRecord
or_else none o = o
or_else (some r) o = some r

-- The last block of a height in the order of the entries, and how many blocks there are.
unfoldable pub latest : List Entry → ℕ → Option BlockIndexRecord
latest [] i = none
latest (entry ∷ db) i = or_else (latest db i) (at_height i (accepted entry))

abbrev one_of : Option BlockIndexRecord → ℕ
one_of none = 0
one_of (some r) = 1

unfoldable pub all_accepted : List Entry → ℕ
all_accepted [] = 0
all_accepted (entry ∷ db) = one_of (accepted entry) + all_accepted db

-- What a step makes of the tables, when it takes in these blocks.
abbrev TakesIn : (ℕ → Option BlockIndexRecord) → ℕ → IndexRecords → IndexRecords → Type 0
TakesIn blocks count t t' =
    ((i : ℕ)
      → i < length t.block_index_record
      → record_at t'.block_index_record i ≡ or_else (blocks i) (record_at t.block_index_record i))
    × (length t'.block_index_record ≡ length t.block_index_record)
    × (t'.block_index_record_count ≡ t.block_index_record_count + count)

or_else_assoc :
    (a b c : Option BlockIndexRecord) → or_else a (or_else b c) ≡ or_else (or_else a b) c
or_else_assoc none b c = refl
or_else_assoc (some r) b c = refl

taken :
    {A : Type 0} (b : Bool) (x y : A) → (if b then some x else none) ≡ some y → (b ≡ true) × (x ≡ y)
taken {A = A} true x y e = (refl, ap (λ o. elim o as (λ _. A) [ none ↦ x | some z ↦ z ]) e)
taken false x y e = cc

some_same : {A : Type 0} (x y : A) → some x ≡ some y → x ≡ y
some_same {A = A} x y e = ap (λ o. elim o as (λ _. A) [ none ↦ x | some z ↦ z ]) e

choose :
    (b c : Bool) (r : BlockIndexRecord) (o : Option (Option BlockIndexRecord))
    → c ≡ true
    → ((if b && c then some (some r) else o) >>= λ place. place)
      ≡ or_else (if b then some r else none) (o >>= λ place. place)
choose true true r o h = refl
choose true false r o h = cc
choose false c r o h = refl

-- A place after a store inside the table.
record_at-set :
    (table : Table) (r : BlockIndexRecord) (i : ℕ)
    → ltb r.height (length table) ≡ true
    → record_at (set table r.height (some r)) i ≡ or_else (at_height i (some r)) (record_at table i)
unfolding record_at
record_at-set table r i h =
    ap (λ o. o >>= λ place. place) (get_elem?-set table r.height i (some r))
    ∙ choose (r.height == i) (ltb r.height (length table)) r (get_elem? table i) h

none_taken : (t : IndexRecords) → TakesIn (λ _. none) 0 t t
none_taken t = (λ i h. refl, refl, omega arith)

kept :
    (r : BlockIndexRecord) (t t' : IndexRecords) (b : Bool)
    → (if b
        then (store t.block_index_record r.height r >>= λ table. some (record t {
          block_index_record = table;
          block_index_record_count = t.block_index_record_count + 1;
        }))
        else some t)
      ≡ some t'
    → TakesIn
        (λ i. at_height i (if b then some r else none))
        (one_of (if b then some r else none))
        t
        t'
unfolding store
kept r t t' false e = rw (sym (some_same t t' e)) (none_taken t)
kept r t t' true e =
    let next = λ (table : Table). some (record t {
      block_index_record = table;
      block_index_record_count = t.block_index_record_count + 1;
    }) in
    let (table, e1, e2) = >>=-some (store t.block_index_record r.height r) next e in
    let (h, q) =
      taken (ltb r.height (length t.block_index_record))
        (set t.block_index_record r.height (some r)) table e1 in
    let whole : some (record t {
      block_index_record = set t.block_index_record r.height (some r);
      block_index_record_count = t.block_index_record_count + 1;
    })
        ≡ some t' =
      ap next q ∙ e2 in
    rw (sym (some_same _ _ whole)) (
      λ i l. record_at-set t.block_index_record r i h,
      length-set t.block_index_record r.height (some r),
      refl,
    )

keep_block-TakesIn :
    (r : BlockIndexRecord) (t t' : IndexRecords)
    → keep_block r t ≡ some t'
    → TakesIn (λ i. at_height i (valid r)) (one_of (valid r)) t t'
unfolding keep_block
keep_block-TakesIn r t t' e =
    kept r t t' (leb block_valid_chain (bit_and r.validation_status block_valid_mask)) e

abbrev counted_file : IndexRecords → IndexRecords
counted_file t = record t { file_information_record_count = t.file_information_record_count + 1 }

round_at :
    {F : Type 0} (b f : Bool) (g : Option BlockIndexRecord) (file : Option F) (t t' : IndexRecords)
    → (if b
        then (g >>= λ r. keep_block r t)
        else if f
        then (file >>= λ _. some (counted_file t))
        else some t)
      ≡ some t'
    → TakesIn
        (λ i. at_height i (if b then (g >>= valid) else none))
        (one_of (if b then (g >>= valid) else none))
        t
        t'
round_at true f none file t t' e = cc
round_at true f (some r) file t t' e = keep_block-TakesIn r t t' e
round_at false true g none t t' e = cc
round_at false true g (some x) t t' e =
    rw (sym (some_same (counted_file t) t' e)) (λ i h. refl, refl, omega arith)
round_at false false g file t t' e = rw (sym (some_same t t' e)) (none_taken t)

round_from :
    {F : Type 0} (o : Option ℕ) (g : Option BlockIndexRecord) (file : Option F)
    (t t' : IndexRecords)
    → (o >>= λ byte.
        if byte == b'b'
        then (g >>= λ r. keep_block r t)
        else if byte == b'f'
        then (file >>= λ _. some (counted_file t))
        else some t)
      ≡ some t'
    → TakesIn
        (λ i. at_height i (o >>= λ byte. if byte == b'b' then (g >>= valid) else none))
        (one_of (o >>= λ byte. if byte == b'b' then (g >>= valid) else none))
        t
        t'
round_from none g file t t' e = cc
round_from (some byte) g file t t' e = round_at (byte == b'b') (byte == b'f') g file t t' e

-- One round takes in the block that its entry describes.
block_round-TakesIn :
    (entry : Entry) (t t' : IndexRecords)
    → block_round entry t ≡ some t'
    → TakesIn (λ i. at_height i (accepted entry)) (one_of (accepted entry)) t t'
unfolding block_round accepted
block_round-TakesIn entry t t' e =
    round_from (first_byte entry.key)
      (get_block_index_record entry.key entry.value (length entry.value))
      (get_file_information_record entry.value) t t' e

block_loop-TakesIn :
    (db : List Entry) (t t' : IndexRecords)
    → block_loop db t ≡ some t'
    → TakesIn (latest db) (all_accepted db) t t'
unfolding block_loop latest all_accepted
block_loop-TakesIn [] t t' e = rw (sym (some_same t t' e)) (none_taken t)
block_loop-TakesIn (entry ∷ db) t t' e =
    let (u, e1, e2) = >>=-some (block_round entry t) (block_loop db) e in
    let (p1, l1, c1) = block_round-TakesIn entry t u e1 in
    let (p2, l2, c2) = block_loop-TakesIn db u t' e2 in
    (
      λ i h.
          p2 i (omega (arith, l1, h))
          ∙ ap (or_else (latest db i)) (p1 i h)
          ∙ or_else_assoc (latest db i) (at_height i (accepted entry))
              (record_at t.block_index_record i),
      l2 ∙ l1,
      omega (arith, c1, c2),
    )

record_at-replicate : (n i : ℕ) → record_at (replicate n none) i ≡ none
unfolding record_at
record_at-replicate zero i = refl
record_at-replicate (suc n) zero = refl
record_at-replicate (suc n) (suc i) = record_at-replicate n i

or_else-none : (o : Option BlockIndexRecord) → or_else o none ≡ o
or_else-none none = refl
or_else-none (some r) = refl

-- When `build_block_index_records` ends on the entries of an index, the table has a place for each
-- of the first count that `ldb_count_entries_for_prefixes` gives; what the API reads at a height in
-- the table is the last entry's block with that height and a validity of `BLOCK_VALID_CHAIN` or
-- more, and nothing where there is none; the count is the number of such entries.
pub build_block_index_records-latest :
    (db : List Entry) (env env' : IndexRecords) (i : ℕ)
    → build_block_index_records db env ≡ some env'
    → i < length env'.block_index_record
    → (counts : List ℕ) × (ldb_count_entries_for_prefixes db (b'b' ∷ b'f' ∷ []) ≡ some counts)
      × (get_elem? counts 0 ≡ some (length env'.block_index_record))
      × (record_at env'.block_index_record i ≡ latest db i)
      × (env'.block_index_record_count ≡ all_accepted db)
unfolding build_block_index_records
build_block_index_records-latest db env env' i e h =
    let start = λ (blocks : ℕ). record env {
      block_index_record = replicate blocks none;
      block_index_record_count = 0;
      file_information_record_count = 0;
    } in
    let (counts, e1, f1) =
      >>=-some (ldb_count_entries_for_prefixes db (b'b' ∷ b'f' ∷ []))
        (λ counts. get_elem? counts 0 >>= λ blocks. block_loop db (start blocks)) e in
    let (blocks, e2, f2) =
      >>=-some (get_elem? counts 0) (λ blocks. block_loop db (start blocks)) f1 in
    let (p, l, c) = block_loop-TakesIn db (start blocks) env' f2 in
    let places : length env'.block_index_record ≡ blocks = l ∙ length-replicate blocks none in
    (
      counts,
      e1,
      e2 ∙ ap some (sym places),
      p i (omega (arith, l, h))
          ∙ ap (or_else (latest db i)) (record_at-replicate blocks i)
          ∙ or_else-none (latest db i),
      c ∙ omega arith,
    )
