-- ===== src/Leveldb/Tests.antt =====
-- Runs of src/leveldb.c on a small database.
use mlbtcc.Base.{ℕ, ◌≡◌, arith, some, List, [], ◌∷◌, map}
use mlbtcc.Base.Bytes.{Bytes}
use mlbtcc.Leveldb.{Entry, ldb_count_entries, ldb_count_entries_for_prefixes}
use mlbtcc.Leveldb.Counts.{occurrences, ldb_count_entries_for_prefixes_lem}

abbrev three_entries : List Entry
three_entries =
    record { key = 98 ∷ 1 ∷ []; value = [] }
    ∷ record { key = 102 ∷ []; value = [] }
    ∷ record { key = 98 ∷ 2 ∷ []; value = [] }
    ∷ []

abbrev two_prefixes : Bytes
two_prefixes = 98 ∷ 102 ∷ []

ldb_count_entries_for_prefixes_lem_example :
    ((prefix : ℕ)
      → ldb_count_entries three_entries prefix ≡ some (occurrences three_entries prefix))
    × (ldb_count_entries_for_prefixes three_entries two_prefixes
        ≡ some (map (occurrences three_entries) two_prefixes))
ldb_count_entries_for_prefixes_lem_example =
    ldb_count_entries_for_prefixes_lem three_entries two_prefixes
      (omega arith, (omega arith, (omega arith, tt)))
