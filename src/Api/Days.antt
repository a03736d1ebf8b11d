-- ===== src/Api/Days.antt =====
-- The searches of src/API.c by date.
use mlbtcc.Base.{ℕ, ◌<◌, ◌≡◌, refl, arith, none, List, [], ◌∷◌, length}
use mlbtcc.Base.Index.{get_elem?-ge}
use mlbtcc.Base.Bytes.{Bytes}
use mlbtcc.BitcoinSpecifics.Hash.{Sha256}
use mlbtcc.Api.{Table, record_at, in_window, last_loop, get_last_block_of_date}

-- On a table with as many places as there are records, `get_last_block_of_date` always reads behind
-- the table, if there is a record at all.
pub get_last_block_of_date_outside :
    (hash_lib : Sha256) (key : Bytes) (files : List Bytes) (current : ℕ) (table : Table)
    (timestamp : ℕ)
    → 0 < length table
    → get_last_block_of_date hash_lib key files current table (length table) timestamp ≡ none
unfolding get_last_block_of_date last_loop in_window record_at
get_last_block_of_date_outside hash_lib key files current [] timestamp h = absurd (omega arith)
get_last_block_of_date_outside hash_lib key files current (r ∷ table) timestamp h =
    rw (get_elem?-ge table (length table) (omega arith)) refl
