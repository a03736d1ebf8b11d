-- ===== src/Files/Defaults.antt =====
-- src/files.c, `GetFileSize`, `IsDirectory`, `IsBitcoinDatadir`, `TryDefaultBitcoinDatadirs` and
-- `GetBitcoinDatadir`. What `stat` answers is an argument.
use mlbtcc.Base.{
  ℕ, ◌+◌, Option, none, some, ◌>>=◌, Bool, true, false, not, ◌||◌, List, [], ◌∷◌, ◌++◌, ◌==◌, leb,
  if◌then◌else◌, length, take, replicate, ◌≡◌, ◌∙◌, ap, arith, refl,
}
use mlbtcc.Base.Bytes.{Bytes, codes}

-- The size that `stat` gives, and whether it is a directory.
record Stat : Type 0 where
  size : ℕ
  is_dir : Bool

-- `none` is the result -1.
get_file_size : (Bytes → Option Stat) → Bytes → Option ℕ
get_file_size stat filename = elim (stat filename) [ none ↦ none | some st ↦ some st.size ]

is_directory : (Bytes → Option Stat) → Bytes → Bool
is_directory stat path = elim (stat path) [ none ↦ false | some st ↦ st.is_dir ]

is_bitcoin_datadir : (Bytes → Option Stat) → Bytes → Bool
is_bitcoin_datadir stat path = if is_directory stat path then true else false

-- `exit(1)`, the directory as it was given, or another one in its buffer.
data Search : Type 0 where
  exited : Search
  kept : Search
  copied : Bytes → Search

-- `strncpy(datadir, location, 512)`.
abbrev copy_name : Bytes → Bytes
copy_name location = take 512 (location ++ replicate 512 0)

-- `strcat(strdup(s), t)`. The copy has room for `s` and its terminator.
strcat_strdup : Bytes → Bytes → Option Bytes
strcat_strdup s t = if leb (length s + length t + 1) (length s + 1) then some (s ++ t) else none

fixed_locations : List Bytes
fixed_locations =
    codes "/usr/local/bitcoin"
    ∷ codes "/opt/bitcoin"
    ∷ codes "/var/lib/bitcoin"
    ∷ codes "/mnt/data/bitcoin"
    ∷ codes "/home/bitcoin/.bitcoin"
    ∷ []

-- The array up to the null pointer at its end.
default_locations : Option Bytes → Option (List Bytes)
default_locations none = some fixed_locations
default_locations (some home) = do
  location ← strcat_strdup home (codes "/.bitcoin")
  some (fixed_locations ++ (location ∷ []))

try_locations : (Bytes → Option Stat) → Bool → List Bytes → Option Search
try_locations stat is_null [] = some exited
try_locations stat is_null (location ∷ locations) =
    if is_bitcoin_datadir stat location
    then (if is_null then none else some (copied (copy_name location)))
    else try_locations stat is_null locations

-- `home` is what `getenv` answers. A copy to a null pointer is undefined.
try_default_bitcoin_datadirs : (Bytes → Option Stat) → Option Bytes → Bool → Option Search
try_default_bitcoin_datadirs stat home is_null =
    default_locations home >>= try_locations stat is_null

get_bitcoin_datadir : (Bytes → Option Stat) → Option Bytes → Option Bytes → Option Search
get_bitcoin_datadir stat home none = try_default_bitcoin_datadirs stat home true
get_bitcoin_datadir stat home (some datadir) =
    if (length datadir == 0) || not (is_bitcoin_datadir stat datadir)
    then try_default_bitcoin_datadirs stat home false
    else some kept

or_true : (b : Bool) → b || true ≡ true
or_true true = refl
or_true false = refl

no_room : (home : Bytes) → default_locations (some home) ≡ none
unfolding default_locations strcat_strdup
no_room home =
    let small : leb (length home + 9 + 1) (length home + 1) ≡ false = ground arith in
    ap
      (λ (b : Bool). (if b then some (home ++ codes "/.bitcoin") else none) >>= λ location.
        some (fixed_locations ++ (location ∷ [])))
      small

-- With HOME set, the search for a default directory writes behind the copy of HOME, whatever exists.
get_bitcoin_datadir-home :
    (stat : Bytes → Option Stat) (home datadir : Bytes)
    → is_bitcoin_datadir stat datadir ≡ false
    → get_bitcoin_datadir stat (some home) (some datadir) ≡ none
unfolding get_bitcoin_datadir try_default_bitcoin_datadirs
get_bitcoin_datadir-home stat home datadir e =
    let tried : ((length datadir == 0) || not (is_bitcoin_datadir stat datadir)) ≡ true =
      ap (λ b. (length datadir == 0) || not b) e ∙ or_true (length datadir == 0) in
    ap (λ b. if b then try_default_bitcoin_datadirs stat (some home) false else some kept) tried
    ∙ ap (λ (o : Option (List Bytes)). o >>= try_locations stat false) (no_room home)
