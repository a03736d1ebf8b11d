-- ===== src/Blkdat/Cache/Runs.antt =====
-- Calls of `OpenFile` one behind the other.
use mlbtcc.Base.{ℕ, ◌<◌, ◌≡◌, ◌∙◌, refl, arith, Option, some, ◌>>=◌, List, [], ◌∷◌, length, All}
use mlbtcc.Blkdat.Cache.{Store, open_file}
use mlbtcc.Blkdat.Cache.Coherent.{IsCoherent}
use mlbtcc.Blkdat.Cache.Opened.{open_file-Opened}

-- A call of `OpenFile`: what `fopen` would answer, the time and the file.
abbrev pub Request : Type 0
Request = Option ℕ × ℕ × ℕ

-- The store after calls one behind the other.
unfoldable pub open_each : List Request → Store → Option Store
open_each [] s = some s
open_each ((fopen, now, index) ∷ requests) s =
    open_file fopen now index s >>= λ r. open_each requests (r.1)

abbrev pub InTable : Store → Request → Type 0
InTable s (fopen, now, index) = index < length s.infos

InTable-length :
    (s s' : Store) (requests : List Request)
    → length s'.infos ≡ length s.infos
    → All (InTable s) requests
    → All (InTable s') requests
InTable-length s s' [] l h = tt
InTable-length s s' ((fopen, now, index) ∷ requests) l (lt, h) =
    (omega (arith, l, lt), InTable-length s s' requests l h)

-- Any number of calls, of files of the table in any order and at any times, whatever `fopen`
-- answers each time: none meets a null pointer, and cache and table agree at the end when they did
-- at the start.
pub open_each-IsCoherent :
    (requests : List Request) (s : Store)
    → IsCoherent s
    → All (InTable s) requests
    → (s' : Store) × (open_each requests s ≡ some s')
      × IsCoherent s'
      × (length s'.infos ≡ length s.infos)
unfolding open_each
open_each-IsCoherent [] s w h = (s, refl, w, refl)
open_each-IsCoherent ((fopen, now, index) ∷ requests) s w (lt, h) =
    let (r, t, e, (wt, l, _)) = open_file-Opened fopen now index s w lt in
    let (u, f, wu, m) = open_each-IsCoherent requests t wt (InTable-length s t requests l h) in
    (u, rw e f, wu, m ∙ l)
