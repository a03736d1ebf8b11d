-- ===== src/Files/Listing/Names.antt =====
-- What `ListFiles` lists.
use mlbtcc.Base.{
  ℕ, ◌+◌, ◌*◌, ◌<◌, ◌≤◌, ◌≡◌, ◌∙◌, refl, ap, sym, arith, some, Bool, true, false, List, [], ◌∷◌,
  ◌++◌, leb, if◌then◌else◌, length, length-append, append_assoc, append-nil, All,
}
use mlbtcc.Base.Bytes.{Bytes}
use mlbtcc.Files.Wildcard.{wildcard_match}
use mlbtcc.Files.Listing.{
  FileInfo, FileList, closed_file, add_file, list_loop, list_files, close_files, free_file_list,
}

-- The match of a name ends.
abbrev pub Decided : Bytes → Bytes → Type 0
Decided pattern name = (b : Bool) × (wildcard_match name pattern ≡ some b)

-- The names' files with a path, where the name matches.
abbrev pub paths :
    Bytes → (pattern : Bytes) → (names : List Bytes) → All (Decided pattern) names → List FileInfo
paths directory pattern [] hs = []
paths directory pattern (name ∷ names) ((b, e), hs) =
    let rest = paths directory pattern names hs in
    if b then closed_file (directory ++ (b'/' ∷ name)) ∷ rest else rest

-- The count is the number of files, and there is room for them.
pub record IsList (list : FileList) : Type 0 where
  pub counted : list.count ≡ length list.files
  pub some_room : 0 < list.total_size
  pub fits : list.count ≤ list.total_size

add_file_lem :
    (directory name : Bytes) (list : FileList)
    → IsList list
    → (l : FileList) × (add_file directory name list ≡ some l)
      × IsList l
      × (l.files ≡ list.files ++ (closed_file (directory ++ (b'/' ∷ name)) ∷ []))
unfolding add_file
add_file_lem directory name list w =
    let info = closed_file (directory ++ (b'/' ∷ name)) in
    let total' = if leb list.total_size list.count then list.total_size * 2 else list.total_size in
    let enough : list.count < total' = ground arith in
    let added : FileList = record {
      files = list.files ++ (info ∷ []);
      count = list.count + 1;
      total_size = total';
    } in
    (
      added,
      ground arith,
      record {
        counted = omega (arith, w.counted, length-append list.files (info ∷ []));
        some_room = omega (arith, enough);
        fits = omega (arith, enough);
      },
      refl,
    )

list_loop_lem :
    (directory pattern : Bytes) (names : List Bytes) (hs : All (Decided pattern) names)
    (list : FileList)
    → IsList list
    → (l : FileList) × (list_loop directory pattern names list ≡ some l)
      × IsList l
      × (l.files ≡ list.files ++ paths directory pattern names hs)
unfolding list_loop
list_loop_lem directory pattern [] hs list w = (list, refl, w, sym (append-nil list.files))
list_loop_lem directory pattern (name ∷ names) ((true, e), hs) list w =
    let (added, e1, w1, f1) = add_file_lem directory name list w in
    let (l, e2, w2, f2) = list_loop_lem directory pattern names hs added w1 in
    let info = closed_file (directory ++ (b'/' ∷ name)) in
    (
      l,
      rw e (rw e1 e2),
      w2,
      f2
          ∙ ap (λ fs. fs ++ paths directory pattern names hs) f1
          ∙ append_assoc list.files (info ∷ []) (paths directory pattern names hs),
    )
list_loop_lem directory pattern (name ∷ names) ((false, e), hs) list w =
    let (l, e2, w2, f2) = list_loop_lem directory pattern names hs list w in (l, rw e e2, w2, f2)

close_files-paths :
    (directory pattern : Bytes) (names : List Bytes) (hs : All (Decided pattern) names)
    → close_files (paths directory pattern names hs) ≡ some []
unfolding close_files
close_files-paths directory pattern [] hs = refl
close_files-paths directory pattern (name ∷ names) ((true, e), hs) =
    rw (close_files-paths directory pattern names hs) refl
close_files-paths directory pattern (name ∷ names) ((false, e), hs) =
    close_files-paths directory pattern names hs

-- On a directory that opens, with an allocation of at least one place, `list_files` never writes
-- outside its array: it lists the paths of the names that `wildcard_match` accepts, in the
-- directory's order, none of them open, and its count is their number; `free_file_list` then
-- closes nothing. The match of each name is taken to end.
pub list_files-paths :
    (directory pattern : Bytes) (names : List Bytes) (size : ℕ) (hs : All (Decided pattern) names)
    → 0 < size
    → (l : FileList) × (list_files directory (some names) pattern size ≡ some l)
      × (l.files ≡ paths directory pattern names hs)
      × (l.count ≡ length l.files)
      × (l.count ≤ l.total_size)
      × (free_file_list l ≡ some ([], record { files = []; count = 0; total_size = 0 }))
unfolding list_files free_file_list
list_files-paths directory pattern names size hs h =
    let empty : FileList = record { files = []; count = 0; total_size = size } in
    let w0 : IsList empty = record { counted = refl; some_room = h; fits = omega arith } in
    let (l, e, w, f) = list_loop_lem directory pattern names hs empty w0 in
    (l, e, f, w.counted, w.fits, rw (f, close_files-paths directory pattern names hs) refl)
