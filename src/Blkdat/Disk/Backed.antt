-- ===== src/Blkdat/Disk/Backed.antt =====
-- Reading through the cache is reading the file.
use mlbtcc.Base.{
  ℕ, ◌+◌, ◌<◌, ◌≡◌, ◌≢◌, ◌∙◌, refl, ap, sym, arith, Option, none, some, ◌>>=◌, true, List, ◌==◌,
  get_elem?, length, Bool-cases, Option-cases, inl, inr,
}
use mlbtcc.Base.Bytes.{Bytes}
use mlbtcc.Base.Index.{get_elem?-lt}
use mlbtcc.BitcoinSpecifics.Hash.{Sha256}
use mlbtcc.Blkdat.Block.{before, seek, read_block_from_blk_dat_file}
use mlbtcc.Blkdat.Cache.{Slot, Store, in_cache, is_set, open_file}
use mlbtcc.Blkdat.Cache.Coherent.{IsCoherent, index-cases}
use mlbtcc.Blkdat.Cache.Opened.{open_file-Opened}
use mlbtcc.Blkdat.Cache.Frame.{
  Keeps, Other, some_inj, open_file_anew, open_file_cached, open_anew_handle, open_file-Keeps,
}
use mlbtcc.Blkdat.Disk.{
  Stream, Streams, with_stream, World, fopen_answer, opened_streams, open_stream,
  read_block_through,
}
use mlbtcc.Files.Listing.{FileInfo}
use mlbtcc.Structs.{Block}

-- Each open file's handle is a stream of the file's path.
abbrev pub HasStreams : Store → Streams → Type 0
HasStreams s streams =
    (i : ℕ) (info : FileInfo) (f : ℕ)
    → get_elem? s.infos i ≡ some info
    → info.is_open ≡ true
    → info.file ≡ some f
    → (position : ℕ) × (streams f ≡ some (record { path = info.filepath; position = position }))

-- The contents of the table's files, in its order.
abbrev pub IsDisk : (Bytes → Option Bytes) → List Bytes → Store → Type 0
IsDisk disk files s =
    (i : ℕ) (info : FileInfo)
    → get_elem? s.infos i ≡ some info
    → disk info.filepath ≡ get_elem? files i

pub record IsBacked (disk : Bytes → Option Bytes) (files : List Bytes) (w : World) : Type 0 where
  pub coherent : IsCoherent w.store
  pub has_streams : HasStreams w.store w.streams
  pub on_disk : IsDisk disk files w.store

-- No other file that is open after the call has the pointer that `fopen` gives out.
abbrev pub IsFresh : ℕ → ℕ → ℕ → Store → Type 0
IsFresh handle now index s =
    (r : Option ℕ) (s' : Store) (i : ℕ) (info : FileInfo)
    → open_file (some handle) now index s ≡ some (r, s')
    → i ≢ index
    → get_elem? s'.infos i ≡ some info
    → info.is_open ≡ true
    → info.file ≢ some handle

-- A stream moves on.
moved :
    (s : Store) (streams : Streams) (f position : ℕ) (path : Bytes) (next : ℕ)
    → HasStreams s streams
    → streams f ≡ some (record { path = path; position = position })
    → HasStreams s (with_stream streams f (record { path = path; position = next }))
moved s streams f position path next h e i info g gi o fi =
    let (p, q) = h i info g gi o fi in
    elim (Bool-cases (f == g)) [
      | inl same ↦
          (next, rw same (ap (λ x. some (record { path = x; position = next })) (paths same p q)))
      | inr other ↦ (p, rw other q)
    ]
  where
    path_in : Option Stream → Bytes
    path_in o = elim o as (λ _. Bytes) [ none ↦ path | some x ↦ x.path ]

    paths :
        (f == g) ≡ true
        → (p : ℕ) → streams g ≡ some (record { path = info.filepath; position = p })
        → path ≡ info.filepath
    paths same p q =
        let eq : f ≡ g = ground arith in
        sym (ap path_in e) ∙ ap (λ x. path_in (streams x)) eq ∙ ap path_in q

set_some : (o : Option ℕ) → is_set o ≡ true → (f : ℕ) × (o ≡ some f)
set_some none h = cc
set_some (some f) h = (f, refl)

module _ (disk : Bytes → Option Bytes) (files : List Bytes) where
  -- The pointer that `OpenFile` returns is a stream of the file, before or after.
  opened_file :
      (handle now index : ℕ) (w : World) (info : FileInfo) (content : Bytes) (r : Option ℕ)
      (s' : Store)
      → IsBacked disk files w
      → get_elem? w.store.infos index ≡ some info
      → open_file (some handle) now index w.store ≡ some (r, s')
      → (f : ℕ) × (position : ℕ) × (r ≡ some f)
        × (opened_streams
              (in_cache index now w.store info)
              (some content)
              handle
              info.filepath
              w.streams
              f
            ≡ some (record { path = info.filepath; position = position }))
  opened_file handle now index w info content r s' b g e =
      elim (Option-cases (in_cache index now w.store info)) [
        | inl n ↦
            let h : r ≡ some handle =
              open_anew_handle handle now index w.store s' r
                (sym (open_file_anew (some handle) now index w.store info g n) ∙ e) in
            let same : (handle == handle) ≡ true = ground arith in
            (handle, 0, h, rw n (rw same refl))
        | inr (slots, n) ↦ elim (Bool-cases info.is_open) [
          | inl o ↦
              let (f, fi) = set_some info.file (b.coherent.handle index info g o) in
              let (p, q) = b.has_streams index info f g o fi in
              let h : r ≡ info.file = sym (
                ap (λ (p : Option ℕ × Store). p.0)
                  (some_inj (info.file, record (w.store) { open_files = slots }) (r, s')
                    (sym (open_file_cached (some handle) now index w.store info slots g n) ∙ e))) in
              (f, p, h ∙ fi, rw n q)
          | inr shut ↦ absurd (ground arith)
        ]
      ]

  -- The other files' streams stay.
  kept_stream :
      (o : Option (List Slot)) (content path : Bytes) (handle g : ℕ) (streams : Streams)
      → handle ≢ g
      → opened_streams o (some content) handle path streams g ≡ streams g
  kept_stream none content path handle g streams n = ground arith
  kept_stream (some slots) content path handle g streams n = refl

  IsDisk-kept :
      (index : ℕ) (s s' : Store)
      → Keeps (Other index) s.infos s'.infos
      → IsDisk disk files s
      → IsDisk disk files s'
  IsDisk-kept index s s' k d i info g =
      let (old, g0, (path, _, _)) = k i info g in ap disk path ∙ d i old g0

  -- The streams of the open files after the call.
  opened_streams-HasStreams :
      (handle now index : ℕ) (w : World) (info : FileInfo) (content : Bytes) (r : Option ℕ)
      (s' : Store)
      → IsBacked disk files w
      → IsFresh handle now index w.store
      → get_elem? w.store.infos index ≡ some info
      → open_file (some handle) now index w.store ≡ some (r, s')
      → ((new : FileInfo) × (get_elem? s'.infos index ≡ some new) × (new.file ≡ r))
      → HasStreams s' (
          opened_streams
            (in_cache index now w.store info)
            (some content)
            handle
            info.filepath
            w.streams)
  opened_streams-HasStreams handle now index w info content r s' b fresh g e here i one f gi o fi =
      let k = open_file-Keeps (some handle) now index w.store s' r e in
      let (old, g0, (path, file, open_before)) = k i one gi in
      elim (index-cases i index) [
        | inl at_index ↦
            let (h, p, rh, q) = opened_file handle now index w info content r s' b g e in
            let (new, gn, nr) = here in
            let same_new : new ≡ one =
              some_inj new one (sym gn ∙ ap (get_elem? s'.infos) (sym at_index) ∙ gi) in
            let same_old : info ≡ old =
              some_inj info old (sym g ∙ ap (get_elem? w.store.infos) (sym at_index) ∙ g0) in
            let hf : h ≡ f = some_inj h f (sym rh ∙ sym nr ∙ ap (λ x. x.file) same_new ∙ fi) in
            (
              p,
              ap
                    (opened_streams (in_cache index now w.store info) (some content) handle
                      info.filepath w.streams)
                    (sym hf)
                  ∙ q
                  ∙ ap (λ x. some (record { path = x; position = p }))
                      (ap (λ x. x.filepath) same_old ∙ sym path),
            )
        | inr other ↦
            let (p, q) = b.has_streams i old f g0 (open_before other o) (sym (file other) ∙ fi) in
            (
              p,
              kept_stream (in_cache index now w.store info) content info.filepath handle f w.streams
                    (λ hf. fresh r s' i one e other gi o (fi ∙ ap some (sym hf)))
                  ∙ q
                  ∙ ap (λ x. some (record { path = x; position = p })) (sym path),
            )
      ]

  open_stream_steps :
      (handle now index : ℕ) (w : World) (info : FileInfo) (content : Bytes) (r : Option ℕ)
      (s' : Store)
      → get_elem? w.store.infos index ≡ some info
      → disk info.filepath ≡ some content
      → open_file (some handle) now index w.store ≡ some (r, s')
      → open_stream disk handle now index w
        ≡ some (
          r,
          record {
            store = s';
            streams =
                opened_streams
                  (in_cache index now w.store info)
                  (some content)
                  handle
                  info.filepath
                  w.streams;
          },
        )
  unfolding open_stream
  open_stream_steps handle now index w info content r s' g d e =
      ap (λ (o : Option FileInfo). o >>= λ i. body i (disk i.filepath)) g
      ∙ ap (body info) d
      ∙ ap
          (λ (o : Option (Option ℕ × Store)). o >>= λ p. some (
            p.0,
            record {
              store = p.1;
              streams =
                  opened_streams (in_cache index now w.store info) (some content) handle
                    info.filepath w.streams;
            },
          ))
          e
    where
      body : FileInfo → Option Bytes → Option (Option ℕ × World)
      body i content = open_file (fopen_answer content handle) now index w.store >>= λ p. some (
        p.0,
        record {
          store = p.1;
          streams =
              opened_streams (in_cache index now w.store i) content handle i.filepath w.streams;
        },
      )

  -- The world after a block was read.
  abbrev pub after_read : World → ℕ → Bytes → ℕ → ℕ → ℕ → World
  after_read w f path position offset block_size = record w {
    streams =
        with_stream w.streams f
          (record { path = path; position = seek (before offset) position + 8 + block_size });
  }

  read_steps :
      (hash_lib : Sha256) (key : Bytes) (handle now index offset : ℕ) (w opened : World) (f : ℕ)
      (path content : Bytes) (position : ℕ)
      → open_stream disk handle now index w ≡ some (some f, opened)
      → opened.streams f ≡ some (record { path = path; position = position })
      → disk path ≡ some content
      → read_block_through disk hash_lib key handle now index offset w ≡ (
          read_block_from_blk_dat_file hash_lib key content position offset >>= λ block.
          some (block, after_read opened f path position offset block.block_size))
  unfolding read_block_through
  read_steps hash_lib key handle now index offset w opened f path content position e1 e2 e3 =
      ap
        (λ (o : Option (Option ℕ × World)). o >>= λ p. p.0 >>= λ file.
          p.1.streams file >>= λ stream. disk stream.path >>= rest file (p.1) stream)
        e1
      ∙ ap (λ (o : Option Stream). o >>= λ stream. disk stream.path >>= rest f opened stream) e2
      ∙ ap (λ (o : Option Bytes). o >>= rest f opened (record { path = path; position = position }))
          e3
    where
      rest : ℕ → World → Stream → Bytes → Option (Block × World)
      rest file world stream content =
          read_block_from_blk_dat_file hash_lib key content stream.position offset >>= λ block.
          some (block, after_read world file stream.path stream.position offset block.block_size)

  -- A call of `ReadBlockFromBlkDatFile` through the cache.
  pub read_block_through-read_block :
      (hash_lib : Sha256) (key : Bytes) (handle now index offset : ℕ) (w : World) (content : Bytes)
      → IsBacked disk files w
      → index < length w.store.infos
      → get_elem? files index ≡ some content
      → IsFresh handle now index w.store
      → (current : ℕ) × (after : ℕ → World) × (read_block_through disk hash_lib key handle now index
            offset w
          ≡ (read_block_from_blk_dat_file hash_lib key content current offset >>= λ block.
              some (block, after block.block_size)))
        × ((block_size : ℕ)
            → IsBacked disk files (after block_size)
              × (length (after block_size).store.infos ≡ length w.store.infos))
  read_block_through-read_block hash_lib key handle now index offset w content b lt c fresh =
      let (info, g) = get_elem?-lt w.store.infos index lt in
      let d = b.on_disk index info g ∙ c in
      let (r, s', e, (coherent, l, (new, gn, nr, _))) =
        open_file-Opened (some handle) now index w.store b.coherent lt in
      let (f, position, rf, at) = opened_file handle now index w info content r s' b g e in
      let streams =
        opened_streams (in_cache index now w.store info) (some content) handle info.filepath
          w.streams in
      let opened : World = record { store = s'; streams = streams } in
      let has =
        opened_streams-HasStreams handle now index w info content r s' b fresh g e (new, gn, nr) in
      (
        position,
        after_read opened f info.filepath position offset,
        read_steps hash_lib key handle now index offset w opened f info.filepath content position
            (open_stream_steps handle now index w info content r s' g d e
              ∙ ap (λ p. some (p, opened)) rf)
            at d,
        λ block_size. (
          record {
            coherent = coherent;
            has_streams =
                moved s' streams f position info.filepath
                  (seek (before offset) position + 8 + block_size) has at;
            on_disk =
                IsDisk-kept index w.store s'
                  (open_file-Keeps (some handle) now index w.store s' r e) b.on_disk;
          },
          l,
        ),
      )
