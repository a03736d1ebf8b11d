-- ===== src/Cbuilder/FileCopy/Whole.antt =====
-- `CB_CopyFile` copies the whole file, unless it is copied onto itself.
use mlbtcc.Base.{
  ℕ, zero, suc, ◌+◌, ◌<◌, ◌≡◌, ◌∙◌, refl, ap, sym, arith, Option, none, some, ◌>>=◌, Bool, true,
  false, [], ◌∷◌, ◌++◌, ◌==◌, if◌then◌else◌, length, take, drop, length-take, length-drop,
  length-append, drop-append_left, append-nil, append_assoc, Bool-cases, inl, inr,
}
use mlbtcc.Base.Bytes.{Bytes, same_text, same_text_self, same_text-eq}
use mlbtcc.Cbuilder.FileCopy.{Disk, write_to, copy_loop, cb_copy_file}

-- The content stands in the destination's place, and no other file changed.
abbrev pub Written : Bytes → Bytes → Disk → Disk → Type 0
Written dest content disk disk' = (path : Bytes) → disk' path ≡ write_to disk dest content path

-- A second write to a file.
Written-again :
    (dest first content : Bytes) (disk disk' : Disk)
    → Written dest content (write_to disk dest first) disk'
    → Written dest content disk disk'
Written-again dest first content disk disk' w path = elim (Bool-cases (same_text dest path)) [
  | inl e ↦ w path ∙ rw e refl
  | inr e ↦ w path ∙ rw e refl
]

Written-here :
    (dest content : Bytes) (disk : Disk) → disk dest ≡ some content → Written dest content disk disk
Written-here dest content disk d path = elim (Bool-cases (same_text dest path)) [
  | inl e ↦ rw e (ap disk (sym (same_text-eq dest path e)) ∙ d)
  | inr e ↦ rw e refl
]

take-append-drop : (n : ℕ) (xs : Bytes) → take n xs ++ drop n xs ≡ xs
take-append-drop zero xs = refl
take-append-drop (suc n) [] = refl
take-append-drop (suc n) (x ∷ xs) = ap (◌∷◌ x) (take-append-drop n xs)

copy_loop_end :
    (fuel : ℕ) (src dest : Bytes) (position : ℕ) (disk : Disk) (content written : Bytes)
    → disk src ≡ some content
    → disk dest ≡ some written
    → length (take 4096 (drop position content)) ≡ 0
    → copy_loop (suc fuel) src dest position disk ≡ some disk
unfolding copy_loop
copy_loop_end fuel src dest position disk content written s d h =
    let test : (length (take 4096 (drop position content)) == 0) ≡ true = ground arith in
    rw s (rw d (rw test refl))

copy_loop_step :
    (fuel : ℕ) (src dest : Bytes) (position : ℕ) (disk : Disk) (content written chunk : Bytes)
    → disk src ≡ some content
    → disk dest ≡ some written
    → take 4096 (drop position content) ≡ chunk
    → 0 < length chunk
    → copy_loop (suc fuel) src dest position disk
      ≡ copy_loop fuel src dest (position + length chunk) (write_to disk dest (written ++ chunk))
unfolding copy_loop
copy_loop_step fuel src dest position disk content written chunk s d c h =
    let test : (length chunk == 0) ≡ false = ground arith in rw s (rw d (rw c (rw test refl)))

-- With `done` copied and `rest` left.
copy_loop_lem :
    (fuel : ℕ) (src dest done rest : Bytes) (disk : Disk)
    → same_text dest src ≡ false
    → disk src ≡ some (done ++ rest)
    → disk dest ≡ some done
    → length rest < fuel
    → (disk' : Disk) × (copy_loop fuel src dest (length done) disk ≡ some disk')
      × Written dest (done ++ rest) disk disk'
copy_loop_lem zero src dest done rest disk n s d h = absurd (omega arith)
copy_loop_lem (suc fuel) src dest done [] disk n s d h = (
  disk,
  copy_loop_end fuel src dest (length done) disk (done ++ []) done s d
      (ap (λ xs. length (take 4096 xs)) (drop-append_left (length done) done [] refl) ∙ refl),
  Written-here dest (done ++ []) disk (d ∙ ap some (sym (append-nil done))),
)
copy_loop_lem (suc fuel) src dest done (c ∷ rest) disk n s d h =
    let chunk = take 4096 (c ∷ rest) in
    let left = drop 4096 (c ∷ rest) in
    let whole : chunk ++ left ≡ c ∷ rest = take-append-drop 4096 (c ∷ rest) in
    let next = write_to disk dest (done ++ chunk) in
    let self = same_text_self dest in
    let (disk', e, w) =
      copy_loop_lem fuel src dest (done ++ chunk) left next n
        (rw n (s ∙ ap some (ap (◌++◌ done) (sym whole) ∙ sym (append_assoc done chunk left))))
        (rw self refl) (omega (arith, length-drop 4096 (c ∷ rest), h)) in
    (
      disk',
      copy_loop_step fuel src dest (length done) disk (done ++ (c ∷ rest)) done chunk s d
            (ap (take 4096) (drop-append_left (length done) done (c ∷ rest) refl))
            (omega (arith, length-take 4096 (c ∷ rest)))
          ∙ ap (λ k. copy_loop fuel src dest k next) (sym (length-append done chunk))
          ∙ e,
      Written-again dest (done ++ chunk) (done ++ (c ∷ rest)) disk disk' (λ path.
          w path
          ∙ ap (λ x. write_to next dest x path)
              (append_assoc done chunk left ∙ ap (◌++◌ done) whole)),
    )

copy_steps :
    (writable : Bytes → Bool) (src dest content : Bytes) (disk : Disk) (after : Option Disk)
    → disk src ≡ some content
    → writable dest ≡ true
    → copy_loop (suc (length content)) src dest 0 (write_to disk dest []) ≡ after
    → cb_copy_file writable src dest disk ≡ (after >>= λ d. some (true, d))
unfolding cb_copy_file
copy_steps writable src dest content disk after s w e =
    ap
      (λ (o : Option Bytes). elim o as (λ _. Option (Bool × Disk)) [
        | none ↦ some (false, disk)
        | some content ↦
            if writable dest
            then (copy_loop (suc (length content)) src dest 0 (write_to disk dest []) >>= λ d.
                some (true, d))
            else some (false, disk)
      ])
      s
    ∙ ap
        (λ (b : Bool).
          if b
          then (copy_loop (suc (length content)) src dest 0 (write_to disk dest []) >>= λ d.
              some (true, d))
          else some (false, disk))
        w
    ∙ ap (λ (o : Option Disk). o >>= λ d. some (true, d)) e

-- `cb_copy_file` from a file that can be read to another one that can be written ends within its
-- fuel, whatever the size: the destination has the whole content then, and no other file changed.
-- From a file to itself it leaves the file empty.
pub cb_copy_file-Written :
    (writable : Bytes → Bool) (src dest content : Bytes) (disk : Disk)
    → disk src ≡ some content
    → writable dest ≡ true
    → (disk' : Disk) × (cb_copy_file writable src dest disk ≡ some (true, disk'))
      × Written dest (if same_text dest src then [] else content) disk disk'
cb_copy_file-Written writable src dest content disk s w = elim (Bool-cases (same_text dest src)) [
  | inl same ↦
      let emptied = write_to disk dest [] in
      let self = same_text_self dest in
      (
        emptied,
        copy_steps writable src dest content disk (some emptied) s w (
            copy_loop_end (length content) src dest 0 emptied [] [] (rw same refl) (rw self refl)
              refl),
        λ path. ap (λ x. write_to disk dest x path) (rw same refl),
      )
  | inr other ↦
      let self = same_text_self dest in
      let (disk', e, k) =
        copy_loop_lem (suc (length content)) src dest [] content (write_to disk dest []) other
          (rw other s) (rw self refl) (omega arith) in
      (
        disk',
        copy_steps writable src dest content disk (some disk') s w e,
        λ path.
            Written-again dest [] content disk disk' k path
            ∙ ap (λ x. write_to disk dest x path) (rw other refl),
      )
]
