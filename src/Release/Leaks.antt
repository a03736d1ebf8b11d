-- ===== src/Release/Leaks.antt =====
-- What `FreeBlock` releases.
use mlbtcc.Base.{
  ℕ, zero, suc, ◌+◌, ◌<◌, ◌≤◌, ◌≡◌, refl, arith, Option, none, some, ◌>>=◌, List, [], ◌∷◌, ◌++◌,
  All, All-append, false, leb, ◌==◌, ◌&&◌, if◌then◌else◌, get_elem?, length, Bool-cases, inl, inr,
}
use mlbtcc.Base.Index.{get_elem?-lt}
use mlbtcc.Release.{
  Pointer, each, free_input, free_output, free_witness, free_transaction, free_block,
}
use mlbtcc.Structs.{Transaction, Witness, Block}

-- Neither the array of a transaction's inputs, nor that of its outputs or of its witnesses.
abbrev pub IsReleased : Pointer → Type 0
IsReleased Pointer.transaction_array = Unit
IsReleased (Pointer.input_array tx) = ⊥
IsReleased (Pointer.output_array tx) = ⊥
IsReleased (Pointer.witness_array tx) = ⊥
IsReleased (Pointer.sig_text tx index) = Unit
IsReleased (Pointer.key_text tx index) = Unit
IsReleased (Pointer.item_array tx index) = Unit
IsReleased (Pointer.item_text tx index place) = Unit

abbrev pub IsCounted : Witness → Type 0
IsCounted w = w.stack_items_count ≡ length w.stack_items

-- The witnesses are there when the transaction is marked as one with witnesses.
abbrev pub Stacks : Transaction → Option (List Witness) → Type 0
Stacks tx none = (tx.marker == 0 && leb 1 tx.flag) ≡ false
Stacks tx (some witnesses) = (tx.input_count ≡ length witnesses) × All IsCounted witnesses

-- The counts are the sizes of the arrays.
pub record IsOwned (tx : Transaction) : Type 0 where
  pub inputs_counted : tx.input_count ≡ length tx.inputs
  pub outputs_counted : tx.output_count ≡ length tx.outputs
  pub stacks_counted : Stacks tx tx.witnesses

-- A loop or a part of it ends, and what it frees is released.
abbrev Ends : Option (List Pointer) → Type 0
Ends o = (freed : List Pointer) × (o ≡ some freed) × All IsReleased freed

each-Ends :
    (free : ℕ → Option (List Pointer)) (n i bound : ℕ)
    → i + n ≤ bound
    → ((j : ℕ) → j < bound → Ends (free j))
    → Ends (each free n i)
unfolding each
each-Ends free zero i bound h ends = ([], refl, tt)
each-Ends free (suc n) i bound h ends =
    let (first, e1, r1) = ends i (omega arith) in
    let (rest, e2, r2) = each-Ends free n (i + 1) bound (omega arith) ends in
    (first ++ rest, rw (e1, e2) refl, All-append IsReleased first rest r1 r2)

elem-All :
    {A : Type 0} (P : A → Type 0) (xs : List A) (i : ℕ)
    → All P xs
    → i < length xs
    → (x : A) × (get_elem? xs i ≡ some x) × P x
elem-All P [] i h inside = absurd (omega arith)
elem-All P (x ∷ xs) zero (p, h) inside = (x, refl, p)
elem-All P (x ∷ xs) (suc i) (p, h) inside = elem-All P xs i h (omega arith)

free_input-Ends :
    (t : ℕ) (tx : Transaction) (i : ℕ) → i < length tx.inputs → Ends (free_input t tx i)
unfolding free_input
free_input-Ends t tx i h =
    let (v, e) = get_elem?-lt tx.inputs i h in (Pointer.sig_text t i ∷ [], rw e refl, (tt, tt))

free_output-Ends :
    (t : ℕ) (tx : Transaction) (i : ℕ) → i < length tx.outputs → Ends (free_output t tx i)
unfolding free_output
free_output-Ends t tx i h =
    let (v, e) = get_elem?-lt tx.outputs i h in (Pointer.key_text t i ∷ [], rw e refl, (tt, tt))

one_item :
    (t i : ℕ) (w : Witness) (j : ℕ)
    → j < length w.stack_items
    → Ends (get_elem? w.stack_items j >>= λ _. some (Pointer.item_text t i j ∷ []))
one_item t i w j hj =
    let (v, e) = get_elem?-lt w.stack_items j hj in
    (Pointer.item_text t i j ∷ [], rw e refl, (tt, tt))

free_witness-Ends :
    (t : ℕ) (tx : Transaction) (i : ℕ) (witnesses : List Witness)
    → tx.witnesses ≡ some witnesses
    → All IsCounted witnesses
    → i < length witnesses
    → Ends (free_witness t tx i)
unfolding free_witness
free_witness-Ends t tx i witnesses e counted h =
    let (w, e', c) = elem-All IsCounted witnesses i counted h in
    let (items, e1, r) =
      each-Ends (λ j. get_elem? w.stack_items j >>= λ _. some (Pointer.item_text t i j ∷ []))
        w.stack_items_count 0 w.stack_items_count (omega arith)
        (λ j hj. one_item t i w j (omega (arith, c))) in
    (
      items ++ (Pointer.item_array t i ∷ []),
      rw (e, e', e1) refl,
      All-append IsReleased items (Pointer.item_array t i ∷ []) r (tt, tt),
    )

Stacks-Ends :
    (t : ℕ) (tx : Transaction) (witnesses : Option (List Witness))
    → tx.witnesses ≡ witnesses
    → Stacks tx witnesses
    → Ends (
        if tx.marker == 0 && leb 1 tx.flag
        then each (free_witness t tx) tx.input_count 0
        else some [])
Stacks-Ends t tx none e unmarked = rw unmarked (([], refl, tt))
Stacks-Ends t tx (some witnesses) e (same, counted) =
    elim (Bool-cases (tx.marker == 0 && leb 1 tx.flag)) [
      | inl marked ↦ rw marked (
          each-Ends (free_witness t tx) tx.input_count 0 tx.input_count (omega arith)
            (λ j hj. free_witness-Ends t tx j witnesses e counted (omega arith)))
      | inr unmarked ↦ rw unmarked (([], refl, tt))
    ]

free_transaction-Ends :
    (txs : List Transaction) (t : ℕ)
    → All IsOwned txs
    → t < length txs
    → Ends (free_transaction txs t)
unfolding free_transaction
free_transaction-Ends txs t owned h =
    let (tx, e, w) = elem-All IsOwned txs t owned h in
    let (ins, e1, r1) =
      each-Ends (free_input t tx) tx.input_count 0 tx.input_count (omega arith)
        (λ j hj. free_input-Ends t tx j (omega (arith, w.inputs_counted))) in
    let (outs, e2, r2) =
      each-Ends (free_output t tx) tx.output_count 0 tx.output_count (omega arith)
        (λ j hj. free_output-Ends t tx j (omega (arith, w.outputs_counted))) in
    let (stacks, e3, r3) = Stacks-Ends t tx tx.witnesses refl w.stacks_counted in
    (
      ins ++ (outs ++ stacks),
      rw (e, e1, e2, e3) refl,
      All-append IsReleased ins (outs ++ stacks) r1 (All-append IsReleased outs stacks r2 r3),
    )

-- On a block whose counts are the sizes of its arrays, and whose marked transactions have their
-- witnesses, `free_block` ends without a read outside an array; what it frees is the array of
-- transactions, scripts and stack items, and never an array of inputs, of outputs or of witnesses.
pub free_block-IsReleased :
    (block : Block) (txs : List Transaction)
    → block.transactions ≡ some txs
    → block.tx_count ≡ length txs
    → All IsOwned txs
    → (freed : List Pointer) × (free_block block ≡ some freed) × All IsReleased freed
unfolding free_block
free_block-IsReleased block txs e same owned =
    let (freed, e1, r) =
      each-Ends (free_transaction txs) block.tx_count 0 block.tx_count (omega arith)
        (λ j hj. free_transaction-Ends txs j owned (omega arith)) in
    (
      freed ++ (Pointer.transaction_array ∷ []),
      rw (e, e1) refl,
      All-append IsReleased freed (Pointer.transaction_array ∷ []) r (tt, tt),
    )
