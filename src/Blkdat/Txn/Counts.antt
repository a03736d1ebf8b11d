-- ===== src/Blkdat/Txn/Counts.antt =====
-- Whatever the bytes, what `ReadTxn` returns is in order: `FreeBlock` and the statistics can use it.
use mlbtcc.Base.{
  ℕ, zero, suc, ◌≡◌, ◌∙◌, refl, ap, sym, Option, none, some, Bool, true, false, ◌&&◌, List, [], ◌∷◌,
  length, take, drop, leb, ◌==◌, if◌then◌else◌, All, Option-cases, inl, inr, >>=-some,
}
use mlbtcc.Base
use mlbtcc.Base.Bytes.{Bytes, copy, from_le}
use mlbtcc.BitcoinSpecifics.Hash.{Sha256, double_sha256}
use mlbtcc.Blkdat.Reader.{Cursor, Reader, advance, ◌>>=◌, pure, read_bytes, read_count, read_many}
use mlbtcc.Blkdat.Txn.{
  Prefix, read_input, read_output, read_stack_item, read_witness, read_prefix, read_witnesses,
  read_fields, parsed_of, transaction_size, finish, read_transaction, read_txn,
}
use mlbtcc.Release.Leaks.{IsCounted, IsOwned, Stacks}
use mlbtcc.Structs.{Witness, Transaction}

-- What is read has the property.
abbrev Gives : {A : Type 0} → (A → Type 0) → Reader A → Type 0
Gives {A = A} P m = (c : Cursor) (a : A) (c' : Cursor) → m c ≡ some (a, c') → P a

module _ {A B : Type 0} where
  parts_of :
      (o : Option (A × Cursor)) (f : A → Reader B) (b : B) (c' : Cursor)
      → elim o as (λ _. Option (B × Cursor)) [ none ↦ none | some (a, c) ↦ f a c ] ≡ some (b, c')
      → (a : A) × (c : Cursor) × (o ≡ some (a, c)) × (f a c ≡ some (b, c'))
  parts_of none f b c' e = cc
  parts_of (some (a, c)) f b c' e = (a, c, refl, e)

  Gives-bind :
      (Q : A → Type 0) (P : B → Type 0) (m : Reader A) (f : A → Reader B)
      → Gives Q m
      → ((a : A) → Q a → Gives P (f a))
      → Gives P (m >>= f)
  Gives-bind Q P m f gm gf c b c' e =
      let (a, d, e1, e2) = parts_of (m c) f b c' e in gf a (gm c a d e1) d b c' e2

module _ {A : Type 0} where
  Gives-any : (m : Reader A) → Gives (λ _. Unit {0}) m
  Gives-any m c a c' e = tt

  Gives-pure : (P : A → Type 0) (a : A) → P a → Gives P (pure a)
  Gives-pure P a p c b c' e =
      let q : a ≡ b = ap (λ o. elim o as (λ _. A) [ none ↦ a | some (x, _) ↦ x ]) e in rw (sym q) p

module _ {A : Type 0} where
  read_many-Gives :
      (P : A → Type 0) (read : Reader A) (n : ℕ)
      → Gives P read
      → Gives (λ xs. (n ≡ length xs) × All P xs) (read_many read n)
  unfolding read_many
  read_many-Gives P read zero g = Gives-pure (λ xs. (zero ≡ length xs) × All P xs) [] (refl, tt)
  read_many-Gives P read (suc n) g =
      Gives-bind P (λ xs. (suc n ≡ length xs) × All P xs) read
        (λ x. read_many read n >>= λ xs. pure (x ∷ xs)) g
        (λ x p.
          Gives-bind (λ xs. (n ≡ length xs) × All P xs) (λ xs. (suc n ≡ length xs) × All P xs)
            (read_many read n) (λ xs. pure (x ∷ xs)) (read_many-Gives P read n g)
            (λ xs h.
              Gives-pure (λ xs. (suc n ≡ length xs) × All P xs) (x ∷ xs) (ap suc (h.0), (p, h.1))))

-- The witness loop counts what it stores.
read_witness-IsCounted : Gives IsCounted read_witness
unfolding read_witness
read_witness-IsCounted =
    Gives-bind (λ _. Unit {0}) IsCounted read_count _ (Gives-any read_count)
      (λ count _.
        Gives-bind (λ xs. (count ≡ length xs) × All (λ _. Unit {0}) xs) IsCounted
          (read_many read_stack_item count) _
          (read_many-Gives (λ _. Unit {0}) read_stack_item count (Gives-any read_stack_item))
          (λ items h.
            Gives-pure IsCounted (record { stack_items_count = count; stack_items = items }) (h.0)))

-- What is stored for the witnesses of a transaction.
abbrev InStep : Bool → ℕ → Option (List Witness) → Type 0
InStep segwit count none = segwit ≡ false
InStep segwit count (some witnesses) = (count ≡ length witnesses) × All IsCounted witnesses

read_witnesses-InStep :
    (segwit : Bool) (count : ℕ) → Gives (InStep segwit count) (read_witnesses segwit count)
unfolding read_witnesses
read_witnesses-InStep true count =
    Gives-bind (λ xs. (count ≡ length xs) × All IsCounted xs) (InStep true count)
      (read_many read_witness count) _
      (read_many-Gives IsCounted read_witness count read_witness-IsCounted)
      (λ witnesses h. Gives-pure (InStep true count) (some witnesses) h)
read_witnesses-InStep false count = Gives-pure (InStep false count) none refl

-- The mark is what is stored.
abbrev IsMarked : Prefix → Type 0
IsMarked p = p.is_segwit ≡ (p.marker == 0 && leb 1 p.flag)

of_mark :
    (p : Prefix) (c6 c4 c' : Cursor) (version marker flag : ℕ) (b : Bool)
    → (marker == 0 && leb 1 flag) ≡ b
    → if◌then◌else◌ {A = Option (Prefix × Cursor)} b
        (some (record { version = version; marker = marker; flag = flag; is_segwit = true }, c6))
        (some (record { version = version; marker = 0; flag = 0; is_segwit = false }, c4))
      ≡ some (p, c')
    → IsMarked p
of_mark p c6 c4 c' version marker flag true h e =
    Gives-pure IsMarked
      (record { version = version; marker = marker; flag = flag; is_segwit = true }) (sym h) c6 p c'
      e
of_mark p c6 c4 c' version marker flag false h e =
    Gives-pure IsMarked (record { version = version; marker = 0; flag = 0; is_segwit = false }) refl
      c4 p c' e

read_prefix-IsMarked : Gives IsMarked read_prefix
unfolding read_prefix
read_prefix-IsMarked c p c' e = elim (Option-cases (copy 6 c.ahead)) [
  | inl n ↦ absurd (none≢some (rw (read_prefix, n) at e))
  | inr (head, h) ↦
      of_mark p (advance 6 c) (advance 4 c) c' (from_le (take 4 head))
        (from_le (take 1 (drop 4 head))) (from_le (drop 5 head))
        (from_le (take 1 (drop 4 head)) == 0 && leb 1 (from_le (drop 5 head))) refl
        (rw (read_prefix, h) at e)
]
  where
    none≢some : ◌≡◌ {A = Option (Prefix × Cursor)} none (some (p, c')) → ⊥
    none≢some h = cc

of_steps :
    (tx : Transaction) (b : Bool)
    → b ≡ (tx.marker == 0 && leb 1 tx.flag)
    → tx.input_count ≡ length tx.inputs
    → tx.output_count ≡ length tx.outputs
    → InStep b tx.input_count tx.witnesses
    → IsOwned tx
of_steps tx b m ins outs w = record {
  inputs_counted = ins;
  outputs_counted = outs;
  stacks_counted = stacks b tx.witnesses m w;
}
  where
    stacks :
        (b : Bool) (ws : Option (List Witness))
        → b ≡ (tx.marker == 0 && leb 1 tx.flag)
        → InStep b tx.input_count ws
        → Stacks tx ws
    stacks b none m w = sym m ∙ w
    stacks b (some ws) m w = w

abbrev Any : {A : Type 0} → A → Type 0
Any _ = Unit {0}

read_fields-IsOwned : (p : Prefix) → IsMarked p → Gives IsOwned (read_fields p)
unfolding read_fields
read_fields-IsOwned p m =
    Gives-bind Any IsOwned read_count _ (Gives-any read_count) (λ input_count _.
      Gives-bind (λ xs. (input_count ≡ length xs) × All Any xs) IsOwned
        (read_many read_input input_count) _
        (read_many-Gives Any read_input input_count (Gives-any read_input))
        (λ inputs hi. Gives-bind Any IsOwned read_count _ (Gives-any read_count) (λ output_count _.
          Gives-bind (λ xs. (output_count ≡ length xs) × All Any xs) IsOwned
            (read_many read_output output_count) _
            (read_many-Gives Any read_output output_count (Gives-any read_output))
            (λ outputs ho.
              Gives-bind (InStep p.is_segwit input_count) IsOwned
                (read_witnesses p.is_segwit input_count) _
                (read_witnesses-InStep p.is_segwit input_count)
                (λ witnesses hw.
                  Gives-bind Any IsOwned (read_bytes 4) _ (Gives-any (read_bytes 4)) (λ locktime _.
                    Gives-pure IsOwned _ (of_steps _ p.is_segwit m (hi.0) (ho.0) hw)))))))

-- The size and the hashes do not matter.
finished-IsOwned :
    (tx : Transaction) (size : ℕ) (hash : Bytes)
    → IsOwned tx
    → IsOwned (record tx { size = size; txid = hash; wtxid = hash })
finished-IsOwned tx size hash w = record {
  inputs_counted = w.inputs_counted;
  outputs_counted = w.outputs_counted;
  stacks_counted = same tx.witnesses w.stacks_counted;
}
  where
    same :
        (ws : Option (List Witness))
        → Stacks tx ws
        → Stacks (record tx { size = size; txid = hash; wtxid = hash }) ws
    same none h = h
    same (some ws) h = h

finish-IsOwned :
    (hash_lib : Sha256) (start : Cursor) (tx : Transaction)
    → IsOwned tx
    → Gives IsOwned (finish hash_lib start tx)
unfolding finish
finish-IsOwned hash_lib start tx w c b c' e =
    let size = transaction_size c.offset start.offset in
    let last = λ (hash : Bytes). some (record tx { size = size; txid = hash; wtxid = hash }, c) in
    let (buffer, e1, f1) =
      >>=-some (copy size start.ahead)
        (λ buffer. Base.◌>>=◌ (double_sha256 hash_lib buffer size) last) e in
    let (hash, e2, f2) = >>=-some (double_sha256 hash_lib buffer size) last f1 in
    Gives-pure IsOwned (record tx { size = size; txid = hash; wtxid = hash })
      (finished-IsOwned tx size hash w) c b c' f2

read_transaction-IsOwned : (hash_lib : Sha256) → Gives IsOwned (read_transaction hash_lib)
unfolding read_transaction
read_transaction-IsOwned hash_lib start =
    Gives-bind IsOwned IsOwned (read_prefix >>= read_fields) (λ t. finish hash_lib start t)
      (Gives-bind IsMarked IsOwned read_prefix read_fields read_prefix-IsMarked read_fields-IsOwned)
      (finish-IsOwned hash_lib start) start

-- Whatever bytes `read_txn` is given, when it stays inside them: it returns as many transactions as
-- it was asked for, each with the counts that its arrays have and with witnesses exactly when its
-- marker and flag say so.
pub read_txn-IsOwned :
    (hash_lib : Sha256) (block_buffer : Bytes) (tx_count : ℕ) (txs : List Transaction)
    → read_txn hash_lib block_buffer tx_count ≡ some txs
    → (tx_count ≡ length txs) × All IsOwned txs
unfolding read_txn
read_txn-IsOwned hash_lib block_buffer tx_count txs e =
    parsed
      (read_many (read_transaction hash_lib) tx_count (record { ahead = block_buffer; offset = 0 }))
      refl e
  where
    parsed :
        (o : Option (List Transaction × Cursor))
        → read_many
            (read_transaction hash_lib)
            tx_count
            (record { ahead = block_buffer; offset = 0 })
          ≡ o
        → parsed_of o ≡ some txs
        → (tx_count ≡ length txs) × All IsOwned txs
    parsed none h e = cc
    parsed (some (xs, c)) h e =
        read_many-Gives IsOwned (read_transaction hash_lib) tx_count
          (read_transaction-IsOwned hash_lib) (record { ahead = block_buffer; offset = 0 }) txs c
          (h
            ∙ ap (λ x. some (x, c))
                (ap (λ o. elim o as (λ _. List Transaction) [ none ↦ xs | some x ↦ x ]) e))
