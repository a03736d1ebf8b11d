-- ===== src/Blkdat/Txn/RoundTrip.antt =====
-- `read_txn` on transactions in Bitcoin's wire format.
use mlbtcc.Base.{
  ℕ, ◌+◌, ◌^◌, ◌<◌, ◌≡◌, ◌∙◌, refl, ap, arith, Option, none, some, true, false, List, [], ◌∷◌, ◌++◌,
}
use mlbtcc.Base.{length, length-append, All, map}
use mlbtcc.Base.Bytes.{Bytes, copy-append, to_le, from_le-to_le}
use mlbtcc.BigInts.CompactSize.{compact_size_encode}
use mlbtcc.BigInts.CompactSize.RoundTrip.{compact_size_encode_first}
use mlbtcc.Blkdat.Reader.{read_bytes, read_count, read_many, ◌>>=◌}
use mlbtcc.Blkdat.Reader.Reads.{
  place, Reads, Reads-bind, Reads-end, Reads-last, Reads-bytes, Reads-count, Reads-many, Reads-pure,
  all_bytes, >>=-step,
}
use mlbtcc.Blkdat.Txn.{
  read_input, read_output, read_witness, Prefix, read_prefix, read_witnesses, read_fields,
}
use mlbtcc.Blkdat.Txn.Wire.{
  Tx, Stack, input_wire, output_wire, stack_wire, fields_wire, legacy_wire, segwit_wire, IsTxIn,
  IsTxOut, IsStack, IsTx,
}
use mlbtcc.Blkdat.Txn.Parts.{
  the_input, the_output, the_witness, Reads-input, Reads-output, Reads-witness,
}
use mlbtcc.Structs.{Transaction, Witness}

-- A transaction before its size and hashes are set.
abbrev pub the_fields : ℕ → ℕ → Tx → Option (List Witness) → Transaction
the_fields marker flag t witnesses = record {
  version = t.version;
  marker = marker;
  flag = flag;
  input_count = length t.inputs;
  inputs = map the_input t.inputs;
  output_count = length t.outputs;
  outputs = map the_output t.outputs;
  witnesses = witnesses;
  locktime = t.locktime;
  size = 0;
  txid = [];
  wtxid = [];
}

Reads-fields :
    (p : Prefix) (t : Tx) (witnesses : Option (List Witness)) (witness : Bytes)
    → p.version ≡ t.version
    → IsTx t
    → Reads (read_witnesses p.is_segwit (length t.inputs)) witnesses witness
    → Reads (read_fields p) (the_fields p.marker p.flag t witnesses) (fields_wire t witness)
unfolding read_fields
Reads-fields p t witnesses witness version w h =
    Reads-bind read_count _ (length t.inputs) result (compact_size_encode (length t.inputs)) _
      (Reads-count _ w.inputs_count)
      (Reads-bind (read_many read_input (length t.inputs)) _ (map the_input t.inputs) result
        (all_bytes input_wire t.inputs) _
        (Reads-many read_input the_input input_wire IsTxIn Reads-input t.inputs w.inputs_ok)
        (Reads-bind read_count _ (length t.outputs) result (compact_size_encode (length t.outputs))
          _ (Reads-count _ w.outputs_count)
          (Reads-bind (read_many read_output (length t.outputs)) _ (map the_output t.outputs) result
            (all_bytes output_wire t.outputs) _
            (Reads-many read_output the_output output_wire IsTxOut Reads-output t.outputs
              w.outputs_ok)
            (Reads-bind (read_witnesses p.is_segwit (length t.inputs)) _ witnesses result witness _
              h
              (Reads-end (read_bytes 4) _ (to_le 4 t.locktime) _ result (to_le 4 t.locktime)
                (Reads-bytes 4 (to_le 4 t.locktime) refl) (λ c. refl)
                (ground (arith, version, from_le-to_le 4 t.locktime w.locktime_fits)))))))
  where
    result : Transaction
    result = the_fields p.marker p.flag t witnesses

Reads-witnesses :
    (stacks : List Stack)
    → All IsStack stacks
    → Reads
        (read_witnesses true (length stacks))
        (some (map the_witness stacks))
        (all_bytes stack_wire stacks)
unfolding read_witnesses
Reads-witnesses stacks h =
    Reads-last (read_many read_witness (length stacks)) (map the_witness stacks) some
      (all_bytes stack_wire stacks)
      (Reads-many read_witness the_witness stack_wire IsStack Reads-witness stacks h)

-- Marker 0 and a flag make a segwit transaction.
Reads-segwit_prefix :
    (version flag : ℕ)
    → version < 2 ^ 32
    → 0 < flag
    → Reads read_prefix
        (record { version = version; marker = 0; flag = flag; is_segwit = true })
        (to_le 4 version ++ (0 ∷ flag ∷ []))
unfolding read_prefix
Reads-segwit_prefix version flag hv hf rest offset = ground (
  arith,
  copy-append 6 (to_le 4 version ++ (0 ∷ flag ∷ [])) rest refl,
  from_le-to_le 4 version hv,
)

-- Without marker 0 the two bytes are left for the input count.
legacy_prefix :
    (version first offset : ℕ) (tail : Bytes)
    → version < 2 ^ 32
    → 0 < first
    → 0 < length tail
    → read_prefix (place (to_le 4 version ++ (first ∷ tail)) offset)
      ≡ some (
        record { version = version; marker = 0; flag = 0; is_segwit = false },
        place (first ∷ tail) (offset + 4),
      )
unfolding read_prefix
legacy_prefix version first offset [] hv hf ht = absurd (omega arith)
legacy_prefix version first offset (second ∷ tail) hv hf ht = ground (
  arith,
  copy-append 6 (to_le 4 version ++ (first ∷ second ∷ [])) tail refl,
  from_le-to_le 4 version hv,
)

abbrev legacy_prefix_of : Tx → Prefix
legacy_prefix_of t = record { version = t.version; marker = 0; flag = 0; is_segwit = false }

pub Reads-segwit :
    (flag : ℕ) (t : Tx) (stacks : List Stack)
    → 0 < flag
    → IsTx t
    → length stacks ≡ length t.inputs
    → All IsStack stacks
    → Reads
        (read_prefix >>= read_fields)
        (the_fields 0 flag t (some (map the_witness stacks)))
        (segwit_wire flag t stacks)
unfolding segwit_wire
Reads-segwit flag t stacks hf w same h =
    let p : Prefix = record { version = t.version; marker = 0; flag = flag; is_segwit = true } in
    Reads-bind read_prefix read_fields p (the_fields 0 flag t (some (map the_witness stacks)))
      (to_le 4 t.version ++ (0 ∷ flag ∷ [])) (fields_wire t (all_bytes stack_wire stacks))
      (Reads-segwit_prefix t.version flag w.version_fits hf)
      (Reads-fields p t (some (map the_witness stacks)) (all_bytes stack_wire stacks) refl w
        (rw (← same) (Reads-witnesses stacks h)))

-- What follows the version of a transaction without witness.
legacy_fields :
    (t : Tx)
    → IsTx t
    → Reads (read_fields (legacy_prefix_of t)) (the_fields 0 0 t none) (fields_wire t [])
unfolding read_witnesses
legacy_fields t w = Reads-fields (legacy_prefix_of t) t none [] refl w (Reads-pure none)

-- Behind the version, a count that starts with a byte other than 0.
legacy_start :
    (t : Tx) (count tail rest more : Bytes) (first offset : ℕ)
    → t.version < 2 ^ 32
    → count ≡ first ∷ more
    → 0 < first
    → 0 < length tail
    → read_prefix (place (to_le 4 t.version ++ ((count ++ tail) ++ rest)) offset)
      ≡ some (legacy_prefix_of t, place ((count ++ tail) ++ rest) (offset + 4))
legacy_start t count tail rest more first offset hv e pos some_tail = rw e (
    legacy_prefix t.version first offset ((more ++ tail) ++ rest) hv pos
      (omega (arith, length-append (more ++ tail) rest, length-append more tail)))

last_of_three : (a b c d : Bytes) → 0 < length d → 0 < length (a ++ (b ++ (c ++ d)))
last_of_three a b c d h =
    omega (arith, length-append a (b ++ (c ++ d)), length-append b (c ++ d), length-append c d)

pub Reads-legacy :
    (t : Tx)
    → 0 < length t.inputs
    → IsTx t
    → Reads (read_prefix >>= read_fields) (the_fields 0 0 t none) (legacy_wire t)
unfolding legacy_wire
Reads-legacy t some_input w rest offset =
    let (first, more, e, pos) = compact_size_encode_first (length t.inputs) some_input in
    let some_tail =
      last_of_three (all_bytes input_wire t.inputs) (compact_size_encode (length t.outputs))
        (all_bytes output_wire t.outputs) (to_le 4 t.locktime) (omega arith) in
    >>=-step read_prefix read_fields _ _ (legacy_prefix_of t) (
      legacy_start t (compact_size_encode (length t.inputs)) _ rest more first offset w.version_fits
        e pos some_tail)
    ∙ legacy_fields t w rest (offset + 4)
    ∙ ap (λ o. some (the_fields 0 0 t none, place rest o)) (omega arith)
