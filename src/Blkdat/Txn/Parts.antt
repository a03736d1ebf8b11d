-- ===== src/Blkdat/Txn/Parts.antt =====
-- Each reader of `ReadTxn` against the wire format of what it reads.
use mlbtcc.Base.{◌≡◌, refl, arith, ◌++◌}
use mlbtcc.Base.{length, length-append, take-append_left, drop-append_left, map, take, drop}
use mlbtcc.Base.Bytes.{Bytes, from_le, to_le, from_le-to_le}
use mlbtcc.BigInts.CompactSize.{compact_size_encode}
use mlbtcc.Blkdat.Reader.{read_bytes, read_count, read_many}
use mlbtcc.Blkdat.Reader.Reads.{
  Reads, Reads-bind, Reads-end, Reads-bytes, Reads-count, Reads-many, all_bytes,
}
use mlbtcc.Blkdat.Txn.{read_input, read_output, read_stack_item, read_witness}
use mlbtcc.Blkdat.Txn.Wire.{TxIn, TxOut, Stack, text_wire, input_wire, output_wire, stack_wire}
use mlbtcc.Blkdat.Txn.Wire.{IsText, IsTxIn, IsTxOut, IsStack}
use mlbtcc.Structs.{Input, Output, StackItem, Witness}

-- What the program makes of an input, an output, a stack item and a witness.
abbrev pub the_input : TxIn → Input
the_input i = record {
  txid = i.txid;
  vout = i.vout;
  script_sig_size = length i.script;
  script_sig = i.script;
  sequence = i.sequence;
}

abbrev pub the_output : TxOut → Output
the_output o = record {
  amount = o.amount;
  script_pub_key_size = length o.script;
  script_pub_key = o.script;
}

abbrev pub the_item : Bytes → StackItem
the_item text = record { size = length text; item = text }

abbrev pub the_witness : Stack → Witness
the_witness items = record { stack_items_count = length items; stack_items = map the_item items }

pub Reads-input : (i : TxIn) → IsTxIn i → Reads read_input (the_input i) (input_wire i)
unfolding read_input
Reads-input i w =
    Reads-bind (read_bytes 36) _ outpoint (the_input i) outpoint _
      (Reads-bytes 36 outpoint (omega (arith, length-append i.txid (to_le 4 i.vout))))
      (Reads-bind read_count _ (length i.script) (the_input i)
        (compact_size_encode (length i.script)) _ (Reads-count _ w.script_fits)
        (Reads-bind (read_bytes (length i.script)) _ i.script (the_input i) i.script _
          (Reads-bytes (length i.script) i.script refl)
          (Reads-end (read_bytes 4) _ (to_le 4 i.sequence) _ (the_input i) (to_le 4 i.sequence)
            (Reads-bytes 4 (to_le 4 i.sequence) refl) (λ c. refl) the_parts)))
  where
    outpoint : Bytes
    outpoint = i.txid ++ to_le 4 i.vout

    the_parts :
        ◌≡◌ {A = Input}
          (record {
            txid = take 32 outpoint;
            vout = from_le (drop 32 outpoint);
            script_sig_size = length i.script;
            script_sig = i.script;
            sequence = from_le (to_le 4 i.sequence);
          })
          (the_input i)
    the_parts = ground (
      arith,
      take-append_left 32 i.txid (to_le 4 i.vout) w.txid_size,
      drop-append_left 32 i.txid (to_le 4 i.vout) w.txid_size,
    )

pub Reads-output : (o : TxOut) → IsTxOut o → Reads read_output (the_output o) (output_wire o)
unfolding read_output
Reads-output o w =
    Reads-bind (read_bytes 8) _ (to_le 8 o.amount) (the_output o) (to_le 8 o.amount) _
      (Reads-bytes 8 (to_le 8 o.amount) refl)
      (Reads-bind read_count _ (length o.script) (the_output o)
        (compact_size_encode (length o.script)) _ (Reads-count _ w.script_fits)
        (Reads-end (read_bytes (length o.script)) _ o.script _ (the_output o) o.script
          (Reads-bytes (length o.script) o.script refl) (λ c. refl)
          (ground (arith, from_le-to_le 8 o.amount w.amount_fits))))

pub Reads-stack_item :
    (text : Bytes) → IsText text → Reads read_stack_item (the_item text) (text_wire text)
unfolding read_stack_item
Reads-stack_item text fits =
    Reads-bind read_count _ (length text) (the_item text) (compact_size_encode (length text)) text
      (Reads-count _ fits)
      (Reads-end (read_bytes (length text)) _ text _ (the_item text) text
        (Reads-bytes (length text) text refl) (λ c. refl) refl)

pub Reads-witness :
    (items : Stack) → IsStack items → Reads read_witness (the_witness items) (stack_wire items)
unfolding read_witness
Reads-witness items (count_fits, items_fit) =
    Reads-bind read_count _ (length items) (the_witness items) (compact_size_encode (length items))
      _ (Reads-count _ count_fits)
      (Reads-end (read_many read_stack_item (length items)) _ (map the_item items) _
        (the_witness items) (all_bytes text_wire items)
        (Reads-many read_stack_item the_item text_wire IsText Reads-stack_item items items_fit)
        (λ c. refl) refl)
