-- ===== src/Blkdat/Txn/Wire.antt =====
-- Bitcoin's wire format of transactions, independently of the reader.
use mlbtcc.Base.{ℕ, ◌^◌, ◌<◌, ◌≡◌, List, [], ◌∷◌, ◌++◌, length, All}
use mlbtcc.Base.Bytes.{Bytes, to_le}
use mlbtcc.BigInts.CompactSize.{compact_size_encode}
use mlbtcc.Blkdat.Reader.Reads.{all_bytes}

pub record TxIn : Type 0 where
  pub txid : Bytes
  pub vout : ℕ
  pub script : Bytes
  pub sequence : ℕ

pub record TxOut : Type 0 where
  pub amount : ℕ
  pub script : Bytes

-- An input's witness: its stack items.
abbrev pub Stack : Type 0
Stack = List Bytes

pub record Tx : Type 0 where
  pub version : ℕ
  pub inputs : List TxIn
  pub outputs : List TxOut
  pub locktime : ℕ

-- A length-prefixed text.
abbrev pub text_wire : Bytes → Bytes
text_wire text = compact_size_encode (length text) ++ text

abbrev pub input_wire : TxIn → Bytes
input_wire i =
    (i.txid ++ to_le 4 i.vout)
    ++ (compact_size_encode (length i.script) ++ (i.script ++ to_le 4 i.sequence))

abbrev pub output_wire : TxOut → Bytes
output_wire o = to_le 8 o.amount ++ text_wire o.script

abbrev pub stack_wire : Stack → Bytes
stack_wire items = compact_size_encode (length items) ++ all_bytes text_wire items

-- From the input count to the lock time, with `witness` in front of the lock time.
abbrev pub fields_wire : Tx → Bytes → Bytes
fields_wire t witness =
    compact_size_encode (length t.inputs)
    ++ (all_bytes input_wire t.inputs
        ++ (compact_size_encode (length t.outputs)
            ++ (all_bytes output_wire t.outputs ++ (witness ++ to_le 4 t.locktime))))

-- A transaction without witness.
unfoldable pub legacy_wire : Tx → Bytes
legacy_wire t = to_le 4 t.version ++ fields_wire t []

-- A transaction with a witness for each input: marker 0, a flag, and the stacks before the lock
-- time.
unfoldable pub segwit_wire : ℕ → Tx → List Stack → Bytes
segwit_wire flag t stacks =
    (to_le 4 t.version ++ (0 ∷ flag ∷ [])) ++ fields_wire t (all_bytes stack_wire stacks)

abbrev pub IsText : Bytes → Type 0
IsText text = length text < 2 ^ 16

pub record IsTxIn (i : TxIn) : Type 0 where
  pub txid_size : length i.txid ≡ 32
  pub vout_fits : i.vout < 2 ^ 32
  pub script_fits : IsText i.script
  pub sequence_fits : i.sequence < 2 ^ 32

pub record IsTxOut (o : TxOut) : Type 0 where
  pub amount_fits : o.amount < 2 ^ 64
  pub script_fits : IsText o.script

abbrev pub IsStack : Stack → Type 0
IsStack items = (length items < 2 ^ 16) × All IsText items

-- Every count fits the sixteen bits that the program keeps of it.
pub record IsTx (t : Tx) : Type 0 where
  pub version_fits : t.version < 2 ^ 32
  pub inputs_count : length t.inputs < 2 ^ 16
  pub inputs_ok : All IsTxIn t.inputs
  pub outputs_count : length t.outputs < 2 ^ 16
  pub outputs_ok : All IsTxOut t.outputs
  pub locktime_fits : t.locktime < 2 ^ 32
