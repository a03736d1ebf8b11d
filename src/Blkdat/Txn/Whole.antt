-- ===== src/Blkdat/Txn/Whole.antt =====
-- `ReadTxn` on a block's transactions, one behind the other in wire format.
use mlbtcc.Base.{ℕ, ◌+◌, ◌^◌, ◌<◌, ◌≡◌, ◌∙◌, ap, arith, none, some, List, [], ◌∷◌, ◌++◌}
use mlbtcc.Base.{length, length-append, append_assoc, All, map}
use mlbtcc.Base.Bytes.{Bytes}
use mlbtcc.BitcoinSpecifics.Hash.{Sha256}
use mlbtcc.Blkdat.Reader.{read_many, ◌>>=◌}
use mlbtcc.Blkdat.Reader.Reads.{place, Reads, all_bytes, >>=-step}
use mlbtcc.Blkdat.Txn.{read_prefix, read_fields, read_transaction, parsed_of, read_txn}
use mlbtcc.Blkdat.Txn.Wire.{Tx, Stack, legacy_wire, segwit_wire, IsStack, IsTx}
use mlbtcc.Blkdat.Txn.Parts.{the_witness}
use mlbtcc.Blkdat.Txn.RoundTrip.{the_fields, Reads-segwit, Reads-legacy}
use mlbtcc.Blkdat.Txn.Sizes.{sealed, finish_lem}
use mlbtcc.Structs.{Transaction}

-- The two wire formats.
pub data WireTx : Type 0 where
  legacy : Tx → WireTx
  segwit : (flag : ℕ) → Tx → List Stack → WireTx

unfoldable pub wire : WireTx → Bytes
wire (legacy t) = legacy_wire t
wire (segwit flag t stacks) = segwit_wire flag t stacks

-- A legacy transaction has an input, and a segwit one a stack for each input and a flag.
abbrev pub IsWireTx : WireTx → Type 0
IsWireTx (legacy t) = (0 < length t.inputs) × IsTx t
IsWireTx (segwit flag t stacks) =
    (0 < flag) × IsTx t × (length stacks ≡ length t.inputs) × All IsStack stacks

abbrev pub parsed : WireTx → Transaction
parsed (legacy t) = the_fields 0 0 t none
parsed (segwit flag t stacks) = the_fields 0 flag t (some (map the_witness stacks))

Reads-wire : (t : WireTx) → IsWireTx t → Reads (read_prefix >>= read_fields) (parsed t) (wire t)
unfolding wire
Reads-wire (legacy t) (some_input, w) = Reads-legacy t some_input w
Reads-wire (segwit flag t stacks) (hf, w, same, h) = Reads-segwit flag t stacks hf w same h

module _ (hash_lib : Sha256) where
  abbrev pub the_transaction : WireTx → Transaction
  the_transaction t = sealed hash_lib (wire t) (parsed t)

  read_transaction_lem :
      (t : WireTx) (rest : Bytes) (offset : ℕ)
      → IsWireTx t
      → offset + length (wire t) < 2 ^ 64
      → read_transaction hash_lib (place (wire t ++ rest) offset)
        ≡ some (the_transaction t, place rest (offset + length (wire t)))
  unfolding read_transaction
  read_transaction_lem t rest offset w h =
      >>=-step (read_prefix >>= read_fields) _ _ _ (parsed t) (Reads-wire t w rest offset)
      ∙ finish_lem hash_lib (wire t) rest offset (parsed t) h

  read_transactions :
      (ts : List WireTx) (rest : Bytes) (offset : ℕ)
      → All IsWireTx ts
      → offset + length (all_bytes wire ts) < 2 ^ 64
      → read_many (read_transaction hash_lib) (length ts) (place (all_bytes wire ts ++ rest) offset)
        ≡ some (map the_transaction ts, place rest (offset + length (all_bytes wire ts)))
  unfolding read_many
  read_transactions [] rest offset ws h = ground arith
  read_transactions (t ∷ ts) rest offset (w, ws) h =
      let sizes = length-append (wire t) (all_bytes wire ts) in
      let next = offset + length (wire t) in
      ap (λ (l : Bytes). read_many (read_transaction hash_lib) (length (t ∷ ts)) (place l offset))
        (append_assoc (wire t) (all_bytes wire ts) rest)
      ∙ >>=-step (read_transaction hash_lib) _ _ _ (the_transaction t)
          (read_transaction_lem t (all_bytes wire ts ++ rest) offset w (omega (arith, sizes)))
      ∙ >>=-step (read_many (read_transaction hash_lib) (length ts)) _ _ _ (map the_transaction ts)
          (read_transactions ts rest next ws (omega (arith, sizes)))
      ∙ ap (λ o. some (map the_transaction (t ∷ ts), place rest o)) (omega (arith, sizes))

  -- On a block's transactions in Bitcoin's wire format, one behind the other, with or without
  -- witnesses and whatever follows them, `read_txn` returns exactly these transactions in order.
  -- The size of each is its number of bytes modulo 2 ^ 16, and both identifiers are the reversed
  -- double digest of that many of its first bytes. All counts and scripts are below 2 ^ 16 long,
  -- a transaction without witness has an input, and the bytes are fewer than 2 ^ 64.
  pub read_txn-wire :
      (ts : List WireTx) (rest : Bytes)
      → All IsWireTx ts
      → length (all_bytes wire ts) < 2 ^ 64
      → read_txn hash_lib (all_bytes wire ts ++ rest) (length ts) ≡ some (map the_transaction ts)
  unfolding read_txn
  read_txn-wire ts rest ws h = ap parsed_of (read_transactions ts rest 0 ws (omega arith))
