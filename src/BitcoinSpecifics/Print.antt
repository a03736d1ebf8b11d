-- ===== src/BitcoinSpecifics/Print.antt =====
-- src/bitcoin-specifics.c, the functions that print blocks. What a function prints is the text that it
-- appends to its output. `malloc` is taken to succeed.
pub mod Json
pub mod Scripts
pub mod Pieces
pub mod Written
use mlbtcc.Base.{
  ℕ, zero, suc, ◌+◌, ◌-◌, ◌*◌, ◌%◌, ◌^◌, Option, none, some, ◌>>=◌, Bool, true, false, ◌&&◌, List,
  [], ◌∷◌, ◌++◌, ltb, ◌==◌, if◌then◌else◌, length, set, replicate, get_elem?,
}
use mlbtcc.Base.Bytes.{Bytes, codes}
use mlbtcc.BigInts.Words.{print_byte_string, convert_uint32_to_uint8_array}
use mlbtcc.BitcoinSpecifics.Formats.{
  hex_byte, hex_word, decimal, Localtime, convert_timestamp_to_string,
}
use mlbtcc.Structs.{Block, Blocks, BlockHeader, BlockIndexRecord, Transaction, Input, Output}

-- A buffer of characters; a place that was never written is `none`.
abbrev pub Buffer : Type 0
Buffer = List (Option ℕ)

-- A write outside the buffer ends the run.
unfoldable pub put : Buffer → ℕ → ℕ → Option Buffer
put buffer place c = if ltb place (length buffer) then some (set buffer place (some c)) else none

-- `snprintf(buffer + offset, 3, "%02x", byte)`: two digits and the terminator.
unfoldable pub put_hex : Buffer → ℕ → Bytes → Option Buffer
put_hex buffer offset [] = put buffer offset 0
put_hex buffer offset (c ∷ text) = do next ← put buffer offset c; put_hex next (offset + 1) text

-- The loop over a script's bytes, with `n` of them left; `offset` is a U16.
unfoldable pub script_loop : ℕ → Bytes → ℕ → Buffer → Option Buffer
script_loop zero script offset buffer = some buffer
script_loop (suc n) [] offset buffer = none
script_loop (suc n) (byte ∷ script) offset buffer = do
  next ← put_hex buffer offset (hex_byte byte)
  script_loop n script ((offset + 2) % 2 ^ 16) next

-- The text that starts a buffer, up to its terminator.
unfoldable pub text_of : Buffer → Option Bytes
text_of [] = none
text_of (none ∷ buffer) = none
text_of (some c ∷ buffer) =
    let rest = text_of buffer in if c == 0 then some [] else (rest >>= λ text. some (c ∷ text))

-- `scriptSigHex` and `scriptPubKeyHex`, as `%s` prints them.
unfoldable pub script_hex : ℕ → Bytes → Option Bytes
script_hex size script = do
  filled ← script_loop size script 0 (replicate (size * 2 + 1) none)
  ended ← put filled (size * 2) 0
  text_of ended

-- The loop over `txid[i]`, from one below the given index down to 0.
unfoldable pub reversed_hex : ℕ → Bytes → Option Bytes
reversed_hex zero txid = some []
reversed_hex (suc i) txid = do
  byte ← get_elem? txid i
  rest ← reversed_hex i txid
  some (hex_byte byte ++ rest)

-- With the texts of the identifier and of the script.
abbrev pub input_text : Input → Bytes → Bytes → Bytes
input_text input txid script =
    codes "    {\n      \"TXID\": \""
    ++ (txid
        ++ (codes "\",\n      \"Vout\": "
            ++ (decimal input.vout
                ++ (codes ",\n      \"ScriptSigSize\": "
                    ++ (decimal input.script_sig_size
                        ++ (codes ",\n      \"ScriptSig\": \""
                            ++ (script
                                ++ (codes "\",\n      \"Sequence\": "
                                    ++ (decimal input.sequence ++ codes "\n    }")))))))))

unfoldable pub print_input : Input → Option Bytes
print_input input = do
  txid ← reversed_hex 32 input.txid
  script ← script_hex input.script_sig_size input.script_sig
  some (input_text input txid script)

-- With the text of the script.
abbrev pub output_text : Output → Bytes → Bytes
output_text output script =
    codes "    {\n      \"Amount\": "
    ++ (decimal output.amount
        ++ (codes ",\n      \"ScriptPubKeySize\": "
            ++ (decimal output.script_pub_key_size
                ++ (codes ",\n      \"ScriptPubKey\": \"" ++ (script ++ codes "\"\n    }")))))

unfoldable pub print_output : Output → Option Bytes
print_output output = do
  script ← script_hex output.script_pub_key_size output.script_pub_key
  some (output_text output script)

-- The loops over an array of `count` records, at index `i` with `n` rounds left: each is printed,
-- and a comma and the end of the line, or the end of the line alone, behind it.
unfoldable pub print_each : {A : Type 0} → (A → Option Bytes) → ℕ → ℕ → ℕ → List A → Option Bytes
print_each print count i zero items = some []
print_each print count i (suc n) [] = none
print_each print count i (suc n) (item ∷ items) = do
  text ← print item
  rest ← print_each print count (i + 1) n items
  some (text ++ ((if ltb i (count - 1) then codes ",\n" else codes "\n") ++ rest))

-- With the texts of the inputs and of the outputs.
abbrev pub transaction_text : Transaction → Bytes → Bytes → Bytes
transaction_text tx inputs outputs =
    codes "  {\n    \"TransactionSize\": "
    ++ (decimal tx.size
        ++ (codes ",\n    \"Version\": "
            ++ (decimal tx.version
                ++ (codes ",\n    \"SegWit\": "
                    ++ ((if tx.marker == 0 && tx.flag == 1 then codes "true" else codes "false")
                        ++ (codes ",\n    \"Inputs\": [\n"
                            ++ (inputs
                                ++ (codes "    ],\n    \"Outputs\": [\n"
                                    ++ (outputs ++ codes "    ]\n  }")))))))))

unfoldable pub print_transaction : Transaction → Option Bytes
print_transaction tx = do
  inputs ← print_each print_input tx.input_count 0 tx.input_count tx.inputs
  outputs ← print_each print_output tx.output_count 0 tx.output_count tx.outputs
  some (transaction_text tx inputs outputs)

-- What may be read through a pointer to an array; nothing through a null pointer.
abbrev pub elements : {A : Type 0} → Option (List A) → List A
elements none = []
elements (some items) = items

module _ (localtime : Localtime) where
  unfoldable pub print_block_header : Option BlockHeader → Bytes
  print_block_header none = codes "\"BlockHeader\": null\n"
  print_block_header (some header) =
      codes "\"BlockHeader\": {\n  \"Version\": \""
      ++ (print_byte_string (convert_uint32_to_uint8_array header.version)
          ++ (codes "\",\n  \"PreviousBlockHash\": \""
              ++ (print_byte_string header.prev_block_hash
                  ++ (codes "\",\n  \"MerkleRoot\": \""
                      ++ (print_byte_string header.merkle_root
                          ++ (codes "\",\n  \"Time\": \""
                              ++ (convert_timestamp_to_string localtime header.time
                                  ++ (codes "\",\n  \"Bits\": \""
                                      ++ (print_byte_string
                                            (convert_uint32_to_uint8_array header.bits)
                                          ++ (codes "\",\n  \"Nonce\": \""
                                              ++ (print_byte_string
                                                    (convert_uint32_to_uint8_array header.nonce)
                                                  ++ codes "\"\n}\n")))))))))))

  -- With the text of the transactions.
  abbrev pub block_text : Block → Bytes → Bytes
  block_text block printed =
      codes "{\n  \"Magic\": \"0x"
      ++ (hex_word 8 block.magic
          ++ (codes "\",\n  \"BlockSize\": "
              ++ (decimal block.block_size
                  ++ (codes ",\n  \"TransactionCount\": "
                      ++ (decimal block.tx_count
                          ++ (codes ",\n"
                              ++ (print_block_header (some block.header)
                                  ++ (codes ",\n  \"Transactions\": [\n"
                                      ++ (printed ++ codes "  ]\n}\n")))))))))

  unfoldable pub print_block : Block → Option Bytes
  print_block block = do
    printed ←
        print_each print_transaction block.tx_count 0 block.tx_count (elements block.transactions)
    some (block_text block printed)

  unfoldable pub print_blocks : Blocks → Option Bytes
  print_blocks blocks =
      print_each print_block blocks.count 0 blocks.count blocks.blocks >>= λ printed.
      some (codes "[\n" ++ (printed ++ codes "]\n"))

  -- A field that was never written is undefined.
  pub print_block_index_record : BlockIndexRecord → Option Bytes
  print_block_index_record r = do
    undo_file ← r.undo_file
    undo_offset ← r.undo_offset
    header ← r.block_header
    some (
        codes "Block Index Record:\nVersion: "
        ++ (decimal r.version
            ++ (codes "\nHeight: "
                ++ (decimal r.height
                    ++ (codes "\nValidation Status: "
                        ++ (decimal r.validation_status
                            ++ (codes "\nTransaction Count: "
                                ++ (decimal r.tx_count
                                    ++ (codes "\nBlock File: "
                                        ++ (decimal r.block_file
                                            ++ (codes "\nBlock Offset: "
                                                ++ (decimal r.block_offset
                                                    ++ (codes "\nUndo File: "
                                                        ++ (decimal undo_file
                                                            ++ (codes "\nUndo Offset: "
                                                            ++ (decimal undo_offset
                                                            ++ (codes "\nBlock Hash: "
                                                            ++ (print_byte_string r.block_hash
                                                            ++ (codes "\nBlock Header:\n"
                                                            ++ (print_block_header (some header)
                                                            ++ codes "\n"))))))))))))))))))))
