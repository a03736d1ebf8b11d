-- ===== src/BitcoinSpecifics/Print/Json.antt =====
-- JSON values, their shortest text, and the value that a block stands for.
use mlbtcc.Base.{ℕ, Bool, not, ◌&&◌, ◌||◌, List, [], ◌∷◌, ◌++◌, ◌==◌, if◌then◌else◌}
use mlbtcc.Base.Bytes.{Bytes, codes}
use mlbtcc.BigInts.Words.{print_byte_string, convert_uint32_to_uint8_array}
use mlbtcc.BitcoinSpecifics.Formats.{
  hex_byte, hex_word, decimal, Localtime, convert_timestamp_to_string,
}
use mlbtcc.BitcoinSpecifics.Print.{elements}
use mlbtcc.Structs.{Block, Blocks, BlockHeader, Transaction, Input, Output}
use mathlib.Core.List.{reverse}

mutual
  pub data Json : Type 0 where
    text : Bytes → Json
    number : ℕ → Json
    truth : Bool → Json
    array : Items → Json
    object : Members → Json

  pub data Items : Type 0 where
    no_items : Items
    item : Json → Items → Items

  pub data Members : Type 0 where
    no_members : Members
    member : Bytes → Json → Members → Members

abbrev pub quoted : Bytes → Bytes → Bytes
quoted cs rest = b'"' ∷ cs ++ (b'"' ∷ rest)

-- The text of a value without white space, in front of a rest.
unfoldable mutual
  pub render : Json → Bytes → Bytes
  render (text cs) rest = quoted cs rest
  render (number n) rest = decimal n ++ rest
  render (truth b) rest = (if b then codes "true" else codes "false") ++ rest
  render (array items) rest = b'[' ∷ render_items items (b']' ∷ rest)
  render (object members) rest = b'{' ∷ render_members members (b'}' ∷ rest)

  pub render_items : Items → Bytes → Bytes
  render_items no_items rest = rest
  render_items (item v no_items) rest = render v rest
  render_items (item v (item w items)) rest = render v (b',' ∷ render_items (item w items) rest)

  pub render_members : Members → Bytes → Bytes
  render_members no_members rest = rest
  render_members (member key v no_members) rest = quoted key (b':' ∷ render v rest)
  render_members (member key v (member key' w members)) rest =
      quoted key (b':' ∷ render v (b',' ∷ render_members (member key' w members) rest))

abbrev pub is_space : ℕ → Bool
is_space c = c == b' ' || c == b'\n'

-- A text without the white space that stands outside its strings; the flag says whether the text
-- starts inside a string. There are no escaped characters.
unfoldable pub strip : Bool → Bytes → Bytes
strip inside [] = []
strip inside (c ∷ cs) =
    (if not inside && is_space c then [] else c ∷ [])
    ++ strip (if c == b'"' then not inside else inside) cs

-- The digits of bytes in small letters.
unfoldable pub hex_text : Bytes → Bytes
hex_text [] = []
hex_text (byte ∷ bytes) = hex_byte byte ++ hex_text bytes

abbrev pub items_of : {A : Type 0} → (A → Json) → List A → Items
items_of f [] = no_items
items_of f (a ∷ as_) = item (f a) (items_of f as_)

abbrev pub input_value : Input → Json
input_value input = object (
    member (codes "TXID") (text (hex_text (reverse input.txid))) (
      member (codes "Vout") (number input.vout) (
        member (codes "ScriptSigSize") (number input.script_sig_size) (
          member (codes "ScriptSig") (text (hex_text input.script_sig))
            (member (codes "Sequence") (number input.sequence) no_members)))))

abbrev pub output_value : Output → Json
output_value output = object (
    member (codes "Amount") (number output.amount) (
      member (codes "ScriptPubKeySize") (number output.script_pub_key_size)
        (member (codes "ScriptPubKey") (text (hex_text output.script_pub_key)) no_members)))

-- The flag of the segregated witness is 1 with marker 0.
abbrev pub transaction_value : Transaction → Json
transaction_value tx = object (
    member (codes "TransactionSize") (number tx.size) (
      member (codes "Version") (number tx.version) (
        member (codes "SegWit") (truth (tx.marker == 0 && tx.flag == 1)) (
          member (codes "Inputs") (array (items_of input_value tx.inputs))
            (member (codes "Outputs") (array (items_of output_value tx.outputs)) no_members)))))

module _ (localtime : Localtime) where
  abbrev pub header_value : BlockHeader → Json
  header_value header = object (
      member (codes "Version")
        (text (print_byte_string (convert_uint32_to_uint8_array header.version)))
        (member (codes "PreviousBlockHash") (text (print_byte_string header.prev_block_hash)) (
          member (codes "MerkleRoot") (text (print_byte_string header.merkle_root)) (
            member (codes "Time") (text (convert_timestamp_to_string localtime header.time)) (
              member (codes "Bits")
                (text (print_byte_string (convert_uint32_to_uint8_array header.bits)))
                (member (codes "Nonce")
                  (text (print_byte_string (convert_uint32_to_uint8_array header.nonce)))
                  no_members))))))

  abbrev pub block_value : Block → Json
  block_value block = object (
      member (codes "Magic") (text (codes "0x" ++ hex_word 8 block.magic)) (
        member (codes "BlockSize") (number block.block_size) (
          member (codes "TransactionCount") (number block.tx_count) (
            member (codes "BlockHeader") (header_value block.header) (
              member (codes "Transactions")
                (array (items_of transaction_value (elements block.transactions))) no_members)))))

  abbrev pub blocks_value : Blocks → Json
  blocks_value blocks = array (items_of block_value blocks.blocks)
