-- ===== src/BitcoinSpecifics/Print/Written.antt =====
-- What src/bitcoin-specifics.c prints for blocks is JSON.
use mlbtcc.Base.{
  ℕ, zero, suc, ◌+◌, ◌-◌, ◌^◌, ◌≤◌, ◌≡◌, refl, ap, arith, Option, some, ◌>>=◌, List, [], ◌∷◌, ◌++◌,
  length, take_of_length-le, All, lt→ltb, le→ltb_false, Bool, true, false, ◌&&◌, ◌==◌,
  if◌then◌else◌,
}
use mlbtcc.Base.Bytes.{Bytes, codes}
use mlbtcc.BigInts.Words.{convert_uint32_to_uint8_array}
use mlbtcc.BitcoinSpecifics.Formats.{Localtime}
use mlbtcc.BitcoinSpecifics.Print.{
  print_input, input_text, output_text, transaction_text, block_text, print_output, print_each,
  print_transaction, print_block_header, print_block, print_blocks, elements,
}
use mlbtcc.BitcoinSpecifics.Print.Json.{
  strip, render, render_items, Json, hex_text, input_value, output_value, transaction_value,
  header_value, block_value, blocks_value, items_of,
}
use mlbtcc.BitcoinSpecifics.Print.Scripts.{script_hex-hex_text, reversed_hex-hex_text}
use mlbtcc.BitcoinSpecifics.Print.{script_hex, reversed_hex}
use mathlib.Core.List.{reverse}
use mlbtcc.BitcoinSpecifics.Print.Pieces.{
  keep_bytes, keep_word, keep_time, keep_number, keep_hex, keep_piece,
}
use mlbtcc.Structs.{Block, Blocks, BlockHeader, Transaction, Input, Output}

-- The code prints a value's text, up to white space outside its strings.
abbrev Writes : Option Bytes → Json → Type 0
Writes printed v =
    (text : Bytes) × (printed ≡ some text)
    × ((rest : Bytes) → strip false (text ++ rest) ≡ render v (strip false rest))

abbrev pub OutputFits : Output → Type 0
OutputFits output =
    (length output.script_pub_key ≡ output.script_pub_key_size)
    × (output.script_pub_key_size ≤ 2 ^ 15)

abbrev pub InputFits : Input → Type 0
InputFits input =
    (length input.txid ≡ 32)
    × (length input.script_sig ≡ input.script_sig_size)
    × (input.script_sig_size ≤ 2 ^ 15)

print_output-Writes :
    (output : Output) → OutputFits output → Writes (print_output output) (output_value output)
unfolding print_output strip render
print_output-Writes output (same, fits) = (
  output_text output (hex_text output.script_pub_key),
  rw (script_hex-hex_text output.script_pub_key_size output.script_pub_key same fits) refl,
  λ rest.
      ap (λ o. codes "{\"Amount\":" ++ o)
        (keep_number output.amount _ rest _ (
          ap (λ o. codes ",\"ScriptPubKeySize\":" ++ o)
            (keep_number output.script_pub_key_size _ rest _ (
              ap (λ o. codes ",\"ScriptPubKey\":\"" ++ o)
                (keep_hex output.script_pub_key _ rest _ refl))))),
)

print_input-Writes :
    (input : Input) → InputFits input → Writes (print_input input) (input_value input)
unfolding print_input strip render
print_input-Writes input (id, same, fits) = (
  input_text input (hex_text (reverse input.txid)) (hex_text input.script_sig),
  first_bytes (input_text input) input.txid input.script_sig_size input.script_sig id same fits,
  λ rest.
      ap (λ o. codes "{\"TXID\":\"" ++ o)
        (keep_hex (reverse input.txid) _ rest _ (
          ap (λ o. codes "\",\"Vout\":" ++ o)
            (keep_number input.vout _ rest _ (
              ap (λ o. codes ",\"ScriptSigSize\":" ++ o)
                (keep_number input.script_sig_size _ rest _ (
                  ap (λ o. codes ",\"ScriptSig\":\"" ++ o)
                    (keep_hex input.script_sig _ rest _ (
                      ap (λ o. codes "\",\"Sequence\":" ++ o)
                        (keep_number input.sequence _ rest _ refl))))))))),
)
  where
    first_bytes :
        (f : Bytes → Bytes → Bytes) (txid : Bytes) (size : ℕ) (script : Bytes)
        → length txid ≡ 32
        → length script ≡ size
        → size ≤ 2 ^ 15
        → (reversed_hex 32 txid >>= λ t. script_hex size script >>= λ s. some (f t s))
          ≡ some (f (hex_text (reverse txid)) (hex_text script))
    first_bytes f txid size script id same fits =
        rw
          (
            reversed_hex-hex_text 32 txid (omega arith),
            script_hex-hex_text size script same fits,
            take_of_length-le 32 txid (omega arith),
          )
          refl

All-map :
    {A : Type 0} (P Q : A → Type 0) → ((a : A) → P a → Q a) → (as_ : List A) → All P as_ → All Q as_
All-map P Q f [] h = tt
All-map P Q f (a ∷ as_) (h, hs) = (f a h, All-map P Q f as_ hs)

print_each-items :
    {A : Type 0} (print : A → Option Bytes) (value : A → Json) (items : List A) (count i n : ℕ)
    → All (λ a. Writes (print a) (value a)) items
    → n ≡ length items
    → i + n ≡ count
    → (text : Bytes) × (print_each print count i n items ≡ some text)
      × ((rest : Bytes)
          → strip false (text ++ rest) ≡ render_items (items_of value items) (strip false rest))
unfolding print_each render strip
print_each-items print value [] count i zero w l e = ([], refl, λ rest. refl)
print_each-items print value [] count i (suc n) w l e = absurd (omega arith)
print_each-items print value (a ∷ items) count i zero w l e = absurd (omega arith)
print_each-items print value (a ∷ []) count i (suc zero) ((ta, pa, wa), w) l e = (
  ta ++ codes "\n",
  rw pa (rw (le→ltb_false i (count - 1) (omega arith)) refl),
  λ rest. keep_piece ta (codes "\n") rest _ (render (value a)) wa refl,
)
print_each-items print value (a ∷ []) count i (suc (suc n)) w l e = absurd (omega arith)
print_each-items print value (a ∷ b ∷ items) count i (suc n) ((ta, pa, wa), w) l e =
    let (t, p, h) =
      print_each-items print value (b ∷ items) count (i + 1) n w (omega arith) (omega arith) in
    (
      ta ++ (codes ",\n" ++ t),
      rw pa (rw p (rw (lt→ltb i (count - 1) (omega arith)) refl)),
      λ rest.
          keep_piece ta (codes ",\n" ++ t) rest _ (render (value a)) wa
            (ap (λ o. b',' ∷ o) (h rest)),
    )

abbrev pub TransactionFits : Transaction → Type 0
TransactionFits tx =
    (tx.input_count ≡ length tx.inputs)
    × (tx.output_count ≡ length tx.outputs)
    × All InputFits tx.inputs
    × All OutputFits tx.outputs

print_transaction-Writes :
    (tx : Transaction) → TransactionFits tx → Writes (print_transaction tx) (transaction_value tx)
unfolding print_transaction strip render
print_transaction-Writes tx (ins, outs, fits_in, fits_out) =
    let (ti, pi, hi) =
      print_each-items print_input input_value tx.inputs tx.input_count 0 tx.input_count
        (All-map _ _ print_input-Writes tx.inputs fits_in) ins (omega arith) in
    let (to, po, ho) =
      print_each-items print_output output_value tx.outputs tx.output_count 0 tx.output_count
        (All-map _ _ print_output-Writes tx.outputs fits_out) outs (omega arith) in
    (
      transaction_text tx ti to,
      rw (pi, po) refl,
      λ rest.
          ap (λ o. codes "{\"TransactionSize\":" ++ o)
            (keep_number tx.size _ rest _ (
              ap (λ o. codes ",\"Version\":" ++ o)
                (keep_number tx.version _ rest _ (
                  ap (λ o. codes ",\"SegWit\":" ++ o)
                    (keep_truth (tx.marker == 0 && tx.flag == 1) _ rest _ (
                      ap (λ o. codes ",\"Inputs\":[" ++ o)
                        (keep_piece ti _ rest _ (render_items (items_of input_value tx.inputs)) hi (
                          ap (λ o. codes "],\"Outputs\":[" ++ o)
                            (keep_piece to _ rest _
                              (render_items (items_of output_value tx.outputs)) ho refl))))))))),
    )
  where
    keep_truth :
        (b : Bool) (tail rest out : Bytes)
        → strip false (tail ++ rest) ≡ out
        → strip false (((if b then codes "true" else codes "false") ++ tail) ++ rest)
          ≡ (if b then codes "true" else codes "false") ++ out
    keep_truth true tail rest out h = ap (λ o. codes "true" ++ o) h
    keep_truth false tail rest out h = ap (λ o. codes "false" ++ o) h

module _ (localtime : Localtime) where
  abbrev pub BlockFits : Block → Type 0
  BlockFits block =
      (block.tx_count ≡ length (elements block.transactions))
      × All TransactionFits (elements block.transactions)

  print_block_header-header_value :
      (header : BlockHeader) (tail rest out : Bytes)
      → strip false (tail ++ rest) ≡ out
      → strip false ((print_block_header localtime (some header) ++ tail) ++ rest)
        ≡ codes "\"BlockHeader\":" ++ render (header_value localtime header) out
  unfolding print_block_header strip render
  print_block_header-header_value header tail rest out h =
      keep_piece (print_block_header localtime (some header)) tail rest out
        (λ o. codes "\"BlockHeader\":" ++ render (header_value localtime header) o)
        (λ rest.
          ap (λ o. codes "\"BlockHeader\":{\"Version\":\"" ++ o)
            (keep_bytes (convert_uint32_to_uint8_array header.version) _ rest _ (
              ap (λ o. codes "\",\"PreviousBlockHash\":\"" ++ o)
                (keep_bytes header.prev_block_hash _ rest _ (
                  ap (λ o. codes "\",\"MerkleRoot\":\"" ++ o)
                    (keep_bytes header.merkle_root _ rest _ (
                      ap (λ o. codes "\",\"Time\":\"" ++ o)
                        (keep_time localtime header.time _ rest _ (
                          ap (λ o. codes "\",\"Bits\":\"" ++ o)
                            (keep_bytes (convert_uint32_to_uint8_array header.bits) _ rest _ (
                              ap (λ o. codes "\",\"Nonce\":\"" ++ o)
                                (keep_bytes (convert_uint32_to_uint8_array header.nonce) _ rest _
                                  refl))))))))))))
        h

  print_block-Writes :
      (block : Block)
      → BlockFits block
      → Writes (print_block localtime block) (block_value localtime block)
  unfolding print_block strip render
  print_block-Writes block (count, fits) =
      let txs = elements block.transactions in
      let (t, p, h) =
        print_each-items print_transaction transaction_value txs block.tx_count 0 block.tx_count
          (All-map _ _ print_transaction-Writes txs fits) count (omega arith) in
      (
        block_text localtime block t,
        rw p refl,
        λ rest.
            ap (λ o. codes "{\"Magic\":\"0x" ++ o)
              (keep_word block.magic _ rest _ (
                ap (λ o. codes "\",\"BlockSize\":" ++ o)
                  (keep_number block.block_size _ rest _ (
                    ap (λ o. codes ",\"TransactionCount\":" ++ o)
                      (keep_number block.tx_count _ rest _ (
                        ap (λ o. codes "," ++ o)
                          (print_block_header-header_value block.header _ rest _ (
                            ap (λ o. codes ",\"Transactions\":[" ++ o)
                              (keep_piece t _ rest _ (render_items (items_of transaction_value txs))
                                h refl))))))))),
      )

  -- On blocks whose counts are the sizes of their arrays, with identifiers of 32 bytes and scripts
  -- of 2 ^ 15 bytes at most, `print_blocks` ends, and what it prints is JSON: without the white
  -- space outside its strings it is the shortest text of the array of the blocks' values.
  pub print_blocks-render :
      (blocks : Blocks)
      → blocks.count ≡ length blocks.blocks
      → All BlockFits blocks.blocks
      → (text : Bytes) × (print_blocks localtime blocks ≡ some text)
        × (strip false text ≡ render (blocks_value localtime blocks) [])
  unfolding print_blocks strip render
  print_blocks-render blocks count fits =
      let (t, p, h) =
        print_each-items (print_block localtime) (block_value localtime) blocks.blocks blocks.count
          0 blocks.count (All-map _ _ print_block-Writes blocks.blocks fits) count (omega arith) in
      (codes "[\n" ++ (t ++ codes "]\n"), rw p refl, ap (λ o. b'[' ∷ o) (h (codes "]\n")))
