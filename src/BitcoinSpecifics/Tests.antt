-- ===== src/BitcoinSpecifics/Tests.antt =====
-- Runs of src/bitcoin-specifics.c on concrete bytes, with a stand-in for each library.
use mlbtcc.Base.{ℕ, ◌+◌, ◌-◌, ◌*◌, ◌%◌, ◌≡◌, arith, refl, some, Bool, true}
use mlbtcc.Base.{[], ◌∷◌, length, replicate, length-replicate, get_elem?, ltb, if◌then◌else◌}
use mlbtcc.Base.Bytes.{Bytes}
use mlbtcc.BitcoinSpecifics.Hash.{Sha256}
use mlbtcc.BitcoinSpecifics.Header.{decode_block_header}
use mlbtcc.BitcoinSpecifics.Header.Layout.{
  RawHeader, header_bytes, decode_block_header-header_bytes,
}
use mlbtcc.BitcoinSpecifics.Hex.{Strtol, hex_digits, bytes_to_hex, hex_to_bytes}
use mlbtcc.BitcoinSpecifics.Hex.RoundTrip.{hex_to_bytes-bytes_to_hex}
use mlbtcc.Base.{none, false}
use mlbtcc.BitcoinSpecifics.Formats.{Localtime}
use mlbtcc.BitcoinSpecifics.Print.{print_blocks}
use mlbtcc.BitcoinSpecifics.Print.Json.{strip, render, blocks_value}
use mlbtcc.BitcoinSpecifics.Print.Written.{print_blocks-render}
use mlbtcc.Structs.{Blocks, BlockHeader, Transaction, Input, Output}
use mathlib.Core.List.{reverse}

-- A checksum in place of SHA-256.
abbrev sum_bytes : ℕ → Bytes → ℕ
sum_bytes total [] = total
sum_bytes total (byte ∷ bytes) = sum_bytes ((31 * total + byte + 1) % 256) bytes

abbrev pub toy_hash : Sha256
toy_hash = record {
  Context = ℕ;
  init = 7;
  update = sum_bytes;
  final = replicate 32;
  length-final = length-replicate 32;
}

-- The value of a hexadecimal digit in small letters.
abbrev small_digit : ℕ → ℕ
small_digit c = if ltb c b'a' then c - b'0' else c - b'a' + 10

small_digit_lem : (d c : ℕ) → get_elem? hex_digits d ≡ some c → small_digit c ≡ d
small_digit_lem d c h = ground arith

small_parse :
    (high low c d : ℕ)
    → get_elem? hex_digits high ≡ some c
    → get_elem? hex_digits low ≡ some d
    → ◌≡◌ {A = ℕ × Bool} (16 * small_digit c + small_digit d, true) (16 * high + low, true)
small_parse high low c d p q = ground (arith, small_digit_lem high c p, small_digit_lem low d q)

abbrev toy_strtol : Strtol
toy_strtol = record {
  parse = λ c d. (16 * small_digit c + small_digit d, true);
  parse_digits = small_parse;
}

abbrev three_bytes : Bytes
three_bytes = 1 ∷ 2 ∷ 3 ∷ []

abbrev raw_header : RawHeader
raw_header = record {
  version = 0x20000004;
  prev = replicate 32 1;
  root = replicate 32 2;
  time = 1231006505;
  bits = 0x1d00ffff;
  nonce = 7;
}

decode_block_header-header_bytes_example :
    decode_block_header (header_bytes raw_header (9 ∷ []))
    ≡ some (record {
      version = 0x20000004 % 256;
      prev_block_hash = reverse (replicate 32 1);
      merkle_root = reverse (replicate 32 2);
      time = 1231006505;
      bits = 0x1d00ffff;
      nonce = 7;
    })
decode_block_header-header_bytes_example =
    decode_block_header-header_bytes raw_header (9 ∷ []) (record {
      version_fits = omega arith;
      prev_size = refl;
      root_size = refl;
      time_fits = omega arith;
      bits_fits = omega arith;
      nonce_fits = omega arith;
    })

abbrev eighty_bytes : Bytes
eighty_bytes = replicate 80 1

hex_to_bytes-bytes_to_hex_example :
    (text : Bytes) × (bytes_to_hex (replicate 32 171) 32 ≡ some text)
    × (length text ≡ 65)
    × (hex_to_bytes toy_strtol text ≡ some (true, replicate 32 171))
hex_to_bytes-bytes_to_hex_example =
    hex_to_bytes-bytes_to_hex toy_strtol (replicate 32 171) (ground arith) refl

abbrev an_input : Input
an_input = record {
  txid = replicate 32 0;
  vout = 4294967295;
  script_sig_size = 3;
  script_sig = three_bytes;
  sequence = 7;
}

abbrev an_output : Output
an_output = record { amount = 5000000000; script_pub_key_size = 0; script_pub_key = [] }

abbrev printed_transaction : Transaction
printed_transaction = record {
  version = 1;
  marker = 0;
  flag = 0;
  input_count = 1;
  inputs = an_input ∷ [];
  output_count = 2;
  outputs = an_output ∷ an_output ∷ [];
  witnesses = none;
  locktime = 0;
  size = 60;
  txid = replicate 32 1;
  wtxid = replicate 32 1;
}

abbrev a_header : BlockHeader
a_header = record {
  version = 4;
  prev_block_hash = replicate 32 1;
  merkle_root = replicate 32 2;
  time = 1231006505;
  bits = 0x1d00ffff;
  nonce = 7;
}

abbrev printed_blocks : Blocks
printed_blocks = record {
  blocks =
      record {
        magic = 0xd9b4bef9;
        block_size = 140;
        tx_count = 1;
        hash = replicate 32 3;
        height = some 0;
        header = a_header;
        transactions = some (printed_transaction ∷ []);
      }
      ∷ [];
  count = 1;
}

-- The first block's time, in every time zone.
abbrev genesis_time : Localtime
genesis_time =
    λ _. record { tm_year = 109; tm_mon = 0; tm_mday = 3; tm_hour = 18; tm_min = 15; tm_sec = 5 }

print_blocks-render_example :
    (text : Bytes) × (print_blocks genesis_time printed_blocks ≡ some text)
    × (strip false text ≡ render (blocks_value genesis_time printed_blocks) [])
print_blocks-render_example = print_blocks-render genesis_time printed_blocks refl (
  (
    refl,
    (
      (
        refl,
        refl,
        ((refl, refl, omega arith), tt),
        ((refl, omega arith), ((refl, omega arith), tt)),
      ),
      tt,
    ),
  ),
  tt,
)
