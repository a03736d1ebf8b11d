-- ===== src/BigInts/Tests.antt =====
-- Runs of the integer encodings of src/bigInts.c on concrete numbers.
use mlbtcc.Base.{
  ℕ, ◌^◌, ◌<◌, ◌≤◌, ◌≡◌, arith, refl, ◌↔◌, some, [], ◌∷◌, ◌++◌, length, take, ltb, none,
  if◌then◌else◌,
}
use mlbtcc.Base.Bytes.{Bytes}
use mlbtcc.BigInts.Varint.{varint_encode, shift_byte, varint_decode_loop, varint_decode}
use mlbtcc.BigInts.Varint.RoundTrip.{varint_decode-varint_encode}
use mlbtcc.BigInts.Varint.Meaning.{base128, IsContinued, varint_decode-base128}
use mlbtcc.BigInts.CompactSize.{compact_size_encode, compact_size_decode}
use mlbtcc.BigInts.CompactSize.RoundTrip.{compact_size_decode-compact_size_encode}
use mlbtcc.BigInts.Varint128.{fill_buffer, encode_varint128, decode_varint128}
use mlbtcc.BigInts.Varint128.Decode.{index_varint, decode_varint128-index_varint}
use mlbtcc.BigInts.Varint128.Encode.{encode_varint128_reads_back_iff}

varint_decode-varint_encode_example :
    varint_decode (varint_encode 300 ++ (7 ∷ []))
    ≡ (if ltb 300 (2 ^ 31) then some (length (varint_encode 300), 300) else none)
varint_decode-varint_encode_example = varint_decode-varint_encode 300 (7 ∷ []) (omega arith)

varint_decode-base128_example :
    (0 < 2)
    × (2 ≤ 5)
    × (2 ≤ length {A = ℕ} (0xac ∷ 2 ∷ 7 ∷ []))
    × (300 < 2 ^ 31)
    × IsContinued (take 2 (0xac ∷ 2 ∷ 7 ∷ []))
    × (300 ≡ base128 (take 2 (0xac ∷ 2 ∷ 7 ∷ [])))
unfolding varint_decode varint_decode_loop shift_byte
varint_decode-base128_example =
    varint_decode-base128 (0xac ∷ 2 ∷ 7 ∷ []) 2 300 (omega arith, (omega arith, (omega arith, tt)))
      refl

compact_size_decode-compact_size_encode_example :
    compact_size_decode (some (compact_size_encode 70000 ++ (7 ∷ []))) 10 (some 0)
    ≡ some (length (compact_size_encode 70000), some 70000)
unfolding compact_size_encode
compact_size_decode-compact_size_encode_example =
    compact_size_decode-compact_size_encode 70000 10 0 (7 ∷ []) (omega arith) (omega arith)

decode_varint128-index_varint_example :
    decode_varint128 (index_varint 128 ++ (7 ∷ [])) ≡ some (length (index_varint 128), 128)
decode_varint128-index_varint_example = decode_varint128-index_varint 128 (7 ∷ []) (omega arith)

encode_varint128_reads_back_iff_example :
    (decode_varint128 ((0 ∷ 0x80 ∷ []) ++ (7 ∷ [])) ≡ some (2, 128)) ↔ (128 < 128)
unfolding encode_varint128 fill_buffer
encode_varint128_reads_back_iff_example =
    encode_varint128_reads_back_iff 128 (0 ∷ 0x80 ∷ []) (7 ∷ []) (omega arith) refl

abbrev two_bytes : Bytes
two_bytes = 0x1f ∷ 0xa0 ∷ []
