-- ===== src/BigInts/Varint128.antt =====
-- src/bigInts.c, `EncodeVarint128` and `DecodeVarint128`: the block index's base-128 numbers,
-- highest group first, each further group one lower than in plain base 128.
pub mod Decode
pub mod Encode
use mlbtcc.Base.{ℕ, zero, suc, ◌+◌, ◌-◌, ◌*◌, ◌/◌, ◌%◌, ◌^◌, bit_and, bit_or, Option, none, some}
use mlbtcc.Base.{[], ◌∷◌, ◌++◌, true, false, ltb, ◌==◌, ◌>>=◌}
use mlbtcc.Base.Bytes.{Bytes}
use mathlib.Core.List.{reverse}

-- `U8 buffer[10]`.
abbrev pub buffer_size : ℕ
buffer_size = 10

-- The loop and the write behind it. `room` is what is left of `buffer`; a write past its end is
-- undefined. The result is `buffer[0]` to `buffer[i - 1]`.
unfoldable pub fill_buffer : ℕ → ℕ → Bytes → Option Bytes
fill_buffer zero value buffer = none
fill_buffer (suc room) value buffer = elim (ltb 0x7f value) [
  | true ↦ fill_buffer room (value / 2 ^ 7 - 1) (buffer ++ (bit_or (bit_and value 0x7f) 0x80 ∷ []))
  | false ↦ some (buffer ++ (bit_and value 0x7f ∷ []))
]

-- The bytes written to `data`, the buffer backwards; the C function returns how many they are.
unfoldable pub encode_varint128 : ℕ → Option Bytes
encode_varint128 value = fill_buffer buffer_size value [] >>= λ buffer. some (reverse buffer)

-- The loop, from `ret` on. The result is the number of bytes read and `*value`.
unfoldable pub decode_varint128_loop : Bytes → ℕ → ℕ → Option (ℕ × ℕ)
decode_varint128_loop [] value n = none
decode_varint128_loop (byte ∷ bytes) value n =
    let joined = bit_or (value * 2 ^ 7 % 2 ^ 64) (bit_and byte 0x7f) in
    elim (bit_and byte 0x80 == 0) [
      | true ↦ some (n + 1, joined)
      | false ↦ decode_varint128_loop bytes ((joined + 1) % 2 ^ 64) (n + 1)
    ]

-- The number of bytes read and `*value`.
unfoldable pub decode_varint128 : Bytes → Option (ℕ × ℕ)
decode_varint128 bytes = decode_varint128_loop bytes 0 0
