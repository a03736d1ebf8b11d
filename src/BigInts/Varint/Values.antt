-- ===== src/BigInts/Varint/Values.antt =====
-- What `varint_encode` writes, group by group.
use mlbtcc.Base.{ℕ, zero, suc, ◌+◌, ◌/◌, ◌%◌, ◌^◌, ◌<◌, ◌≡◌, ◌∙◌, ap, arith}
use mlbtcc.Base.{bit_and, bit_or, [], ◌∷◌, ◌++◌, ltb, if◌then◌else◌, append_assoc}
use mlbtcc.Base.Bytes.{Bytes}
use mlbtcc.Base.Bits.{bit_and-ones, bit_or_above}
use mlbtcc.BigInts.Varint.{varint_encode_loop, varint_encode}
use mathlib.Core.WellFounded.{Acc}

-- The seven-bit groups of `value`, lowest first, at most `k + 1` of them.
unfoldable pub groups : ℕ → ℕ → Bytes
groups zero value = value ∷ []
groups (suc k) value =
    let more = (value % 128 + 128) ∷ groups k (value / 128) in
    if ltb value 128 then value ∷ [] else more

marked_group : (value : ℕ) → bit_or (bit_and value 0x7f) 0x80 ≡ value % 128 + 128
marked_group value =
    ap (λ (t : ℕ). bit_or t 0x80) (bit_and-ones 7 value)
    ∙ bit_or_above 7 (value % 128) 1 (omega arith)

varint_encode_loop-groups :
    (k value : ℕ) (w : Acc ◌<◌ value) (output : Bytes)
    → value < 128 ^ suc k
    → varint_encode_loop value w output ≡ output ++ groups k value
unfolding varint_encode_loop groups
varint_encode_loop-groups zero value (Acc.intro _ smaller) output h = ground arith
varint_encode_loop-groups (suc k) value (Acc.intro _ smaller) output h =
    let head : Bytes = (value % 128 + 128) ∷ [] in
    grind (
      arith,
      marked_group value,
      λ (w : Acc ◌<◌ (value / 128)).
          varint_encode_loop-groups k (value / 128) w (output ++ head) (omega arith),
      append_assoc output head (groups k (value / 128)),
    )

pub varint_encode-groups : (value : ℕ) → value < 2 ^ 32 → varint_encode value ≡ groups 4 value
unfolding varint_encode
varint_encode-groups value h = varint_encode_loop-groups 4 value _ [] (omega arith)
