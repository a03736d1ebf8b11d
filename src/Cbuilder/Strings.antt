-- ===== src/Cbuilder/Strings.antt =====
-- CBuilder.c, `CreateStringEmpty`, `AppendToString`, `AppendToStringVA` with the functions that wrap it,
-- `AppendStringsToCommand` and `CommandFromArgs`. A text is its characters, without the terminator.
pub mod Growth
pub mod Spaces
use mlbtcc.Base.{
  ℕ, zero, suc, ◌+◌, ◌*◌, ◌%◌, ◌^◌, Option, none, some, ◌>>=◌, List, [], ◌∷◌, ◌++◌, ltb, leb,
  if◌then◌else◌, length,
}
use mlbtcc.Base.Bytes.{Bytes}

-- `String`: what stands in the buffer before the terminator, `length`, and `size`, the bytes that
-- were allocated. The last two are unsigned ints.
pub record CString : Type 0 where
  pub c_str : Bytes
  pub length : ℕ
  pub size : ℕ

-- `DEFAULT_STRING_ALLOCATION_SIZE`.
abbrev pub default_string_allocation_size : ℕ
default_string_allocation_size = 500

unfoldable pub create_string_empty : CString
create_string_empty = record { c_str = []; length = 0; size = default_string_allocation_size }

-- The loop that doubles `newSize`. A size that has wrapped to 0 is doubled for ever, which is the
-- end of the fuel.
unfoldable pub grow : ℕ → ℕ → ℕ → Option ℕ
grow zero new_size required_size = none
grow (suc fuel) new_size required_size =
    let next = grow fuel (new_size * 2 % 2 ^ 32) required_size in
    if ltb new_size required_size then next else some new_size

-- The `memcpy` behind the text, once the buffer has its size.
abbrev pub written : CString → Bytes → ℕ → CString
written str element size = record {
  c_str = str.c_str ++ element;
  length = (str.length + length element) % 2 ^ 32;
  size = size;
}

-- `requiredSize` is an unsigned long. 33 rounds are enough for every size that fits; see `Growth`.
unfoldable pub append_to_string : CString → Bytes → Option CString
append_to_string str element =
    let required_size = (str.length + length element + 1) % 2 ^ 64 in
    if ltb str.size required_size
    then (grow 33 (str.size * 2 % 2 ^ 32) required_size >>= λ size. some (written str element size))
    else some (written str element str.size)

-- The loop over the arguments, up to the null pointer: a space goes before each but the first.
unfoldable pub append_to_string_va : CString → List Bytes → Option CString
append_to_string_va str [] = some str
append_to_string_va str (arg ∷ args) = do
  spaced ← if ltb 0 str.length then append_to_string str (b' ' ∷ []) else some str
  appended ← append_to_string spaced arg
  append_to_string_va appended args

unfoldable pub create_string : List Bytes → Option CString
create_string args = append_to_string_va create_string_empty args

-- One call for each argument that is not a null pointer.
unfoldable pub append_strings_to_command : CString → List (Option Bytes) → Option CString
append_strings_to_command cmd [] = some cmd
append_strings_to_command cmd (none ∷ args) = append_strings_to_command cmd args
append_strings_to_command cmd (some arg ∷ args) =
    append_to_string_va cmd (arg ∷ []) >>= λ cmd'. append_strings_to_command cmd' args

-- The loop over `argv`.
unfoldable pub append_args : CString → List Bytes → Option CString
append_args cmd [] = some cmd
append_args cmd (arg ∷ args) = append_to_string_va cmd (arg ∷ []) >>= λ cmd'. append_args cmd' args

unfoldable pub command_from_args : List Bytes → Option CString
command_from_args args = create_string [] >>= λ cmd. append_args cmd args
