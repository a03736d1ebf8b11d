-- ===== src/Cbuilder/UserSpace.antt =====
-- CBuilder.c, the macros of this repository's rules for macOS, `HasArg` and the flags of the
-- compiler. For Linux the file leaves some of the macros undefined.
pub mod Build
pub mod Main
pub mod Default
use mlbtcc.Base.{Option, none, some, ◌>>=◌, Bool, true, false, List, [], ◌∷◌, ◌++◌, if◌then◌else◌}
use mlbtcc.Base.Bytes.{Bytes, codes, same_text}

abbrev pub builder_source : Bytes
builder_source = codes "CBuilder.c"

abbrev pub builder_name : Bytes
builder_name = codes "./CBuilder"

abbrev pub static_execname : Bytes
static_execname = codes "./mlbtcc.a"

abbrev pub dynamic_execname : Bytes
dynamic_execname = codes "./mlbtcc.dylib"

abbrev pub ld : Bytes
ld = codes "gcc"

abbrev pub base_cflags : Bytes
base_cflags = codes "-std=c11 -Wall -Wextra -Werror -pedantic-errors -I src/include/"

abbrev pub base_ldflags : Bytes
base_ldflags = codes "-Wl,-rpath,/usr/local/lib -lleveldb"

abbrev pub opti_cflags : Bytes
opti_cflags = codes " -O3 -march=native -mtune=native -flto"

abbrev pub build_leveldb_cmd : Bytes
build_leveldb_cmd =
    codes
      "mkdir -p build && cd build && \t\t\t\tcmake -DCMAKE_BUILD_TYPE=Release .. && cmake --build ."

abbrev pub tests_name : Bytes
tests_name = codes "mlbtcc-tests"

-- An array of `argc` pointers; `none` is the null pointer.
abbrev pub Args : Type 0
Args = List (Option Bytes)

-- `strcmp` of a null pointer is undefined.
unfoldable pub has_arg : Args → Bytes → Option Bool
has_arg [] target = some false
has_arg (none ∷ argv) target = none
has_arg (some arg ∷ argv) target =
    let later = has_arg argv target in if same_text arg target then some true else later

-- `cflags` after the calls of `strcat`.
unfoldable pub cflags_of : Args → Option Bytes
cflags_of av = do
  release ← has_arg av (codes "release")
  debug ← has_arg av (codes "debug")
  some (
      base_cflags
      ++ ((if release then opti_cflags else [])
          ++ (if debug then codes " -fsanitize=address,undefined" ++ codes " -g3" else [])))

unfoldable pub ldflags_of : Args → Option Bytes
ldflags_of av = do
  debug ← has_arg av (codes "debug")
  some (base_ldflags ++ (if debug then codes " -fsanitize=address,undefined" else []))
