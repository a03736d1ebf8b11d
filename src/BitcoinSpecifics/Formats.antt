-- ===== src/BitcoinSpecifics/Formats.antt =====
-- The formats of C's `printf` and `strftime` that src/bitcoin-specifics.c prints with, and its
-- `ConvertTimestampToString`.
use mlbtcc.Base.{ℕ, zero, suc, ◌+◌, ◌-◌, ◌/◌, ◌%◌, [], ◌∷◌, ◌++◌, ltb, if◌then◌else◌}
use mlbtcc.Base.Bytes.{Bytes}

-- A digit of `%x`.
abbrev pub lower_digit : ℕ → ℕ
lower_digit d = if ltb d 10 then b'0' + d else b'a' + (d - 10)

-- `%02x` of a byte.
abbrev pub hex_byte : ℕ → Bytes
hex_byte byte = lower_digit (byte / 16 % 16) ∷ lower_digit (byte % 16) ∷ []

-- `%08x` of a U32: the digits of `4 * n` bits.
unfoldable pub hex_word : ℕ → ℕ → Bytes
hex_word zero value = []
hex_word (suc n) value = hex_word n (value / 16) ++ (lower_digit (value % 16) ∷ [])

-- At most so many decimal digits.
unfoldable pub digits : ℕ → ℕ → Bytes
digits zero value = []
digits (suc n) value =
    let front = digits n (value / 10) in
    (if ltb value 10 then [] else front) ++ ((b'0' + value % 10) ∷ [])

-- `%u`, `%d` and `%llu` of a value that is not negative: a U64 has 20 digits at most.
unfoldable pub decimal : ℕ → Bytes
decimal value = digits 20 value

-- Two decimal digits.
abbrev pub two_digits : ℕ → Bytes
two_digits value = (b'0' + value / 10 % 10) ∷ (b'0' + value % 10) ∷ []

-- The fields of a `struct tm` that `%Y-%m-%d %H:%M:%S` reads.
pub record Tm : Type 0 where
  pub tm_year : ℕ
  pub tm_mon : ℕ
  pub tm_mday : ℕ
  pub tm_hour : ℕ
  pub tm_min : ℕ
  pub tm_sec : ℕ

-- `localtime`, in whatever time zone. Its fields are in their documented ranges, so that a month, a
-- day, an hour, a minute and a second have two digits at most.
abbrev pub Localtime : Type 0
Localtime = ℕ → Tm

-- `-%m-%d %H:%M:%S`.
abbrev pub behind_year : Tm → Bytes
behind_year tm =
    b'-' ∷ two_digits (tm.tm_mon + 1)
    ++ (b'-' ∷ two_digits tm.tm_mday
        ++ (b' ' ∷ two_digits tm.tm_hour
            ++ (b':' ∷ two_digits tm.tm_min ++ (b':' ∷ two_digits tm.tm_sec))))

-- The text in the buffer of 50 bytes, which is long enough for any year of 32 bits.
unfoldable pub convert_timestamp_to_string : Localtime → ℕ → Bytes
convert_timestamp_to_string localtime timestamp =
    decimal ((localtime timestamp).tm_year + 1900) ++ behind_year (localtime timestamp)
