-- ===== src/Adapter/Decimal.antt =====
-- The decimal codecs of adapters/externalobject/esdb_externalobject.cpp: the texts by which 64-bit
-- integers and revisions cross the host's boundary, whose own numbers are doubles. A signed 64-bit
-- integer is its two's complement pattern.
use esdb.Prelude.{
  ℕ, ◌+◌, ◌-◌, ◌*◌, Bool, true, false, not, ◌&&◌, ◌||◌, Option, none, some, [], ◌∷◌, ltb, leb, ◌==◌,
  if◌then◌else◌,
}
use esdb.Bytes.{Bytes, CString}
use esdb.Store.State.{revision_max}
use esdb.ObjectStore.RevisionText.{decimal}
use esdb.Adapter.Handles.{is_empty}

abbrev pub is_digit : ℕ → Bool
is_digit c = not (ltb c 48 || ltb 57 c)

unfoldable pub all_digits : Bytes → Bool
all_digits [] = true
all_digits (c ∷ text) = is_digit c && all_digits text

-- What follows the sign: the digit 0 alone, or digits that do not start with 0.
unfoldable pub canonical_number : Bytes → Bool
canonical_number [] = false
canonical_number (c ∷ text) =
    if c == 48 then is_empty text else (if ltb c 49 || ltb 57 c then false else all_digits text)

unfoldable pub canonical_decimal_syntax : CString → Bool → Bool
canonical_decimal_syntax none allow_negative = false
canonical_decimal_syntax (some []) allow_negative = false
canonical_decimal_syntax (some (c ∷ text)) allow_negative =
    if c == 45 then allow_negative && canonical_number text else canonical_number (c ∷ text)

-- The digits that `strtoull` reads in base 10: their value, and the text from `*end` on.
unfoldable pub read_digits : ℕ → Bytes → ℕ × Bytes
read_digits value [] = (value, [])
read_digits value (c ∷ text) =
    let rest = read_digits (value * 10 + (c - 48)) text in
    if is_digit c then rest else (value, c ∷ text)

-- `strtoull` after the syntax check, which leaves no blank and no sign: a number above `most` is
-- out of range, or above the limit that the caller tests.
unfoldable pub unsigned_within : ℕ → ℕ × Bytes → Option ℕ
unsigned_within most read = if leb read.0 most && is_empty read.1 then some read.0 else none

unfoldable pub parse_unsigned : ℕ → CString → Option ℕ
parse_unsigned most none = none
parse_unsigned most (some text) =
    if canonical_decimal_syntax (some text) false
    then unsigned_within most (read_digits 0 text)
    else none

-- ESDB_REVISION_MAX is less than the limit of `strtoull`.
unfoldable pub parse_revision_decimal : CString → Option ℕ
unfolding parse_unsigned
parse_revision_decimal = parse_unsigned revision_max

unfoldable pub parse_u32_decimal : Bytes → Option ℕ
unfolding parse_unsigned
parse_u32_decimal text = parse_unsigned 4294967295 (some text)

-- `strtoll` sets ERANGE above 2^63 - 1, and below -2^63.
unfoldable pub signed_within : Bool → ℕ × Bytes → Option ℕ
signed_within true read =
    if leb read.0 9223372036854775808 && is_empty read.1
    then some (if read.0 == 0 then 0 else 18446744073709551616 - read.0)
    else none
signed_within false read =
    if leb read.0 9223372036854775807 && is_empty read.1 then some read.0 else none

unfoldable pub strtoll : Bytes → Option ℕ
strtoll [] = signed_within false (0, [])
strtoll (c ∷ text) =
    if c == 45
    then signed_within true (read_digits 0 text)
    else signed_within false (read_digits 0 (c ∷ text))

-- `strcmp(text, "-0") == 0`.
abbrev pub is_minus_zero : Bytes → Bool
is_minus_zero (sign ∷ zero_digit ∷ []) = sign == 45 && zero_digit == 48
is_minus_zero _ = false

unfoldable pub parse_i64_decimal : CString → Option ℕ
parse_i64_decimal none = none
parse_i64_decimal (some text) =
    if canonical_decimal_syntax (some text) true
    then (if is_minus_zero text then none else strtoll text)
    else none

unfoldable pub u64_decimal : ℕ → Bytes
u64_decimal value = decimal value

unfoldable pub i64_decimal : ℕ → Bytes
i64_decimal value =
    if ltb value 9223372036854775808
    then decimal value
    else 45 ∷ decimal (18446744073709551616 - value)
