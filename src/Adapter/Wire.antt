-- ===== src/Adapter/Wire.antt =====
-- The text form of a typed value that crosses the host's boundary, in
-- adapters/externalobject/esdb_externalobject.cpp: "V1:", the number of the type, ":" and the
-- payload. The C++ streams' conversion between doubles and decimal text is a parameter; a double
-- is its bit pattern.
use esdb.Prelude.{
  ℕ, ◌-◌, ◌/◌, ◌%◌, Bool, true, Option, none, some, [], ◌∷◌, ◌++◌, ltb, leb, ◌==◌, if◌then◌else◌,
  length,
}
use esdb.Bytes.{Bytes, CString}
use esdb.Errors.{Status, Error, Reply, Result, got, refused, AllocPlan}
use esdb.Value.{
  Value, ValueType, Buffer, null_buffer, buffer, null, bool, int32, int64, double, utf8, bytes,
  array, object, unknown, create_null, create_int64, create_text, create_bytes, get_bool, get_int32,
  get_int64, get_double, get_data,
}
use esdb.ObjectStore.RevisionText.{decimal}
use esdb.Adapter.Handles.{is_empty}
use esdb.Adapter.Hex.{hex_decode, hex_encode}
use esdb.Adapter.Decimal.{parse_i64_decimal, i64_decimal}
use esdb.Runtime.Savepoints.{same_text}

-- `shown` is `<<` at max_digits10 digits in the classic locale, of a finite double; `read_double`
-- is `strtod` of a whole text that is in range.
pub record FloatText : Type 0 where
  pub shown : ℕ → Bytes
  pub read_double : Bytes → Option ℕ

abbrev pub nan_text : Bytes
nan_text = 78 ∷ 97 ∷ 78 ∷ []

abbrev pub infinity_text : Bytes
infinity_text = 73 ∷ 110 ∷ 102 ∷ 105 ∷ 110 ∷ 105 ∷ 116 ∷ 121 ∷ []

abbrev pub minus_infinity_text : Bytes
minus_infinity_text = 45 ∷ infinity_text

abbrev pub minus_zero_text : Bytes
minus_zero_text = 45 ∷ 48 ∷ []

abbrev exponent : ℕ → ℕ
exponent bits = bits / 4503599627370496 % 2048

abbrev mantissa : ℕ → ℕ
mantissa bits = bits % 4503599627370496

abbrev signbit : ℕ → Bool
signbit bits = leb 9223372036854775808 bits

unfoldable pub double_decimal : FloatText → ℕ → Bytes
double_decimal io bits =
    if exponent bits == 2047
    then (if mantissa bits == 0
        then (if signbit bits then minus_infinity_text else infinity_text)
        else nan_text)
    else (if bits == 9223372036854775808 then minus_zero_text else io.shown bits)

unfoldable pub parse_double_decimal : FloatText → CString → Option ℕ
parse_double_decimal io none = none
parse_double_decimal io (some []) = none
parse_double_decimal io (some (c ∷ text)) =
    let word = c ∷ text in
    if same_text word nan_text
    then some 9221120237041090560
    else (if same_text word infinity_text
        then some 9218868437227405312
        else (if same_text word minus_infinity_text
            then some 18442240474082181120
            else (if same_text word minus_zero_text
                then some 9223372036854775808
                else io.read_double word)))

-- The vector of decoded bytes as an argument: a null pointer where it is empty.
abbrev pub as_buffer : Bytes → Buffer
as_buffer [] = null_buffer 0
as_buffer (b ∷ decoded) = buffer (b ∷ decoded)

-- The return of ESDB_ERR_INVALID_ARGUMENT, which leaves the caller's error structure alone.
abbrev invalid : Error → Reply (Option Value)
invalid error = record { status = Status.invalid_argument; error = error; out = none }

-- The types whose payload is hexadecimal.
unfoldable pub make_decoded : AllocPlan → Error → ValueType → Bytes → Reply (Option Value)
make_decoded plan error bytes decoded = create_bytes plan (as_buffer decoded) true
make_decoded plan error utf8 decoded = create_text plan utf8 (as_buffer decoded) true
make_decoded plan error array decoded = create_text plan array (as_buffer decoded) true
make_decoded plan error object decoded = create_text plan object (as_buffer decoded) true
make_decoded plan error _ decoded = invalid error

unfoldable pub make_hex : AllocPlan → Error → ValueType → CString → Reply (Option Value)
make_hex plan error type payload = elim (hex_decode payload) [
  | none ↦ invalid error
  | some decoded ↦ make_decoded plan error type decoded
]

unfoldable pub make_text_value : AllocPlan → Error → ValueType → CString → Reply (Option Value)
make_text_value plan error null none = invalid error
make_text_value plan error null (some payload) =
    if is_empty payload then create_null plan true else invalid error
make_text_value plan error int64 payload = elim (parse_i64_decimal payload) [
  | none ↦ invalid error
  | some value ↦ create_int64 plan value true
]
make_text_value plan error type payload = make_hex plan error type payload

abbrev pub type_number : ValueType → ℕ
type_number null = 0
type_number bool = 1
type_number int32 = 2
type_number int64 = 3
type_number double = 4
type_number utf8 = 5
type_number bytes = 6
type_number array = 7
type_number object = 8
type_number unknown = 9

abbrev text_of : Result ℕ → (ℕ → Bytes) → Option Bytes
text_of (got n) print = some (print n)
text_of (refused st) print = none

-- `std::to_string` of a signed 32-bit integer, by its two's complement pattern.
unfoldable pub i32_decimal : ℕ → Bytes
i32_decimal n = if ltb n 2147483648 then decimal n else 45 ∷ decimal (4294967296 - n)

-- A size that doubles beyond the limit of `std::size_t` is refused.
abbrev pub hex_of : Result Bytes → Option Bytes
hex_of (got data_bytes) =
    if ltb 9223372036854775807 (length data_bytes) then none else some (hex_encode data_bytes)
hex_of (refused st) = none

unfoldable pub payload_wire : FloatText → Value → Option Bytes
payload_wire io v = elim v.type [
  | null ↦ some []
  | bool ↦ text_of (get_bool (some v) true) (λ n. if n == 0 then 48 ∷ [] else 49 ∷ [])
  | int32 ↦ text_of (get_int32 (some v) true) i32_decimal
  | int64 ↦ text_of (get_int64 (some v) true) i64_decimal
  | double ↦ text_of (get_double (some v) true) (double_decimal io)
  | utf8 ↦ hex_of (get_data (some v) true)
  | bytes ↦ hex_of (get_data (some v) true)
  | array ↦ hex_of (get_data (some v) true)
  | object ↦ hex_of (get_data (some v) true)
  | unknown ↦ none
]

unfoldable pub value_wire : FloatText → Option Value → Option Bytes
value_wire io none = none
value_wire io (some v) = elim (payload_wire io v) [
  | none ↦ none
  | some text ↦ some (86 ∷ 49 ∷ 58 ∷ decimal (type_number v.type) ++ 58 ∷ text)
]
