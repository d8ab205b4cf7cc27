-- ===== src/Value.antt =====
-- src/esdb_value.cpp and the value types of include/esdb/esdb_value.h: the typed values, their
-- canonical little-endian payloads, constructors and getters.
pub mod RoundTrip
pub mod Canonical
pub mod Payload
use esdb.Prelude.{
  ℕ, ◌+◌, ◌*◌, ◌/◌, ◌%◌, ◌^◌, Bool, true, false, Option, none, some, List, [], ◌∷◌, leb, ◌==◌,
  if◌then◌else◌, length, ◌&&◌,
}
use esdb.Bytes.{Bytes}
use esdb.Errors.{
  Status, Phase, Reply, Result, got, refused, success, set_error, AllocPlan, attempt_nothrow,
}
use esdb.SqliteCode
use esdb.Utf8.{valid_utf8}

-- `esdb_value_type` is a 32-bit number: `unknown` stands for those that name no type.
pub data ValueType : Type 0 where
  null bool int32 int64 double utf8 bytes array object unknown : ValueType

pub record Value : Type 0 where
  pub type : ValueType
  pub payload : Bytes

-- A buffer argument with its size; `null_buffer` is the null pointer, with the size passed.
pub data Buffer : Type 0 where
  null_buffer : ℕ → Buffer
  buffer : Bytes → Buffer

unfoldable pub append_le32 : ℕ → Bytes
append_le32 v = v % 256 ∷ v / 2 ^ 8 % 256 ∷ v / 2 ^ 16 % 256 ∷ v / 2 ^ 24 % 256 ∷ []

unfoldable pub append_le64 : ℕ → Bytes
append_le64 v =
    v % 256
    ∷ v / 2 ^ 8 % 256
    ∷ v / 2 ^ 16 % 256
    ∷ v / 2 ^ 24 % 256
    ∷ v / 2 ^ 32 % 256
    ∷ v / 2 ^ 40 % 256
    ∷ v / 2 ^ 48 % 256
    ∷ v / 2 ^ 56 % 256
    ∷ []

-- `value |= in[i] << (8 * i)`: the bytes stand at disjoint places, so that `|` adds.
unfoldable pub read_le : Bytes → ℕ
read_le [] = 0
read_le (b ∷ rest) = b + 256 * read_le rest

-- The object is the one allocation of an empty value.
unfoldable pub allocate_value : AllocPlan → Bool → Value → Reply (Option Value)
unfolding set_error
allocate_value plan false v = set_error Status.invalid_argument Phase.value SqliteCode.misuse none
allocate_value plan true v =
    attempt_nothrow (plan 0) (set_error Status.out_of_memory Phase.value SqliteCode.nomem none)
      (success (some v))

-- The object and then its payload, in the order of every constructor; where the payload fails, the
-- object is destroyed.
unfoldable pub allocate_payload : AllocPlan → Bool → Value → Reply (Option Value)
unfolding set_error
allocate_payload plan false v = set_error Status.invalid_argument Phase.value SqliteCode.misuse none
allocate_payload plan true v =
    attempt_nothrow (plan 0) (set_error Status.out_of_memory Phase.value SqliteCode.nomem none) (
      attempt_nothrow (plan 1) (set_error Status.out_of_memory Phase.value SqliteCode.nomem none)
        (success (some v)))

-- Text or bytes, which are copied where there are any.
unfoldable pub allocate_copy : AllocPlan → Bool → ValueType → Bytes → Reply (Option Value)
unfolding allocate_value allocate_payload
allocate_copy plan has_out type [] =
    allocate_value plan has_out (record { type = type; payload = [] })
allocate_copy plan has_out type (b ∷ data_bytes) =
    allocate_payload plan has_out (record { type = type; payload = b ∷ data_bytes })

-- A null value has no payload to allocate.
unfoldable pub create_null : AllocPlan → Bool → Reply (Option Value)
unfolding allocate_value
create_null plan has_out = allocate_value plan has_out (record { type = null; payload = [] })

unfoldable pub create_bool : AllocPlan → ℕ → Bool → Reply (Option Value)
unfolding allocate_payload
create_bool plan input has_out =
    allocate_payload plan has_out
      (record { type = bool; payload = (if input == 0 then 0 else 1) ∷ [] })

unfoldable pub create_int32 : AllocPlan → ℕ → Bool → Reply (Option Value)
unfolding allocate_payload append_le32
create_int32 plan input has_out =
    allocate_payload plan has_out (record { type = int32; payload = append_le32 input })

unfoldable pub create_int64 : AllocPlan → ℕ → Bool → Reply (Option Value)
unfolding allocate_payload append_le64
create_int64 plan input has_out =
    allocate_payload plan has_out (record { type = int64; payload = append_le64 input })

-- The input is the bit pattern that `memcpy` takes out of the double.
unfoldable pub create_double : AllocPlan → ℕ → Bool → Reply (Option Value)
unfolding allocate_payload append_le64
create_double plan bits has_out =
    allocate_payload plan has_out (record { type = double; payload = append_le64 bits })

abbrev pub is_text_type : ValueType → Bool
is_text_type utf8 = true
is_text_type array = true
is_text_type object = true
is_text_type _ = false

unfoldable pub create_text : AllocPlan → ValueType → Buffer → Bool → Reply (Option Value)
unfolding set_error allocate_copy
create_text plan type (null_buffer size) has_out =
    if is_text_type type
    then (if size == 0
        then allocate_copy plan has_out type []
        else set_error Status.invalid_argument Phase.value SqliteCode.mismatch none)
    else set_error Status.invalid_argument Phase.value SqliteCode.misuse none
create_text plan type (buffer text) has_out =
    if is_text_type type
    then (if valid_utf8 text
        then allocate_copy plan has_out type text
        else set_error Status.invalid_argument Phase.value SqliteCode.mismatch none)
    else set_error Status.invalid_argument Phase.value SqliteCode.misuse none

unfoldable pub create_bytes : AllocPlan → Buffer → Bool → Reply (Option Value)
unfolding set_error allocate_copy
create_bytes plan (null_buffer size) has_out =
    if size == 0
    then allocate_copy plan has_out bytes []
    else set_error Status.invalid_argument Phase.value SqliteCode.misuse none
create_bytes plan (buffer data_bytes) has_out = allocate_copy plan has_out bytes data_bytes

pub value_type_of : Option Value → ValueType
value_type_of none = null
value_type_of (some v) = v.type

abbrev same_type : ValueType → ValueType → Bool
same_type null null = true
same_type bool bool = true
same_type int32 int32 = true
same_type int64 int64 = true
same_type double double = true
same_type _ _ = false

-- The getters of the fixed-size types: null pointers first, then the type and the size.
unfoldable pub get_fixed : ValueType → ℕ → (Bytes → ℕ) → Option Value → Bool → Result ℕ
get_fixed type size read none has_out = refused Status.invalid_argument
get_fixed type size read (some v) false = refused Status.invalid_argument
get_fixed type size read (some v) true =
    if same_type v.type type && length v.payload == size
    then got (read v.payload)
    else refused Status.type_mismatch

abbrev truth : Bytes → ℕ
truth [] = 0
truth (b ∷ rest) = if b == 0 then 0 else 1

unfoldable pub get_bool : Option Value → Bool → Result ℕ
unfolding get_fixed
get_bool = get_fixed bool 1 truth

unfoldable pub get_int32 : Option Value → Bool → Result ℕ
unfolding get_fixed read_le
get_int32 = get_fixed int32 4 read_le

unfoldable pub get_int64 : Option Value → Bool → Result ℕ
unfolding get_fixed read_le
get_int64 = get_fixed int64 8 read_le

unfoldable pub get_double : Option Value → Bool → Result ℕ
unfolding get_fixed read_le
get_double = get_fixed double 8 read_le

abbrev pub has_data : ValueType → Bool
has_data bytes = true
has_data t = is_text_type t

-- The pointer to the payload (null if it is empty) and its size, as the bytes that they span.
unfoldable pub get_data : Option Value → Bool → Result Bytes
get_data none has_out = refused Status.invalid_argument
get_data (some v) false = refused Status.invalid_argument
get_data (some v) true = if has_data v.type then got v.payload else refused Status.type_mismatch
