-- ===== src/Value/Canonical.antt =====
-- The payload check that src/esdb_object_store.cpp makes of a row it reads back, against the
-- constructors of src/esdb_value.cpp.
use esdb.Prelude.{
  ℕ, ◌≡◌, refl, Bool, true, false, Option, some, [], ◌∷◌, ◌==◌, length, ◌&&◌, ◌||◌, arith,
}
use esdb.Bytes.{Bytes}
use esdb.Errors.{Reply, AllocPlan}
use esdb.Utf8.{valid_utf8}
use esdb.Value.{
  Value, ValueType, Buffer, buffer, null, bool, int32, int64, double, utf8, bytes, array, object,
  unknown, create_null, create_bool, create_int32, create_int64, create_double, create_text,
  create_bytes,
}

abbrev is_bit : Bytes → Bool
is_bit [] = false
is_bit (b ∷ rest) = b == 0 || b == 1

-- The switch of `clone_sql_value`.
unfoldable pub payload_valid : ValueType → Bytes → Bool
payload_valid null blob = length blob == 0
payload_valid bool blob = length blob == 1 && is_bit blob
payload_valid int32 blob = length blob == 4
payload_valid int64 blob = length blob == 8
payload_valid double blob = length blob == 8
payload_valid utf8 blob = valid_utf8 blob
payload_valid array blob = valid_utf8 blob
payload_valid object blob = valid_utf8 blob
payload_valid bytes blob = true
payload_valid unknown blob = false

-- A call of one of the constructors, with its input.
pub data Construction : Type 0 where
  of_null : Construction
  of_bool of_int32 of_int64 of_double : ℕ → Construction
  of_text : ValueType → Buffer → Construction
  of_bytes : Buffer → Construction

unfoldable pub construct : AllocPlan → Construction → Bool → Reply (Option Value)
construct plan of_null = create_null plan
construct plan (of_bool n) = create_bool plan n
construct plan (of_int32 n) = create_int32 plan n
construct plan (of_int64 n) = create_int64 plan n
construct plan (of_double n) = create_double plan n
construct plan (of_text type b) = create_text plan type b
construct plan (of_bytes b) = create_bytes plan b

valid_utf8-empty : valid_utf8 [] ≡ true
unfolding valid_utf8
valid_utf8-empty = refl

-- A value that any constructor hands out passes the check on reading, whatever its input.
pub construct-payload_valid :
    (plan : AllocPlan) (c : Construction) (has_out : Bool) (v : Value)
    → (construct plan c has_out).out ≡ some v
    → payload_valid v.type v.payload ≡ true
unfolding construct payload_valid create_null create_bool create_int32 create_int64 create_double
    create_text create_bytes
construct-payload_valid plan of_null has_out v h = ground arith
construct-payload_valid plan (of_bool n) has_out v h = ground arith
construct-payload_valid plan (of_int32 n) has_out v h = ground arith
construct-payload_valid plan (of_int64 n) has_out v h = ground arith
construct-payload_valid plan (of_double n) has_out v h = ground arith
construct-payload_valid plan (of_text type (buffer t)) has_out v h = ground arith
construct-payload_valid plan (of_text type b) has_out v h = ground (arith, valid_utf8-empty)
construct-payload_valid plan (of_bytes b) has_out v h = ground arith
