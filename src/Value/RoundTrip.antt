-- ===== src/Value/RoundTrip.antt =====
-- What a constructor of src/esdb_value.cpp stores, its getter gives back.
use esdb.Prelude.{ℕ, ◌^◌, ◌<◌, ◌≡◌, Bool, true, Option, ◌==◌, if◌then◌else◌, arith}
use esdb.Bytes.{Bytes}
use esdb.Errors.{Reply, Result, got, AllocPlan, granted}
use esdb.Utf8.{valid_utf8}
use esdb.Value.{
  is_text_type, Value, ValueType, buffer, append_le32, append_le64, read_le, create_bool,
  create_int32, create_int64, create_double, create_text, create_bytes, get_bool, get_int32,
  get_int64, get_double, get_data,
}

pub read_le-append_le32 : (v : ℕ) → v < 2 ^ 32 → read_le (append_le32 v) ≡ v
unfolding read_le append_le32
read_le-append_le32 v h = omega arith

pub read_le-append_le64 : (v : ℕ) → v < 2 ^ 64 → read_le (append_le64 v) ≡ v
unfolding read_le append_le64
read_le-append_le64 v h = omega arith

-- What a getter makes of the value that a constructor handed out.
abbrev pub read_back {ℓ} :
    {A : Type ℓ} → (Option Value → Bool → Result A) → Reply (Option Value) → Result A
read_back get created = get created.out true

module _ (plan : AllocPlan) (object_granted : plan 0 ≡ granted)
    (payload_granted : plan 1 ≡ granted) where
  -- INT32, by its 32-bit pattern, comes back exactly.
  pub int32_round_trip :
      (n : ℕ) → n < 2 ^ 32 → read_back get_int32 (create_int32 plan n true) ≡ got n
  unfolding create_int32 get_int32
  int32_round_trip n h = ground (arith, read_le-append_le32 n h)

  -- INT64 and DOUBLE (by its bit pattern) come back exactly over all 64 bits.
  pub word64_round_trip :
      (n : ℕ)
      → n < 2 ^ 64
      → (read_back get_int64 (create_int64 plan n true) ≡ got n)
        × (read_back get_double (create_double plan n true) ≡ got n)
  unfolding create_int64 get_int64 create_double get_double
  word64_round_trip n h = ground (arith, read_le-append_le64 n h)

  -- Any number that is not 0 comes back as 1, and 0 as 0.
  pub bool_round_trip :
      (n : ℕ) → read_back get_bool (create_bool plan n true) ≡ got (if n == 0 then 0 else 1)
  unfolding create_bool get_bool
  bool_round_trip n = ground arith

  -- Text of each of the three kinds that is UTF-8 comes back byte for byte, and so do bytes.
  pub text_round_trip :
      (type : ValueType) (text : Bytes)
      → is_text_type type ≡ true
      → valid_utf8 text ≡ true
      → (read_back get_data (create_text plan type (buffer text) true) ≡ got text)
        × (read_back get_data (create_bytes plan (buffer text) true) ≡ got text)
  unfolding create_text create_bytes get_data
  text_round_trip type text t u = ground arith
