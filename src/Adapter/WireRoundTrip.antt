-- ===== src/Adapter/WireRoundTrip.antt =====
-- Values come back from the text form of adapters/externalobject/esdb_externalobject.cpp.
use esdb.Prelude.{
  zero, suc, ◌<◌, ◌≡◌, refl, arith, true, some, [], ◌∷◌, ◌++◌, ltb, ◌==◌, length, All, ap, ◌∙◌, sym,
  ◌≢◌, Bool-cases, inl, inr, some-injective, Option-cases,
}
use esdb.Bytes.{Bytes}
use esdb.Errors.{got, AllocPlan, granted, cleared}
use esdb.Utf8.{valid_utf8}
use esdb.Value.{
  Value, ValueType, null, bool, int32, int64, double, utf8, bytes, array, object, unknown, read_le,
  create_null, create_bool, create_int32, create_int64, create_double, create_text, create_bytes,
  get_bool, get_int32, get_int64, get_double, get_data, allocate_value, allocate_payload,
  allocate_copy, is_text_type,
}
use esdb.Value.Canonical.{payload_valid}
use esdb.Value.Payload.{append_le32-read_le, append_le64-read_le}
use esdb.ObjectStore.RevisionText.{decimal, digits}
use esdb.Adapter.Hex.{hex_encode}
use esdb.Adapter.HexRoundTrip.{hex_decode-encode}
use esdb.Adapter.Decimal.{
  parse_u32_decimal, parse_unsigned, i64_decimal, canonical_decimal_syntax, canonical_number,
  all_digits, read_digits, unsigned_within,
}
use esdb.Adapter.DecimalRoundTrip.{parse_i64_decimal_iff}
use esdb.Adapter.Wire.{
  FloatText, double_decimal, as_buffer, make_decoded, make_hex, make_text_value, type_number,
  i32_decimal, payload_wire, value_wire, hex_of,
}
use esdb.Adapter.WireParse.{split_at, accepted, parse_payload, parse_typed, parse_query_value_wire}
use esdb.Adapter.WireNumbers.{
  widened-in_int32, widened-narrowed, widened-read, IsFloatText, is_readable, double_readable,
  double-reads,
}
use esdb.Runtime.Savepoints.{same_text}

-- The number of a type is read back from its digit.
parse-typed :
    (io : FloatText) (plan : AllocPlan) (type : ValueType) (text : Bytes)
    → type ≢ unknown
    → parse_query_value_wire io plan (86 ∷ 49 ∷ 58 ∷ decimal (type_number type) ++ 58 ∷ text)
      ≡ parse_payload io plan type text
unfolding parse_query_value_wire parse_typed decimal digits split_at parse_u32_decimal
    parse_unsigned canonical_decimal_syntax canonical_number all_digits read_digits unsigned_within
parse-typed io plan null text h = refl
parse-typed io plan bool text h = refl
parse-typed io plan int32 text h = refl
parse-typed io plan int64 text h = refl
parse-typed io plan double text h = refl
parse-typed io plan utf8 text h = refl
parse-typed io plan bytes text h = refl
parse-typed io plan array text h = refl
parse-typed io plan object text h = refl
parse-typed io plan unknown text h = absurd (h refl)

module _ (io : FloatText) (plan : AllocPlan) (law : IsFloatText io)
    (object_granted : plan 0 ≡ granted) (payload_granted : plan 1 ≡ granted) where
  created : (v : Value) → accepted (allocate_payload plan true v) ≡ some v
  unfolding allocate_payload
  created v = rw (object_granted, payload_granted) refl

  created_empty : (v : Value) → accepted (allocate_value plan true v) ≡ some v
  unfolding allocate_value
  created_empty v = rw object_granted refl

  copied :
      (type : ValueType) (p : Bytes)
      → accepted (allocate_copy plan true type p) ≡ some (record { type = type; payload = p })
  unfolding allocate_copy
  copied type [] = created_empty (record { type = type; payload = [] })
  copied type (b ∷ p) = created (record { type = type; payload = b ∷ p })

  null-reads : accepted (create_null plan true) ≡ some (record { type = null; payload = [] })
  unfolding create_null
  null-reads = created_empty (record { type = null; payload = [] })

  int32-reads :
      (p text : Bytes)
      → (length p == 4) ≡ true
      → All (λ b. b < 256) p
      → i32_decimal (read_le p) ≡ text
      → parse_payload io plan int32 text ≡ some (record { type = int32; payload = p })
  unfolding parse_payload create_int32
  int32-reads p text valid small e =
      let read = append_le32-read_le p small valid in
      rw
        (
          sym e,
          parse_payload,
          widened-read (read_le p) read.1,
          widened-in_int32 (read_le p) read.1,
          widened-narrowed (read_le p) read.1,
          read.0,
        )
        (created (record { type = int32; payload = p }))

  int64-reads :
      (p text : Bytes)
      → (length p == 8) ≡ true
      → All (λ b. b < 256) p
      → i64_decimal (read_le p) ≡ text
      → parse_payload io plan int64 text ≡ some (record { type = int64; payload = p })
  unfolding parse_payload create_int64
  int64-reads p text valid small e =
      let read = append_le64-read_le p small valid in
      rw
        (
          sym e,
          parse_payload,
          (parse_i64_decimal_iff (i64_decimal (read_le p)) (read_le p)).1 (refl, read.1),
          read.0,
        )
        (created (record { type = int64; payload = p }))

  double-reads_payload :
      (p text : Bytes)
      → (length p == 8) ≡ true
      → All (λ b. b < 256) p
      → is_readable (read_le p) ≡ true
      → double_decimal io (read_le p) ≡ text
      → parse_payload io plan double text ≡ some (record { type = double; payload = p })
  unfolding parse_payload create_double
  double-reads_payload p text valid small plain e =
      let read = append_le64-read_le p small valid in
      rw (sym e, parse_payload, double-reads io (read_le p) law read.1 plain, read.0)
        (created (record { type = double; payload = p }))

  decoded-text :
      (type : ValueType) (p : Bytes)
      → is_text_type type ≡ true
      → valid_utf8 p ≡ true
      → accepted (create_text plan type (as_buffer p) true)
        ≡ some (record { type = type; payload = p })
  unfolding create_text
  decoded-text type [] h valid = rw h (copied type [])
  decoded-text type (b ∷ p) h valid = rw (h, valid) (copied type (b ∷ p))

  decoded-bytes :
      (p : Bytes)
      → accepted (create_bytes plan (as_buffer p) true)
        ≡ some (record { type = bytes; payload = p })
  unfolding create_bytes
  decoded-bytes [] = copied bytes []
  decoded-bytes (b ∷ p) = copied bytes (b ∷ p)

  -- The text of a payload in hexadecimal.
  hex-text : (p text : Bytes) → hex_of (got p) ≡ some text → hex_encode p ≡ text
  hex-text p text h = elim (Bool-cases (ltb 9223372036854775807 (length p))) [
    | inl e ↦ absurd (cc (rw e at h))
    | inr e ↦ some-injective (hex_encode p) text (rw e at h)
  ]

  hex-reads :
      (type : ValueType) (p text : Bytes)
      → All (λ b. b < 256) p
      → hex_of (got p) ≡ some text
      → make_hex plan cleared type (some text) ≡ make_decoded plan cleared type p
  unfolding make_hex
  hex-reads type p text small h =
      rw (sym (hex-text p text h), make_hex, hex_decode-encode p small) refl

  payload-reads :
      (type : ValueType) (p text : Bytes)
      → payload_valid type p ≡ true
      → All (λ b. b < 256) p
      → double_readable type p ≡ true
      → payload_wire io (record { type = type; payload = p }) ≡ some text
      → parse_payload io plan type text ≡ some (record { type = type; payload = p })
  unfolding payload_wire parse_payload payload_valid double_readable get_bool get_int32 get_int64
      get_double get_data same_text create_bool make_text_value make_decoded
  payload-reads null [] text valid small plain h = rw (sym (some-injective [] text h)) null-reads
  payload-reads null (b ∷ p) text valid small plain h = absurd (ground (arith, valid))
  payload-reads bool [] text valid small plain h = absurd (cc valid)
  payload-reads bool (zero ∷ []) text valid small plain h =
      rw (sym (some-injective (48 ∷ []) text h))
        (created (record { type = bool; payload = 0 ∷ [] }))
  payload-reads bool (suc zero ∷ []) text valid small plain h =
      rw (sym (some-injective (49 ∷ []) text h))
        (created (record { type = bool; payload = 1 ∷ [] }))
  payload-reads bool (suc (suc b) ∷ []) text valid small plain h = absurd (ground (arith, valid))
  payload-reads bool (b ∷ c ∷ p) text valid small plain h = absurd (ground (arith, valid))
  payload-reads int32 p text valid small plain h =
      int32-reads p text valid small (some-injective (i32_decimal (read_le p)) text (rw valid at h))
  payload-reads int64 p text valid small plain h =
      int64-reads p text valid small (some-injective (i64_decimal (read_le p)) text (rw valid at h))
  payload-reads double p text valid small plain h =
      double-reads_payload p text valid small plain
        (some-injective (double_decimal io (read_le p)) text (rw valid at h))
  payload-reads utf8 p text valid small plain h =
      ap accepted (hex-reads utf8 p text small h) ∙ decoded-text utf8 p refl valid
  payload-reads bytes p text valid small plain h =
      ap accepted (hex-reads bytes p text small h) ∙ decoded-bytes p
  payload-reads array p text valid small plain h =
      ap accepted (hex-reads array p text small h) ∙ decoded-text array p refl valid
  payload-reads object p text valid small plain h =
      ap accepted (hex-reads object p text small h) ∙ decoded-text object p refl valid
  payload-reads unknown p text valid small plain h = absurd (cc h)

  -- A value that passes the check on reading, whose double is neither subnormal nor NaN, comes back
  -- from its text form, if memory is granted and the streams read back what they write.
  pub parse-value_wire :
      (v : Value) (wire : Bytes)
      → payload_valid v.type v.payload ≡ true
      → All (λ b. b < 256) v.payload
      → double_readable v.type v.payload ≡ true
      → value_wire io (some v) ≡ some wire
      → parse_query_value_wire io plan wire ≡ some v
  unfolding value_wire payload_valid
  parse-value_wire v wire valid small plain h = elim (Option-cases (payload_wire io v)) [
    | inl e ↦ absurd (cc (rw (value_wire, e) at h))
    | inr (text, e) ↦
        let made : 86 ∷ 49 ∷ 58 ∷ decimal (type_number v.type) ++ 58 ∷ text ≡ wire =
          some-injective (86 ∷ 49 ∷ 58 ∷ decimal (type_number v.type) ++ 58 ∷ text) wire
            (rw (value_wire, e) at h) in
        let known : v.type ≢ unknown =
          λ q. absurd (cc (sym (ap (λ t. payload_valid t v.payload) q) ∙ valid)) in
        ap (parse_query_value_wire io plan) (sym made)
        ∙ parse-typed io plan v.type text known
        ∙ payload-reads v.type v.payload text valid small plain e
  ]
