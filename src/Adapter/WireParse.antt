-- ===== src/Adapter/WireParse.antt =====
-- `parse_query_value_wire` and `parse_query_parameter_wire` of
-- adapters/externalobject/esdb_externalobject.cpp. The texts are parts of one C string, so that
-- `c_str()` gives them whole.
use esdb.Prelude.{
  ℕ, zero, suc, ◌%◌, Bool, true, ◌&&◌, ◌||◌, Option, none, some, List, [], ◌∷◌, ltb, leb, ◌==◌,
  if◌then◌else◌, length,
}
use esdb.Bytes.{Bytes, CString}
use esdb.Errors.{Reply, AllocPlan, cleared, ok}
use esdb.Value.{
  Value, ValueType, null, bool, int32, int64, double, utf8, bytes, array, object, unknown,
  create_null, create_bool, create_int32, create_int64, create_double,
}
use esdb.Adapter.Handles.{is_empty}
use esdb.Adapter.Decimal.{parse_i64_decimal, parse_u32_decimal}
use esdb.Adapter.Wire.{FloatText, parse_double_decimal, make_text_value}
use esdb.Runtime.Savepoints.{same_text}

-- The text before the first separator and the one after it; `none` where there is no separator.
unfoldable pub split_at : ℕ → Bytes → Option (Bytes × Bytes)
split_at separator [] = none
split_at separator (c ∷ text) =
    let rest = split_at separator text in
    if c == separator
    then some ([], text)
    else (elim rest [ none ↦ none | some parts ↦ some (c ∷ parts.0, parts.1) ])

abbrev pub numbered_type : ℕ → ValueType
numbered_type n =
    if n == 0
    then null
    else (if n == 1
        then bool
        else (if n == 2
            then int32
            else (if n == 3
                then int64
                else (if n == 4
                    then double
                    else (if n == 5
                        then utf8
                        else (if n == 6
                            then bytes
                            else (if n == 7
                                then array
                                else (if n == 8 then object else unknown))))))))

-- `== ESDB_OK`, with what was created.
abbrev pub accepted : Reply (Option Value) → Option Value
accepted r = elim r.status [ ok ↦ r.out | _ ↦ none ]

-- A 64-bit pattern within the range of a signed 32-bit integer.
abbrev pub in_int32 : ℕ → Bool
in_int32 n = ltb n 2147483648 || leb 18446744071562067968 n

unfoldable pub parse_payload : FloatText → AllocPlan → ValueType → Bytes → Option Value
parse_payload io plan null payload =
    if is_empty payload then accepted (create_null plan true) else none
parse_payload io plan bool payload =
    if same_text payload (48 ∷ []) || same_text payload (49 ∷ [])
    then accepted (create_bool plan (if same_text payload (49 ∷ []) then 1 else 0) true)
    else none
parse_payload io plan int32 payload = elim (parse_i64_decimal (some payload)) [
  | none ↦ none
  | some n ↦ if in_int32 n then accepted (create_int32 plan (n % 4294967296) true) else none
]
parse_payload io plan int64 payload = elim (parse_i64_decimal (some payload)) [
  | none ↦ none
  | some n ↦ accepted (create_int64 plan n true)
]
parse_payload io plan double payload = elim (parse_double_decimal io (some payload)) [
  | none ↦ none
  | some bits ↦ accepted (create_double plan bits true)
]
parse_payload io plan unknown payload = none
parse_payload io plan type payload = accepted (make_text_value plan cleared type (some payload))

-- The number of the type, the separator and the payload, after "V1:".
unfoldable pub parse_typed : FloatText → AllocPlan → Bytes → Option Value
parse_typed io plan text = elim (split_at 58 text) [
  | none ↦ none
  | some parts ↦ elim (parse_u32_decimal parts.0) [
    | none ↦ none
    | some type ↦ if ltb 8 type then none else parse_payload io plan (numbered_type type) parts.1
  ]
]

unfoldable pub parse_query_value_wire : FloatText → AllocPlan → Bytes → Option Value
parse_query_value_wire io plan (v ∷ version ∷ colon ∷ a ∷ b ∷ text) =
    if v == 86 && version == 49 && colon == 58 then parse_typed io plan (a ∷ b ∷ text) else none
parse_query_value_wire io plan _ = none

-- The text up to the end of a line, and the text after it.
unfoldable pub next_line : Bytes → Bytes × Bytes
next_line text = elim (split_at 10 text) [ none ↦ (text, []) | some parts ↦ parts ]

abbrev all_newlines : Bytes → Bool
all_newlines [] = true
all_newlines (c ∷ text) = c == 10 && all_newlines text

-- One value, and those of the lines after it.
abbrev pub with_value : Option Value → Option (List Value × Bytes) → Option (List Value × Bytes)
with_value (some v) (some read) = some (v ∷ read.0, read.1)
with_value _ _ = none

-- The loop over the announced number of lines: each has its own allocations, and an empty line or
-- one that is missing is refused. It hands on the text that is left.
unfoldable pub parse_lines : FloatText → (ℕ → AllocPlan) → ℕ → Bytes → Option (List Value × Bytes)
parse_lines io plans zero text = some ([], text)
parse_lines io plans (suc count) text =
    let rest = parse_lines io plans count (next_line text).1 in
    if is_empty (next_line text).0
    then none
    else with_value (parse_query_value_wire io (plans count) (next_line text).0) rest

-- The number of values that the header "P1:" announces.
unfoldable pub parse_header : Bytes → Option ℕ
parse_header (p ∷ version ∷ colon ∷ a ∷ text) =
    if p == 80 && version == 49 && colon == 58
    then (elim (parse_u32_decimal (a ∷ text)) [
      | none ↦ none
      | some count ↦ if ltb 1024 count then none else some count
    ])
    else none
parse_header _ = none

-- Only line ends may follow the last value.
abbrev whole_list : Option (List Value × Bytes) → Option (List Value)
whole_list none = none
whole_list (some read) = if all_newlines read.1 then some read.0 else none

unfoldable pub parse_parameters : FloatText → (ℕ → AllocPlan) → Bytes → Option (List Value)
parse_parameters io plans wire = elim (parse_header (next_line wire).0) [
  | none ↦ none
  | some count ↦ whole_list (parse_lines io plans count (next_line wire).1)
]

unfoldable pub parse_query_parameter_wire :
    FloatText → (ℕ → AllocPlan) → CString → Option (List Value)
parse_query_parameter_wire io plans none = none
parse_query_parameter_wire io plans (some text) =
    if ltb 8388608 (length text) then none else parse_parameters io plans text
