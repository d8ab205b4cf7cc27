-- ===== src/Examples/Wires.antt =====
-- The theorems on the decimal and value texts of adapters/externalobject/
-- esdb_externalobject.cpp at small inputs.
use esdb.Prelude.{
  ◌⊎◌, none, length, ℕ, ◌≤◌, ◌<◌, ◌≡◌, ◌↔◌, refl, arith, true, false, ◌==◌, some, List, [], ◌∷◌,
  All,
}
use esdb.Bytes.{Bytes}
use esdb.Errors.{AllocPlan, all_granted}
use esdb.Store.State.{revision_max}
use esdb.Value.{Value, int32, read_le, get_int32}
use esdb.Value.Canonical.{payload_valid}
use esdb.ObjectStore.RevisionText.{decimal, digits}
use esdb.Adapter.Decimal.{
  canonical_number, parse_unsigned, parse_revision_decimal, parse_i64_decimal, u64_decimal,
  i64_decimal,
}
use esdb.Adapter.DecimalDigits.{canonical-decimal}
use esdb.Adapter.DecimalRoundTrip.{
  parse_unsigned_iff, parse_revision_decimal_iff, parse_i64_decimal_iff,
}
use esdb.Adapter.Wire.{FloatText, value_wire, payload_wire, i32_decimal}
use esdb.Adapter.WireNumbers.{IsFloatText, double_readable, is_word}
use esdb.Adapter.Hex.{hex_encode, hex_digit}
use esdb.Adapter.ResultWire.{
  reply, reply_header, final_names, append_query_row_wire, with_names, set_query_column_names,
  encode_names, names_within, append_named, append_cells, finish_row, encode_cells, cell, add_row,
  primed, started,
}
use esdb.Adapter.RecordWire.{append_record_wire}
use esdb.Adapter.RecordLines.{Stopped, Added, append_record_wire-outcome}
use esdb.Adapter.ResultBounds.{QueryRow, append_all}
use esdb.Adapter.ResultSize.{queried, reply-bounded}
use esdb.Adapter.WireParse.{parse_query_value_wire, parse_query_parameter_wire}
use esdb.Adapter.WireRoundTrip.{parse-value_wire}
use esdb.Adapter.WireLines.{parameter_wire, LinesOf, parse_query_parameter_wire-lines}
use esdb.Runtime.Savepoints.{same_text}

-- "12" as a revision and "-1" as an integer.
parse_revision_decimal_iff_example :
    (parse_revision_decimal (some (49 ∷ 50 ∷ [])) ≡ some 12)
    ↔ ((49 ∷ 50 ∷ [] ≡ u64_decimal 12) × (12 ≤ revision_max))
parse_revision_decimal_iff_example = parse_revision_decimal_iff (49 ∷ 50 ∷ []) 12

parse_i64_decimal_iff_example :
    (parse_i64_decimal (some (45 ∷ 49 ∷ [])) ≡ some 18446744073709551615) ↔ (
      (45 ∷ 49 ∷ [] ≡ i64_decimal 18446744073709551615)
      × (18446744073709551615 < 18446744073709551616))
parse_i64_decimal_iff_example = parse_i64_decimal_iff (45 ∷ 49 ∷ []) 18446744073709551615

-- Doubles written by their bit patterns.
abbrev patterns : FloatText
patterns = record {
  shown = decimal;
  read_double = λ text. parse_unsigned 18446744073709551615 (some text);
}

canonical-is_word : (text : Bytes) → canonical_number text ≡ true → is_word text ≡ false
unfolding canonical_number same_text
canonical-is_word [] h = absurd (cc h)
canonical-is_word (c ∷ text) h =
    let n : (c == 78) ≡ false = ground (arith, h) in
    let i : (c == 73) ≡ false = ground (arith, h) in
    let sign : (c == 45) ≡ false = ground (arith, h) in rw (n, i, sign) refl

patterns-IsFloatText : IsFloatText patterns
unfolding IsFloatText
patterns-IsFloatText bits fits normal = (
  (parse_unsigned_iff 18446744073709551615 (decimal bits) bits).1 (refl, omega arith),
  canonical-is_word (decimal bits) (canonical-decimal bits),
)

-- The integer -1, whose text is "V1:2:-1".
abbrev minus_one : Value
minus_one = record { type = int32; payload = 255 ∷ 255 ∷ 255 ∷ 255 ∷ [] }

abbrev minus_one_text : Bytes
minus_one_text = 86 ∷ 49 ∷ 58 ∷ 50 ∷ 58 ∷ 45 ∷ 49 ∷ []

minus_one-valid : payload_valid minus_one.type minus_one.payload ≡ true
unfolding payload_valid
minus_one-valid = refl

minus_one-readable : double_readable minus_one.type minus_one.payload ≡ true
unfolding double_readable
minus_one-readable = refl

minus_one-wire : value_wire patterns (some minus_one) ≡ some minus_one_text
unfolding value_wire payload_wire get_int32 i32_decimal decimal digits read_le
minus_one-wire = refl

minus_one-bytes : All (λ b. b < 256) minus_one.payload
minus_one-bytes = (omega arith, (omega arith, (omega arith, (omega arith, tt))))

parse-value_wire_example :
    parse_query_value_wire patterns all_granted minus_one_text ≡ some minus_one
parse-value_wire_example =
    parse-value_wire patterns all_granted patterns-IsFloatText refl refl minus_one minus_one_text
      minus_one-valid minus_one-bytes minus_one-readable minus_one-wire

abbrev plans : ℕ → AllocPlan
plans n = all_granted

abbrev lines : List Bytes
lines = minus_one_text ∷ minus_one_text ∷ []

minus_one-parsed : parse_query_value_wire patterns all_granted minus_one_text ≡ some minus_one
minus_one-parsed =
    parse-value_wire patterns all_granted patterns-IsFloatText refl refl minus_one minus_one_text
      minus_one-valid minus_one-bytes minus_one-readable minus_one-wire

lines-LinesOf : LinesOf patterns plans lines (minus_one ∷ minus_one ∷ [])
unfolding LinesOf
lines-LinesOf = (refl, minus_one-parsed, (refl, minus_one-parsed, tt))

parse_query_parameter_wire-lines_example :
    parse_query_parameter_wire patterns plans (some (parameter_wire lines))
    ≡ some (minus_one ∷ minus_one ∷ [])
unfolding decimal digits
parse_query_parameter_wire-lines_example =
    parse_query_parameter_wire-lines patterns plans lines (minus_one ∷ minus_one ∷ []) lines-LinesOf
      (omega arith) (omega arith)

-- A row with the name "a" of its column and the integer -1, after names that were not known.
abbrev row_of_one : QueryRow
row_of_one = record {
  plan = all_granted;
  column_names = some (some (97 ∷ []) ∷ []);
  values = some (some minus_one ∷ []);
}

one_column : (queried patterns 10 none (row_of_one ∷ row_of_one ∷ [])).column_count ≡ 1
unfolding final_names append_all append_query_row_wire with_names set_query_column_names
    encode_names names_within append_named append_cells finish_row encode_cells cell value_wire
    payload_wire get_int32 i32_decimal decimal digits read_le add_row primed started hex_encode
    hex_digit
one_column = refl

-- "Q1:1:2:2:0:0", "N:61" and two lines "R:2:-1".
two_rows :
    reply 2 0 (append_all patterns (row_of_one ∷ row_of_one ∷ []) (primed none (started 10)))
    ≡ 81 ∷ 49 ∷ 58 ∷ 49 ∷ 58 ∷ 50 ∷ 58 ∷ 50 ∷ 58 ∷ 48 ∷ 58 ∷ 48 ∷ 10 ∷ 78 ∷ 58 ∷ 54 ∷ 49 ∷ 10 ∷ 82
      ∷ 58 ∷ 50 ∷ 58 ∷ 45 ∷ 49 ∷ 10 ∷ 82 ∷ 58 ∷ 50 ∷ 58 ∷ 45 ∷ 49 ∷ 10 ∷ []
unfolding reply reply_header u64_decimal final_names append_all append_query_row_wire with_names
    set_query_column_names encode_names names_within append_named append_cells finish_row
    encode_cells cell value_wire payload_wire get_int32 i32_decimal decimal digits read_le add_row
    primed started hex_encode hex_digit
two_rows = refl

reply-bounded_example :
    (length
        (reply 2 0 (append_all patterns (row_of_one ∷ row_of_one ∷ []) (primed none (started 10))))
      ≤ 16777216)
    × ((queried patterns 10 none (row_of_one ∷ row_of_one ∷ [])).returned_rows ≤ 10)
reply-bounded_example =
    reply-bounded patterns 10 2 0 none (row_of_one ∷ row_of_one ∷ []) (omega arith) (omega arith)
      (omega arith) (omega (arith, one_column))

-- The record "a" of the integer -1 at revision 7, in an empty body.
append_record_wire-outcome_example :
    Stopped
      (record { body = []; failed = false; count = 0 })
      (append_record_wire patterns all_granted 7
        (some (97 ∷ []))
        (some minus_one)
        (record { body = []; failed = false; count = 0 }))
    ⊎ Added patterns 7
        (some (97 ∷ []))
        (some minus_one)
        (record { body = []; failed = false; count = 0 })
        (append_record_wire patterns all_granted 7
          (some (97 ∷ []))
          (some minus_one)
          (record { body = []; failed = false; count = 0 }))
append_record_wire-outcome_example =
    append_record_wire-outcome patterns all_granted 7 (some (97 ∷ [])) (some minus_one)
      (record { body = []; failed = false; count = 0 })
