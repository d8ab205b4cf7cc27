-- ===== src/Adapter/ResultWire.antt =====
-- The reply of `querySql` in adapters/externalobject/esdb_externalobject.cpp: a header line, the
-- names of the columns and one line for each row, built by the callback of `esdb_query`.
use esdb.Prelude.{
  ℕ, ◌+◌, Bool, true, false, not, ◌&&◌, ◌||◌, Option, none, some, List, [], ◌∷◌, ◌++◌, ltb, leb,
  ◌==◌, if◌then◌else◌, length,
}
use esdb.Bytes.{Bytes, CString}
use esdb.Errors.{AllocPlan, AllocOutcome, attempt}
use esdb.Value.{Value}
use esdb.ObjectStore.RevisionText.{decimal}
use esdb.Adapter.Hex.{hex_encode}
use esdb.Adapter.Decimal.{u64_decimal}
use esdb.Adapter.Wire.{FloatText, value_wire}

pub record QueryWireContext : Type 0 where
  pub names : Bytes
  pub rows : Bytes
  pub column_count : ℕ
  pub returned_rows : ℕ
  pub max_rows : ℕ
  pub names_ready : Bool
  pub truncated : Bool
  pub failed : Bool

abbrev pub query_result_wire_max_bytes : ℕ
query_result_wire_max_bytes = 16777216

abbrev pub query_result_header_max_bytes : ℕ
query_result_header_max_bytes = 128

-- What stands between two cells: nothing before the first.
abbrev separator : Bool → Bytes
separator true = []
separator false = 124 ∷ []

abbrev prefixed : Bytes → Option Bytes → Option Bytes
prefixed text none = none
prefixed text (some rest) = some (text ++ rest)

-- The names in hexadecimal; a null pointer among them is refused.
unfoldable pub encode_names : Bool → List CString → Option Bytes
encode_names first [] = some []
encode_names first (none ∷ names) = none
encode_names first (some name ∷ names) =
    prefixed (separator first ++ hex_encode name) (encode_names false names)

-- The size of the names with the header's share is within the limit of the reply.
unfoldable pub names_within : ℕ → Bytes → QueryWireContext → Option QueryWireContext
names_within column_count names context =
    if ltb query_result_wire_max_bytes (length names + query_result_header_max_bytes)
    then none
    else some (record context { column_count = column_count; names = names; names_ready = true })

-- The pointer to the names is null or one to as many names as there are columns.
unfoldable pub set_query_column_names :
    Option (List CString) → ℕ → QueryWireContext → Option QueryWireContext
set_query_column_names none column_count context =
    if column_count == 0 then names_within 0 (78 ∷ 58 ∷ 10 ∷ []) context else none
set_query_column_names (some column_names) column_count context =
    elim (encode_names true column_names) [
      | none ↦ none
      | some text ↦ names_within column_count (78 ∷ 58 ∷ text ++ 10 ∷ []) context
    ]

-- The text of a value without its "V1:".
unfoldable pub cell : FloatText → Option Value → Option Bytes
cell io value = elim (value_wire io value) [
  | some (v ∷ version ∷ colon ∷ text) ↦
      if v == 86 && version == 49 && colon == 58 then some text else none
  | _ ↦ none
]

unfoldable pub encode_cells : FloatText → Bool → List (Option Value) → Option Bytes
encode_cells io first [] = some []
encode_cells io first (value ∷ values) = elim (cell io value) [
  | none ↦ none
  | some text ↦ prefixed (separator first ++ text) (encode_cells io false values)
]

abbrev pub failing : QueryWireContext → ℕ × QueryWireContext
failing context = (1, record context { failed = true })

-- A row that would exceed the limit is not added, and the reply is marked as truncated.
unfoldable pub add_row : Bytes → QueryWireContext → ℕ × QueryWireContext
add_row row context =
    if ltb query_result_wire_max_bytes
      (length context.names + length context.rows + length row + query_result_header_max_bytes)
    then (1, record context { truncated = true })
    else (
      0,
      record context { rows = context.rows ++ row; returned_rows = context.returned_rows + 1 },
    )

unfoldable pub finish_row : Option Bytes → QueryWireContext → ℕ × QueryWireContext
finish_row none context = failing context
finish_row (some text) context = add_row (82 ∷ 58 ∷ text ++ 10 ∷ []) context

-- After the names: the limit on rows, the cells, and the limit on bytes. The allocations of the row
-- have one outcome, since appending has no effect when it throws.
unfoldable pub append_cells :
    FloatText → AllocOutcome → List (Option Value) → QueryWireContext → ℕ × QueryWireContext
append_cells io row_outcome values context =
    if leb context.max_rows context.returned_rows
    then (1, record context { truncated = true })
    else attempt row_outcome (λ st. failing context)
        (finish_row (encode_cells io true values) context)

-- The row after its names were set, or were refused.
unfoldable pub append_named :
    FloatText
    → AllocOutcome
    → List (Option Value)
    → QueryWireContext
    → Option QueryWireContext
    → ℕ × QueryWireContext
append_named io row_outcome values context none = failing context
append_named io row_outcome values context (some named) = append_cells io row_outcome values named

-- The names are those of the first row, unless they are known from the statement.
unfoldable pub with_names :
    FloatText
    → AllocPlan
    → Option (List CString)
    → List (Option Value)
    → QueryWireContext
    → ℕ × QueryWireContext
with_names io plan column_names values context =
    if context.names_ready
    then (if context.column_count == length values
        then append_cells io (plan 1) values context
        else failing context)
    else attempt (plan 0) (λ st. failing context)
        (append_named io (plan 1) values context
          (set_query_column_names column_names (length values) context))

abbrev pub is_null {ℓ} : {A : Type ℓ} → Option A → Bool
is_null none = true
is_null (some a) = false

-- The row callback: not 0 stops the query. The number of columns is that of the values.
unfoldable pub append_query_row_wire :
    FloatText
    → AllocPlan
    → Option (List CString)
    → Option (List (Option Value))
    → QueryWireContext
    → ℕ × QueryWireContext
append_query_row_wire io plan column_names none context = (1, context)
append_query_row_wire io plan column_names (some values) context =
    if not (length values == 0) && is_null column_names
    then (1, context)
    else with_names io plan column_names values context

-- The context before the query. The names of the prepared statement are `none` where it could not be
-- prepared; `prime_query_column_names` passes a null pointer where there is no column.
unfoldable pub started : ℕ → QueryWireContext
started max_rows = record {
  names = [];
  rows = [];
  column_count = 0;
  returned_rows = 0;
  max_rows = max_rows;
  names_ready = false;
  truncated = false;
  failed = false;
}

unfoldable pub prime_query_column_names : List CString → QueryWireContext → Option QueryWireContext
prime_query_column_names [] context = set_query_column_names none 0 context
prime_query_column_names (name ∷ names) context =
    set_query_column_names (some (name ∷ names)) (length (name ∷ names)) context

abbrev pub names_or_failed : QueryWireContext → Option QueryWireContext → QueryWireContext
names_or_failed context none = record context { failed = true }
names_or_failed context (some named) = named

unfoldable pub primed : Option (List CString) → QueryWireContext → QueryWireContext
primed none context = context
primed (some names) context = names_or_failed context (prime_query_column_names names context)

-- The names line of a query that showed no column.
unfoldable pub final_names : QueryWireContext → QueryWireContext
final_names context =
    if context.names_ready
    then context
    else record context { names = 78 ∷ 58 ∷ 10 ∷ []; column_count = 0 }

unfoldable pub reply_header : ℕ → ℕ → QueryWireContext → Bytes
reply_header total_rows changes context =
    let cut = context.truncated || ltb context.returned_rows total_rows in
    (81 ∷ 49 ∷ 58 ∷ decimal context.column_count)
    ++ 58 ∷ decimal context.returned_rows
    ++ 58 ∷ u64_decimal total_rows
    ++ 58 ∷ u64_decimal changes
    ++ 58 ∷ (if cut then 49 else 48) ∷ 10 ∷ []

unfoldable pub reply : ℕ → ℕ → QueryWireContext → Bytes
reply total_rows changes context =
    reply_header total_rows changes (final_names context)
    ++ (final_names context).names
    ++ (final_names context).rows
