-- ===== src/ObjectStore/Answers.antt =====
-- The rows that the SQL of src/esdb_object_store.cpp gives.
use esdb.Prelude.{ℕ, suc, Option, none, some, List, [], ◌∷◌, map, length, take}
use esdb.Bytes.{Bytes}
use esdb.Value.{
  ValueType, buffer, null, bool, int32, int64, double, utf8, bytes, array, object, unknown,
}
use esdb.ObjectStore.Sql.{
  Query, Row, Cell, ObjectChangeOperation, put, delete, unknown_operation, integer_storage,
  text_storage, blob_storage, count_tables, read_revision, read_schema_version, insert_store,
  select_store, insert_change_row, upsert_record, write_revision, select_record, record_exists,
  delete_record, count_records, scan_records, select_changes, prune_changes,
}
use esdb.ObjectStore.Tables.{
  Tables, RecordRow, ChangeRow, id_of, find_record, records_of, records_after, pruned_changes,
  joined_changes,
}

abbrev pub int_cell : ℕ → Cell
int_cell n = record { storage = integer_storage; int64 = n; content = buffer [] }

abbrev pub text_cell : Bytes → Cell
text_cell bs = record { storage = text_storage; int64 = 0; content = buffer bs }

abbrev pub blob_cell : Bytes → Cell
blob_cell bs = record { storage = blob_storage; int64 = 0; content = buffer bs }

abbrev pub code_of_type : ValueType → ℕ
code_of_type null = 0
code_of_type bool = 1
code_of_type int32 = 2
code_of_type int64 = 3
code_of_type double = 4
code_of_type utf8 = 5
code_of_type bytes = 6
code_of_type array = 7
code_of_type object = 8
code_of_type unknown = 9

abbrev pub code_of_operation : ObjectChangeOperation → ℕ
code_of_operation put = 1
code_of_operation delete = 2
code_of_operation unknown_operation = 3

abbrev pub value_row : RecordRow → Row
value_row r = int_cell (code_of_type r.value.type) ∷ blob_cell r.value.payload ∷ []

abbrev pub scan_row : RecordRow → Row
scan_row r =
    text_cell r.key
    ∷ int_cell (code_of_type r.value.type)
    ∷ blob_cell r.value.payload
    ∷ int_cell r.revision
    ∷ []

abbrev pub change_row : ChangeRow × Bytes → Row
change_row (c, name) =
    int_cell c.revision
    ∷ int_cell (code_of_operation c.operation)
    ∷ int_cell (code_of_type c.value_type)
    ∷ text_cell name
    ∷ text_cell c.key
    ∷ []

abbrev pub option_row {ℓ} : {A : Type ℓ} → (A → Row) → Option A → List Row
option_row f none = []
option_row f (some a) = f a ∷ []

-- The record of a key in the Store of a name, which the joins of the queries find.
unfoldable pub record_at : Bytes → Bytes → Tables → Option RecordRow
record_at name key t = elim (id_of name t.stores) [
  | none ↦ none
  | some id ↦ find_record id key t.records
]

unfoldable pub records_at : Bytes → Tables → List RecordRow
records_at name t = elim (id_of name t.stores) [ none ↦ [] | some id ↦ records_of id t.records ]

abbrev pub meta_row : Option Bytes → ℕ → List Row
meta_row none sequence = []
meta_row (some text) sequence = (text_cell text ∷ int_cell sequence ∷ []) ∷ []

unfoldable pub answer : Query → Tables → List Row
unfolding record_at records_at
answer count_tables t = (int_cell t.table_count ∷ []) ∷ []
answer read_revision t = meta_row t.store_revision t.sequence
answer read_schema_version t = option_row (λ (v : Bytes). text_cell v ∷ []) t.schema_version
answer (insert_store name now) t = []
answer (select_store name) t = option_row (λ (id : ℕ). int_cell id ∷ []) (id_of name t.stores)
answer (insert_change_row id key operation type now) t = (int_cell (suc t.sequence) ∷ []) ∷ []
answer (upsert_record id key value revision now) t = []
answer (write_revision revision) t = []
answer (select_record name key) t = option_row value_row (record_at name key t)
answer (record_exists name key) t =
    option_row (λ (r : RecordRow). int_cell 1 ∷ []) (record_at name key t)
answer (delete_record id key) t =
    option_row (λ (r : RecordRow). int_cell 1 ∷ []) (find_record id key t.records)
answer (count_records name) t = (int_cell (length (records_at name t)) ∷ []) ∷ []
answer (scan_records name after limit) t =
    map scan_row (take limit (records_after after (records_at name t)))
answer (select_changes name after limit) t =
    map change_row (take limit (joined_changes name after t.stores t.changes))
answer (prune_changes through) t =
    map (λ (c : ChangeRow). int_cell c.revision ∷ []) (pruned_changes through t.changes)
