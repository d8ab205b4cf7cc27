-- ===== src/Examples/Objects.antt =====
-- The theorems on the object store of src/esdb_object_store.cpp, on the engine of Disks.
use esdb.Prelude.{◌≡◌, refl, arith, Bool, true, false, none, some, [], ◌∷◌, subst, some-injective}
use esdb.Bytes.{Bytes}
use esdb.Errors.{all_granted}
use esdb.Value.Canonical.{payload_valid}
use esdb.Utf8.{
  valid_object_store_name, valid_object_store_key, valid_c_string, bounded_length, valid_utf8,
  utf8_loop, next_char,
}
use esdb.Runtime.Session.{Session}
use esdb.Runtime.Savepoints.{same_text}
use esdb.ObjectStore.Action.{done}
use esdb.Prelude.{◌≤◌, ◌&&◌}
use esdb.Store.State.{revision_max}
use esdb.ObjectStore.RevisionText.{
  decimal, parse_revision_text, parse_loop, parse-decimal, parse-bounded,
}
use esdb.ObjectStore.Sql.{read_revision, select_record}
use esdb.ObjectStore.Write.{object_store_put, object_store_delete}
use esdb.ObjectStore.Read.{object_store_get, object_store_revision}
use esdb.ObjectStore.Tables.{Tables, RecordRow, id_of, find_record}
use esdb.ObjectStore.Answers.{answer, record_at}
use esdb.ObjectStore.Laws.{has_failed}
use esdb.ObjectStore.AllOrNothing.{AllOrNothing}
use esdb.ObjectStore.Put.{PutResult, object_store_put-outcome}
use esdb.ObjectStore.DeleteTables.{DeleteResult}
use esdb.ObjectStore.Delete.{object_store_delete-outcome}
use esdb.ObjectStore.Schema.{prepare_schema}
use esdb.ObjectStore.Read.{object_store_exists, object_store_count, scan_snapshot}
use esdb.ObjectStore.ChangeLog.{change_snapshot}
use esdb.ObjectStore.Laws.{Kept}
use esdb.ObjectStore.Reads.{reads-keep}
use esdb.ObjectStore.Initialize.{Made, prepare_schema-Made}
use esdb.ObjectStore.Get.{
  Canonical, looked_up, object_store_get-looked_up, object_store_revision-sequence,
}
use esdb.Examples.Disks.{
  Disk, table_engine, table_engine-IsStoreEngine, empty_tables, empty_tables-Sound, ready, store_s,
  key_k, yes_value,
}

-- The same on a disk that is full, and perhaps broken.
abbrev ready_on : Bool → Session Disk
ready_on broken = record ready { handle = record ready.handle { full = true; broken = broken } }

-- A full disk refuses the COMMIT, and the put is undone.
object_store_put-outcome_example :
    AllOrNothing table_engine
      (λ d. d.contents)
      (λ d. d.base)
      (λ d. d.mark)
      (PutResult store_s key_k yes_value empty_tables)
      (ready_on false).handle
      (object_store_put table_engine
        (λ n. 1000)
        (some store_s)
        (some key_k)
        (some yes_value)
        (ready_on false))
object_store_put-outcome_example =
    object_store_put-outcome table_engine table_engine-IsStoreEngine (λ n. 1000) store_s key_k
      yes_value (ready_on false) refl empty_tables-Sound

object_store_delete-outcome_example :
    AllOrNothing table_engine
      (λ d. d.contents)
      (λ d. d.base)
      (λ d. d.mark)
      (DeleteResult store_s key_k empty_tables)
      (ready_on true).handle
      (object_store_delete table_engine 1000 (some store_s) (some key_k) (ready_on true))
object_store_delete-outcome_example =
    object_store_delete-outcome table_engine table_engine-IsStoreEngine 1000 store_s key_k
      (ready_on true) refl empty_tables-Sound

parse-decimal_example : parse_revision_text (some (decimal 42)) ≡ some 42
parse-decimal_example = parse-decimal 42 (omega arith)

-- The text "42".
parsed_42 : parse_revision_text (some (52 ∷ 50 ∷ [])) ≡ some 42
unfolding parse_revision_text parse_loop
parsed_42 = refl

parse-bounded_example : 42 ≤ revision_max
parse-bounded_example = parse-bounded (some (52 ∷ 50 ∷ [])) 42 parsed_42

-- The tables with one record.
abbrev stored_tables : Tables
stored_tables = record empty_tables {
  store_revision = some (49 ∷ []);
  sequence = 1;
  stores = record { id = 1; name = store_s } ∷ [];
  records = record { store_id = 1; key = key_k; value = yes_value; revision = 1 } ∷ [];
}

abbrev stored : Session Disk
stored = record ready { handle = record ready.handle { contents = stored_tables } }

names-valid : (valid_object_store_name (some store_s) && valid_object_store_key (some key_k)) ≡ true
unfolding valid_object_store_name valid_object_store_key valid_c_string bounded_length valid_utf8
    utf8_loop next_char
names-valid = refl

query-fine : has_failed (table_engine.first (select_record store_s key_k) stored.handle).0 ≡ false
unfolding answer record_at id_of find_record same_text
query-fine = refl

stored-Canonical : (r : RecordRow) → record_at store_s key_k stored_tables ≡ some r → Canonical r
unfolding record_at id_of find_record same_text payload_valid
stored-Canonical r h = subst Canonical (some-injective _ r h) refl

object_store_get-looked_up_example :
    (object_store_get table_engine all_granted (some store_s) (some key_k) true stored).0
    ≡ looked_up (record_at store_s key_k stored_tables)
object_store_get-looked_up_example =
    object_store_get-looked_up table_engine table_engine-IsStoreEngine store_s key_k stored refl
      names-valid query-fine stored-Canonical

revision-fine : has_failed (table_engine.first read_revision ready.handle).0 ≡ false
unfolding answer
revision-fine = refl

object_store_revision-sequence_example : (object_store_revision table_engine true ready).0 ≡ done 0
object_store_revision-sequence_example =
    object_store_revision-sequence table_engine table_engine-IsStoreEngine ready refl
      empty_tables-Sound (omega arith) revision-fine

reads-keep_example :
    Kept table_engine
      (λ d. d.contents)
      ready.handle
      (object_store_get table_engine all_granted (some store_s) (some key_k) true ready).1.handle
    × Kept table_engine
        (λ d. d.contents)
        ready.handle
        (object_store_exists table_engine (some store_s) (some key_k) true ready).1.handle
    × Kept table_engine
        (λ d. d.contents)
        ready.handle
        (object_store_count table_engine (some store_s) true ready).1.handle
    × Kept table_engine
        (λ d. d.contents)
        ready.handle
        (object_store_revision table_engine true ready).1.handle
    × ((text : Bytes)
        → Kept table_engine
            (λ d. d.contents)
            ready.handle
            (scan_snapshot table_engine all_granted text (some key_k) 10 ready).1.handle)
    × Kept table_engine
        (λ d. d.contents)
        ready.handle
        (change_snapshot table_engine all_granted (some store_s) 0 10 ready).1.handle
reads-keep_example =
    reads-keep table_engine table_engine-IsStoreEngine all_granted (some store_s) (some key_k) 0 10
      true ready refl

-- A database without the tables.
abbrev no_tables : Tables
no_tables = record empty_tables { table_count = 0; schema_version = none; store_revision = none }

abbrev new : Session Disk
new = record ready {
  handle = record ready.handle { contents = no_tables; base = no_tables };
  object_store_schema_ready = false;
}

prepare_schema-Made_example :
    AllOrNothing table_engine
      (λ d. d.contents)
      (λ d. d.base)
      (λ d. d.mark)
      (λ u after. Made no_tables after)
      new.handle
      (prepare_schema table_engine false new)
prepare_schema-Made_example =
    prepare_schema-Made table_engine table_engine-IsStoreEngine false new (omega arith)
