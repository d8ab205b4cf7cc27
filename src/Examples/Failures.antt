-- ===== src/Examples/Failures.antt =====
-- A put of src/esdb_object_store.cpp on a disk that refuses the COMMIT.
use esdb.Prelude.{◌≡◌, refl, Bool, true, false, some}
use esdb.Utf8.{
  valid_object_store_name, valid_object_store_key, valid_c_string, bounded_length, valid_utf8,
  utf8_loop, next_char,
}
use esdb.Runtime.Engine.{map_sqlite_status}
use esdb.Runtime.Session.{Session}
use esdb.Runtime.Savepoints.{same_text}
use esdb.ObjectStore.Action.{done}
use esdb.Store.State.{revision_max}
use esdb.ObjectStore.RevisionText.{decimal, digits, parse_revision_text, parse_loop}
use esdb.ObjectStore.Write.{object_store_put, object_store_delete}
use esdb.ObjectStore.Tables.{Tables, RecordRow, create_tables, effect, id_of, find_record}
use esdb.ObjectStore.Answers.{answer}
use esdb.ObjectStore.Schema.{prepare_schema}
use esdb.Prelude.{length}
use esdb.Examples.Disks.{
  Disk, run_sql, run_commit, run_rollback, run_rollback_to, table_engine, empty_tables, ready,
  store_s, key_k, yes_value,
}

abbrev put_on : Bool → Disk
put_on broken =
    (object_store_put table_engine (λ n. 1000) (some store_s) (some key_k) (some yes_value)
      (record ready { handle = record ready.handle { full = true; broken = broken } })).1.handle

-- A refused COMMIT is undone. Where the ROLLBACK is refused too, the put has failed with its record
-- still in an open transaction, and what is committed is as before.
refused_commit :
    ((put_on false).contents ≡ empty_tables)
    × ((put_on true).base ≡ empty_tables)
    × ((put_on true).in_transaction ≡ true)
    × (length (put_on true).contents.records ≡ 1)
unfolding run_sql run_commit run_rollback run_rollback_to map_sqlite_status valid_object_store_name
    valid_c_string bounded_length valid_utf8 valid_object_store_key utf8_loop next_char
    object_store_put parse_loop parse_revision_text same_text answer effect id_of
    esdb.Utf8.acceptable esdb.Utf8.continuation esdb.Utf8.lead esdb.Store.State.valid_value_type
    esdb.ObjectStore.Write.put_valid esdb.ObjectStore.Write.insert_change
    esdb.ObjectStore.Write.inserted_revision esdb.ObjectStore.Write.put_body
    esdb.ObjectStore.Action.◌>>=◌ esdb.ObjectStore.Action.exec_step esdb.ObjectStore.Action.all
    esdb.ObjectStore.Action.first esdb.ObjectStore.Action.refuse
    esdb.ObjectStore.Schema.ensure_object_store_schema
    esdb.ObjectStore.Schema.require_store_writable esdb.ObjectStore.Schema.create_store_id
    esdb.ObjectStore.Schema.find_store_id esdb.ObjectStore.Schema.finished
    esdb.ObjectStore.Schema.set_store_revision esdb.ObjectStore.Mutation.mutate
    esdb.ObjectStore.Mutation.begin_store_mutation esdb.ObjectStore.Mutation.begin_as
    esdb.ObjectStore.Mutation.guarded esdb.ObjectStore.Mutation.commit_store_mutation
    esdb.ObjectStore.Mutation.rollback_store_mutation
    esdb.ObjectStore.Mutation.sync_internal_transaction_state esdb.Runtime.Session.count_operation
    esdb.Runtime.Session.exec_sql esdb.Runtime.Session.count_commit
    esdb.Runtime.Session.count_rollback esdb.Runtime.Session.fail esdb.ObjectStore.Tables.next_id
    esdb.ObjectStore.Tables.upsert_row decimal digits
refused_commit = (refl, refl, refl, refl)
