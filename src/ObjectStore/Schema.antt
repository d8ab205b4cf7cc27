-- ===== src/ObjectStore/Schema.antt =====
-- The tables of the object store: `read_store_revision_metadata`, `inspect_store_table_count`,
-- `require_store_writable`, `set_store_revision`, `get_store_id` and `ensure_object_store_schema` of
-- src/esdb_object_store.cpp. The source's times are the calls of `unix_time_ms`.
use esdb.Prelude.{
  ℕ, Bool, true, false, not, Option, none, some, [], ◌∷◌, ltb, leb, ◌==◌, ◌||◌, ◌&&◌, if◌then◌else◌,
}
use esdb.Bytes.{Bytes}
use esdb.Errors.{Status, Phase}
use esdb.SqliteCode
use esdb.Runtime.Engine.{store_schema_sql}
use esdb.Runtime.Savepoints.{same_text}
use esdb.ObjectStore.Sql.{
  Row, Cell, integer_storage, text_storage, column, int32_of, text_of, StoreEngine, count_tables,
  read_revision, read_schema_version, insert_store, select_store, write_revision,
}
use esdb.ObjectStore.Action.{
  done, Action, pure, modify, refuse, refuse_if, quietly, ◌>>=◌, ◌>>◌, exec_step, first,
}
use esdb.ObjectStore.Mutation.{
  begin_store_mutation, guarded, rollback_store_mutation, commit_store_mutation,
}
use esdb.ObjectStore.RevisionText.{parse_revision_text}

abbrev pub is_text : Cell → Bool
is_text c = elim c.storage [ text_storage ↦ true | _ ↦ false ]

abbrev pub is_integer : Cell → Bool
is_integer c = elim c.storage [ integer_storage ↦ true | _ ↦ false ]

abbrev pub corrupt : {Db A : Type 0} → Action Db A
corrupt = refuse Status.corrupt Phase.object_store SqliteCode.corrupt

abbrev pub unfinished : {Db A : Type 0} → Action Db A
unfinished = refuse Status.sqlite Phase.object_store SqliteCode.error

abbrev pub partial_schema : ℕ → Bool
partial_schema count = not (count == 0) && not (count == 4)

module _ {Db : Type 0} where
  -- The revision that was read, and the sequence of the change log.
  unfoldable pub agreeing : Option ℕ → ℕ → Action Db ℕ
  agreeing none sequence = corrupt
  agreeing (some revision) sequence =
      if leb 9223372036854775808 sequence || not (revision == sequence)
      then corrupt
      else pure revision

  unfoldable pub revision_row : Option Row → Action Db ℕ
  revision_row none = corrupt
  revision_row (some r) =
      if not (is_text (column 0 r)) || not (is_integer (column 1 r))
      then corrupt
      else agreeing (parse_revision_text (text_of (column 0 r))) (column 1 r).int64

  unfoldable pub table_count_row : Option Row → Action Db ℕ
  table_count_row none = unfinished
  table_count_row (some r) =
      let count = int32_of (column 0 r) in if ltb 4 count then corrupt else pure count

  -- A statement that gives no row.
  unfoldable pub finished : Option Row → Action Db (Unit {0})
  finished none = pure tt
  finished (some r) = unfinished

  -- The version is the text "1".
  unfoldable pub version_row : Option Row → Action Db (Unit {0})
  version_row none = corrupt
  version_row (some r) =
      let other : Action Db (Unit {0}) =
        refuse Status.unsupported Phase.object_store SqliteCode.mismatch in
      if not (is_text (column 0 r)) then corrupt else elim (text_of (column 0 r)) [
        | none ↦ other
        | some version ↦ if same_text version (49 ∷ []) then pure tt else other
      ]

module _ {Db : Type 0} (store : StoreEngine Db) where
  unfoldable pub read_store_revision_metadata : Action Db ℕ
  read_store_revision_metadata = do r ← first store read_revision Phase.object_store; revision_row r

  unfoldable pub inspect_store_table_count : Action Db ℕ
  inspect_store_table_count = do r ← first store count_tables Phase.object_store; table_count_row r

  abbrev pub writable : Option Bool → Action Db (Unit {0})
  writable none = refuse Status.internal Phase.object_store SqliteCode.error
  writable (some true) = refuse Status.io Phase.object_store SqliteCode.readonly
  writable (some false) = pure tt

  unfoldable pub require_store_writable : Action Db (Unit {0})
  require_store_writable s = writable (store.readonly s.handle) s

  unfoldable pub set_store_revision : ℕ → Action Db (Unit {0})
  set_store_revision revision = do
    r ← first store (write_revision revision) Phase.object_store
    finished r

  -- No row is `ESDB_ERR_NOT_FOUND`, which is not recorded as an error.
  abbrev pub id_row : Option Row → Action Db ℕ
  id_row none = quietly Status.not_found
  id_row (some r) = pure (column 0 r).int64

  unfoldable pub find_store_id : Bytes → Action Db ℕ
  find_store_id name = do r ← first store (select_store name) Phase.object_store; id_row r

  -- `get_store_id` with `create`, at a time.
  unfoldable pub create_store_id : ℕ → Bytes → Action Db ℕ
  create_store_id now name = do
    r ← first store (insert_store name now) Phase.object_store
    finished r
    find_store_id name

  -- The second inspection, behind the write lock: another process may have been here.
  unfoldable pub build_schema : Bool → ℕ → Action Db (Unit {0})
  build_schema owns count =
      if partial_schema count then (λ s. corrupt (rollback_store_mutation store owns s)) else (do
        if count == 0
            then guarded store owns (exec_step store store_schema_sql Phase.object_store)
            else pure tt
        commit_store_mutation store owns)

  unfoldable pub initialize_schema : Action Db (Unit {0})
  initialize_schema = do
    owns ← begin_store_mutation store
    count ← guarded store owns (inspect_store_table_count)
    build_schema owns count

  abbrev pub absent_schema : Bool → Action Db (Unit {0})
  absent_schema true = refuse Status.not_found Phase.object_store SqliteCode.notfound
  absent_schema false = initialize_schema

  unfoldable pub prepare_schema : Bool → Action Db (Unit {0})
  prepare_schema read_only = do
    count ← inspect_store_table_count
    refuse_if (partial_schema count) Status.corrupt Phase.object_store SqliteCode.corrupt
    if count == 0 then absent_schema read_only else pure tt

  unfoldable pub check_schema : Action Db (Unit {0})
  check_schema = do
    r ← first store read_schema_version Phase.object_store
    version_row r
    _ ← read_store_revision_metadata
    modify (λ s. record s { object_store_schema_ready = true })

  abbrev pub ensure_on : Option Bool → Action Db (Unit {0})
  ensure_on none = refuse Status.internal Phase.object_store SqliteCode.error
  ensure_on (some read_only) = do prepare_schema read_only; check_schema

  unfoldable pub ensure_object_store_schema : Action Db (Unit {0})
  ensure_object_store_schema s =
      if s.object_store_schema_ready then (done tt, s) else ensure_on (store.readonly s.handle) s
