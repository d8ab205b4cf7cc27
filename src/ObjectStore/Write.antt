-- ===== src/ObjectStore/Write.antt =====
-- The mutations of src/esdb_object_store.cpp: `insert_change`, `esdb_object_store_ensure`, `_put`,
-- `_delete` and `_prune_changes`. `clock` gives the times that `unix_time_ms` returns in a call, in
-- their order.
use esdb.Prelude.{
  ℕ, suc, Bool, true, false, Option, none, some, List, [], ◌∷◌, ltb, ◌&&◌, if◌then◌else◌,
}
use esdb.Bytes.{Bytes, CString}
use esdb.Errors.{Status, Phase}
use esdb.SqliteCode
use esdb.Utf8.{valid_object_store_name, valid_object_store_key}
use esdb.Value.{Value, ValueType, null}
use esdb.Store.State.{revision_max, valid_value_type}
use esdb.Runtime.Session.{count_operation}
use esdb.ObjectStore.Sql.{
  Row, ObjectChangeOperation, put, delete, column, not_positive, StoreEngine, insert_change_row,
  upsert_record, delete_record, prune_changes,
}
use esdb.ObjectStore.Action.{
  Outcome, done, stopped, Action, pure, refuse, ◌>>=◌, ◌>>◌, first, all, end_of,
}
use esdb.ObjectStore.Mutation.{mutate}
use esdb.ObjectStore.Schema.{
  corrupt, unfinished, finished, find_store_id, create_store_id, set_store_revision,
  require_store_writable, ensure_object_store_schema,
}

module _ {Db : Type 0} where
  -- A second step that gives a row has not finished.
  abbrev pub last_step : ℕ → List Row → Option ℕ → Action Db ℕ
  last_step revision [] failure = do end_of failure Phase.object_store; pure revision
  last_step revision (r ∷ rs) failure = unfinished

  -- The rows of the insertion: one, with the revision of the change.
  unfoldable pub inserted_revision : List Row → Option ℕ → Action Db ℕ
  inserted_revision [] failure = do end_of failure Phase.object_store; unfinished
  inserted_revision (r ∷ rs) failure =
      let revision = (column 0 r).int64 in
      if not_positive revision then corrupt else last_step revision rs failure

  abbrev pub second_step : List Row → Option ℕ → Action Db Bool
  second_step [] failure = do end_of failure Phase.object_store; pure true
  second_step (r ∷ rs) failure = unfinished

  -- Whether a record was deleted.
  unfoldable pub deleted_row : List Row → Option ℕ → Action Db Bool
  deleted_row [] failure = do end_of failure Phase.object_store; pure false
  deleted_row (r ∷ rs) failure = second_step rs failure

  -- The loop of `esdb_object_store_prune_changes`.
  unfoldable pub count_pruned : ℕ → List Row → Option ℕ → Action Db ℕ
  count_pruned n [] failure = do end_of failure Phase.object_store; pure n
  count_pruned n (r ∷ rs) failure =
      let rest = count_pruned (suc n) rs failure in
      if not_positive (column 0 r).int64 then corrupt else rest

module _ {Db : Type 0} (store : StoreEngine Db) where
  unfoldable pub insert_change :
      (now id : ℕ) → Bytes → ObjectChangeOperation → ValueType → Action Db ℕ
  insert_change now id key operation type = do
    r ← all store (insert_change_row id key operation type now)
    inserted_revision r.rows r.failure

  -- The steps of a put between its `begin` and its `commit`.
  unfoldable pub put_body : (ℕ → ℕ) → Bytes → Bytes → Value → Action Db ℕ
  put_body clock name key value = do
    id ← create_store_id store (clock 0) name
    revision ← insert_change (clock 1) id key put value.type
    r ← first store (upsert_record id key value revision (clock 2)) Phase.object_store
    finished r
    set_store_revision store revision
    pure revision

  unfoldable pub put_valid : (ℕ → ℕ) → Bytes → Bytes → Value → Action Db ℕ
  put_valid clock name key value = do
    ensure_object_store_schema store
    require_store_writable store
    mutate store (put_body clock name key value)

  abbrev pub bad_put : Action Db ℕ
  bad_put = refuse Status.invalid_argument Phase.object_store SqliteCode.misuse

  abbrev pub put_checked : (ℕ → ℕ) → CString → CString → Option Value → Action Db ℕ
  put_checked clock (some name) (some key) (some value) =
      if valid_object_store_name (some name)
        && (valid_object_store_key (some key) && valid_value_type value.type)
      then put_valid clock name key value
      else bad_put
  put_checked clock _ _ _ = bad_put

  -- `esdb_object_store_put`: the revision of the change.
  unfoldable pub object_store_put : (ℕ → ℕ) → CString → CString → Option Value → Action Db ℕ
  object_store_put clock name key value s = put_checked clock name key value (count_operation s)

  -- The change of a record that was deleted: its revision, or `none` where there was no record.
  abbrev pub log_delete : ℕ → ℕ → Bytes → Bool → Action Db (Option ℕ)
  log_delete now id key false = pure none
  log_delete now id key true = do
    revision ← insert_change now id key delete null
    set_store_revision store revision
    pure (some revision)

  unfoldable pub remove_record : ℕ → Bytes → Action Db Bool
  remove_record id key = do r ← all store (delete_record id key); deleted_row r.rows r.failure

  -- The steps of a delete between its `begin` and its `commit`.
  unfoldable pub delete_body : ℕ → ℕ → Bytes → Action Db (Option ℕ)
  delete_body now id key = do deleted ← remove_record id key; log_delete now id key deleted

  abbrev pub delete_found : ℕ → Bytes → Outcome ℕ → Action Db (Option ℕ)
  delete_found now key (done id) = do
    require_store_writable store
    mutate store (delete_body now id key)
  delete_found now key (stopped Status.not_found e) = pure none
  delete_found now key (stopped st e) = λ s. (stopped st e, s)

  unfoldable pub delete_in : ℕ → Bytes → Bytes → Action Db (Option ℕ)
  delete_in now name key s = let r = find_store_id store name s in delete_found now key r.0 r.1

  unfoldable pub delete_valid : ℕ → Bytes → Bytes → Action Db (Option ℕ)
  delete_valid now name key = do ensure_object_store_schema store; delete_in now name key

  abbrev pub delete_checked : ℕ → CString → CString → Action Db (Option ℕ)
  delete_checked now (some name) (some key) =
      if valid_object_store_name (some name) && valid_object_store_key (some key)
      then delete_valid now name key
      else refuse Status.invalid_argument Phase.object_store SqliteCode.misuse
  delete_checked now _ _ = refuse Status.invalid_argument Phase.object_store SqliteCode.misuse

  -- `esdb_object_store_delete`: the revision of the change, or `none` for `out_deleted` 0.
  unfoldable pub object_store_delete : ℕ → CString → CString → Action Db (Option ℕ)
  object_store_delete now name key s = delete_checked now name key (count_operation s)

  abbrev ensured : ℕ → Bytes → Outcome ℕ → Action Db (Unit {0})
  ensured now name (done id) = pure tt
  ensured now name (stopped Status.not_found e) = do
    require_store_writable store
    _ ← create_store_id store now name
    pure tt
  ensured now name (stopped st e) = λ s. (stopped st e, s)

  unfoldable pub ensure_found : ℕ → Bytes → Action Db (Unit {0})
  ensure_found now name s = let r = find_store_id store name s in ensured now name r.0 r.1

  abbrev ensure_checked : ℕ → CString → Action Db (Unit {0})
  ensure_checked now name =
      if valid_object_store_name name
      then (do
        ensure_object_store_schema store
        elim name [ none ↦ pure tt | some text ↦ ensure_found now text ])
      else refuse Status.invalid_argument Phase.object_store SqliteCode.mismatch

  -- `esdb_object_store_ensure`
  unfoldable pub object_store_ensure : ℕ → CString → Action Db (Unit {0})
  object_store_ensure now name s = ensure_checked now name (count_operation s)

  abbrev prune : ℕ → Action Db ℕ
  prune through = do
    ensure_object_store_schema store
    require_store_writable store
    r ← all store (prune_changes through)
    count_pruned 0 r.rows r.failure

  -- `esdb_object_store_prune_changes`
  unfoldable pub object_store_prune_changes : ℕ → Action Db ℕ
  object_store_prune_changes through s =
      (if ltb revision_max through
          then refuse Status.invalid_argument Phase.object_store SqliteCode.range
          else prune through)
        (count_operation s)
