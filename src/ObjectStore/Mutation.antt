-- ===== src/ObjectStore/Mutation.antt =====
-- The mutation scope of src/esdb_object_store.cpp: a transaction of its own, or a savepoint inside
-- one that the caller has begun.
use esdb.Prelude.{Bool, true, false, not, [], ◌∷◌, if◌then◌else◌}
use esdb.Bytes.{Bytes}
use esdb.Errors.{Phase}
use esdb.Runtime.Engine.{
  Sql, immediate, begin_sql, commit_sql, rollback_sql, savepoint_sql, release_sql,
  rollback_and_release_sql,
}
use esdb.Runtime.Session.{Session, count_commit, count_rollback}
use esdb.ObjectStore.Sql.{StoreEngine}
use esdb.ObjectStore.Action.{
  Outcome, done, stopped, is_done, Action, pure, modify, ◌>>=◌, ◌>>◌, exec_step,
}

-- `__esdb_mutation`
abbrev pub mutation_name : Bytes
mutation_name =
    95 ∷ 95 ∷ 101 ∷ 115 ∷ 100 ∷ 98 ∷ 95 ∷ 109 ∷ 117 ∷ 116 ∷ 97 ∷ 116 ∷ 105 ∷ 111 ∷ 110 ∷ []

abbrev pub begin_text : Bool → Sql
begin_text owns = if owns then begin_sql immediate else savepoint_sql mutation_name

abbrev pub commit_text : Bool → Sql
commit_text owns = if owns then commit_sql else release_sql mutation_name

module _ {Db : Type 0} (store : StoreEngine Db) where
  unfoldable pub sync_internal_transaction_state : Session Db → Session Db
  sync_internal_transaction_state s =
      let at = store.engine.autocommit s.handle in
      record s {
        transaction_active = not at;
        savepoint_depth = if at then 0 else s.savepoint_depth;
      }

  abbrev pub sync_if : Bool → Session Db → Session Db
  sync_if true s = sync_internal_transaction_state s
  sync_if false s = s

  unfoldable pub begin_as : Bool → Action Db Bool
  begin_as owns = do
    exec_step store (begin_text owns) Phase.object_store
    modify (sync_if owns)
    pure owns

  -- The active scope: whether it owns the transaction.
  unfoldable pub begin_store_mutation : Action Db Bool
  begin_store_mutation s = begin_as (store.engine.autocommit s.handle) s

  unfoldable pub rollback_store_mutation : Bool → Session Db → Session Db
  rollback_store_mutation true s =
      let r = exec_step store rollback_sql Phase.object_store s in
      sync_internal_transaction_state (if is_done r.0 then count_rollback r.1 else r.1)
  rollback_store_mutation false s =
      (exec_step store (rollback_and_release_sql mutation_name) Phase.object_store s).1

  -- What follows a failed step of a mutation: the scope is rolled back, the failure returned.
  abbrev pub settle_scope {ℓ} :
      {A : Type ℓ} → Bool → Outcome A → Session Db → Outcome A × Session Db
  settle_scope owns (done a) s = (done a, s)
  settle_scope owns (stopped st e) s = (stopped st e, rollback_store_mutation owns s)

  abbrev pub counted : Bool → Session Db → Session Db
  counted true s = sync_internal_transaction_state (count_commit s)
  counted false s = s

  unfoldable pub guarded : {A : Type 0} → Bool → Action Db A → Action Db A
  guarded owns m s = let r = m s in settle_scope owns r.0 r.1

  unfoldable pub commit_store_mutation : Bool → Action Db (Unit {0})
  commit_store_mutation owns = do
    guarded owns (exec_step store (commit_text owns) Phase.object_store)
    modify (counted owns)

  -- The shape of every mutation: each step of the body is followed by a rollback where it fails.
  unfoldable pub mutate : {A : Type 0} → Action Db A → Action Db A
  mutate body = do
    owns ← begin_store_mutation
    a ← guarded owns body
    commit_store_mutation owns
    pure a
