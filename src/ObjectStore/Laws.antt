-- ===== src/ObjectStore/Laws.antt =====
-- What src/esdb_object_store.cpp relies on in SQLite: statements mean what Tables and Answers say,
-- and a transaction or a savepoint that is rolled back restores the tables. Any statement may fail,
-- also the one that rolls back.
use esdb.Prelude.{ℕ, ◌⊎◌, inl, inr, sym, ◌∙◌, ◌≡◌, Bool, true, false, none, List, [], ◌∷◌}
use esdb.Errors.{Status}
use esdb.Runtime.Engine.{
  immediate, begin_sql, commit_sql, rollback_sql, savepoint_sql, release_sql,
  rollback_and_release_sql, store_schema_sql, map_sqlite_status,
}
use esdb.Runtime.Transactions.{is_ok}
use esdb.ObjectStore.Sql.{
  Query, Row, First, failed_first, row, finished_first, StoreEngine, insert_store,
  insert_change_row, upsert_record, write_revision, delete_record, prune_changes,
}
use esdb.ObjectStore.Mutation.{mutation_name}
use esdb.ObjectStore.Tables.{Tables, create_tables, effect}
use esdb.ObjectStore.Answers.{answer}

abbrev pub is_read : Query → Bool
is_read (insert_store name now) = false
is_read (insert_change_row id key operation type now) = false
is_read (upsert_record id key value revision now) = false
is_read (write_revision revision) = false
is_read (delete_record id key) = false
is_read (prune_changes through) = false
is_read _ = true

abbrev pub head_row : List Row → First
head_row [] = finished_first
head_row (r ∷ rs) = row r

abbrev pub has_failed : First → Bool
has_failed (failed_first code) = true
has_failed _ = false

abbrev pub is_not_found : Status → Bool
is_not_found Status.not_found = true
is_not_found _ = false

-- The tables are what they were, in the same transaction or in none; or SQLite has ended the
-- transaction and rolled it back, as it may do when a statement fails.
abbrev pub Kept : {Db : Type 0} → StoreEngine Db → (Db → Tables) → Db → Db → Type 0
Kept store contents d d' =
    ((contents d' ≡ contents d) × (store.engine.autocommit d' ≡ store.engine.autocommit d))
    ⊎ ((store.engine.autocommit d ≡ false) × (store.engine.autocommit d' ≡ true))

-- `contents` are the tables as the connection sees them, `base` those that a `ROLLBACK` gives back,
-- and `mark` those at the savepoint of a mutation.
pub record IsStoreEngine {Db : Type 0} (store : StoreEngine Db) (contents base mark : Db → Tables)
    : Type 0 where
  -- A statement that does not fail.
  pub first_runs :
      (q : Query) (d : Db)
      → has_failed (store.first q d).0 ≡ false
      → ((store.first q d).0 ≡ head_row (answer q (contents d)))
        × (contents (store.first q d).1 ≡ effect q (contents d))
  pub all_runs :
      (q : Query) (d : Db)
      → (store.all q d).0.failure ≡ none
      → ((store.all q d).0.rows ≡ answer q (contents d))
        × (contents (store.all q d).1 ≡ effect q (contents d))
  -- A query writes nothing, but where it fails it may end the transaction.
  pub first_reads :
      (q : Query) (d : Db) → is_read q ≡ true → Kept store contents d (store.first q d).1
  pub all_reads : (q : Query) (d : Db) → is_read q ≡ true → Kept store contents d (store.all q d).1
  -- One that does not fail neither begins nor ends a transaction, and none fails with
  -- `SQLITE_NOTFOUND`, which belongs to other interfaces of SQLite.
  pub first_idle :
      (q : Query) (d : Db)
      → is_read q ≡ true
      → has_failed (store.first q d).0 ≡ false
      → store.engine.autocommit (store.first q d).1 ≡ store.engine.autocommit d
  pub never_notfound :
      (q : Query) (d : Db) (code : ℕ)
      → (store.first q d).0 ≡ failed_first code
      → is_not_found (map_sqlite_status code) ≡ false
  -- In a transaction. A failure may end the transaction, which then is rolled back.
  pub first_base :
      (q : Query) (d : Db) → store.engine.autocommit d ≡ false → base (store.first q d).1 ≡ base d
  pub all_base :
      (q : Query) (d : Db) → store.engine.autocommit d ≡ false → base (store.all q d).1 ≡ base d
  pub first_mark :
      (q : Query) (d : Db)
      → store.engine.autocommit d ≡ false
      → store.engine.autocommit (store.first q d).1 ≡ false
      → mark (store.first q d).1 ≡ mark d
  pub all_mark :
      (q : Query) (d : Db)
      → store.engine.autocommit d ≡ false
      → store.engine.autocommit (store.all q d).1 ≡ false
      → mark (store.all q d).1 ≡ mark d
  pub first_stays :
      (q : Query) (d : Db)
      → store.engine.autocommit d ≡ false
      → has_failed (store.first q d).0 ≡ false
      → store.engine.autocommit (store.first q d).1 ≡ false
  pub all_stays :
      (q : Query) (d : Db)
      → store.engine.autocommit d ≡ false
      → (store.all q d).0.failure ≡ none
      → store.engine.autocommit (store.all q d).1 ≡ false
  -- The text that creates the tables, in a transaction.
  pub schema_runs :
      (d : Db)
      → is_ok (map_sqlite_status (store.engine.exec store_schema_sql d).0) ≡ true
      → contents (store.engine.exec store_schema_sql d).1 ≡ create_tables (contents d)
  pub schema_base :
      (d : Db)
      → store.engine.autocommit d ≡ false
      → base (store.engine.exec store_schema_sql d).1 ≡ base d
  pub schema_mark :
      (d : Db)
      → store.engine.autocommit d ≡ false
      → store.engine.autocommit (store.engine.exec store_schema_sql d).1 ≡ false
      → mark (store.engine.exec store_schema_sql d).1 ≡ mark d
  pub schema_stays :
      (d : Db)
      → store.engine.autocommit d ≡ false
      → is_ok (map_sqlite_status (store.engine.exec store_schema_sql d).0) ≡ true
      → store.engine.autocommit (store.engine.exec store_schema_sql d).1 ≡ false
  -- The transaction of a mutation.
  pub begin_keeps : (d : Db) → contents (store.engine.exec (begin_sql immediate) d).1 ≡ contents d
  pub begin_opens :
      (d : Db)
      → is_ok (map_sqlite_status (store.engine.exec (begin_sql immediate) d).0) ≡ true
      → (store.engine.autocommit (store.engine.exec (begin_sql immediate) d).1 ≡ false)
        × (base (store.engine.exec (begin_sql immediate) d).1 ≡ contents d)
  pub commit_keeps :
      (d : Db)
      → is_ok (map_sqlite_status (store.engine.exec commit_sql d).0) ≡ true
      → contents (store.engine.exec commit_sql d).1 ≡ contents d
  pub commit_fails :
      (d : Db)
      → store.engine.autocommit d ≡ false
      → is_ok (map_sqlite_status (store.engine.exec commit_sql d).0) ≡ false
      → base (store.engine.exec commit_sql d).1 ≡ base d
  -- Whatever a `ROLLBACK` returns, once no transaction is open the tables are those that it gives
  -- back. One that succeeds ends the transaction; one that is refused may leave it open.
  pub rollback_ends :
      (d : Db)
      → is_ok (map_sqlite_status (store.engine.exec rollback_sql d).0) ≡ true
      → store.engine.autocommit (store.engine.exec rollback_sql d).1 ≡ true
  pub rollback_restores :
      (d : Db)
      → store.engine.autocommit (store.engine.exec rollback_sql d).1 ≡ true
      → contents (store.engine.exec rollback_sql d).1 ≡ base d
  pub rollback_refused :
      (d : Db)
      → store.engine.autocommit (store.engine.exec rollback_sql d).1 ≡ false
      → base (store.engine.exec rollback_sql d).1 ≡ base d
  -- The savepoint of a mutation.
  pub savepoint_keeps :
      (d : Db) → Kept store contents d (store.engine.exec (savepoint_sql mutation_name) d).1
  pub savepoint_opens :
      (d : Db)
      → store.engine.autocommit d ≡ false
      → is_ok (map_sqlite_status (store.engine.exec (savepoint_sql mutation_name) d).0) ≡ true
      → (store.engine.autocommit (store.engine.exec (savepoint_sql mutation_name) d).1 ≡ false)
        × (mark (store.engine.exec (savepoint_sql mutation_name) d).1 ≡ contents d)
  pub release_keeps :
      (d : Db)
      → is_ok (map_sqlite_status (store.engine.exec (release_sql mutation_name) d).0) ≡ true
      → contents (store.engine.exec (release_sql mutation_name) d).1 ≡ contents d
  pub release_fails :
      (d : Db)
      → store.engine.autocommit d ≡ false
      → is_ok (map_sqlite_status (store.engine.exec (release_sql mutation_name) d).0) ≡ false
      → store.engine.autocommit (store.engine.exec (release_sql mutation_name) d).1 ≡ false
      → mark (store.engine.exec (release_sql mutation_name) d).1 ≡ mark d
  pub rollback_to_restores :
      (d : Db)
      → store.engine.autocommit d ≡ false
      → is_ok (map_sqlite_status (store.engine.exec (rollback_and_release_sql mutation_name) d).0)
        ≡ true
      → contents (store.engine.exec (rollback_and_release_sql mutation_name) d).1 ≡ mark d
  -- Where it is refused in a transaction that goes on, the savepoint is still there.
  pub rollback_to_refused :
      (d : Db)
      → store.engine.autocommit d ≡ false
      → is_ok (map_sqlite_status (store.engine.exec (rollback_and_release_sql mutation_name) d).0)
        ≡ false
      → store.engine.autocommit (store.engine.exec (rollback_and_release_sql mutation_name) d).1
        ≡ false
      → mark (store.engine.exec (rollback_and_release_sql mutation_name) d).1 ≡ mark d
  -- It begins no transaction.
  pub rollback_to_idle :
      (d : Db)
      → store.engine.autocommit d ≡ true
      → store.engine.autocommit (store.engine.exec (rollback_and_release_sql mutation_name) d).1
        ≡ true

module _ {Db : Type 0} (store : StoreEngine Db) {contents base mark : Db → Tables}
    (law : IsStoreEngine store contents base mark) where
  -- A query that does not fail changes nothing.
  pub first_same :
      (q : Query) (d : Db)
      → is_read q ≡ true
      → has_failed (store.first q d).0 ≡ false
      → contents (store.first q d).1 ≡ contents d
  first_same q d h fine = elim (law.first_reads q d h) [
    | inl kept ↦ kept.0
    | inr (on, over) ↦ absurd (cc (sym on ∙ sym (law.first_idle q d h fine) ∙ over))
  ]
