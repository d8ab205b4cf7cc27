-- ===== src/ObjectStore/DeleteSteps.antt =====
-- The steps of `esdb_object_store_delete` (src/esdb_object_store.cpp): they stay in the scope of the
-- mutation, and make of the tables what `delete_tables` says.
use esdb.Prelude.{
  ℕ, suc, ◌≡◌, refl, arith, Bool, true, false, Option, none, some, List, [], ◌∷◌, ◌++◌, ap, ◌∙◌,
}
use esdb.Bytes.{Bytes}
use esdb.Errors.{Phase}
use esdb.Value.{null}
use esdb.Runtime.Engine.{map_sqlite_status}
use esdb.Runtime.Session.{Session, fail}
use esdb.ObjectStore.RevisionText.{decimal}
use esdb.ObjectStore.Sql.{
  Row, First, failed_first, row, finished_first, delete, StoreEngine, delete_record, select_store,
}
use esdb.ObjectStore.Action.{Outcome, done, stopped, refuse, continue, ◌>>=◌, first, first_outcome}
use esdb.ObjectStore.Schema.{id_row, find_store_id}
use esdb.ObjectStore.Write.{deleted_row, remove_record, log_delete, delete_body}
use esdb.ObjectStore.Tables.{Tables, RecordRow, effect, id_of, find_record, erase_row}
use esdb.ObjectStore.Answers.{answer, option_row, int_cell}
use esdb.ObjectStore.Laws.{IsStoreEngine, has_failed, head_row, is_not_found, Kept, first_same}
use esdb.ObjectStore.Scope.{Ends, ends_rules, InScope, InScope-all, scope_rules}
use esdb.ObjectStore.Runs.{Runs, Runs-pure, Runs-refuse, Runs-bind, Runs-all, Runs-as}
use esdb.ObjectStore.PutSteps.{
  InScope-insert_change, InScope-set_revision, Runs-insert_change, Runs-set_revision,
}

pub deleted_row-Ends :
    {Db : Type 0} (rows : List Row) (failure : Option ℕ)
    → Ends {Db = Db} failure (deleted_row rows failure)
unfolding deleted_row
deleted_row-Ends [] failure = search ends_rules
deleted_row-Ends (r ∷ []) failure = search ends_rules
deleted_row-Ends (r ∷ r' ∷ rs) failure = search ends_rules

abbrev pub is_there {ℓ} : {A : Type ℓ} → Option A → Bool
is_there none = false
is_there (some a) = true

abbrev any_row : List Row → Bool
any_row [] = false
any_row (r ∷ rs) = true

-- The tables after a record is deleted, and its change logged if it was there.
abbrev pub log_tables : ℕ → Bytes → Bool → Tables → Tables
log_tables id key false t = t
log_tables id key true t = record t {
  sequence = suc t.sequence;
  store_revision = some (decimal (suc t.sequence));
  changes =
      t.changes
      ++ record {
        revision = suc t.sequence;
        store_id = id;
        key = key;
        operation = delete;
        value_type = null;
      }
        ∷ [];
}

abbrev pub logged_revision : Bool → Tables → Option ℕ
logged_revision false t = none
logged_revision true t = some (suc t.sequence)

unfoldable pub delete_tables : ℕ → Bytes → Tables → Tables
delete_tables id key t =
    log_tables id key (is_there (find_record id key t.records))
      (record t { records = erase_row id key t.records })

unfoldable pub deleted_revision : ℕ → Bytes → Tables → Option ℕ
deleted_revision id key t =
    logged_revision (is_there (find_record id key t.records))
      (record t { records = erase_row id key t.records })

module _ {Db : Type 0} (contents : Db → Tables) where
  Runs-deleted :
      (rows : List Row) → Runs contents (deleted_row rows none) (λ t. any_row rows) (λ t. t)
  unfolding deleted_row ◌>>=◌
  Runs-deleted [] = Runs-pure contents false
  Runs-deleted (r ∷ []) = Runs-pure contents true
  Runs-deleted (r ∷ r' ∷ rs) = Runs-refuse contents _ _ _ _ _

module _ {Db : Type 0} (store : StoreEngine Db) {contents base mark : Db → Tables}
    (law : IsStoreEngine store contents base mark) where
  InScope-remove : (id : ℕ) (key : Bytes) → InScope store base mark (remove_record store id key)
  unfolding remove_record
  InScope-remove id key = InScope-all store law (delete_record id key) deleted_row deleted_row-Ends

  InScope-log :
      (now id : ℕ) (key : Bytes) (deleted : Bool)
      → InScope store base mark (log_delete store now id key deleted)
  InScope-log now id key false = search scope_rules
  InScope-log now id key true =
      search (scope_rules, InScope-insert_change store law, InScope-set_revision store law) depth 10

  pub InScope-delete_body :
      (now id : ℕ) (key : Bytes) → InScope store base mark (delete_body store now id key)
  unfolding delete_body
  InScope-delete_body now id key = search (scope_rules, InScope-remove, InScope-log)

  any_row-option :
      (o : Option RecordRow)
      → any_row (option_row (λ (r : RecordRow). int_cell 1 ∷ []) o) ≡ is_there o
  any_row-option none = refl
  any_row-option (some r) = refl

  Runs-remove :
      (id : ℕ) (key : Bytes)
      → Runs contents
          (remove_record store id key)
          (λ t. is_there (find_record id key t.records))
          (effect (delete_record id key))
  unfolding remove_record answer
  Runs-remove id key =
      Runs-as contents _ _ _ _ (λ t. any_row-option (find_record id key t.records))
        (Runs-all store law (delete_record id key) deleted_row any_row (Runs-deleted contents)
          deleted_row-Ends)

  Runs-log :
      (now id : ℕ) (key : Bytes) (deleted : Bool)
      → Runs contents
          (log_delete store now id key deleted)
          (logged_revision deleted)
          (log_tables id key deleted)
  unfolding effect
  Runs-log now id key false = Runs-pure contents none
  Runs-log now id key true =
      Runs-bind contents _ _ _ _ _ _ (Runs-insert_change store law now id key delete null)
        (λ revision.
          Runs-bind contents _ _ _ _ _ _ (Runs-set_revision store law revision)
            (λ u. Runs-pure contents (some revision)))

  pub Runs-delete_body :
      (now id : ℕ) (key : Bytes)
      → Runs contents
          (delete_body store now id key)
          (deleted_revision id key)
          (delete_tables id key)
  unfolding delete_body delete_tables deleted_revision effect
  Runs-delete_body now id key =
      Runs-bind contents _ _ _ _ _ _ (Runs-remove id key) (λ deleted. Runs-log now id key deleted)

  -- A Store that is looked for: found, not there, or not known since the query has failed.
  abbrev pub Found : Bytes → Db → Outcome ℕ × Session Db → Type 0
  Found name d (done id, t) =
      (id_of name (contents d).stores ≡ some id)
      × (contents t.handle ≡ contents d)
      × (store.engine.autocommit t.handle ≡ store.engine.autocommit d)
  Found name d (stopped st e, t) =
      (is_not_found st ≡ true → id_of name (contents d).stores ≡ none)
      × Kept store contents d t.handle
      × (is_not_found st ≡ true
          → (contents t.handle ≡ contents d)
            × (store.engine.autocommit t.handle ≡ store.engine.autocommit d))

  row-Found :
      (name : Bytes) (d : Db) (f : First) (o : Option ℕ) (t : Session Db)
      → (has_failed f ≡ false → f ≡ head_row (option_row (λ (id : ℕ). int_cell id ∷ []) o))
      → ((code : ℕ) → f ≡ failed_first code → is_not_found (map_sqlite_status code) ≡ false)
      → id_of name (contents d).stores ≡ o
      → Kept store contents d t.handle
      → (has_failed f ≡ false
          → (contents t.handle ≡ contents d)
            × (store.engine.autocommit t.handle ≡ store.engine.autocommit d))
      → let r = first_outcome f Phase.object_store t in
        Found name d (continue r.0 (id_row store) r.1)
  unfolding refuse fail
  row-Found name d (failed_first code) o t run known e kept idle = (
    λ h. absurd (ground (arith, known code refl)),
    kept,
    λ h. absurd (ground (arith, known code refl)),
  )
  row-Found name d (row r) none t run known e kept idle = absurd (ground (arith, run refl))
  row-Found name d (row r) (some id) t run known e kept idle =
      (e ∙ ap some (ground (arith, run refl)), (idle refl).0, (idle refl).1)
  row-Found name d finished_first none t run known e kept idle = (λ h. e, kept, λ h. idle refl)
  row-Found name d finished_first (some id) t run known e kept idle =
      absurd (ground (arith, run refl))

  pub find-Found :
      (name : Bytes) (s : Session Db) → Found name s.handle (find_store_id store name s)
  unfolding find_store_id first ◌>>=◌ answer
  find-Found name s =
      let q = select_store name in
      let r = store.first q s.handle in
      row-Found name s.handle r.0 (id_of name (contents s.handle).stores)
        (record s { handle = r.1 }) (λ h. (law.first_runs q s.handle h).0)
        (law.never_notfound q s.handle) refl (law.first_reads q s.handle refl)
        (λ h. (first_same store law q s.handle refl h, law.first_idle q s.handle refl h))
