-- ===== src/ObjectStore/PutSteps.antt =====
-- The steps of `esdb_object_store_put` (src/esdb_object_store.cpp): they stay in the scope of the
-- mutation, and make of the tables what `put_tables` says.
use esdb.Prelude.{ℕ, suc, ◌≡◌, refl, Option, none, some, List, [], ◌∷◌, ◌++◌}
use esdb.Bytes.{Bytes}
use esdb.Value.{Value, ValueType}
use esdb.ObjectStore.Sql.{
  Row, ObjectChangeOperation, put, column, StoreEngine, insert_store, select_store,
  insert_change_row, upsert_record, write_revision,
}
use esdb.ObjectStore.Action.{◌>>=◌}
use esdb.ObjectStore.Schema.{finished, id_row, find_store_id, create_store_id, set_store_revision}
use esdb.ObjectStore.Write.{inserted_revision, insert_change, put_body}
use esdb.ObjectStore.RevisionText.{decimal}
use esdb.ObjectStore.Tables.{Tables, effect, id_of, added_store, upsert_row}
use esdb.ObjectStore.Answers.{int_cell, option_row, answer}
use esdb.ObjectStore.Laws.{IsStoreEngine}
use esdb.ObjectStore.Scope.{Ends, ends_rules, InScope, InScope-first, InScope-all, scope_rules}
use esdb.ObjectStore.Runs.{
  head, Runs, Runs-pure, Runs-refuse, Runs-if, Runs-as, Runs-bind, Runs-first, Runs-all,
}

abbrev pub id_in : Option Row → ℕ
id_in none = 0
id_in (some r) = (column 0 r).int64

abbrev pub revision_in : List Row → ℕ
revision_in [] = 0
revision_in (r ∷ rs) = (column 0 r).int64

abbrev pub id_or_0 : Option ℕ → ℕ
id_or_0 none = 0
id_or_0 (some id) = id

-- The number of a Store that a mutation has registered.
unfoldable pub store_id : Bytes → Tables → ℕ
store_id name t = id_or_0 (id_of name t.stores)

pub inserted_revision-Ends :
    {Db : Type 0} (rows : List Row) (failure : Option ℕ)
    → Ends {Db = Db} failure (inserted_revision rows failure)
unfolding inserted_revision
inserted_revision-Ends [] failure = search ends_rules
inserted_revision-Ends (r ∷ []) failure = search ends_rules
inserted_revision-Ends (r ∷ r' ∷ rs) failure = search ends_rules

-- The tables with a Store of a name registered.
unfoldable pub registered : Bytes → Tables → Tables
registered name t = record t { stores = added_store name t.stores (id_of name t.stores) }

-- What a put makes of the tables.
unfoldable pub put_tables : Bytes → Bytes → Value → Tables → Tables
unfolding registered store_id
put_tables name key value t =
    let after = registered name t in
    let id = store_id name after in
    let revision = suc t.sequence in
    record after {
      sequence = revision;
      store_revision = some (decimal revision);
      records =
          upsert_row (record { store_id = id; key = key; value = value; revision = revision })
            t.records;
      changes =
          t.changes
          ++ record {
            revision = revision;
            store_id = id;
            key = key;
            operation = put;
            value_type = value.type;
          }
            ∷ [];
    }

module _ {Db : Type 0} (contents : Db → Tables) where
  pub Runs-finished : (r : Option Row) → Runs contents (finished r) (λ t. tt) (λ t. t)
  unfolding finished
  Runs-finished none = Runs-pure contents tt
  Runs-finished (some r) = Runs-refuse contents _ _ _ _ _

  pub Runs-inserted :
      (rows : List Row)
      → Runs contents (inserted_revision rows none) (λ t. revision_in rows) (λ t. t)
  unfolding inserted_revision ◌>>=◌
  Runs-inserted [] = Runs-refuse contents _ _ _ _ _
  Runs-inserted (r ∷ []) =
      Runs-if contents _ _ _ _ _ (Runs-refuse contents _ _ _ _ _) (Runs-pure contents _)
  Runs-inserted (r ∷ r' ∷ rs) =
      Runs-if contents _ _ _ _ _ (Runs-refuse contents _ _ _ _ _) (Runs-refuse contents _ _ _ _ _)

module _ {Db : Type 0} (store : StoreEngine Db) {contents base mark : Db → Tables}
    (law : IsStoreEngine store contents base mark) where
  InScope-finished : (r : Option Row) → InScope store base mark (finished r)
  unfolding finished
  InScope-finished none = search scope_rules
  InScope-finished (some r) = search scope_rules

  InScope-id_row : (r : Option Row) → InScope store base mark (id_row store r)
  InScope-id_row none = search scope_rules
  InScope-id_row (some r) = search scope_rules

  InScope-find : (name : Bytes) → InScope store base mark (find_store_id store name)
  unfolding find_store_id
  InScope-find name = search (scope_rules, InScope-first store law, InScope-id_row)

  InScope-create :
      (now : ℕ) (name : Bytes) → InScope store base mark (create_store_id store now name)
  unfolding create_store_id
  InScope-create now name =
      search (scope_rules, InScope-first store law, InScope-finished, InScope-find)

  pub InScope-insert_change :
      (now id : ℕ) (key : Bytes) (operation : ObjectChangeOperation) (type : ValueType)
      → InScope store base mark (insert_change store now id key operation type)
  unfolding insert_change
  InScope-insert_change now id key operation type =
      InScope-all store law (insert_change_row id key operation type now) inserted_revision
        inserted_revision-Ends

  pub InScope-set_revision :
      (revision : ℕ) → InScope store base mark (set_store_revision store revision)
  unfolding set_store_revision
  InScope-set_revision revision = search (scope_rules, InScope-first store law, InScope-finished)

  pub InScope-put_body :
      (clock : ℕ → ℕ) (name key : Bytes) (value : Value)
      → InScope store base mark (put_body store clock name key value)
  unfolding put_body
  InScope-put_body clock name key value =
      search
        (
          scope_rules,
          InScope-first store law,
          InScope-finished,
          InScope-create,
          InScope-insert_change,
          InScope-set_revision,
        )
        depth 14

  Runs-id_row : (r : Option Row) → Runs contents (id_row store r) (λ t. id_in r) (λ t. t)
  Runs-id_row none = record { runs = λ s. tt }
  Runs-id_row (some r) = Runs-pure contents (column 0 r).int64

  id_in-option :
      (o : Option ℕ) → id_in (head (option_row (λ (id : ℕ). int_cell id ∷ []) o)) ≡ id_or_0 o
  id_in-option none = refl
  id_in-option (some id) = refl

  id_in-answer :
      (name : Bytes) (t : Tables) → id_in (head (answer (select_store name) t)) ≡ store_id name t
  unfolding answer store_id
  id_in-answer name t = id_in-option (id_of name t.stores)

  Runs-create :
      (now : ℕ) (name : Bytes)
      → Runs contents
          (create_store_id store now name)
          (λ t. store_id name (effect (insert_store name now) t))
          (effect (insert_store name now))
  unfolding create_store_id find_store_id effect
  Runs-create now name =
      Runs-bind contents _ _ _ _ _ _ (Runs-first store law (insert_store name now) _) (λ r.
        Runs-bind contents _ _ _ _ _ _ (Runs-finished contents r) (λ u.
          Runs-as contents _ _ _ _ (id_in-answer name) (
            Runs-bind contents _ _ _ _ _ _ (Runs-first store law (select_store name) _)
              (λ r'. Runs-id_row r'))))

  pub Runs-insert_change :
      (now id : ℕ) (key : Bytes) (operation : ObjectChangeOperation) (type : ValueType)
      → Runs contents
          (insert_change store now id key operation type)
          (λ t. suc t.sequence)
          (effect (insert_change_row id key operation type now))
  unfolding insert_change answer
  Runs-insert_change now id key operation type =
      Runs-all store law (insert_change_row id key operation type now) inserted_revision revision_in
        (Runs-inserted contents) inserted_revision-Ends

  pub Runs-set_revision :
      (revision : ℕ)
      → Runs contents
          (set_store_revision store revision)
          (λ t. tt)
          (effect (write_revision revision))
  unfolding set_store_revision
  Runs-set_revision revision =
      Runs-bind contents _ _ _ _ _ _ (Runs-first store law (write_revision revision) _)
        (λ r. Runs-finished contents r)

  pub Runs-put_body :
      (clock : ℕ → ℕ) (name key : Bytes) (value : Value)
      → Runs contents
          (put_body store clock name key value)
          (λ t. suc t.sequence)
          (put_tables name key value)
  unfolding put_body effect put_tables
  Runs-put_body clock name key value =
      Runs-bind contents _ _ _ _ _ _ (Runs-create (clock 0) name) (λ id.
        Runs-bind contents _ _ _ _ _ _ (Runs-insert_change (clock 1) id key put value.type)
          (λ revision.
            Runs-bind contents _ _ _ _ _ _
              (Runs-first store law (upsert_record id key value revision (clock 2)) _)
              (λ r. Runs-bind contents _ _ _ _ _ _ (Runs-finished contents r) (λ u.
                Runs-bind contents _ _ _ _ _ _ (Runs-set_revision revision)
                  (λ u'. Runs-pure contents revision)))))
