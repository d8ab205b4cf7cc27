-- ===== src/ObjectStore/Reads.antt =====
-- The reads of src/esdb_object_store.cpp, once a connection has found the tables, change nothing in
-- them.
use esdb.Prelude.{ℕ, suc, ◌≡◌, refl, Bool, true, not, Option, none, some, ap, ◌∙◌, subst, sym, inl}
use esdb.Bytes.{Bytes, CString}
use esdb.Errors.{Status, Phase, AllocPlan}
use esdb.Runtime.Session.{Session, count_operation}
use esdb.ObjectStore.Sql.{
  Row, StoreEngine, select_record, record_exists, count_records, scan_records, select_changes,
}
use esdb.ObjectStore.Action.{Outcome, Action, refuse_if}
use esdb.ObjectStore.Schema.{ensure_object_store_schema}
use esdb.ObjectStore.Read.{
  checked, checked_name, found_value, get_valid, object_store_get, exists_valid,
  object_store_exists, count_row, count_valid, object_store_count, scan_snapshot,
  object_store_revision,
}
use esdb.ObjectStore.ChangeLog.{change_snapshot}
use esdb.ObjectStore.Tables.{Tables}
use esdb.ObjectStore.Laws.{IsStoreEngine, Kept}
use esdb.ObjectStore.Put.{ensure-ready}
use esdb.ObjectStore.ReadRules.{
  Reads, Reads-all, Reads-allocate, Reads-bind, Reads-changes, Reads-clone, Reads-first, Reads-if,
  Reads-metadata, Reads-pure, Reads-quietly, Reads-records, Reads-refuse,
}

module _ {Db : Type 0} (store : StoreEngine Db) {contents base mark : Db → Tables}
    (law : IsStoreEngine store contents base mark) where
  Reads-ensure : Reads store contents true (ensure_object_store_schema store)
  Reads-ensure = record {
    reads = λ s ready.
        let e = ensure-ready store s ready in
        (
          subst (λ (p : Outcome (Unit {0}) × Session Db). Kept store contents s.handle p.1.handle)
              (sym e) (inl (refl, refl)),
          ap (λ (p : Outcome (Unit {0}) × Session Db). p.1.object_store_schema_ready) e ∙ ready,
        );
  }

  Reads-found :
      (plan : AllocPlan) (r : Option Row) → Reads store contents true (found_value store plan r)
  Reads-found plan none = Reads-quietly store contents true _
  Reads-found plan (some r) = Reads-clone store contents true plan _ _

  Reads-count_row : (r : Option Row) → Reads store contents true (count_row store r)
  Reads-count_row none = Reads-refuse store contents true _ _ _
  Reads-count_row (some r) =
      Reads-if store contents true _ _ _ (Reads-refuse store contents true _ _ _)
        (Reads-pure store contents true _)

  pub Reads-get :
      (plan : AllocPlan) (name key : Bytes)
      → Reads store contents true (get_valid store plan name key)
  unfolding get_valid
  Reads-get plan name key = Reads-bind store contents true _ _ Reads-ensure (λ u.
      Reads-bind store contents true _ _
        (Reads-first store law true (select_record name key) _ refl) (λ r. Reads-found plan r))

  pub Reads-exists : (name key : Bytes) → Reads store contents true (exists_valid store name key)
  unfolding exists_valid
  Reads-exists name key = Reads-bind store contents true _ _ Reads-ensure (λ u.
      Reads-bind store contents true _ _
        (Reads-first store law true (record_exists name key) _ refl)
        (λ r. Reads-pure store contents true _))

  pub Reads-count : (name : Bytes) → Reads store contents true (count_valid store name)
  unfolding count_valid
  Reads-count name = Reads-bind store contents true _ _ Reads-ensure (λ u.
      Reads-bind store contents true _ _ (Reads-first store law true (count_records name) _ refl)
        (λ r. Reads-count_row r))

  pub Reads-scan :
      (plan : AllocPlan) (name : Bytes) (after : CString) (limit : ℕ)
      → Reads store contents true (scan_snapshot store plan name after limit)
  unfolding scan_snapshot
  Reads-scan plan name after limit =
      Reads-bind store contents true _ _ (Reads-allocate store contents true (plan 0) _) (λ u.
        Reads-bind store contents true _ _ Reads-ensure (λ v.
          Reads-bind store contents true _ _
            (Reads-all store law true (scan_records name after limit) refl)
            (λ r. Reads-records store contents true (λ n. plan (suc n)) r.rows r.failure)))

  Reads-refuse_if :
      (b : Bool) (st : Status) (phase : Phase) (code : ℕ)
      → Reads store contents true (refuse_if b st phase code)
  Reads-refuse_if b st phase code =
      Reads-if store contents true b _ _ (Reads-refuse store contents true st phase code)
        (Reads-pure store contents true tt)

  Reads-change_snapshot :
      (plan : AllocPlan) (name : CString) (after limit : ℕ)
      → Reads store contents true (change_snapshot store plan name after limit)
  unfolding change_snapshot
  Reads-change_snapshot plan name after limit =
      Reads-bind store contents true _ _ (Reads-refuse_if _ _ _ _) (λ a.
        Reads-bind store contents true _ _ (Reads-refuse_if _ _ _ _) (λ b.
          Reads-bind store contents true _ _ (Reads-refuse_if _ _ _ _) (λ c.
            Reads-bind store contents true _ _ (Reads-allocate store contents true (plan 0) _) (λ u.
              Reads-bind store contents true _ _ Reads-ensure (λ v.
                Reads-bind store contents true _ _
                  (Reads-all store law true (select_changes name after _) refl)
                  (λ r. Reads-changes store contents true (λ n. plan (suc n)) r.rows r.failure))))))

  Reads-checked :
      {A : Type 0} (has_out : Bool) (name key : CString) (k : Bytes → Bytes → Action Db A)
      → ((n m : Bytes) → Reads store contents true (k n m))
      → Reads store contents true (checked store has_out name key k)
  Reads-checked has_out none key k h = Reads-refuse store contents true _ _ _
  Reads-checked has_out (some name) none k h = Reads-refuse store contents true _ _ _
  Reads-checked has_out (some name) (some key) k h =
      Reads-if store contents true _ _ _ (h name key) (Reads-refuse store contents true _ _ _)

  Reads-checked_name :
      {A : Type 0} (b : Bool) (name : CString) (k : Bytes → Action Db A)
      → ((n : Bytes) → Reads store contents true (k n))
      → Reads store contents true (checked_name store b name k)
  Reads-checked_name b none k h = Reads-refuse store contents true _ _ _
  Reads-checked_name b (some name) k h =
      Reads-if store contents true _ _ _ (h name) (Reads-refuse store contents true _ _ _)

  -- On a connection that has found the tables, the reads, `esdb_object_store_get`, `_exists`, `_count`
  -- and `_revision` and what `_scan` and `_changes_since` do before they call back, leave every table
  -- and the transaction as they are, for all arguments, also where a check, a query or an allocation
  -- fails; or SQLite itself has ended the transaction that the caller had begun. The first call on a
  -- connection looks for the tables, and may create them.
  pub reads-keep :
      (plan : AllocPlan) (name key : CString) (after limit : ℕ) (has_out : Bool) (s : Session Db)
      → s.object_store_schema_ready ≡ true
      → Kept store contents s.handle (object_store_get store plan name key has_out s).1.handle
        × Kept store contents s.handle (object_store_exists store name key has_out s).1.handle
        × Kept store contents s.handle (object_store_count store name has_out s).1.handle
        × Kept store contents s.handle (object_store_revision store has_out s).1.handle
        × ((text : Bytes)
            → Kept store contents s.handle (scan_snapshot store plan text key limit s).1.handle)
        × Kept store contents s.handle (change_snapshot store plan name after limit s).1.handle
  unfolding object_store_get object_store_exists object_store_count object_store_revision
      count_operation
  reads-keep plan name key after limit has_out s ready =
      let t = count_operation s in
      (
        ((Reads-checked has_out name key (get_valid store plan) (Reads-get plan)).reads t ready).0,
        ((Reads-checked has_out name key (exists_valid store) Reads-exists).reads t ready).0,
        ((Reads-checked_name has_out name (count_valid store) Reads-count).reads t ready).0,
        ((Reads-bind store contents true _ _ (Reads-refuse_if (not has_out) _ _ _) (λ u.
              Reads-bind store contents true _ _ Reads-ensure
                (λ v. Reads-metadata store law true))).reads
            t ready).0,
        λ text. ((Reads-scan plan text key limit).reads s ready).0,
        ((Reads-change_snapshot plan name after limit).reads s ready).0,
      )
