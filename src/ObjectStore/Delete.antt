-- ===== src/ObjectStore/Delete.antt =====
-- `esdb_object_store_delete` of src/esdb_object_store.cpp, on a connection whose tables are ready.
use esdb.Prelude.{ℕ, ◌≡◌, refl, true, ◌&&◌, Option, none, some, ap, sym, ◌∙◌, subst}
use esdb.Bytes.{Bytes}
use esdb.Errors.{Status}
use esdb.Utf8.{valid_object_store_name, valid_object_store_key}
use esdb.Runtime.Session.{Session, count_operation}
use esdb.ObjectStore.Sql.{StoreEngine}
use esdb.ObjectStore.Action.{Outcome, done, stopped, refuse, ◌>>=◌, ◌>>◌}
use esdb.ObjectStore.Mutation.{mutate}
use esdb.ObjectStore.Schema.{find_store_id, require_store_writable}
use esdb.ObjectStore.Write.{delete_body, delete_found, delete_in, delete_valid, object_store_delete}
use esdb.ObjectStore.Tables.{Tables, id_of}
use esdb.ObjectStore.Laws.{IsStoreEngine}
use esdb.ObjectStore.AllOrNothing.{
  AllOrNothing, AllOrNothing-map, AllOrNothing-refuse, AllOrNothing-if, AllOrNothing-writable,
  AllOrNothing-from, Kept-Restored,
}
use esdb.ObjectStore.Mutate.{mutate-Mutated}
use esdb.ObjectStore.Sound.{Sound}
use esdb.ObjectStore.Put.{ensure-ready}
use esdb.ObjectStore.DeleteSteps.{
  delete_tables, deleted_revision, InScope-delete_body, Runs-delete_body, Found, find-Found,
}
use esdb.ObjectStore.DeleteTables.{DeleteResult, absent-DeleteResult, delete_tables-DeleteResult}

module _ {Db : Type 0} (store : StoreEngine Db) {contents base mark : Db → Tables}
    (law : IsStoreEngine store contents base mark) where
  module _ (now : ℕ) (name key : Bytes) (d : Db) (sound : Sound (contents d)) where
    abbrev P : Option ℕ → Tables → Type 0
    P = DeleteResult name key (contents d)

    Found-outcome :
        (o : Outcome ℕ) (t : Session Db)
        → Found store law name d (o, t)
        → AllOrNothing store contents base mark P d (delete_found store now key o t)
    Found-outcome (done id) t (known, same, idle) =
        let k = mutate store (delete_body store now id key) in
        let before = contents t.handle in
        let sound' : Sound before = subst Sound (sym same) sound in
        let known' = ap (λ (u : Tables). id_of name u.stores) same ∙ known in
        let Q = DeleteResult name key before in
        let whole : AllOrNothing store contents base mark Q t.handle (k t) =
          AllOrNothing-map store contents base mark (Option ℕ)
            (λ a u. (a ≡ deleted_revision id key before) × (u ≡ delete_tables id key before)) Q
            t.handle (k t)
            (λ a u h.
              subst (λ a'. Q a' u) (sym h.0)
                (subst (λ u'. Q (deleted_revision id key before) u') (sym h.1)
                  (delete_tables-DeleteResult name key before sound' id known')))
            (mutate-Mutated store law (delete_body store now id key) (deleted_revision id key)
              (delete_tables id key) t (InScope-delete_body store law now id key)
              (Runs-delete_body store law now id key)) in
        AllOrNothing-from store contents base mark (Option ℕ) P d t.handle
          ((require_store_writable store >> k) t) same idle
          (AllOrNothing-writable store contents base mark (Option ℕ) P k t (
            subst
              (λ u. AllOrNothing store contents base mark (DeleteResult name key u) t.handle (k t))
              same whole))
    Found-outcome (stopped Status.not_found e) t (absent, kept, found) =
        subst (λ u. P none u) (sym (found refl).0)
          (absent-DeleteResult name key (contents d) sound (absent refl))
    Found-outcome (stopped st e) t (absent, kept, found) =
        Kept-Restored store contents base mark d t.handle kept

  valid-delete :
      (now : ℕ) (name key : Bytes) (s : Session Db)
      → s.object_store_schema_ready ≡ true
      → Sound (contents s.handle)
      → AllOrNothing store contents base mark
          (DeleteResult name key (contents s.handle))
          s.handle
          (delete_valid store now name key s)
  unfolding delete_valid delete_in ◌>>=◌
  valid-delete now name key s ready sound =
      let r = find_store_id store name s in
      rw (ensure-ready store s ready)
        (Found-outcome now name key s.handle sound r.0 r.1 (find-Found store law name s))

  -- `esdb_object_store_delete` on a connection that has found well-formed tables: where it succeeds, the
  -- record is gone and its change is logged under the next revision, or there was none and nothing has
  -- changed; all other records are what they were. Where it fails, the tables are what they were, but
  -- for two cases: SQLite itself has rolled back the transaction that the caller had begun, or it has
  -- refused to roll back the delete, whose transaction or savepoint then is still open and not
  -- committed.
  pub object_store_delete-outcome :
      (now : ℕ) (name key : Bytes) (s : Session Db)
      → s.object_store_schema_ready ≡ true
      → Sound (contents s.handle)
      → AllOrNothing store contents base mark
          (DeleteResult name key (contents s.handle))
          s.handle
          (object_store_delete store now (some name) (some key) s)
  unfolding object_store_delete count_operation
  object_store_delete-outcome now name key s ready sound =
      let Q = DeleteResult name key (contents s.handle) in
      AllOrNothing-if store contents base mark (Option ℕ) Q s.handle
        (valid_object_store_name (some name) && valid_object_store_key (some key))
        (delete_valid store now name key) (refuse _ _ _) (count_operation s)
        (valid-delete now name key (count_operation s) ready sound)
        (AllOrNothing-refuse store contents base mark (Option ℕ) Q _ _ _ (count_operation s))
