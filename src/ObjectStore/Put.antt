-- ===== src/ObjectStore/Put.antt =====
-- `esdb_object_store_put` of src/esdb_object_store.cpp, on a connection whose tables are ready.
use esdb.Prelude.{ℕ, suc, ◌≡◌, refl, true, ◌&&◌, some, [], ◌∷◌, ◌++◌, if◌then◌else◌, sym, subst}
use esdb.Bytes.{Bytes}
use esdb.Value.{Value}
use esdb.Utf8.{valid_object_store_name, valid_object_store_key}
use esdb.Store.State.{valid_value_type}
use esdb.Runtime.Savepoints.{same_text}
use esdb.Runtime.Session.{Session, count_operation}
use esdb.ObjectStore.Sql.{StoreEngine, put}
use esdb.ObjectStore.Action.{done, ◌>>=◌}
use esdb.ObjectStore.Mutation.{mutate}
use esdb.ObjectStore.Schema.{ensure_object_store_schema}
use esdb.ObjectStore.Write.{put_body, put_valid, bad_put, object_store_put}
use esdb.ObjectStore.Tables.{Tables}
use esdb.ObjectStore.Answers.{record_at}
use esdb.ObjectStore.Laws.{IsStoreEngine}
use esdb.ObjectStore.AllOrNothing.{
  AllOrNothing, AllOrNothing-map, AllOrNothing-refuse, AllOrNothing-if, AllOrNothing-writable,
}
use esdb.ObjectStore.Mutate.{mutate-Mutated}
use esdb.ObjectStore.PutSteps.{store_id, registered, put_tables, InScope-put_body, Runs-put_body}
use esdb.ObjectStore.Sound.{Sound, record_at-put}
use esdb.ObjectStore.Keeping.{put_tables-Sound}

module _ {Db : Type 0} (store : StoreEngine Db) where
  pub ensure-ready :
      (s : Session Db)
      → s.object_store_schema_ready ≡ true
      → ensure_object_store_schema store s ≡ (done tt, s)
  unfolding ensure_object_store_schema
  ensure-ready s h = rw h refl

-- What a put that succeeds has done: the record of the key is the written one, all others are what
-- they were, and the log has one change more, with the revision that is returned.
pub record PutResult (name key : Bytes) (value : Value) (before : Tables) (revision : ℕ)
    (after : Tables) : Type 0 where
  pub numbered : revision ≡ suc before.sequence
  pub found :
      (other other_key : Bytes)
      → record_at other other_key after ≡ (
          if same_text name other && same_text key other_key
          then some (record {
            store_id = store_id name (registered name before);
            key = key;
            value = value;
            revision = revision;
          })
          else record_at other other_key before)
  pub sequence : after.sequence ≡ revision
  pub changes :
      after.changes
      ≡ before.changes
        ++ record {
          revision = revision;
          store_id = store_id name (registered name before);
          key = key;
          operation = put;
          value_type = value.type;
        }
          ∷ []
  pub sound : Sound after

put_tables-PutResult :
    (name key : Bytes) (value : Value) (t : Tables)
    → Sound t
    → PutResult name key value t (suc t.sequence) (put_tables name key value t)
unfolding put_tables
put_tables-PutResult name key value t sound = record {
  numbered = refl;
  found = record_at-put name key value t sound;
  sequence = refl;
  changes = refl;
  sound = put_tables-Sound name key value t sound;
}

module _ {Db : Type 0} (store : StoreEngine Db) {contents base mark : Db → Tables}
    (law : IsStoreEngine store contents base mark) where
  valid-outcome :
      (clock : ℕ → ℕ) (name key : Bytes) (value : Value) (s : Session Db)
      → s.object_store_schema_ready ≡ true
      → Sound (contents s.handle)
      → AllOrNothing store contents base mark
          (PutResult name key value (contents s.handle))
          s.handle
          (put_valid store clock name key value s)
  unfolding put_valid ◌>>=◌
  valid-outcome clock name key value s ready sound =
      let P = PutResult name key value (contents s.handle) in
      let k = mutate store (put_body store clock name key value) in
      let before = contents s.handle in
      rw (ensure-ready store s ready) (
        AllOrNothing-writable store contents base mark ℕ P k s (
          AllOrNothing-map store contents base mark ℕ
            (λ a t. (a ≡ suc before.sequence) × (t ≡ put_tables name key value before)) P s.handle
            (k s)
            (λ a t h.
              subst (λ a'. P a' t) (sym h.0)
                (subst (λ t'. P (suc before.sequence) t') (sym h.1)
                  (put_tables-PutResult name key value before sound)))
            (mutate-Mutated store law (put_body store clock name key value) (λ t. suc t.sequence)
              (put_tables name key value) s (InScope-put_body store law clock name key value)
              (Runs-put_body store law clock name key value))))

  -- `esdb_object_store_put` on a connection that has found well-formed tables: where it succeeds, it
  -- has written the record and its change, under the next revision, and touched nothing else; where it
  -- fails, whichever statement or check has failed, the tables are what they were, but for two cases:
  -- SQLite itself has rolled back the transaction that the caller had begun, or it has refused to roll
  -- back the put, whose transaction or savepoint then is still open and not committed.
  pub object_store_put-outcome :
      (clock : ℕ → ℕ) (name key : Bytes) (value : Value) (s : Session Db)
      → s.object_store_schema_ready ≡ true
      → Sound (contents s.handle)
      → AllOrNothing store contents base mark
          (PutResult name key value (contents s.handle))
          s.handle
          (object_store_put store clock (some name) (some key) (some value) s)
  unfolding object_store_put count_operation
  object_store_put-outcome clock name key value s ready sound =
      let P = PutResult name key value (contents s.handle) in
      AllOrNothing-if store contents base mark ℕ P s.handle
        (valid_object_store_name (some name)
          && (valid_object_store_key (some key) && valid_value_type value.type))
        (put_valid store clock name key value) (bad_put store) (count_operation s)
        (valid-outcome clock name key value (count_operation s) ready sound)
        (AllOrNothing-refuse store contents base mark ℕ P _ _ _ (count_operation s))
