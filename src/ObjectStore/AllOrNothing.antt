-- ===== src/ObjectStore/AllOrNothing.antt =====
-- What a mutation of src/esdb_object_store.cpp leaves behind: a success with its tables, or a failure with
-- the tables as they were but for what SQLite has ended or refused.
use esdb.Prelude.{
  ◌≡◌, ◌⊎◌, ℕ, refl, Bool, true, false, Option, none, some, if◌then◌else◌, sym, ◌∙◌, inl, inr,
  subst,
}
use esdb.Errors.{Status, Phase}
use esdb.Runtime.Engine.{Sql, rollback_sql, rollback_and_release_sql, map_sqlite_status}
use esdb.Runtime.Transactions.{is_ok}
use esdb.Runtime.Session.{Session, fail}
use esdb.ObjectStore.Schema.{writable, require_store_writable}
use esdb.ObjectStore.Sql.{StoreEngine}
use esdb.ObjectStore.Action.{Outcome, done, stopped, Action, refuse, continue, ◌>>=◌, ◌>>◌}
use esdb.ObjectStore.Mutation.{mutation_name}
use esdb.ObjectStore.Tables.{Tables}
use esdb.ObjectStore.Laws.{Kept}

-- The text that rolls back a scope.
abbrev pub rollback_text : Bool → Sql
rollback_text owns = if owns then rollback_sql else rollback_and_release_sql mutation_name

module _ {Db : Type 0} (store : StoreEngine Db) (contents base mark : Db → Tables) where
  -- Inside the scope of a mutation that began at some tables.
  abbrev pub Opened : Bool → Tables → Db → Type 0
  Opened true c d = (store.engine.autocommit d ≡ false) × (base d ≡ c)
  Opened false c d = (store.engine.autocommit d ≡ false) × (mark d ≡ c)

  -- The database is what SQLite left when it refused to roll back the scope: that is still open, and
  -- a rollback that succeeds later gives back the tables at which it began.
  abbrev pub Refused : Bool → Tables → Db → Type 0
  Refused owns c d =
      Opened owns c d
      × ((d' : Db) × (is_ok (map_sqlite_status (store.engine.exec (rollback_text owns) d').0)
            ≡ false)
          × (d ≡ (store.engine.exec (rollback_text owns) d').1))

  -- The tables are what they were; or SQLite itself has ended the transaction of the caller; or it
  -- has refused the rollback, and the scope of the mutation is still open.
  abbrev pub Restored : Db → Db → Type 0
  Restored d d' =
      (contents d' ≡ contents d)
      ⊎ (((store.engine.autocommit d ≡ false) × (store.engine.autocommit d' ≡ true))
          ⊎ Refused (store.engine.autocommit d) (contents d) d')

  -- The outcome of a mutation from a database: a success with a result and tables that satisfy a
  -- predicate, or a failure that leaves the tables as they were, unless SQLite itself has ended the
  -- transaction that the caller had begun, or has refused the rollback.
  abbrev pub AllOrNothing :
      {A : Type 0} → (A → Tables → Type 0) → Db → Outcome A × Session Db → Type 0
  AllOrNothing P d (done a, s) = P a (contents s.handle)
  AllOrNothing P d (stopped st e, s) = Restored d s.handle

  pub Kept-Restored : (d d' : Db) → Kept store contents d d' → Restored d d'
  Kept-Restored d d' (inl kept) = inl kept.0
  Kept-Restored d d' (inr ended) = inr (inl ended)

  pub AllOrNothing-map :
      (A : Type 0) (P Q : A → Tables → Type 0) (d : Db) (r : Outcome A × Session Db)
      → ((a : A) (t : Tables) → P a t → Q a t)
      → AllOrNothing P d r
      → AllOrNothing Q d r
  AllOrNothing-map A P Q d (done a, s) f h = f a (contents s.handle) h
  AllOrNothing-map A P Q d (stopped st e, s) f h = h

  -- A refusal leaves the tables alone.
  pub AllOrNothing-refuse :
      (A : Type 0) (P : A → Tables → Type 0) (st : Status) (phase : Phase) (code : ℕ)
      (s : Session Db)
      → AllOrNothing P s.handle (refuse st phase code s)
  unfolding refuse fail
  AllOrNothing-refuse A P st phase code s = inl refl

  pub AllOrNothing-if :
      (A : Type 0) (P : A → Tables → Type 0) (d : Db) (b : Bool) (m n : Action Db A)
      (s : Session Db)
      → AllOrNothing P d (m s)
      → AllOrNothing P d (n s)
      → AllOrNothing P d ((if b then m else n) s)
  AllOrNothing-if A P d true m n s h k = h
  AllOrNothing-if A P d false m n s h k = k

  -- A step that finds the database writable, or refuses.
  pub AllOrNothing-writable :
      (A : Type 0) (P : A → Tables → Type 0) (k : Action Db A) (s : Session Db)
      → AllOrNothing P s.handle (k s)
      → AllOrNothing P s.handle ((require_store_writable store >> k) s)
  unfolding require_store_writable ◌>>=◌ refuse fail
  AllOrNothing-writable A P k s h = on (store.readonly s.handle)
    where
      on :
          (o : Option Bool)
          → AllOrNothing P s.handle (let r = writable store o s in continue r.0 (λ _. k) r.1)
      on none = inl refl
      on (some true) = inl refl
      on (some false) = h

  -- From a database with the same tables and the same transaction.
  pub AllOrNothing-from :
      (A : Type 0) (P : A → Tables → Type 0) (d d' : Db) (r : Outcome A × Session Db)
      → contents d' ≡ contents d
      → store.engine.autocommit d' ≡ store.engine.autocommit d
      → AllOrNothing P d' r
      → AllOrNothing P d r
  AllOrNothing-from A P d d' (done a, s) same idle h = h
  AllOrNothing-from A P d d' (stopped st e, s) same idle (inl h) = inl (h ∙ same)
  AllOrNothing-from A P d d' (stopped st e, s) same idle (inr (inl (on, over))) =
      inr (inl (sym idle ∙ on, over))
  AllOrNothing-from A P d d' (stopped st e, s) same idle (inr (inr refused)) = inr (
      inr (
        subst (λ c. Refused (store.engine.autocommit d) c s.handle) same
          (subst (λ owns. Refused owns (contents d') s.handle) idle refused)))
