-- ===== src/ObjectStore/Scope.antt =====
-- The steps of a mutation inside its scope: what each way to build an action of
-- src/esdb_object_store.cpp keeps of the transaction that is open around it.
use esdb.Prelude.{
  ℕ, ◌≡◌, refl, arith, Bool, true, false, Option, none, some, List, if◌then◌else◌, sym, ap, ◌∙◌,
}
use esdb.Errors.{Status, Phase}
use esdb.Runtime.Engine.{Sql, map_sqlite_status, store_schema_sql}
use esdb.Runtime.Session.{Session, fail, exec_sql}
use esdb.Runtime.Transactions.{is_ok}
use esdb.ObjectStore.Sql.{Query, Row, First, failed_first, row, finished_first, StoreEngine}
use esdb.ObjectStore.Action.{
  Outcome, done, stopped, is_done, Action, pure, refuse, quietly, continue, ◌>>=◌, ◌>>◌, exec_step,
  first, first_outcome, all, end_of,
}
use esdb.ObjectStore.Tables.{Tables}
use esdb.ObjectStore.Laws.{IsStoreEngine, has_failed}

module _ {Db : Type 0} where
  -- A refusal stops, and does not touch the database.
  pub refuse-handle :
      (A : Type 0) (st : Status) (phase : Phase) (code : ℕ) (s : Session Db)
      → ((refuse {A = A} st phase code s).1.handle ≡ s.handle)
        × (is_done (refuse {A = A} st phase code s).0 ≡ false)
  unfolding refuse fail
  refuse-handle A st phase code s = (refl, refl)

  first_outcome-handle :
      (f : First) (phase : Phase) (s : Session Db)
      → ((first_outcome f phase s).1.handle ≡ s.handle)
        × (is_done (first_outcome f phase s).0 ≡ true → has_failed f ≡ false)
  unfolding refuse fail
  first_outcome-handle (failed_first code) phase s = (refl, λ h. sym h)
  first_outcome-handle (row r) phase s = (refl, λ h. refl)
  first_outcome-handle finished_first phase s = (refl, λ h. refl)

module _ {Db : Type 0} (store : StoreEngine Db) where
  pub exec_step-handle :
      (sql : Sql) (phase : Phase) (s : Session Db)
      → (exec_step store sql phase s).1.handle ≡ (store.engine.exec sql s.handle).1
  unfolding exec_step exec_sql fail
  exec_step-handle sql phase s = ground arith

  pub exec_step-done :
      (sql : Sql) (phase : Phase) (s : Session Db)
      → is_done (exec_step store sql phase s).0
        ≡ is_ok (map_sqlite_status (store.engine.exec sql s.handle).0)
  unfolding exec_step exec_sql fail map_sqlite_status
  exec_step-done sql phase s = ground arith

  pub first-handle :
      (q : Query) (phase : Phase) (s : Session Db)
      → ((first store q phase s).1.handle ≡ (store.first q s.handle).1)
        × (is_done (first store q phase s).0 ≡ true → has_failed (store.first q s.handle).0 ≡ false)
  unfolding first
  first-handle q phase s =
      let r = store.first q s.handle in first_outcome-handle r.0 phase (record s { handle = r.1 })

-- What reads the rows of a statement: it does not touch the database, and does not succeed where the
-- statement has failed.
module _ {Db : Type 0} (failure : Option ℕ) where
  pub record Ends {A : Type 0} (m : Action Db A) : Type 0 where
    pub ends :
        (s : Session Db) → ((m s).1.handle ≡ s.handle) × (is_done (m s).0 ≡ true → failure ≡ none)

  pub Ends-refuse :
      {A : Type 0} (st : Status) (phase : Phase) (code : ℕ) → Ends (refuse {A = A} st phase code)
  Ends-refuse {A = A} st phase code = record {
    ends = λ s.
        let (e, f) = refuse-handle A st phase code s in (e, λ h. absurd (ground (arith, f, h)));
  }

  pub Ends-if :
      {A : Type 0} (b : Bool) (m n : Action Db A) → Ends m → Ends n → Ends (if b then m else n)
  Ends-if true m n hm hn = hm
  Ends-if false m n hm hn = hn

pub Ends-end_of :
    {Db A : Type 0} (failure : Option ℕ) (phase : Phase) (m : Action Db A)
    → Ends none m
    → Ends failure (end_of failure phase >> m)
unfolding ◌>>=◌ refuse fail
Ends-end_of none phase m h = h
Ends-end_of (some code) phase m h = record { ends = λ s. (refl, λ f. absurd (cc)) }

pub Ends-pure : {Db A : Type 0} (a : A) → Ends {Db = Db} none (pure a)
Ends-pure a = record { ends = λ s. (refl, λ h. refl) }

pub ruleset ends_rules = (Ends-refuse, Ends-if, Ends-end_of, Ends-pure)

module _ {Db : Type 0} (store : StoreEngine Db) (base mark : Db → Tables) where
  abbrev pub at : Session Db → Bool
  at s = store.engine.autocommit s.handle

  -- From a state inside a transaction: what a rollback gives back is kept, and a step that succeeds
  -- leaves the transaction open.
  abbrev pub Within : {A : Type 0} → Session Db → Outcome A × Session Db → Type 0
  Within s r =
      (base r.1.handle ≡ base s.handle)
      × (at r.1 ≡ false → mark r.1.handle ≡ mark s.handle)
      × (is_done r.0 ≡ true → at r.1 ≡ false)

  pub record InScope {A : Type 0} (m : Action Db A) : Type 0 where
    pub within : (s : Session Db) → at s ≡ false → Within s (m s)

  -- An action that does not touch the database.
  pub InScope-still :
      {A : Type 0} (m : Action Db A) → ((s : Session Db) → (m s).1.handle ≡ s.handle) → InScope m
  InScope-still m same = record {
    within = λ s h. (
      ap base (same s),
      λ still_on. ap mark (same s),
      λ fine. ap store.engine.autocommit (same s) ∙ h,
    );
  }

  pub InScope-pure : {A : Type 0} (a : A) → InScope (pure a)
  InScope-pure a = record { within = λ s h. (refl, λ still_on. refl, λ fine. h) }

  pub InScope-refuse :
      {A : Type 0} (st : Status) (phase : Phase) (code : ℕ) → InScope (refuse {A = A} st phase code)
  InScope-refuse {A = A} st phase code =
      InScope-still (refuse st phase code) (λ s. (refuse-handle A st phase code s).0)

  pub InScope-quietly : {A : Type 0} (st : Status) → InScope (quietly {A = A} st)
  InScope-quietly st = record { within = λ s h. (refl, λ still_on. refl, λ fine. absurd (cc)) }

  pub InScope-if :
      {A : Type 0} (b : Bool) (m n : Action Db A)
      → InScope m
      → InScope n
      → InScope (if b then m else n)
  InScope-if true m n hm hn = hm
  InScope-if false m n hm hn = hn

  Within-continue :
      {A B : Type 0} (o : Outcome A) (f : A → Action Db B) (s t : Session Db)
      → Within s (o, t)
      → ((a : A) → InScope (f a))
      → Within s (continue o f t)
  Within-continue (done a) f s t w hf =
      let (kept, marked, fine) = (hf a).within t (w.2 refl) in
      (kept ∙ w.0, λ still_on. marked still_on ∙ w.1 (w.2 refl), fine)
  Within-continue (stopped st e) f s t w hf = (w.0, w.1, λ h. absurd (cc))

  pub InScope-bind :
      {A B : Type 0} (m : Action Db A) (f : A → Action Db B)
      → InScope m
      → ((a : A) → InScope (f a))
      → InScope (m >>= f)
  unfolding ◌>>=◌
  InScope-bind m f hm hf = record {
    within = λ s h. Within-continue (m s).0 f s (m s).1 (hm.within s h) hf;
  }

pub ruleset scope_rules = (InScope-pure, InScope-refuse, InScope-quietly, InScope-if, InScope-bind)

module _ {Db : Type 0} (store : StoreEngine Db) {contents base mark : Db → Tables}
    (law : IsStoreEngine store contents base mark) where
  pub InScope-first : (q : Query) (phase : Phase) → InScope store base mark (first store q phase)
  InScope-first q phase = record {
    within = λ s h.
        let (e, good) = first-handle store q phase s in
        (
          ap base e ∙ law.first_base q s.handle h,
          λ still_on.
              ap mark e
              ∙ law.first_mark q s.handle h (sym (ap store.engine.autocommit e) ∙ still_on),
          λ fine. ap store.engine.autocommit e ∙ law.first_stays q s.handle h (good fine),
        );
  }

  pub InScope-schema :
      (phase : Phase) → InScope store base mark (exec_step store store_schema_sql phase)
  InScope-schema phase = record {
    within = λ s h.
        let e = exec_step-handle store store_schema_sql phase s in
        (
          ap base e ∙ law.schema_base s.handle h,
          λ still_on.
              ap mark e
              ∙ law.schema_mark s.handle h (sym (ap store.engine.autocommit e) ∙ still_on),
          λ fine.
              ap store.engine.autocommit e
              ∙ law.schema_stays s.handle h
                  (sym (exec_step-done store store_schema_sql phase s) ∙ fine),
        );
  }

  -- A statement whose rows are read to their end: what follows it cannot succeed where it fails.
  pub InScope-all :
      {A : Type 0} (q : Query) (f : List Row → Option ℕ → Action Db A)
      → ((rows : List Row) (failure : Option ℕ) → Ends failure (f rows failure))
      → InScope store base mark (all store q >>= λ r. f r.rows r.failure)
  unfolding ◌>>=◌ all
  InScope-all q f still = record {
    within = λ s h.
        let r = store.all q s.handle in
        let (e, good) = (still r.0.rows r.0.failure).ends (record s { handle = r.1 }) in
        (
          ap base e ∙ law.all_base q s.handle h,
          λ still_on.
              ap mark e ∙ law.all_mark q s.handle h (sym (ap store.engine.autocommit e) ∙ still_on),
          λ fine. ap store.engine.autocommit e ∙ law.all_stays q s.handle h (good fine),
        );
  }
