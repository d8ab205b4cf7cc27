-- ===== src/Runtime/Committed.antt =====
-- What is committed in the database of a connection of src/esdb_runtime.cpp, and the calls that
-- leave it as it is.
use esdb.Prelude.{
  ℕ, ◌+◌, ◌%◌, ◌≡◌, refl, arith, true, false, ◌&&◌, Option, none, some, List, [], ◌∷◌, ◌==◌, sym,
  ap, subst, ◌∙◌, Bool-cases, if-cases, some-injective, All, inl, inr,
}
use esdb.Errors.{Status, Phase, Reply, set_error}
use esdb.SqliteCode
use esdb.Runtime.Engine.{
  Engine, Sql, TransactionMode, begin_sql, commit_sql, rollback_sql, map_sqlite_status,
}
use esdb.Runtime.Session.{
  Session, Transaction, count_operation, count_commit, count_rollback, fail, exec_sql,
}
use esdb.Runtime.Transactions.{
  is_ok, ended, find_transaction, finish_active, finish_transaction, commit, rollback,
  transaction_destroy,
}
use esdb.Runtime.Transactions.{finish_found, destroy_found, free}
use esdb.Runtime.Engine.{set_version_sql}
use esdb.Runtime.Migrate.{Migration, has_apply, find_step, abandon, end_migration, apply_step}

-- What SQLite documents of transactions, for a view of what is committed in a database.
pub record IsTransactional {Db : Type 0} (engine : Engine Db) {C : Type 0} (committed : Db → C)
    : Type 0 where
  pub begin_keeps :
      (m : TransactionMode) (d : Db) → committed (engine.exec (begin_sql m) d).1 ≡ committed d
  pub rollback_keeps : (d : Db) → committed (engine.exec rollback_sql d).1 ≡ committed d
  -- A commit that fails has written nothing.
  pub commit_keeps :
      (d : Db)
      → is_ok (map_sqlite_status (engine.exec commit_sql d).0) ≡ false
      → committed (engine.exec commit_sql d).1 ≡ committed d
  pub version_keeps :
      (v : ℕ) (d : Db)
      → engine.autocommit d ≡ false
      → committed (engine.exec (set_version_sql v) d).1 ≡ committed d
  pub begin_opens :
      (m : TransactionMode) (d : Db)
      → is_ok (map_sqlite_status (engine.exec (begin_sql m) d).0) ≡ true
      → engine.autocommit (engine.exec (begin_sql m) d).1 ≡ false
  -- A statement that succeeds within a transaction leaves it open.
  pub version_stays :
      (v : ℕ) (d : Db)
      → engine.autocommit d ≡ false
      → is_ok (map_sqlite_status (engine.exec (set_version_sql v) d).0) ≡ true
      → engine.autocommit (engine.exec (set_version_sql v) d).1 ≡ false

module _ {Db : Type 0} (engine : Engine Db) {C : Type 0} (committed : Db → C) where
  abbrev pub Same : Session Db → Session Db → Type 0
  Same s t = committed t.handle ≡ committed s.handle

  pub exec_sql-handle :
      (sql : Sql) (phase : Phase) (s : Session Db)
      → (exec_sql engine sql phase s).1.handle ≡ (engine.exec sql s.handle).1
  unfolding exec_sql fail
  exec_sql-handle sql phase s = elim (Bool-cases ((engine.exec sql s.handle).0 == SqliteCode.ok)) [
    | inl e ↦ rw e refl
    | inr e ↦ rw e refl
  ]

  pub exec_sql-status :
      (sql : Sql) (phase : Phase) (s : Session Db)
      → is_ok (exec_sql engine sql phase s).0.status
        ≡ is_ok (map_sqlite_status (engine.exec sql s.handle).0)
  unfolding exec_sql fail map_sqlite_status
  exec_sql-status sql phase s = elim (Bool-cases ((engine.exec sql s.handle).0 == SqliteCode.ok)) [
    | inl e ↦
        let z : (engine.exec sql s.handle).0 ≡ SqliteCode.ok = ground (arith, e) in
        rw e (ap (λ c. is_ok (map_sqlite_status c)) (sym z))
    | inr e ↦ rw e refl
  ]

  -- A callback does not commit, and where it succeeds it leaves the transaction open.
  abbrev pub Obeys : Migration Db → Type 0
  Obeys m =
      (s : Session Db)
      → engine.autocommit s.handle ≡ false
      → (committed (apply_step m s).1.handle ≡ committed s.handle)
        × ((r : Reply (Unit {0}))
            → (apply_step m s).0 ≡ some r
            → is_ok r.status ≡ true
            → engine.autocommit (apply_step m s).1.handle ≡ false)

  pub find_step-Obeys :
      (current : ℕ) (ms : List (Migration Db)) (m : Migration Db)
      → All Obeys ms
      → find_step current ms ≡ some m
      → Obeys m
  unfolding find_step
  find_step-Obeys current [] m a h = absurd (ground (arith, h))
  find_step-Obeys current (x ∷ ms) m a h =
      elim (Bool-cases
        (x.from_version == current && x.to_version == (current + 1) % 4294967296 && has_apply x)) [
          | inl e ↦ subst Obeys (some-injective x m (rw e at h)) a.0
          | inr e ↦ find_step-Obeys current ms m a.1 (rw e at h)
        ]

  finish_active-Same :
      (law : IsTransactional engine committed) (t : ℕ) (s : Session Db)
      → Same s (finish_active engine t false s).1
  unfolding finish_active ended count_rollback
  finish_active-Same law t s =
      let r = exec_sql engine rollback_sql Phase.transaction s in
      let same : Same s r.1 =
        ap committed (exec_sql-handle rollback_sql Phase.transaction s)
        ∙ law.rollback_keeps s.handle in
      if-cases (λ (r : Reply (Unit {0}) × Session Db). Same s r.1) (is_ok r.0.status) _ _
        (λ h. same)
        (λ h.
          if-cases (λ (r : Session Db). Same s r) (engine.autocommit r.1.handle) _ _ (λ h. same)
            (λ h. same))

  finish_found-Same :
      (law : IsTransactional engine committed) (tx : Option Transaction) (t : ℕ) (s : Session Db)
      → Same s (finish_found engine tx t false s).1
  unfolding finish_found set_error fail
  finish_found-Same law none t s = refl
  finish_found-Same law (some tx) t s =
      if-cases (λ (r : Reply (Unit {0}) × Session Db). Same s r.1) tx.active _ _
        (λ h. finish_active-Same law t s) (λ h. refl)

  pub rollback-Same :
      (law : IsTransactional engine committed) (t : Option ℕ) (s : Session Db)
      → Same s (rollback engine t s).1
  unfolding rollback finish_transaction count_operation set_error
  rollback-Same law none s = refl
  rollback-Same law (some t) s =
      finish_found-Same law (find_transaction (count_operation s) (some t)) t (count_operation s)

  destroy_found-Same :
      (law : IsTransactional engine committed) (tx : Option Transaction) (t : ℕ) (s : Session Db)
      → Same s (destroy_found engine tx t s)
  unfolding destroy_found free
  destroy_found-Same law none t s = refl
  destroy_found-Same law (some tx) t s =
      if-cases (λ (r : Session Db). Same s r) tx.active _ _ (λ h. finish_active-Same law t s)
        (λ h. refl)

  destroy-Same :
      (law : IsTransactional engine committed) (t : Option ℕ) (s : Session Db)
      → Same s (transaction_destroy engine t s)
  unfolding transaction_destroy
  destroy-Same law none s = refl
  destroy-Same law (some t) s = destroy_found-Same law (find_transaction s (some t)) t s

  pub abandon-Same :
      (law : IsTransactional engine committed) (t : Option ℕ) (s : Session Db)
      → Same s (abandon engine t s)
  unfolding abandon
  abandon-Same law t s = destroy-Same law t (rollback engine t s).1 ∙ rollback-Same law t s

  -- A result that changes what is committed only where it is a success.
  abbrev pub AllOrNothing {ℓ} : {A : Type ℓ} → Session Db → Reply A × Session Db → Type 0
  AllOrNothing s r = is_ok r.0.status ≡ false → Same s r.1

  commit_active-Same :
      (law : IsTransactional engine committed) (t : ℕ) (s : Session Db)
      → AllOrNothing s (finish_active engine t true s)
  unfolding finish_active ended count_commit
  commit_active-Same law t s =
      let r = exec_sql engine commit_sql Phase.transaction s in
      if-cases (λ (r : Reply (Unit {0}) × Session Db). AllOrNothing s r) (is_ok r.0.status) _ _
        (λ h bad. absurd (ground (arith, h, bad)))
        (λ h bad.
          let same : Same s r.1 =
            ap committed (exec_sql-handle commit_sql Phase.transaction s)
            ∙ law.commit_keeps s.handle
                (sym (exec_sql-status commit_sql Phase.transaction s) ∙ h) in
          if-cases (λ (r : Session Db). Same s r) (engine.autocommit r.1.handle) _ _ (λ h. same)
            (λ h. same))

  commit_found-Same :
      (law : IsTransactional engine committed) (tx : Option Transaction) (t : ℕ) (s : Session Db)
      → AllOrNothing s (finish_found engine tx t true s)
  unfolding finish_found set_error fail
  commit_found-Same law none t s = λ bad. refl
  commit_found-Same law (some tx) t s =
      if-cases (λ (r : Reply (Unit {0}) × Session Db). AllOrNothing s r) tx.active _ _
        (λ h. commit_active-Same law t s) (λ h bad. refl)

  commit-Same :
      (law : IsTransactional engine committed) (t : Option ℕ) (s : Session Db)
      → AllOrNothing s (commit engine t s)
  unfolding commit finish_transaction count_operation set_error
  commit-Same law none s = λ bad. refl
  commit-Same law (some t) s =
      commit_found-Same law (find_transaction (count_operation s) (some t)) t (count_operation s)

  pub end_migration-Same :
      (law : IsTransactional engine committed) (t : Option ℕ) (s : Session Db)
      → AllOrNothing s (end_migration engine t s)
  unfolding end_migration
  end_migration-Same law t s bad =
      destroy-Same law t (commit engine t s).1 ∙ commit-Same law t s bad

  pub fail-Same {ℓ} :
      {A : Type ℓ} (st : Status) (phase : Phase) (code : ℕ) (a : A) (s t : Session Db)
      → Same s t
      → Same s (fail st phase code a t).1
  unfolding fail
  fail-Same st phase code a s t h = h
