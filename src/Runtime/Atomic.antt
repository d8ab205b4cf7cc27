-- ===== src/Runtime/Atomic.antt =====
-- The migrations of src/esdb_runtime.cpp are all or nothing.
use esdb.Prelude.{
  ℕ, zero, suc, ◌-◌, ◌≡◌, refl, arith, true, false, Option, none, some, List, ◌==◌, ltb, sym, ap,
  ◌∙◌, if-cases, All,
}
use esdb.Errors.{Status, Phase, Reply, AllocOutcome, granted, bad_alloc, thrown}
use esdb.SqliteCode
use esdb.Runtime.Engine.{Engine, TransactionMode, begin_sql, rollback_sql, map_sqlite_status}
use esdb.Runtime.Session.{Session, count_operation, fail, exec_sql}
use esdb.Runtime.Transactions.{is_ok, begin, adopt}
use esdb.Runtime.Engine.{set_version_sql, immediate, Scalar, failed, no_row, negative, value}
use esdb.Runtime.Migrate.{
  Migration, find_step, user_version_get, user_version_set, abandon, callback_code, apply_step,
  advance, applied, version_or_0, query_version, migrate_found, migrate_loop, migrate_from, migrate,
}
use esdb.Runtime.Committed.{
  IsTransactional, Same, AllOrNothing, Obeys, exec_sql-handle, exec_sql-status, find_step-Obeys,
  abandon-Same, end_migration-Same, fail-Same,
}
use esdb.Runtime.Transactions.{adopt}

module _ {Db : Type 0} (engine : Engine Db) {C : Type 0} (committed : Db → C)
    (law : IsTransactional engine committed) where
  abbrev InTransaction : Session Db → Type 0
  InTransaction s = engine.autocommit s.handle ≡ false

  -- What goes on from a version within the transaction.
  abbrev Continues : (ℕ → Session Db → Reply (Unit {0}) × Session Db) → Type 0
  Continues rest =
      (v : ℕ) (s : Session Db) → InTransaction s → AllOrNothing engine committed s (rest v s)

  advance-Same :
      (rest : ℕ → Session Db → Reply (Unit {0}) × Session Db) (t : Option ℕ) (v : ℕ)
      (s : Session Db)
      → Continues rest
      → InTransaction s
      → AllOrNothing engine committed s (advance engine rest t v s)
  unfolding advance user_version_set count_operation
  advance-Same rest t v s next live =
      let r = exec_sql engine (set_version_sql v) Phase.migrating (count_operation s) in
      let at : r.1.handle ≡ (engine.exec (set_version_sql v) s.handle).1 =
        exec_sql-handle engine committed (set_version_sql v) Phase.migrating (count_operation s) in
      let same : Same engine committed s r.1 =
        ap committed at ∙ law.version_keeps v s.handle live in
      if-cases (λ (r : Reply (Unit {0}) × Session Db). AllOrNothing engine committed s r)
        (is_ok r.0.status) _ _
        (λ h bad.
          let still : InTransaction r.1 =
            ap engine.autocommit at
            ∙ law.version_stays v s.handle live (
                sym (
                  exec_sql-status engine committed (set_version_sql v) Phase.migrating
                    (count_operation s))
                ∙ h) in
          next v r.1 still bad ∙ same)
        (λ h bad. abandon-Same engine committed law t r.1 ∙ same)

  applied-Same :
      (rest : ℕ → Session Db → Reply (Unit {0}) × Session Db) (t : Option ℕ) (v : ℕ)
      (o : Option (Reply (Unit {0}))) (s : Session Db)
      → Continues rest
      → ((r : Reply (Unit {0})) → o ≡ some r → is_ok r.status ≡ true → InTransaction s)
      → AllOrNothing engine committed s (applied engine rest t v o s)
  unfolding applied
  applied-Same rest t v none s next live =
      let a : Unit {0} = tt in
      λ bad.
        fail-Same engine committed Status.internal Phase.migrating SqliteCode.abort a s
          (abandon engine t s) (abandon-Same engine committed law t s)
  applied-Same rest t v (some r) s next live =
      let a : Unit {0} = tt in
      if-cases (λ (q : Reply (Unit {0}) × Session Db). AllOrNothing engine committed s q)
        (is_ok r.status) _ _ (λ h. advance-Same rest t v s next (live r refl h))
        (λ h bad.
          fail-Same engine committed r.status Phase.migrating (callback_code r.error) a s
            (abandon engine t s) (abandon-Same engine committed law t s))

  found-Same :
      (rest : ℕ → Session Db → Reply (Unit {0}) × Session Db) (t : Option ℕ)
      (o : Option (Migration Db)) (s : Session Db)
      → Continues rest
      → ((m : Migration Db) → o ≡ some m → Obeys engine committed m)
      → InTransaction s
      → AllOrNothing engine committed s (migrate_found engine rest t o s)
  unfolding migrate_found
  found-Same rest t none s next obeys live =
      let a : Unit {0} = tt in
      λ bad.
        fail-Same engine committed Status.migration Phase.migrating SqliteCode.notfound a s
          (abandon engine t s) (abandon-Same engine committed law t s)
  found-Same rest t (some m) s next obeys live =
      let (kept, still) = obeys m refl s live in
      λ bad.
        applied-Same rest t m.to_version (apply_step m s).0 (apply_step m s).1 next still bad ∙ kept

  loop-Same :
      (left : ℕ) (ms : List (Migration Db)) (t : Option ℕ) (current : ℕ) (s : Session Db)
      → All (Obeys engine committed) ms
      → InTransaction s
      → AllOrNothing engine committed s (migrate_loop engine left ms t current s)
  unfolding migrate_loop
  loop-Same zero ms t current s obeys live = end_migration-Same engine committed law t s
  loop-Same (suc left) ms t current s obeys live =
      found-Same (migrate_loop engine left ms t) t (find_step current ms) s
        (λ v s' live2. loop-Same left ms t v s' obeys live2)
        (λ m e. find_step-Obeys engine committed current ms m obeys e) live

  abbrev Begun : Session Db → Reply (Option ℕ) × Session Db → Type 0
  Begun s q = Same engine committed s q.1 × (is_ok q.0.status ≡ true → InTransaction q.1)

  refused_begin :
      (s : Session Db)
      → Begun s
          (fail Status.invalid_state Phase.transaction SqliteCode.misuse none (count_operation s))
  unfolding fail count_operation
  refused_begin s = (refl, λ h. absurd (ground (arith, h)))

  undone-Same :
      (s : Session Db)
      → Same engine committed s
          (exec_sql engine rollback_sql Phase.transaction
            (record s { transaction_active = true })).1
  undone-Same s =
      ap committed (
        exec_sql-handle engine committed rollback_sql Phase.transaction
          (record s { transaction_active = true }))
      ∙ law.rollback_keeps s.handle

  adopt-Same :
      (outcome : AllocOutcome) (s : Session Db)
      → Same engine committed s (adopt engine outcome s).1
        × (is_ok (adopt engine outcome s).0.status ≡ true
            → (adopt engine outcome s).1.handle ≡ s.handle)
  unfolding adopt fail
  adopt-Same granted s = (refl, λ h. refl)
  adopt-Same bad_alloc s = (undone-Same s, λ h. absurd (ground (arith, h)))
  adopt-Same thrown s = (undone-Same s, λ h. absurd (ground (arith, h)))

  begin-Same :
      (outcome : AllocOutcome) (m : TransactionMode) (s : Session Db)
      → Same engine committed s (begin engine outcome (some m) true s).1
        × (is_ok (begin engine outcome (some m) true s).0.status ≡ true
            → InTransaction (begin engine outcome (some m) true s).1)
  unfolding begin count_operation
  begin-Same outcome m s =
      let r = exec_sql engine (begin_sql m) Phase.transaction (count_operation s) in
      let at : r.1.handle ≡ (engine.exec (begin_sql m) s.handle).1 =
        exec_sql-handle engine committed (begin_sql m) Phase.transaction (count_operation s) in
      let same : Same engine committed s r.1 = ap committed at ∙ law.begin_keeps m s.handle in
      let status : is_ok r.0.status
          ≡ is_ok (map_sqlite_status (engine.exec (begin_sql m) s.handle).0) =
        exec_sql-status engine committed (begin_sql m) Phase.transaction (count_operation s) in
      if-cases (λ (q : Reply (Option ℕ) × Session Db). Begun s q) s.transaction_active _ _
        (λ h. refused_begin s)
        (λ h.
          if-cases (λ (q : Reply (Option ℕ) × Session Db). Begun s q) (is_ok r.0.status) _ _
            (λ good.
              let (kept, at2) = adopt-Same outcome r.1 in
              (
                kept ∙ same,
                λ fine.
                    ap engine.autocommit (at2 fine ∙ at)
                    ∙ law.begin_opens m s.handle (sym status ∙ good),
              ))
            (λ bad. (same, λ fine. absurd (ground (arith, bad, fine)))))

  migrate_from-Same :
      (outcome : AllocOutcome) (target : ℕ) (ms : List (Migration Db)) (current : ℕ)
      (s : Session Db)
      → All (Obeys engine committed) ms
      → AllOrNothing engine committed s (migrate_from engine outcome target ms current s)
  unfolding migrate_from
  migrate_from-Same outcome target ms current s obeys =
      let a : Unit {0} = tt in
      let b = begin engine outcome (some immediate) true s in
      let (kept, opened) = begin-Same outcome immediate s in
      if-cases (λ (q : Reply (Unit {0}) × Session Db). AllOrNothing engine committed s q)
        (current == target) _ _ (λ h bad. refl)
        (λ h.
          if-cases (λ (q : Reply (Unit {0}) × Session Db). AllOrNothing engine committed s q)
            (ltb target current) _ _
            (λ h bad.
              fail-Same engine committed Status.unsupported Phase.migrating SqliteCode.misuse a s s
                refl)
            (λ h.
              if-cases (λ (q : Reply (Unit {0}) × Session Db). AllOrNothing engine committed s q)
                (is_ok b.0.status) _ _
                (λ good bad.
                  loop-Same (target - current) ms b.0.out current b.1 obeys (opened good) bad
                  ∙ kept)
                (λ no_begin bad. kept)))

  query-Same : (o : Scalar) (s : Session Db) → Same engine committed s (query_version engine o s).1
  unfolding fail
  query-Same (failed code) s = refl
  query-Same no_row s = refl
  query-Same negative s = refl
  query-Same (value v) s =
      if-cases (λ (q : Reply (Option ℕ) × Session Db). Same engine committed s q.1)
        (ltb 4294967295 v) _ _ (λ h. refl) (λ h. refl)

  version_get-Same : (s : Session Db) → Same engine committed s (user_version_get engine true s).1
  unfolding user_version_get count_operation
  version_get-Same s = query-Same (engine.user_version s.handle) (count_operation s)

  -- Where `esdb_migrate` does not succeed, what is committed in the database is what was committed
  -- before, whatever step, callback, version change, allocation or commit has failed.
  pub migrate-atomic :
      (outcome : AllocOutcome) (target : ℕ) (ms : Option (List (Migration Db))) (s : Session Db)
      → ((l : List (Migration Db)) → ms ≡ some l → All (Obeys engine committed) l)
      → is_ok (migrate engine outcome target ms s).0.status ≡ false
      → committed (migrate engine outcome target ms s).1.handle ≡ committed s.handle
  unfolding migrate count_operation fail
  migrate-atomic outcome target none s obeys = λ bad. refl
  migrate-atomic outcome target (some ms) s obeys =
      let got = user_version_get engine true (count_operation s) in
      let kept = version_get-Same (count_operation s) in
      if-cases (λ (q : Reply (Unit {0}) × Session Db). AllOrNothing engine committed s q)
        (is_ok got.0.status) _ _
        (λ h bad.
          migrate_from-Same outcome target ms (version_or_0 got.0.out) got.1 (obeys ms refl) bad
          ∙ kept)
        (λ h bad. kept)
