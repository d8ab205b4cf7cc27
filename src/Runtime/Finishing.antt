-- ===== src/Runtime/Finishing.antt =====
-- Beginning and finishing a transaction of src/esdb_runtime.cpp keeps the flags in agreement.
use esdb.Prelude.{
  ℕ, ◌≡◌, arith, Bool, true, false, Option, none, some, [], ◌∷◌, ◌++◌, if◌then◌else◌, length,
  get_elem?, sym, ap, subst, ◌∙◌, Bool-cases, inl, inr, get_elem?-append_new,
  get_elem?-append_cases,
}
use esdb.Errors.{Status, Phase, AllocOutcome, granted, bad_alloc, thrown}
use esdb.SqliteCode
use esdb.Runtime.Engine.{Engine, commit_sql, rollback_sql}
use esdb.Runtime.Session.{Session, count_commit, count_rollback, fail, exec_sql}
use esdb.Runtime.Transactions.{is_ok, ended, adopt, finish_active, count_finish}
use esdb.Runtime.Invariant.{
  Consistent, exec_sql-SameFrame, exec_sql-Consistent, ended-Consistent, fail-Consistent,
}

module _ {Db : Type 0} where
  begun-Consistent :
      (s : Session Db)
      → Consistent s
      → s.active_transaction ≡ none
      → Consistent (record s {
        transaction_active = true;
        active_transaction = some (length s.transactions);
        transactions = s.transactions ++ some (record { active = true }) ∷ [];
      })
  begun-Consistent s c a = (
    λ h. absurd (ground (arith, h)),
    λ t h.
        subst
          (λ n.
            get_elem? (s.transactions ++ some (record { active = true }) ∷ []) n
            ≡ some (some (record { active = true })))
          (ground (arith, h))
          (get_elem?-append_new s.transactions (some (record { active = true }))),
    λ t h.
        elim (get_elem?-append_cases s.transactions (some (record { active = true }))
          (some (record { active = true })) t h) [
            | inl e ↦ ap (λ n. some n) (sym e)
            | inr e ↦ absurd (ground (arith, a, c.2 t e))
          ],
    c.3,
  )

  raised-Consistent :
      (s : Session Db) → Consistent s → Consistent (record s { transaction_active = true })
  raised-Consistent s c = (λ h. absurd (ground (arith, h)), c.1, c.2, c.3)

  lowered-Consistent :
      (s : Session Db)
      → Consistent s
      → s.savepoint_depth ≡ 0
      → s.active_transaction ≡ none
      → Consistent (record s { transaction_active = false })
  lowered-Consistent s c d a = (λ h. (d, a), c.1, c.2, c.3)

  undone-Consistent :
      (engine : Engine Db) (a : Option ℕ) (s : Session Db)
      → Consistent s
      → s.transaction_active ≡ false
      → Consistent
          (fail Status.out_of_memory Phase.transaction SqliteCode.nomem a
            (record (exec_sql engine rollback_sql Phase.transaction
              (record s { transaction_active = true })).1 { transaction_active = false })).1
  undone-Consistent engine out s c idle =
      let begun = record s { transaction_active = true } in
      let rolled = (exec_sql engine rollback_sql Phase.transaction begun).1 in
      let (_, a, _, d, _) = exec_sql-SameFrame engine rollback_sql Phase.transaction begun in
      fail-Consistent Status.out_of_memory Phase.transaction SqliteCode.nomem out
        (record rolled { transaction_active = false })
        (lowered-Consistent rolled
          (exec_sql-Consistent engine rollback_sql Phase.transaction begun (raised-Consistent s c))
          (sym d ∙ (c.0 idle).0) (sym a ∙ (c.0 idle).1))

  pub adopt-Consistent :
      (engine : Engine Db) (outcome : AllocOutcome) (s : Session Db)
      → Consistent s
      → s.transaction_active ≡ false
      → Consistent (adopt engine outcome s).1
  unfolding adopt
  adopt-Consistent engine granted s c idle = begun-Consistent s c (c.0 idle).1
  adopt-Consistent engine bad_alloc s c idle = undone-Consistent engine none s c idle
  adopt-Consistent engine thrown s c idle = undone-Consistent engine none s c idle

  count_finish-Consistent :
      (commits : Bool) (s : Session Db) → Consistent s → Consistent (count_finish commits s)
  unfolding count_commit count_rollback
  count_finish-Consistent true s c = c
  count_finish-Consistent false s c = c

  pub finish_active-Consistent :
      (engine : Engine Db) (t : ℕ) (commits : Bool) (s : Session Db)
      → Consistent s
      → get_elem? s.transactions t ≡ some (some (record { active = true }))
      → Consistent (finish_active engine t commits s).1
  unfolding finish_active
  finish_active-Consistent engine t commits s c live =
      let r = exec_sql engine (if commits then commit_sql else rollback_sql) Phase.transaction s in
      let same =
        exec_sql-SameFrame engine (if commits then commit_sql else rollback_sql) Phase.transaction
          s in
      let cr : Consistent r.1 =
        exec_sql-Consistent engine (if commits then commit_sql else rollback_sql) Phase.transaction
          s c in
      let live_r =
        subst (λ l. get_elem? l t ≡ some (some (record { active = true }))) same.4 live in
      let over = ended-Consistent t r.1 cr live_r in
      let up = raised-Consistent r.1 cr in
      let counted = count_finish-Consistent commits (ended t r.1) over in
      elim (Bool-cases (is_ok r.0.status)) [
        | inl e ↦ rw e (counted.0, counted.1, counted.2, counted.3)
        | inr e ↦ elim (Bool-cases (engine.autocommit r.1.handle)) [
          | inl q ↦ rw (e, q) (over.0, over.1, over.2, over.3)
          | inr q ↦ rw (e, q) (up.0, up.1, up.2, up.3)
        ]
      ]
