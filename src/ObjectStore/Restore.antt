-- ===== src/ObjectStore/Restore.antt =====
-- The mutation scope of src/esdb_object_store.cpp: what a mutation that does not succeed leaves, with
-- every step of it refused or not.
use esdb.Prelude.{
  ◌≡◌, ◌⊎◌, refl, Bool, true, false, if◌then◌else◌, sym, ap, ◌∙◌, Bool-cases, inl, inr,
}
use esdb.Errors.{Phase}
use esdb.Runtime.Engine.{
  commit_sql, rollback_sql, release_sql, rollback_and_release_sql, map_sqlite_status,
}
use esdb.Runtime.Transactions.{is_ok}
use esdb.Runtime.Session.{Session, count_commit, count_rollback}
use esdb.ObjectStore.Sql.{StoreEngine}
use esdb.ObjectStore.Action.{
  Outcome, done, stopped, is_done, Action, modify, continue, ◌>>=◌, exec_step,
}
use esdb.ObjectStore.Mutation.{
  mutation_name, sync_internal_transaction_state, sync_if, counted, commit_text,
  rollback_store_mutation, settle_scope, guarded, commit_store_mutation,
}
use esdb.ObjectStore.Tables.{Tables}
use esdb.ObjectStore.Laws.{IsStoreEngine}
use esdb.ObjectStore.Scope.{exec_step-handle, exec_step-done, Within, InScope}
use esdb.ObjectStore.AllOrNothing.{Opened, Refused}

module _ {Db : Type 0} (store : StoreEngine Db) (contents base mark : Db → Tables) where
  abbrev at : Db → Bool
  at d = store.engine.autocommit d

  -- A rollback of the scope can restore the tables.
  abbrev Recoverable : Bool → Tables → Db → Type 0
  Recoverable true c d = base d ≡ c
  Recoverable false c d = at d ≡ false → mark d ≡ c

  pub Opened-Recoverable :
      (owns : Bool) (c : Tables) (d : Db)
      → Opened store contents base mark owns c d
      → Recoverable owns c d
  Opened-Recoverable true c d o = o.1
  Opened-Recoverable false c d o = λ h. o.1

  at-Opened :
      (owns : Bool) (c : Tables) (d : Db) → Opened store contents base mark owns c d → at d ≡ false
  at-Opened true c d o = o.0
  at-Opened false c d o = o.0

  -- What a step inside the scope does to it.
  Within-Opened :
      {A : Type 0} (owns : Bool) (c : Tables) (s : Session Db) (r : Outcome A × Session Db)
      → Opened store contents base mark owns c s.handle
      → Within store base mark s r
      → Recoverable owns c r.1.handle
        × (is_done r.0 ≡ true → Opened store contents base mark owns c r.1.handle)
  Within-Opened true c s r o w = (w.0 ∙ o.1, λ h. (w.2 h, w.0 ∙ o.1))
  Within-Opened false c s r o w = (λ h. w.1 h ∙ o.1, λ h. (w.2 h, w.1 (w.2 h) ∙ o.1))

  sync-handle : (s : Session Db) → (sync_internal_transaction_state store s).handle ≡ s.handle
  unfolding sync_internal_transaction_state
  sync-handle s = refl

  pub sync_if-handle : (owns : Bool) (s : Session Db) → (sync_if store owns s).handle ≡ s.handle
  sync_if-handle true s = sync-handle s
  sync_if-handle false s = refl

  counted-handle : (owns : Bool) (s : Session Db) → (counted store owns s).handle ≡ s.handle
  unfolding count_commit
  counted-handle true s = sync-handle (count_commit s)
  counted-handle false s = refl

  counted_rollback-handle :
      (b : Bool) (s : Session Db) → (if b then count_rollback s else s).handle ≡ s.handle
  unfolding count_rollback
  counted_rollback-handle true s = refl
  counted_rollback-handle false s = refl

  module _ (law : IsStoreEngine store contents base mark) where
    -- A rollback of the scope restores the tables, unless SQLite has ended the transaction around it
    -- or refuses.
    abbrev pub Undone : Bool → Tables → Db → Type 0
    Undone owns c d =
        (contents d ≡ c)
        ⊎ (((owns ≡ false) × (at d ≡ true)) ⊎ Refused store contents base mark owns c d)

    rollback_sql-fails :
        (d : Db)
        → at (store.engine.exec rollback_sql d).1 ≡ false
        → is_ok (map_sqlite_status (store.engine.exec rollback_sql d).0) ≡ false
    rollback_sql-fails d still =
        elim (Bool-cases (is_ok (map_sqlite_status (store.engine.exec rollback_sql d).0))) [
          | inl good ↦ absurd (cc (sym (law.rollback_ends d good) ∙ still))
          | inr bad ↦ bad
        ]

    rollback-owned :
        (c : Tables) (d d' : Db)
        → base d ≡ c
        → d' ≡ (store.engine.exec rollback_sql d).1
        → Undone true c d'
    rollback-owned c d d' r e = elim (Bool-cases (at (store.engine.exec rollback_sql d).1)) [
      | inl over ↦ inl (ap contents e ∙ law.rollback_restores d over ∙ r)
      | inr still ↦ inr (
          inr (
            (ap at e ∙ still, ap base e ∙ law.rollback_refused d still ∙ r),
            (d, rollback_sql-fails d still, e),
          ))
    ]

    rollback-nested :
        (c : Tables) (d d' : Db)
        → (at d ≡ false → mark d ≡ c)
        → d' ≡ (store.engine.exec (rollback_and_release_sql mutation_name) d).1
        → Undone false c d'
    rollback-nested c d d' r e =
        let x = store.engine.exec (rollback_and_release_sql mutation_name) d in
        elim (Bool-cases (at d)) [
          | inl over ↦ inr (inl (refl, ap at e ∙ law.rollback_to_idle d over))
          | inr within ↦ elim (Bool-cases (is_ok (map_sqlite_status x.0))) [
            | inl good ↦ inl (ap contents e ∙ law.rollback_to_restores d within good ∙ r within)
            | inr bad ↦ elim (Bool-cases (at x.1)) [
              | inl over ↦ inr (inl (refl, ap at e ∙ over))
              | inr still ↦
                  let marked = law.rollback_to_refused d within bad still in
                  inr (inr ((ap at e ∙ still, ap mark e ∙ marked ∙ r within), (d, bad, e)))
            ]
          ]
        ]

    pub rollback-Undone :
        (owns : Bool) (c : Tables) (s : Session Db)
        → Recoverable owns c s.handle
        → Undone owns c (rollback_store_mutation store owns s).handle
    unfolding rollback_store_mutation
    rollback-Undone true c s r =
        let x = exec_step store rollback_sql Phase.object_store s in
        rollback-owned c s.handle _ r (
          sync-handle (if is_done x.0 then count_rollback x.1 else x.1)
          ∙ counted_rollback-handle (is_done x.0) x.1
          ∙ exec_step-handle store rollback_sql Phase.object_store s)
    rollback-Undone false c s r =
        rollback-nested c s.handle _ r
          (exec_step-handle store (rollback_and_release_sql mutation_name) Phase.object_store s)

    -- A guarded step: it has succeeded inside the scope, or is undone.
    abbrev pub Guarded : {A : Type 0} → Bool → Tables → Outcome A × Session Db → Type 0
    Guarded owns c (done a, s) = Opened store contents base mark owns c s.handle
    Guarded owns c (stopped st e, s) = Undone owns c s.handle

    pub settle_scope-Guarded :
        {A : Type 0} (owns : Bool) (c : Tables) (o : Outcome A) (s : Session Db)
        → Recoverable owns c s.handle
        → (is_done o ≡ true → Opened store contents base mark owns c s.handle)
        → Guarded owns c (settle_scope store owns o s)
    settle_scope-Guarded owns c (done a) s r o = o refl
    settle_scope-Guarded owns c (stopped st e) s r o = rollback-Undone owns c s r

    pub guarded-Guarded :
        {A : Type 0} (owns : Bool) (c : Tables) (m : Action Db A) (s : Session Db)
        → InScope store base mark m
        → Opened store contents base mark owns c s.handle
        → Guarded owns c (guarded store owns m s)
    unfolding guarded
    guarded-Guarded owns c m s hm o =
        let (r, still) =
          Within-Opened owns c s (m s) o (hm.within s (at-Opened owns c s.handle o)) in
        settle_scope-Guarded owns c (m s).0 (m s).1 r still

    -- The end of a scope: what the steps have made of the tables is kept, or all of it is undone.
    abbrev pub Committed : Bool → Tables → Tables → Outcome (Unit {0}) × Session Db → Type 0
    Committed owns c c' (done a, s) = contents s.handle ≡ c'
    Committed owns c c' (stopped st e, s) = Undone owns c s.handle

    finish-Committed :
        (owns : Bool) (c c' : Tables) (o : Outcome (Unit {0})) (s : Session Db)
        → (is_done o ≡ true → contents s.handle ≡ c')
        → (is_done o ≡ false → Recoverable owns c s.handle)
        → let r = settle_scope store owns o s in
          Committed owns c c' (continue r.0 (λ _. modify (counted store owns)) r.1)
    finish-Committed owns c c' (done a) s good bad = ap contents (counted-handle owns s) ∙ good refl
    finish-Committed owns c c' (stopped st e) s good bad = rollback-Undone owns c s (bad refl)

    commit_text-good :
        (owns : Bool) (c c' : Tables) (s : Session Db)
        → Opened store contents base mark owns c s.handle
        → contents s.handle ≡ c'
        → let r = exec_step store (commit_text owns) Phase.object_store s in
          (is_done r.0 ≡ true → contents r.1.handle ≡ c')
          × (is_done r.0 ≡ false → Recoverable owns c r.1.handle)
    commit_text-good true c c' s (on, b) same =
        let e = exec_step-handle store commit_sql Phase.object_store s in
        let d = exec_step-done store commit_sql Phase.object_store s in
        (
          λ h. ap contents e ∙ law.commit_keeps s.handle (sym d ∙ h) ∙ same,
          λ h. ap base e ∙ law.commit_fails s.handle on (sym d ∙ h) ∙ b,
        )
    commit_text-good false c c' s (on, m) same =
        let sql = release_sql mutation_name in
        let e = exec_step-handle store sql Phase.object_store s in
        let d = exec_step-done store sql Phase.object_store s in
        (
          λ h. ap contents e ∙ law.release_keeps s.handle (sym d ∙ h) ∙ same,
          λ h still_on.
              ap mark e ∙ law.release_fails s.handle on (sym d ∙ h) (sym (ap at e) ∙ still_on) ∙ m,
        )

    pub commit-Committed :
        (owns : Bool) (c c' : Tables) (s : Session Db)
        → Opened store contents base mark owns c s.handle
        → contents s.handle ≡ c'
        → Committed owns c c' (commit_store_mutation store owns s)
    unfolding commit_store_mutation guarded ◌>>=◌
    commit-Committed owns c c' s o same =
        let r = exec_step store (commit_text owns) Phase.object_store s in
        let (good, bad) = commit_text-good owns c c' s o same in
        finish-Committed owns c c' r.0 r.1 good bad
