-- ===== src/Runtime/Lifecycle.antt =====
-- Every call on a connection of src/esdb_runtime.cpp keeps its flags and those of its transactions
-- in agreement.
use esdb.Prelude.{
  ℕ, zero, suc, ◌≡◌, ◌≢◌, refl, arith, Bool, true, false, ◌&&◌, Option, none, some, List, [], ◌∷◌,
  ◌==◌, if◌then◌else◌, get_elem?, set, sym, subst, ◌∙◌, Option-cases, Bool-cases, if-cases, inl,
  inr, set-get_elem?, get_elem?-set_ne,
}
use esdb.Errors.{Status, Phase, Reply, AllocOutcome, set_error}
use esdb.SqliteCode
use esdb.Runtime.Engine.{Engine, TransactionMode, begin_sql}
use esdb.Runtime.Session.{Session, Transaction, count_operation, exec_sql}
use esdb.Runtime.Transactions.{
  is_ok, find_transaction, begin, finish_active, finish_transaction, commit, rollback,
  transaction_destroy,
}
use esdb.Runtime.Transactions.{transaction_active, finish_found, destroy_found, free}
use esdb.Runtime.Invariant.{
  Consistent, exec_sql-SameFrame, exec_sql-Consistent, counted-Consistent, fail-Consistent,
}
use esdb.Runtime.Finishing.{adopt-Consistent, finish_active-Consistent}

abbrev none_out : Option ℕ
none_out = none

set-none :
    (xs : List (Option Transaction)) (t : ℕ)
    → get_elem? (set xs t none) t ≢ some (some (record { active = true }))
set-none [] t h = ground (arith, h)
set-none (x ∷ xs) zero h = ground (arith, h)
set-none (x ∷ xs) (suc t) h = set-none xs t h

module _ {Db : Type 0} (engine : Engine Db) where
  pub begin-Consistent :
      (outcome : AllocOutcome) (mode : Option TransactionMode) (has_out : Bool) (s : Session Db)
      → Consistent s
      → Consistent (begin engine outcome mode has_out s).1
  unfolding begin
  begin-Consistent outcome mode false s c =
      fail-Consistent Status.invalid_argument Phase.transaction SqliteCode.misuse none_out
        (count_operation s) (counted-Consistent s c)
  begin-Consistent outcome none true s c =
      if-cases (λ (r : Reply (Option ℕ) × Session Db). Consistent r.1) s.transaction_active _ _
        (λ h.
          fail-Consistent Status.invalid_state Phase.transaction SqliteCode.misuse none_out
            (count_operation s) (counted-Consistent s c))
        (λ h.
          fail-Consistent Status.invalid_argument Phase.transaction SqliteCode.misuse none_out
            (count_operation s) (counted-Consistent s c))
  begin-Consistent outcome (some m) true s c =
      let r = exec_sql engine (begin_sql m) Phase.transaction (count_operation s) in
      let cr : Consistent r.1 =
        exec_sql-Consistent engine (begin_sql m) Phase.transaction (count_operation s)
          (counted-Consistent s c) in
      let same = exec_sql-SameFrame engine (begin_sql m) Phase.transaction (count_operation s) in
      if-cases (λ (r : Reply (Option ℕ) × Session Db). Consistent r.1) s.transaction_active _ _
        (λ h.
          fail-Consistent Status.invalid_state Phase.transaction SqliteCode.misuse none_out
            (count_operation s) (counted-Consistent s c))
        (λ idle.
          if-cases (λ (r : Reply (Option ℕ) × Session Db). Consistent r.1) (is_ok r.0.status) _ _
            (λ h.
              adopt-Consistent engine outcome r.1 cr
                (sym same.0 ∙ (unfold count_operation in idle)))
            (λ h. cr))

  -- The transaction cannot be rolled back: `finish_transaction` leaves it active.
  unfoldable pub stuck : ℕ → Session Db → Bool
  stuck t s =
      transaction_active (some t) s
      && transaction_active (some t) (finish_active engine t false s).1

  unfoldable pub stuck_handle : Option ℕ → Session Db → Bool
  stuck_handle none s = false
  stuck_handle (some t) s = stuck t s

  active-slot :
      (t : ℕ) (s : Session Db)
      → transaction_active (some t) s ≡ true
      → get_elem? s.transactions t ≡ some (some (record { active = true }))
  unfolding transaction_active find_transaction
  active-slot t s h = elim (Option-cases (get_elem? s.transactions t)) [
    | inl e ↦ absurd (ground (arith, h, e))
    | inr (none, e) ↦ absurd (ground (arith, h, e))
    | inr (some tx, e) ↦ ground (arith, h, e)
  ]

  finish_found-Consistent :
      (tx : Option Transaction) (t : ℕ) (commits : Bool) (s : Session Db)
      → Consistent s
      → find_transaction s (some t) ≡ tx
      → Consistent (finish_found engine tx t commits s).1
  unfolding finish_found set_error find_transaction
  finish_found-Consistent none t commits s c e = c
  finish_found-Consistent (some tx) t commits s c e =
      let a : Unit {0} = tt in
      if-cases (λ (r : Reply (Unit {0}) × Session Db). Consistent r.1) tx.active _ _
        (λ on.
          finish_active-Consistent engine t commits s c
            (active-slot t s (unfold transaction_active in ground (arith, e, on))))
        (λ off. fail-Consistent Status.invalid_state Phase.transaction SqliteCode.misuse a s c)

  finish-Consistent :
      (t : Option ℕ) (commits : Bool) (s : Session Db)
      → Consistent s
      → Consistent (finish_transaction engine t commits s).1
  unfolding finish_transaction set_error
  finish-Consistent none commits s c = c
  finish-Consistent (some t) commits s c =
      finish_found-Consistent (find_transaction s (some t)) t commits s c refl

  pub commit-Consistent :
      (t : Option ℕ) (s : Session Db) → Consistent s → Consistent (commit engine t s).1
  unfolding commit
  commit-Consistent none s c = finish-Consistent none true s c
  commit-Consistent (some t) s c =
      finish-Consistent (some t) true (count_operation s) (counted-Consistent s c)

  pub rollback-Consistent :
      (t : Option ℕ) (s : Session Db) → Consistent s → Consistent (rollback engine t s).1
  unfolding rollback
  rollback-Consistent none s c = finish-Consistent none false s c
  rollback-Consistent (some t) s c =
      finish-Consistent (some t) false (count_operation s) (counted-Consistent s c)

  free-Consistent :
      (t : ℕ) (s : Session Db)
      → Consistent s
      → transaction_active (some t) s ≡ false
      → Consistent (free t s)
  unfolding free transaction_active find_transaction
  free-Consistent t s c off = (
    c.0,
    λ u h. elim (Bool-cases (t == u)) [
      | inl e ↦ let tu : t ≡ u = ground (arith, e) in absurd (ground (arith, off, tu, c.1 u h))
      | inr e ↦
          let ne : t ≢ u = ground (arith, e) in
          get_elem?-set_ne s.transactions t u none ne ∙ c.1 u h
    ],
    λ u h. elim (Bool-cases (t == u)) [
      | inl e ↦
          let tu : t ≡ u = ground (arith, e) in
          absurd (
            set-none s.transactions t (
              subst
                (λ n.
                  get_elem? (set s.transactions t none) n ≡ some (some (record { active = true })))
                (sym tu) h))
      | inr e ↦
          let ne : t ≢ u = ground (arith, e) in
          c.2 u (sym (get_elem?-set_ne s.transactions t u none ne) ∙ h)
    ],
    c.3,
  )

  pub destroy-Consistent :
      (t : Option ℕ) (s : Session Db)
      → Consistent s
      → stuck_handle t s ≡ false
      → Consistent (transaction_destroy engine t s)
  unfolding transaction_destroy destroy_found stuck stuck_handle
  destroy-Consistent none s c fine = c
  destroy-Consistent (some t) s c fine = elim (Option-cases (find_transaction s (some t))) [
    | inl e ↦ subst (λ o. Consistent (destroy_found engine o t s)) (sym e) c
    | inr (tx, e) ↦
        let on_or_off : transaction_active (some t) s ≡ tx.active =
          unfold transaction_active in ground (arith, e) in
        subst (λ o. Consistent (destroy_found engine o t s)) (sym e)
          (elim (Bool-cases tx.active) [
            | inl on ↦
                let live = active-slot t s (on_or_off ∙ on) in
                let over = finish_active-Consistent engine t false s c live in
                let off : transaction_active (some t) (finish_active engine t false s).1 ≡ false =
                  ground (arith, fine, on_or_off, on) in
                subst
                  (λ b. Consistent (free t (if b then (finish_active engine t false s).1 else s)))
                  (sym on) (free-Consistent t (finish_active engine t false s).1 over off)
            | inr off ↦
                subst
                  (λ b. Consistent (free t (if b then (finish_active engine t false s).1 else s)))
                  (sym off) (free-Consistent t s c (on_or_off ∙ off))
          ])
  ]

  -- Destroying a transaction that cannot be rolled back frees it while the connection still points
  -- at it.
  pub destroy-dangling :
      (t : ℕ) (s : Session Db)
      → Consistent s
      → stuck t s ≡ true
      → ((transaction_destroy engine (some t) s).active_transaction ≡ some t)
        × (get_elem? (transaction_destroy engine (some t) s).transactions t ≡ some none)
  unfolding transaction_destroy destroy_found stuck free
  destroy-dangling t s c h =
      let on : transaction_active (some t) s ≡ true = ground (arith, h) in
      let still : transaction_active (some t) (finish_active engine t false s).1 ≡ true =
        ground (arith, h) in
      let live = active-slot t s on in
      let over = finish_active-Consistent engine t false s c live in
      let left = active-slot t (finish_active engine t false s).1 still in
      let found : find_transaction s (some t) ≡ some (record { active = true }) =
        unfold find_transaction in ground (arith, live) in
      rw found (
        over.2 t left,
        set-get_elem? (finish_active engine t false s).1.transactions t
            (some (record { active = true })) none left,
      )
