-- ===== src/Runtime/Invariant.antt =====
-- The flags of a connection of src/esdb_runtime.cpp and the flags of its transactions agree.
use esdb.Prelude.{
  ℕ, ◌≤◌, ◌≡◌, ◌≢◌, refl, arith, true, false, Option, none, some, ◌==◌, length, get_elem?, set, sym,
  ap, subst, ◌∙◌, Bool-cases, inl, inr, set-get_elem?, get_elem?-set_ne,
}
use esdb.Bytes.{CString}
use esdb.Errors.{Status, Phase}
use esdb.SqliteCode
use esdb.Runtime.Engine.{Engine, Sql, text_sql}
use esdb.Runtime.Session.{Session, Transaction, count_operation, fail, exec_sql}
use esdb.Runtime.Transactions.{ended, synchronise, exec, released}

module _ {Db : Type 0} where
  abbrev pub SameFrame : Session Db → Session Db → Type 0
  SameFrame s t =
      (s.transaction_active ≡ t.transaction_active)
      × (s.active_transaction ≡ t.active_transaction)
      × (s.savepoints ≡ t.savepoints)
      × (s.savepoint_depth ≡ t.savepoint_depth)
      × (s.transactions ≡ t.transactions)

  -- No savepoint and no active transaction without the connection's flag; the active transaction
  -- of the connection is the only one that is active; the savepoints are within their array.
  abbrev pub Consistent : Session Db → Type 0
  Consistent s =
      (s.transaction_active ≡ false → (s.savepoint_depth ≡ 0) × (s.active_transaction ≡ none))
      × ((t : ℕ)
          → s.active_transaction ≡ some t
          → get_elem? s.transactions t ≡ some (some (record { active = true })))
      × ((t : ℕ)
          → get_elem? s.transactions t ≡ some (some (record { active = true }))
          → s.active_transaction ≡ some t)
      × (s.savepoint_depth ≤ length s.savepoints)

  pub SameFrame-Consistent : (s t : Session Db) → SameFrame s t → Consistent s → Consistent t
  SameFrame-Consistent s t (a, b, c, d, e) (p, q, r, l) = (
    λ h. let w = p (a ∙ h) in (sym d ∙ w.0, sym b ∙ w.1),
    λ i h. subst (λ x. get_elem? x i ≡ some (some (record { active = true }))) e (q i (b ∙ h)),
    λ i h.
        sym b ∙ r i (subst (λ x. get_elem? x i ≡ some (some (record { active = true }))) (sym e) h),
    omega (arith, d, ap length c),
  )

  pub exec_sql-SameFrame :
      (engine : Engine Db) (sql : Sql) (phase : Phase) (s : Session Db)
      → SameFrame s (exec_sql engine sql phase s).1
  unfolding exec_sql fail
  exec_sql-SameFrame engine sql phase s =
      elim (Bool-cases ((engine.exec sql s.handle).0 == SqliteCode.ok)) [
        | inl e ↦ rw e (refl, refl, refl, refl, refl)
        | inr e ↦ rw e (refl, refl, refl, refl, refl)
      ]

  pub exec_sql-Consistent :
      (engine : Engine Db) (sql : Sql) (phase : Phase) (s : Session Db)
      → Consistent s
      → Consistent (exec_sql engine sql phase s).1
  exec_sql-Consistent engine sql phase s c =
      SameFrame-Consistent s (exec_sql engine sql phase s).1 (exec_sql-SameFrame engine sql phase s)
        c

  -- A transaction list in which the only active transaction was made inactive, or freed.
  pub none-active :
      (s : Session Db) (t : ℕ) (slot : Option Transaction)
      → Consistent s
      → get_elem? s.transactions t ≡ some (some (record { active = true }))
      → slot ≢ some (record { active = true })
      → (u : ℕ) → get_elem? (set s.transactions t slot) u ≢ some (some (record { active = true }))
  none-active s t slot (p, q, r, l) live gone u h = elim (Bool-cases (t == u)) [
    | inl e ↦
        let tu : t ≡ u = ground (arith, e) in
        let at = set-get_elem? s.transactions t (some (record { active = true })) slot live in
        gone (ground (arith, tu, at, h))
    | inr e ↦
        let ne : t ≢ u = ground (arith, e) in
        let at = sym (get_elem?-set_ne s.transactions t u slot ne) ∙ h in
        ne (ground (arith, r t live, r u at))
  ]

  pub ended-Consistent :
      (t : ℕ) (s : Session Db)
      → Consistent s
      → get_elem? s.transactions t ≡ some (some (record { active = true }))
      → Consistent (ended t s)
  unfolding ended
  ended-Consistent t s c live =
      let cleared : (ended t s).active_transaction ≡ none = ground (arith, c.2 t live) in
      (
        λ h. (refl, cleared),
        λ u h. absurd (ground (arith, cleared, h)),
        λ u h. absurd (
            none-active s t (some (record { active = false })) c live (λ e. ground (arith, e)) u h),
        omega arith,
      )

  released-Consistent :
      (o : Option ℕ) (s : Session Db)
      → Consistent s
      → s.active_transaction ≡ o
      → Consistent (released o s)
  unfolding released
  released-Consistent none s c a = (λ h. (refl, a), c.1, c.2, omega arith)
  released-Consistent (some t) s c a = (
    λ h. (refl, refl),
    λ u h. absurd (ground (arith, h)),
    λ u h. absurd (
        none-active s t (some (record { active = false })) c (c.1 t a) (λ e. ground (arith, e)) u
          h),
    omega arith,
  )

  pub synchronise-Consistent :
      (engine : Engine Db) (s : Session Db) → Consistent s → Consistent (synchronise engine s)
  unfolding synchronise
  synchronise-Consistent engine s c = elim (Bool-cases (engine.autocommit s.handle)) [
    | inr e ↦ rw e (λ h. absurd (ground (arith, h)), c.1, c.2, c.3)
    | inl e ↦
        subst Consistent {x = released s.active_transaction s} {y = synchronise engine s}
          (rw e refl) (released-Consistent s.active_transaction s c refl)
  ]

  pub counted-Consistent : (s : Session Db) → Consistent s → Consistent (count_operation s)
  unfolding count_operation
  counted-Consistent s c = c

  pub fail-Consistent {ℓ} :
      {A : Type ℓ} (st : Status) (phase : Phase) (code : ℕ) (a : A) (s : Session Db)
      → Consistent s
      → Consistent (fail st phase code a s).1
  unfolding fail
  fail-Consistent st phase code a s c = c

  pub exec-Consistent :
      (engine : Engine Db) (sql : CString) (s : Session Db)
      → Consistent s
      → Consistent (exec engine sql s).1
  unfolding exec
  exec-Consistent engine none s c =
      let a : Unit {0} = tt in
      synchronise-Consistent engine
        (fail Status.invalid_argument Phase.exec SqliteCode.misuse a (count_operation s)).1
        (fail-Consistent Status.invalid_argument Phase.exec SqliteCode.misuse a (count_operation s)
          (counted-Consistent s c))
  exec-Consistent engine (some sql) s c =
      synchronise-Consistent engine
        (exec_sql engine (text_sql sql) Phase.exec (count_operation s)).1
        (exec_sql-Consistent engine (text_sql sql) Phase.exec (count_operation s)
          (counted-Consistent s c))
