-- ===== src/Runtime/Transactions.antt =====
-- Transactions of src/esdb_runtime.cpp: `esdb_begin`, `esdb_commit`, `esdb_rollback`,
-- `esdb_transaction_destroy`, and `esdb_exec`, which keeps the flags in step with SQLite.
use esdb.Prelude.{
  ℕ, Bool, true, false, not, Option, none, some, [], ◌∷◌, ◌++◌, ◌==◌, if◌then◌else◌, length,
  get_elem?, set,
}
use esdb.Bytes.{CString}
use esdb.Errors.{Status, Phase, Reply, success, AllocOutcome, attempt_nothrow, set_error}
use esdb.SqliteCode
use esdb.Runtime.Engine.{Engine, TransactionMode, begin_sql, commit_sql, rollback_sql, text_sql}
use esdb.Runtime.Session.{
  Session, Transaction, count_operation, count_commit, count_rollback, fail, exec_sql,
}

abbrev pub is_ok : Status → Bool
is_ok Status.ok = true
is_ok _ = false

-- A status other than `ESDB_OK` is passed on, with no out value.
abbrev pub forward {ℓ} : {A : Type ℓ} → A → Reply (Unit {0}) → Reply A
forward a r = record { status = r.status; error = r.error; out = a }

abbrev pub same_transaction : ℕ → Option ℕ → Bool
same_transaction t none = false
same_transaction t (some u) = t == u

module _ {Db : Type 0} where
  -- The transaction is over, on its own flag and on the connection.
  unfoldable pub ended : ℕ → Session Db → Session Db
  ended t s = record s {
    transaction_active = false;
    savepoint_depth = 0;
    active_transaction =
        if same_transaction t s.active_transaction then none else s.active_transaction;
    transactions = set s.transactions t (some (record { active = false }));
  }

  -- A null handle is `none`, and a destroyed one is refused like it.
  unfoldable pub find_transaction : Session Db → Option ℕ → Option Transaction
  find_transaction s none = none
  find_transaction s (some t) = elim (get_elem? s.transactions t) [ none ↦ none | some slot ↦ slot ]

  abbrev pub counted_on : Option ℕ → Session Db → Session Db
  counted_on none s = s
  counted_on (some t) s = count_operation s

  unfoldable pub transaction_active : Option ℕ → Session Db → Bool
  transaction_active t s = elim (find_transaction s t) [ none ↦ false | some tx ↦ tx.active ]

  -- The connection has no open transaction, and the one that was active is told so.
  unfoldable pub released : Option ℕ → Session Db → Session Db
  released none s = record s { transaction_active = false; savepoint_depth = 0 }
  released (some t) s = record s {
    transaction_active = false;
    savepoint_depth = 0;
    active_transaction = none;
    transactions = set s.transactions t (some (record { active = false }));
  }

  abbrev pub count_finish : Bool → Session Db → Session Db
  count_finish true s = count_commit s
  count_finish false s = count_rollback s

  unfoldable pub free : ℕ → Session Db → Session Db
  free t s = record s { transactions = set s.transactions t none }

module _ {Db : Type 0} (engine : Engine Db) where
  -- The end of `esdb_begin`, after SQLite has begun.
  unfoldable pub adopt : AllocOutcome → Session Db → Reply (Option ℕ) × Session Db
  adopt outcome s =
      let begun = record s { transaction_active = true } in
      let undone = record (exec_sql engine rollback_sql Phase.transaction begun).1 {
        transaction_active = false;
      } in
      attempt_nothrow outcome
        (fail Status.out_of_memory Phase.transaction SqliteCode.nomem none undone)
        (
          success (some (length s.transactions)),
          record begun {
            active_transaction = some (length s.transactions);
            transactions = s.transactions ++ some (record { active = true }) ∷ [];
          },
        )

  -- An unknown mode is `none`.
  unfoldable pub begin :
      AllocOutcome → Option TransactionMode → Bool → Session Db → Reply (Option ℕ) × Session Db
  begin outcome mode has_out s =
      let counted = count_operation s in
      let misuse =
        λ (st : Status). fail {A = Option ℕ} st Phase.transaction SqliteCode.misuse none counted in
      if not has_out
      then misuse Status.invalid_argument
      else (if s.transaction_active then misuse Status.invalid_state else elim mode [
        | none ↦ misuse Status.invalid_argument
        | some m ↦
            let r = exec_sql engine (begin_sql m) Phase.transaction counted in
            if is_ok r.0.status then adopt outcome r.1 else (forward none r.0, r.1)
      ])

  -- `finish_transaction` of an active transaction.
  unfoldable pub finish_active : ℕ → Bool → Session Db → Reply (Unit {0}) × Session Db
  finish_active t commit s =
      let r = exec_sql engine (if commit then commit_sql else rollback_sql) Phase.transaction s in
      let over = ended t r.1 in
      if is_ok r.0.status then (r.0, count_finish commit over) else (
        r.0,
        if engine.autocommit r.1.handle then over else record r.1 { transaction_active = true },
      )

  -- The transaction that a handle names, or `none` for a handle that names none.
  unfoldable pub finish_found :
      Option Transaction → ℕ → Bool → Session Db → Reply (Unit {0}) × Session Db
  finish_found none t commit s =
      (set_error Status.invalid_state Phase.transaction SqliteCode.misuse tt, s)
  finish_found (some transaction) t commit s =
      if transaction.active
      then finish_active t commit s
      else fail Status.invalid_state Phase.transaction SqliteCode.misuse tt s

  unfoldable pub finish_transaction : Option ℕ → Bool → Session Db → Reply (Unit {0}) × Session Db
  finish_transaction none commit s =
      (set_error Status.invalid_state Phase.transaction SqliteCode.misuse tt, s)
  finish_transaction (some t) commit s = finish_found (find_transaction s (some t)) t commit s

  unfoldable pub commit : Option ℕ → Session Db → Reply (Unit {0}) × Session Db
  commit t s = finish_transaction t true (counted_on t s)

  unfoldable pub rollback : Option ℕ → Session Db → Reply (Unit {0}) × Session Db
  rollback t s = finish_transaction t false (counted_on t s)

  -- An active transaction is rolled back first, and the result of that is not looked at.
  unfoldable pub destroy_found : Option Transaction → ℕ → Session Db → Session Db
  destroy_found none t s = s
  destroy_found (some transaction) t s =
      free t (if transaction.active then (finish_active t false s).1 else s)

  unfoldable pub transaction_destroy : Option ℕ → Session Db → Session Db
  transaction_destroy none s = s
  transaction_destroy (some t) s = destroy_found (find_transaction s (some t)) t s

  -- The flags are set by what SQLite says.
  unfoldable pub synchronise : Session Db → Session Db
  synchronise s =
      if engine.autocommit s.handle
      then released s.active_transaction s
      else record s { transaction_active = true }

  -- `esdb_exec`
  unfoldable pub exec : CString → Session Db → Reply (Unit {0}) × Session Db
  exec none s =
      let r = fail Status.invalid_argument Phase.exec SqliteCode.misuse tt (count_operation s) in
      (r.0, synchronise r.1)
  exec (some sql) s =
      let r = exec_sql engine (text_sql sql) Phase.exec (count_operation s) in
      (r.0, synchronise r.1)
