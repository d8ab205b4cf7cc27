-- ===== src/ObjectStore/Action.antt =====
-- A call on a connection: the status of src/esdb_object_store.cpp as a value. A step that is stopped
-- gives its status and the error structure, and what it has done to the connection stays done.
use esdb.Prelude.{ℕ, Bool, true, false, Option, none, some, if◌then◌else◌}
use esdb.Errors.{Status, Phase, Error, AllocOutcome, cleared}
use esdb.SqliteCode
use esdb.Runtime.Engine.{Sql, map_sqlite_status}
use esdb.Runtime.Session.{Session, fail, exec_sql}
use esdb.Runtime.Transactions.{is_ok}
use esdb.ObjectStore.Sql.{Query, Row, First, failed_first, row, finished_first, Ran, StoreEngine}

-- `done` is `ESDB_OK` with the out parameters. Where a call stops, its out parameters are what they
-- were set to at the start.
pub data Outcome {ℓ} (A : Type ℓ) : Type ℓ where
  done : A → Outcome A
  stopped : Status → Error → Outcome A

abbrev pub is_done {ℓ} : {A : Type ℓ} → Outcome A → Bool
is_done (done a) = true
is_done (stopped st e) = false

abbrev pub Action : Type 0 → Type 0 → Type 0
Action Db A = Session Db → Outcome A × Session Db

module _ {Db A : Type 0} where
  abbrev pub pure : A → Action Db A
  pure a s = (done a, s)

  abbrev pub gets : (Session Db → A) → Action Db A
  gets f s = (done (f s), s)

  -- `return fail(...)`
  unfoldable pub refuse : Status → Phase → ℕ → Action Db A
  refuse st phase code s =
      let r = fail {A = Unit {0}} st phase code tt s in (stopped st r.0.error, r.1)

  -- A status that is returned with nothing recorded.
  abbrev pub quietly : Status → Action Db A
  quietly st s = (stopped st cleared, s)

module _ {Db A B : Type 0} where
  abbrev pub continue : Outcome A → (A → Action Db B) → Action Db B
  continue (done a) f s = f a s
  continue (stopped st e) f s = (stopped st e, s)

  infixl 5 ◌>>=◌ ◌>>◌
  unfoldable pub ◌>>=◌ : Action Db A → (A → Action Db B) → Action Db B
  ◌>>=◌ m f s = let r = m s in continue r.0 f r.1

  abbrev pub ◌>>◌ : Action Db A → Action Db B → Action Db B
  m >> k = m >>= λ _. k

module _ {Db : Type 0} where
  abbrev pub modify : (Session Db → Session Db) → Action Db (Unit {0})
  modify f s = (done tt, f s)

  -- `if (guard) return fail(...)`
  abbrev pub refuse_if : Bool → Status → Phase → ℕ → Action Db (Unit {0})
  refuse_if b st phase code = if b then refuse st phase code else pure tt

  -- The catch clauses of a call of the object store.
  abbrev pub allocate : AllocOutcome → Phase → Action Db (Unit {0})
  allocate AllocOutcome.granted phase = pure tt
  allocate AllocOutcome.bad_alloc phase = refuse Status.out_of_memory phase SqliteCode.nomem
  allocate AllocOutcome.thrown phase = refuse Status.internal phase SqliteCode.error

  abbrev pub first_outcome : First → Phase → Action Db (Option Row)
  first_outcome (failed_first code) phase = refuse (map_sqlite_status code) phase code
  first_outcome (row r) phase = pure (some r)
  first_outcome finished_first phase = pure none

  -- The failure of a step that ends the rows.
  abbrev pub end_of : Option ℕ → Phase → Action Db (Unit {0})
  end_of none phase = pure tt
  end_of (some code) phase = refuse (map_sqlite_status code) phase code

module _ {Db : Type 0} (store : StoreEngine Db) where
  unfoldable pub exec_step : Sql → Phase → Action Db (Unit {0})
  exec_step sql phase s =
      let r = exec_sql store.engine sql phase s in
      if is_ok r.0.status then (done tt, r.1) else (stopped r.0.status r.0.error, r.1)

  -- `prepare`, the binds, and one `step`: a row, or `SQLITE_DONE`.
  unfoldable pub first : Query → Phase → Action Db (Option Row)
  first q phase s =
      let r = store.first q s.handle in first_outcome r.0 phase (record s { handle = r.1 })

  -- `prepare`, the binds, and the steps up to the end, for the loop that reads the rows: what it
  -- makes of the rows, if it stops at none, and then the call that failed.
  unfoldable pub all : Query → Action Db Ran
  all q s = let r = store.all q s.handle in (done r.0, record s { handle = r.1 })
