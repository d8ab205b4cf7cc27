-- ===== src/Runtime/Calls.antt =====
-- Sequences of calls on a connection of src/esdb_runtime.cpp.
use esdb.Prelude.{ℕ, Bool, true, not, ◌&&◌, Option, List, [], ◌∷◌}
use esdb.Bytes.{Bytes, CString}
use esdb.Errors.{AllocOutcome}
use esdb.SqliteCode
use esdb.Runtime.Engine.{Engine, TransactionMode}
use esdb.Runtime.Session.{Session}
use esdb.Runtime.Transactions.{begin, commit, rollback, transaction_destroy, exec}
use esdb.Runtime.Savepoints.{savepoint_begin}
use esdb.Runtime.Savepoints.{savepoint_release, savepoint_rollback}
use esdb.Runtime.Lifecycle.{stuck_handle}

-- A call with its arguments, and the outcome of the allocation that it makes.
pub data Call : Type 0 where
  begins : AllocOutcome → Option TransactionMode → Bool → Call
  commits rolls_back destroys : Option ℕ → Call
  saves releases rolls_back_to executes : CString → Call

module _ {Db : Type 0} (engine : Engine Db) where
  unfoldable pub call : Session Db → Call → Session Db
  call s (begins outcome mode has_out) = (begin engine outcome mode has_out s).1
  call s (commits t) = (commit engine t s).1
  call s (rolls_back t) = (rollback engine t s).1
  call s (destroys t) = transaction_destroy engine t s
  call s (saves name) = (savepoint_begin engine name s).1
  call s (releases name) = (savepoint_release engine name s).1
  call s (rolls_back_to name) = (savepoint_rollback engine name s).1
  call s (executes sql) = (exec engine sql s).1

  -- No transaction is destroyed that SQLite does not roll back.
  unfoldable pub clean : Session Db → Call → Bool
  clean s (destroys t) = not (stuck_handle engine t s)
  clean s _ = true

  unfoldable pub call_all : Session Db → List Call → Session Db
  call_all s [] = s
  call_all s (c ∷ cs) = call_all (call s c) cs

  unfoldable pub all_clean : Session Db → List Call → Bool
  all_clean s [] = true
  all_clean s (c ∷ cs) = clean s c && all_clean (call s c) cs
