-- ===== src/Examples/Runtimes.antt =====
-- The theorems on the connection of src/esdb_runtime.cpp, with a small engine in SQLite's place: its
-- databases have a committed version, a current one, and a transaction or none.
use esdb.Prelude.{
  ℕ, ◌≡◌, ◌⊎◌, refl, arith, Bool, true, false, not, none, some, List, [], ◌∷◌, ◌++◌, All, get_elem?,
  if◌then◌else◌, subst, some-injective,
}
use esdb.Bytes.{Bytes}
use esdb.Errors.{Status, granted, cleared}
use esdb.Runtime.Engine.{
  Engine, Sql, begin_sql, commit_sql, rollback_sql, savepoint_sql, release_sql, set_version_sql,
  text_sql, rollback_and_release_sql, store_schema_sql, value, immediate, map_sqlite_status,
}
use esdb.Runtime.Session.{Session, count_operation, fail, exec_sql}
use esdb.Runtime.Transactions.{
  is_ok, begin, adopt, transaction_destroy, transaction_active, find_transaction, finish_active,
}
use esdb.Runtime.Savepoints.{savepoint_begin}
use esdb.Runtime.Invariant.{Consistent}
use esdb.Runtime.Lifecycle.{stuck, begin-Consistent, destroy-dangling}
use esdb.Runtime.Stack.{active_names, savepoint_begin-names}
use esdb.Runtime.Calls.{Call, begins, saves, commits}
use esdb.Runtime.Migrate.{
  Migration, migrate, migrate_from, migrate_loop, migrate_found, applied, apply_step, find_step,
  user_version_get,
}
use esdb.Runtime.Committed.{IsTransactional, Obeys}
use esdb.Runtime.Atomic.{migrate-atomic}

record Database : Type 0 where
  stored : ℕ
  current : ℕ
  in_transaction : Bool

unfoldable run_sql : Sql → Database → ℕ × Database
run_sql (begin_sql m) d =
    (0, record { stored = d.stored; current = d.stored; in_transaction = true })
run_sql commit_sql d =
    (0, record { stored = d.current; current = d.current; in_transaction = false })
run_sql rollback_sql d =
    (0, record { stored = d.stored; current = d.stored; in_transaction = false })
run_sql (savepoint_sql name) d = (0, d)
run_sql (release_sql name) d = (0, d)
run_sql (rollback_and_release_sql name) d = (0, d)
run_sql store_schema_sql d = (0, d)
run_sql (set_version_sql v) d = (
  0,
  record {
    stored = if d.in_transaction then d.stored else v;
    current = v;
    in_transaction = d.in_transaction;
  },
)
run_sql (text_sql sql) d = (0, d)

abbrev small_engine : Engine Database
small_engine = record {
  exec = run_sql;
  autocommit = λ d. not d.in_transaction;
  user_version = λ d. value d.current;
}

-- An engine that refuses to roll back, with `SQLITE_BUSY`.
unfoldable run_busy : Sql → Database → ℕ × Database
run_busy rollback_sql d = (5, d)
run_busy sql d = run_sql sql d

abbrev busy_engine : Engine Database
busy_engine = record {
  exec = run_busy;
  autocommit = λ d. not d.in_transaction;
  user_version = λ d. value d.current;
}

abbrev fresh : Session Database
fresh = record {
  handle = record { stored = 0; current = 0; in_transaction = false };
  transaction_active = false;
  active_transaction = none;
  savepoints = [] ∷ [] ∷ [];
  savepoint_depth = 0;
  counters = record {
    operation_count = 0;
    error_count = 0;
    busy_count = 0;
    commit_count = 0;
    rollback_count = 0;
  };
  last_error = cleared;
  transactions = [];
  object_store_schema_ready = false;
}

fresh-Consistent : Consistent fresh
fresh-Consistent = (
  λ h. (refl, refl),
  λ t h. absurd (ground (arith, h)),
  λ t h. absurd (ground (arith, h)),
  omega arith,
)

-- The name "s".
abbrev name_s : Bytes
name_s = 115 ∷ []

savepoint_begin-names_example :
    ((is_ok (savepoint_begin small_engine (some name_s) fresh).0.status ≡ false)
      × (active_names (savepoint_begin small_engine (some name_s) fresh).1 ≡ active_names fresh))
    ⊎ ((is_ok (savepoint_begin small_engine (some name_s) fresh).0.status ≡ true)
        × (active_names (savepoint_begin small_engine (some name_s) fresh).1
            ≡ active_names fresh ++ name_s ∷ []))
savepoint_begin-names_example = savepoint_begin-names small_engine name_s fresh

abbrev calls : List Call
calls = begins granted (some immediate) true ∷ saves (some name_s) ∷ commits (some 0) ∷ []

abbrev begun : Session Database
begun = (begin busy_engine granted (some immediate) true fresh).1

begun-Consistent : Consistent begun
begun-Consistent = begin-Consistent busy_engine granted (some immediate) true fresh fresh-Consistent

begun-stuck : stuck busy_engine 0 begun ≡ true
unfolding stuck begin adopt exec_sql fail count_operation run_busy run_sql finish_active
    transaction_active find_transaction map_sqlite_status
begun-stuck = refl

destroy-dangling_example :
    ((transaction_destroy busy_engine (some 0) begun).active_transaction ≡ some 0)
    × (get_elem? (transaction_destroy busy_engine (some 0) begun).transactions 0 ≡ some none)
destroy-dangling_example = destroy-dangling busy_engine 0 begun begun-Consistent begun-stuck

-- From version 0 to 1, with a callback that fails.
abbrev failing : Migration Database
failing = record {
  from_version = 0;
  to_version = 1;
  apply =
      some (λ from to s. (some (record { status = Status.sqlite; error = cleared; out = tt }), s));
}

small_engine-IsTransactional : IsTransactional small_engine (λ d. d.stored)
unfolding run_sql map_sqlite_status
small_engine-IsTransactional = record {
  begin_keeps = λ m d. refl;
  rollback_keeps = λ d. refl;
  commit_keeps = λ d bad. absurd (ground (arith, bad));
  version_keeps = λ v d on. ground (arith, on);
  begin_opens = λ m d good. refl;
  version_stays = λ v d on good. on;
}

failing-Obeys : Obeys small_engine (λ d. d.stored) failing
unfolding apply_step
failing-Obeys s on = (refl, λ r e good. on)

failing-fails : is_ok (migrate small_engine granted 1 (some (failing ∷ [])) fresh).0.status ≡ false
unfolding migrate migrate_from migrate_loop migrate_found applied apply_step find_step
    user_version_get begin adopt exec_sql fail count_operation run_sql map_sqlite_status
failing-fails = refl

migrate-atomic_example :
    (migrate small_engine granted 1 (some (failing ∷ [])) fresh).1.handle.stored ≡ 0
migrate-atomic_example =
    migrate-atomic small_engine (λ d. d.stored) small_engine-IsTransactional granted 1
      (some (failing ∷ [])) fresh
      (λ l e.
        subst (λ ms. All (Obeys small_engine (λ d. d.stored)) ms)
          (some-injective (failing ∷ []) l e) (failing-Obeys, tt))
      failing-fails
