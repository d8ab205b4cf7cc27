-- ===== src/Runtime/Session.antt =====
-- The connection (`esdb_database` of src/esdb_internal.hpp) with the transactions made on it, and
-- the error record, counters and SQL helper of src/esdb_runtime.cpp.
--
-- A database that was opened has a handle, so that a null database or handle is not modelled. The
-- transactions are a heap: a destroyed one leaves `none` in its slot.
use esdb.Prelude.{ℕ, ◌+◌, ◌%◌, Bool, true, false, Option, List, ◌==◌, if◌then◌else◌}
use esdb.Bytes.{Bytes}
use esdb.Errors.{Status, busy, Phase, Error, Reply, success}
use esdb.SqliteCode
use esdb.Runtime.Engine.{Engine, Sql, map_sqlite_status}

pub record Transaction : Type 0 where
  pub active : Bool

pub record Counters : Type 0 where
  pub operation_count : ℕ
  pub error_count : ℕ
  pub busy_count : ℕ
  pub commit_count : ℕ
  pub rollback_count : ℕ

pub record Session (Db : Type 0) : Type 0 where
  pub handle : Db
  pub transaction_active : Bool
  pub active_transaction : Option ℕ
  pub savepoints : List Bytes
  pub savepoint_depth : ℕ
  pub counters : Counters
  pub last_error : Error
  pub transactions : List (Option Transaction)
  pub object_store_schema_ready : Bool

abbrev pub savepoint_slots : ℕ
savepoint_slots = 64

-- The counters are 64 bits wide.
abbrev pub counter_add : ℕ → ℕ
counter_add n = (n + 1) % 18446744073709551616

abbrev is_busy : Status → Bool
is_busy busy = true
is_busy _ = false

module _ {Db : Type 0} where
  unfoldable pub count_operation : Session Db → Session Db
  count_operation s = record s {
    counters = record s.counters { operation_count = counter_add s.counters.operation_count };
  }

  unfoldable pub count_commit : Session Db → Session Db
  count_commit s = record s {
    counters = record s.counters { commit_count = counter_add s.counters.commit_count };
  }

  unfoldable pub count_rollback : Session Db → Session Db
  count_rollback s = record s {
    counters = record s.counters { rollback_count = counter_add s.counters.rollback_count };
  }

  -- The failure is the reply, and is recorded on the connection.
  unfoldable pub fail {ℓ} :
      {A : Type ℓ} → Status → Phase → ℕ → A → Session Db → Reply A × Session Db
  fail st phase code a s =
      let recorded : Error = record { status = st; phase = phase; sqlite_code = code } in
      let errors = counter_add s.counters.error_count in
      let busies =
        if is_busy st then counter_add s.counters.busy_count else s.counters.busy_count in
      (
        record { status = st; error = recorded; out = a },
        record s {
          counters = record s.counters { error_count = errors; busy_count = busies };
          last_error = recorded;
        },
      )

  -- `exec_sql`: the phase is the caller's, and the error structure is not cleared first.
  unfoldable pub exec_sql : Engine Db → Sql → Phase → Session Db → Reply (Unit {0}) × Session Db
  exec_sql engine sql phase s =
      let r = engine.exec sql s.handle in
      let after = record s { handle = r.1 } in
      if r.0 == SqliteCode.ok
      then (success tt, after)
      else fail (map_sqlite_status r.0) phase r.0 tt after
