-- ===== src/Runtime/Savepoints.antt =====
-- Savepoints of src/esdb_runtime.cpp: a stack of names in a fixed array of the connection.
use esdb.Prelude.{
  suc, ◌-◌, Bool, true, false, not, none, some, [], ◌∷◌, ◌==◌, ◌&&◌, leb, if◌then◌else◌, length,
  get_elem?, set,
}
use esdb.Bytes.{Bytes, CString}
use esdb.Errors.{Status, Phase, Reply, success}
use esdb.SqliteCode
use esdb.Runtime.Engine.{Engine, Sql, savepoint_sql, release_sql, rollback_and_release_sql}
use esdb.Runtime.Session.{Session, count_operation, fail, exec_sql}
use esdb.Runtime.SavepointName.{valid_savepoint_name}
use esdb.Runtime.Transactions.{is_ok}

-- `strcmp` of two texts that have no NUL in them.
unfoldable pub same_text : Bytes → Bytes → Bool
same_text [] [] = true
same_text [] (d ∷ ds) = false
same_text (c ∷ cs) [] = false
same_text (c ∷ cs) (d ∷ ds) = c == d && same_text cs ds

-- Whether the name is that of the most recent active savepoint.
unfoldable pub is_top : {Db : Type 0} → Bytes → Session Db → Bool
is_top name s =
    if s.savepoint_depth == 0
    then false
    else elim (get_elem? s.savepoints (s.savepoint_depth - 1)) [
      | none ↦ false
      | some top ↦ same_text top name
    ]

module _ {Db : Type 0} where
  abbrev pub refuse : Status → Session Db → Reply (Unit {0}) × Session Db
  refuse st s = fail st Phase.savepoint SqliteCode.misuse tt s

  -- After SQLite has made the savepoint.
  unfoldable pub push_savepoint : Bytes → Session Db → Session Db
  push_savepoint name s = record s {
    savepoints = set s.savepoints s.savepoint_depth name;
    savepoint_depth = suc s.savepoint_depth;
  }

  unfoldable pub pop_savepoint : Session Db → Session Db
  pop_savepoint s = record s { savepoint_depth = s.savepoint_depth - 1 }

module _ {Db : Type 0} (engine : Engine Db) where
  unfoldable pub savepoint_begin : CString → Session Db → Reply (Unit {0}) × Session Db
  savepoint_begin none s = refuse Status.invalid_argument (count_operation s)
  savepoint_begin (some name) s =
      let counted = count_operation s in
      if not (valid_savepoint_name (some name))
      then refuse Status.invalid_argument counted
      else (if not s.transaction_active
          then refuse Status.invalid_state counted
          else (if leb (length s.savepoints) s.savepoint_depth
              then refuse Status.invalid_state counted
              else (let r = exec_sql engine (savepoint_sql name) Phase.savepoint counted in
                  if is_ok r.0.status then (success tt, push_savepoint name r.1) else r)))

  -- `esdb_savepoint_release` and `esdb_savepoint_rollback` differ in their SQL only.
  unfoldable pub savepoint_end :
      (Bytes → Sql) → CString → Session Db → Reply (Unit {0}) × Session Db
  savepoint_end sql none s = refuse Status.invalid_argument (count_operation s)
  savepoint_end sql (some name) s =
      let counted = count_operation s in
      if not (valid_savepoint_name (some name))
      then refuse Status.invalid_argument counted
      else (if not (is_top name counted)
          then refuse Status.invalid_state counted
          else (let r = exec_sql engine (sql name) Phase.savepoint counted in
              if is_ok r.0.status then (success tt, pop_savepoint r.1) else r))

  unfoldable pub savepoint_release : CString → Session Db → Reply (Unit {0}) × Session Db
  savepoint_release name s = savepoint_end release_sql name s

  -- `ROLLBACK TO` and `RELEASE` in one call of SQLite.
  unfoldable pub savepoint_rollback : CString → Session Db → Reply (Unit {0}) × Session Db
  savepoint_rollback name s = savepoint_end rollback_and_release_sql name s
