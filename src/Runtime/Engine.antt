-- ===== src/Runtime/Engine.antt =====
-- What src/esdb_runtime.cpp uses of SQLite: `sqlite3_exec` of the statements that it builds,
-- `sqlite3_get_autocommit`, and the scalar query of `PRAGMA user_version`. SQLite is a parameter;
-- what a theorem needs of it is among the
-- theorem's hypotheses.
use esdb.Prelude.{ℕ, ◌%◌, Bool, false, List, [], ◌∷◌, ◌||◌, ◌==◌, if◌then◌else◌}
use esdb.Bytes.{Bytes}
use esdb.Errors.{
  Status, invalid_argument, out_of_memory, io, not_found, type_mismatch, invalid_state,
}
use esdb.SqliteCode

pub data TransactionMode : Type 0 where
  deferred immediate exclusive : TransactionMode

-- The SQL that the runtime builds, and the text of a caller.
pub data Sql : Type 0 where
  begin_sql : TransactionMode → Sql
  commit_sql rollback_sql : Sql
  savepoint_sql release_sql : Bytes → Sql
  set_version_sql : ℕ → Sql
  -- `ROLLBACK TO` and `RELEASE` of one name, in one text.
  rollback_and_release_sql : Bytes → Sql
  -- The tables of the object store.
  store_schema_sql : Sql
  text_sql : Bytes → Sql

-- The outcome of a query of one integer: a result code where it fails, no row, or a value, which
-- may be negative.
pub data Scalar : Type 0 where
  failed : ℕ → Scalar
  no_row negative : Scalar
  value : ℕ → Scalar

-- `exec` gives the result code.
pub record Engine (Db : Type 0) : Type 0 where
  pub exec : Sql → Db → ℕ × Db
  pub autocommit : Db → Bool
  pub user_version : Db → Scalar

abbrev one_of : ℕ → List ℕ → Bool
one_of code [] = false
one_of code (c ∷ cs) = code == c || one_of code cs

abbrev from_primary : ℕ → Status
from_primary code =
    if one_of code (SqliteCode.ok ∷ SqliteCode.done ∷ SqliteCode.row ∷ [])
    then Status.ok
    else (if one_of code (SqliteCode.busy ∷ SqliteCode.locked ∷ [])
        then Status.busy
        else (if code == SqliteCode.nomem
            then out_of_memory
            else (if one_of code (
                  SqliteCode.ioerr ∷ SqliteCode.cantopen ∷ SqliteCode.readonly ∷ SqliteCode.full
                  ∷ SqliteCode.perm ∷ [])
                then io
                else (if code == SqliteCode.constraint
                    then Status.constraint
                    else (if one_of code (SqliteCode.corrupt ∷ SqliteCode.notadb ∷ [])
                        then Status.corrupt
                        else (if code == SqliteCode.notfound
                            then not_found
                            else (if code == SqliteCode.misuse
                                then invalid_state
                                else (if code == SqliteCode.range
                                    then invalid_argument
                                    else (if code == SqliteCode.mismatch
                                        then type_mismatch
                                        else Status.sqlite)))))))))

-- The primary code is the low byte of an extended one.
unfoldable pub map_sqlite_status : ℕ → Status
map_sqlite_status code = from_primary (code % 256)
