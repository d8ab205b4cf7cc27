-- ===== src/Runtime/Migrate.antt =====
-- Schema versions and migrations of src/esdb_runtime.cpp. A migration's callback runs on the
-- connection and may do anything; one that throws has no reply.
use esdb.Prelude.{
  ℕ, zero, suc, ◌+◌, ◌-◌, ◌%◌, Bool, true, false, Option, none, some, List, [], ◌∷◌, ◌==◌, ◌&&◌,
  ltb, if◌then◌else◌,
}
use esdb.Errors.{Status, Phase, Error, Reply, success, AllocOutcome}
use esdb.SqliteCode
use esdb.Runtime.Engine.{
  Engine, Scalar, failed, no_row, negative, value, immediate, set_version_sql, map_sqlite_status,
}
use esdb.Runtime.Session.{Session, count_operation, fail, exec_sql}
use esdb.Runtime.Transactions.{is_ok, begin, commit, rollback, transaction_destroy}

pub record Migration (Db : Type 0) : Type 0 where
  pub from_version : ℕ
  pub to_version : ℕ
  pub apply : Option (ℕ → ℕ → Session Db → Option (Reply (Unit {0})) × Session Db)

abbrev pub has_apply : {Db : Type 0} → Migration Db → Bool
has_apply m = elim m.apply [ none ↦ false | some f ↦ true ]

-- The first migration from a version to the next one that has a callback; versions are 32 bits.
unfoldable pub find_step : {Db : Type 0} → ℕ → List (Migration Db) → Option (Migration Db)
find_step current [] = none
find_step current (m ∷ ms) =
    let rest = find_step current ms in
    if m.from_version == current && m.to_version == (current + 1) % 4294967296 && has_apply m
    then some m
    else rest

-- The version that a query has set.
abbrev pub version_or_0 : Option ℕ → ℕ
version_or_0 none = 0
version_or_0 (some v) = v

-- A callback that reports no SQLite code is recorded with `SQLITE_ERROR`.
abbrev pub callback_code : Error → ℕ
callback_code e = if e.sqlite_code == SqliteCode.ok then SqliteCode.error else e.sqlite_code

module _ {Db : Type 0} where
  unfoldable pub apply_step : Migration Db → Session Db → Option (Reply (Unit {0})) × Session Db
  apply_step m s = elim m.apply [ none ↦ (none, s) | some f ↦ f m.from_version m.to_version s ]

module _ {Db : Type 0} (engine : Engine Db) where
  abbrev pub query_version : Scalar → Session Db → Reply (Option ℕ) × Session Db
  query_version (failed code) s = fail (map_sqlite_status code) Phase.migrating code none s
  query_version no_row s = fail Status.sqlite Phase.migrating SqliteCode.error none s
  query_version negative s = fail Status.sqlite Phase.migrating SqliteCode.range none s
  query_version (value v) s =
      if ltb 4294967295 v
      then fail Status.migration Phase.migrating SqliteCode.range none s
      else (success (some v), s)

  unfoldable pub user_version_get : Bool → Session Db → Reply (Option ℕ) × Session Db
  user_version_get false s =
      fail Status.invalid_argument Phase.migrating SqliteCode.misuse none (count_operation s)
  user_version_get true s = query_version (engine.user_version s.handle) (count_operation s)

  unfoldable pub user_version_set : ℕ → Session Db → Reply (Unit {0}) × Session Db
  user_version_set version s =
      exec_sql engine (set_version_sql version) Phase.migrating (count_operation s)

  -- The transaction of a migration that fails.
  unfoldable pub abandon : Option ℕ → Session Db → Session Db
  abandon t s = transaction_destroy engine t (rollback engine t s).1

  unfoldable pub end_migration : Option ℕ → Session Db → Reply (Unit {0}) × Session Db
  end_migration t s = let r = commit engine t s in (r.0, transaction_destroy engine t r.1)

  -- The version is set after a callback that succeeds, and the loop goes on from there.
  unfoldable pub advance :
      (ℕ → Session Db → Reply (Unit {0}) × Session Db)
      → Option ℕ
      → ℕ
      → Session Db
      → Reply (Unit {0}) × Session Db
  advance rest t version s =
      let set = user_version_set version s in
      if is_ok set.0.status then rest version set.1 else (set.0, abandon t set.1)

  -- What the callback has replied, or `none` where it threw.
  unfoldable pub applied :
      (ℕ → Session Db → Reply (Unit {0}) × Session Db)
      → Option ℕ
      → ℕ
      → Option (Reply (Unit {0}))
      → Session Db
      → Reply (Unit {0}) × Session Db
  applied rest t version none s =
      fail Status.internal Phase.migrating SqliteCode.abort tt (abandon t s)
  applied rest t version (some r) s =
      if is_ok r.status
      then advance rest t version s
      else fail r.status Phase.migrating (callback_code r.error) tt (abandon t s)

  unfoldable pub migrate_found :
      (ℕ → Session Db → Reply (Unit {0}) × Session Db)
      → Option ℕ
      → Option (Migration Db)
      → Session Db
      → Reply (Unit {0}) × Session Db
  migrate_found rest t none s =
      fail Status.migration Phase.migrating SqliteCode.notfound tt (abandon t s)
  migrate_found rest t (some m) s = let r = apply_step m s in applied rest t m.to_version r.0 r.1

  -- The loop from a version on, with the number of versions that are left.
  unfoldable pub migrate_loop :
      ℕ → List (Migration Db) → Option ℕ → ℕ → Session Db → Reply (Unit {0}) × Session Db
  migrate_loop zero ms t current s = end_migration t s
  migrate_loop (suc left) ms t current s =
      migrate_found (migrate_loop left ms t) t (find_step current ms) s

  -- `esdb_migrate` from the version that the database has.
  unfoldable pub migrate_from :
      AllocOutcome → ℕ → List (Migration Db) → ℕ → Session Db → Reply (Unit {0}) × Session Db
  migrate_from outcome target ms current s =
      if current == target
      then (success tt, s)
      else (if ltb target current
          then fail Status.unsupported Phase.migrating SqliteCode.misuse tt s
          else (let b = begin engine outcome (some immediate) true s in
              if is_ok b.0.status
              then migrate_loop (target - current) ms b.0.out current b.1
              else (record { status = b.0.status; error = b.0.error; out = tt }, b.1)))

  -- `esdb_migrate`. A count without an array of migrations is `none`.
  unfoldable pub migrate :
      AllocOutcome → ℕ → Option (List (Migration Db)) → Session Db → Reply (Unit {0}) × Session Db
  migrate outcome target none s =
      fail Status.invalid_argument Phase.migrating SqliteCode.misuse tt (count_operation s)
  migrate outcome target (some ms) s =
      let got = user_version_get true (count_operation s) in
      if is_ok got.0.status
      then migrate_from outcome target ms (version_or_0 got.0.out) got.1
      else (record { status = got.0.status; error = got.0.error; out = tt }, got.1)
