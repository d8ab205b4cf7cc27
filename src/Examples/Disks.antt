-- ===== src/Examples/Disks.antt =====
-- A small engine in SQLite's place for the object store of src/esdb_object_store.cpp: it runs every
-- statement as Tables and Answers say, in a transaction or not, on a disk that may fail.
use esdb.Prelude.{
  inl, ◌∙◌, ℕ, ◌≡◌, refl, arith, Bool, true, false, not, none, some, List, [], ◌∷◌, if◌then◌else◌,
  ap,
}
use esdb.Bytes.{Bytes}
use esdb.Errors.{cleared}
use esdb.Value.{Value, bool}
use esdb.Runtime.Engine.{
  Sql, begin_sql, commit_sql, rollback_sql, savepoint_sql, release_sql, rollback_and_release_sql,
  store_schema_sql, set_version_sql, text_sql, no_row, map_sqlite_status,
}
use esdb.Runtime.Transactions.{is_ok}
use esdb.Runtime.Session.{Session}
use esdb.ObjectStore.RevisionText.{decimal, digits}
use esdb.ObjectStore.Sql.{
  Query, Row, StoreEngine, failed_first, count_tables, read_revision, read_schema_version,
  insert_store, select_store, insert_change_row, upsert_record, write_revision, select_record,
  record_exists, delete_record, count_records, scan_records, select_changes, prune_changes,
}
use esdb.ObjectStore.Tables.{Tables, create_tables, effect, id_of}
use esdb.ObjectStore.Answers.{answer}
use esdb.ObjectStore.Laws.{IsStoreEngine, head_row, is_read}
use esdb.ObjectStore.Sound.{Sound}

-- A disk on which COMMIT may fail, being full, and rolling back may fail with an I/O error.
pub record Disk : Type 0 where
  pub contents : Tables
  pub base : Tables
  pub mark : Tables
  pub in_transaction : Bool
  pub full : Bool
  pub broken : Bool

-- Outside a transaction a change is kept at once.
abbrev changed : Tables → Disk → Disk
changed t d = record d { contents = t; base = if d.in_transaction then d.base else t }

unfoldable pub run_commit : Bool → Disk → ℕ × Disk
run_commit true d = (13, d)
run_commit false d = (0, record d { base = d.contents; in_transaction = false })

-- Outside a transaction there is nothing that a `ROLLBACK` would change.
unfoldable pub run_rollback : Bool → Disk → ℕ × Disk
run_rollback true d = (10, record d { contents = if d.in_transaction then d.contents else d.base })
run_rollback false d = (0, record d { contents = d.base; in_transaction = false })

unfoldable pub run_rollback_to : Bool → Disk → ℕ × Disk
run_rollback_to true d = (10, d)
run_rollback_to false d = (0, record d { contents = d.mark })

unfoldable pub run_sql : Sql → Disk → ℕ × Disk
run_sql (begin_sql m) d = (0, record d { base = d.contents; in_transaction = true })
run_sql commit_sql d = run_commit d.full d
run_sql rollback_sql d = run_rollback d.broken d
run_sql (savepoint_sql name) d = (0, record d { mark = d.contents })
run_sql (release_sql name) d = (0, d)
run_sql (rollback_and_release_sql name) d = run_rollback_to d.broken d
run_sql store_schema_sql d = (0, changed (create_tables d.contents) d)
run_sql (set_version_sql v) d = (0, d)
run_sql (text_sql text) d = (0, d)

abbrev pub table_engine : StoreEngine Disk
table_engine = record {
  engine = record {
    exec = run_sql;
    autocommit = λ d. not d.in_transaction;
    user_version = λ d. no_row;
  };
  first = λ q d. (head_row (answer q d.contents), changed (effect q d.contents) d);
  all = λ q d.
      (record { rows = answer q d.contents; failure = none }, changed (effect q d.contents) d);
  readonly = λ d. some false;
}

effect-read : (q : Query) (t : Tables) → is_read q ≡ true → effect q t ≡ t
unfolding effect
effect-read count_tables t h = refl
effect-read read_revision t h = refl
effect-read read_schema_version t h = refl
effect-read (select_store name) t h = refl
effect-read (select_record name key) t h = refl
effect-read (record_exists name key) t h = refl
effect-read (count_records name) t h = refl
effect-read (scan_records name after limit) t h = refl
effect-read (select_changes name after limit) t h = refl
effect-read (insert_store name now) t h = absurd (cc h)
effect-read (insert_change_row id key operation type now) t h = absurd (cc h)
effect-read (upsert_record id key value revision now) t h = absurd (cc h)
effect-read (write_revision revision) t h = absurd (cc h)
effect-read (delete_record id key) t h = absurd (cc h)
effect-read (prune_changes through) t h = absurd (cc h)

head_row-fails : (rows : List Row) (code : ℕ) → head_row rows ≡ failed_first code → ⊥
head_row-fails [] code h = cc h
head_row-fails (r ∷ rows) code h = cc h

changed-base : (t : Tables) (d : Disk) → not d.in_transaction ≡ false → (changed t d).base ≡ d.base
changed-base t d h = ground (arith, h)

abbrev is_good : ℕ → Bool
is_good code = is_ok (map_sqlite_status code)

commit-contents :
    (b : Bool) (d : Disk)
    → is_good (run_commit b d).0 ≡ true
    → (run_commit b d).1.contents ≡ d.contents
unfolding run_commit map_sqlite_status
commit-contents true d h = absurd (cc h)
commit-contents false d h = refl

commit-base :
    (b : Bool) (d : Disk) → is_good (run_commit b d).0 ≡ false → (run_commit b d).1.base ≡ d.base
unfolding run_commit map_sqlite_status
commit-base true d h = refl
commit-base false d h = absurd (cc h)

rollback-ends :
    (b : Bool) (d : Disk)
    → is_good (run_rollback b d).0 ≡ true
    → not (run_rollback b d).1.in_transaction ≡ true
unfolding run_rollback map_sqlite_status
rollback-ends true d h = absurd (cc h)
rollback-ends false d h = refl

rollback-contents :
    (b : Bool) (d : Disk)
    → not (run_rollback b d).1.in_transaction ≡ true
    → (run_rollback b d).1.contents ≡ d.base
unfolding run_rollback
rollback-contents true d h = ground (arith, h)
rollback-contents false d h = refl

rollback-base : (b : Bool) (d : Disk) → (run_rollback b d).1.base ≡ d.base
unfolding run_rollback
rollback-base true d = refl
rollback-base false d = refl

rollback_to-contents :
    (b : Bool) (d : Disk)
    → is_good (run_rollback_to b d).0 ≡ true
    → (run_rollback_to b d).1.contents ≡ d.mark
unfolding run_rollback_to map_sqlite_status
rollback_to-contents true d h = absurd (cc h)
rollback_to-contents false d h = refl

rollback_to-keeps :
    (b : Bool) (d : Disk)
    → ((run_rollback_to b d).1.mark ≡ d.mark)
      × ((run_rollback_to b d).1.in_transaction ≡ d.in_transaction)
unfolding run_rollback_to
rollback_to-keeps true d = (refl, refl)
rollback_to-keeps false d = (refl, refl)

pub table_engine-IsStoreEngine :
    IsStoreEngine table_engine (λ d. d.contents) (λ d. d.base) (λ d. d.mark)
unfolding run_sql map_sqlite_status
table_engine-IsStoreEngine = record {
  first_runs = λ q d h. (refl, refl);
  all_runs = λ q d h. (refl, refl);
  first_reads = λ q d h. inl (effect-read q d.contents h, refl);
  all_reads = λ q d h. inl (effect-read q d.contents h, refl);
  first_idle = λ q d r h. refl;
  never_notfound = λ q d code h. absurd (head_row-fails (answer q d.contents) code h);
  first_base = λ q d h. changed-base (effect q d.contents) d h;
  all_base = λ q d h. changed-base (effect q d.contents) d h;
  first_mark = λ q d h k. refl;
  all_mark = λ q d h k. refl;
  first_stays = λ q d h k. h;
  all_stays = λ q d h k. h;
  schema_runs = λ d h. refl;
  schema_base = λ d h. changed-base (create_tables d.contents) d h;
  schema_mark = λ d h k. refl;
  schema_stays = λ d h k. h;
  begin_keeps = λ d. refl;
  begin_opens = λ d h. (refl, refl);
  commit_keeps = λ d h. commit-contents d.full d h;
  commit_fails = λ d h k. commit-base d.full d k;
  rollback_ends = λ d h. rollback-ends d.broken d h;
  rollback_restores = λ d h. rollback-contents d.broken d h;
  rollback_refused = λ d h. rollback-base d.broken d;
  savepoint_keeps = λ d. inl (refl, refl);
  savepoint_opens = λ d h k. (h, refl);
  release_keeps = λ d h. refl;
  release_fails = λ d h k l. absurd (cc k);
  rollback_to_restores = λ d h k. rollback_to-contents d.broken d k;
  rollback_to_refused = λ d h k l. (rollback_to-keeps d.broken d).0;
  rollback_to_idle = λ d h. ap not (rollback_to-keeps d.broken d).1 ∙ h;
}

abbrev pub empty_tables : Tables
empty_tables = record {
  table_count = 4;
  schema_version = some (49 ∷ []);
  store_revision = some (48 ∷ []);
  sequence = 0;
  stores = [];
  records = [];
  changes = [];
}

pub empty_tables-Sound : Sound empty_tables
unfolding decimal digits id_of
empty_tables-Sound = record {
  whole = refl;
  version = refl;
  counted = refl;
  keyed = λ n m id p q. absurd (ground (arith, p));
  owned = tt;
  logged = tt;
}

abbrev pub ready : Session Disk
ready = record {
  handle = record {
    contents = empty_tables;
    base = empty_tables;
    mark = empty_tables;
    in_transaction = false;
    full = false;
    broken = false;
  };
  transaction_active = false;
  active_transaction = none;
  savepoints = [];
  savepoint_depth = 0;
  counters = record {
    operation_count = 0;
    error_count = 0;
    busy_count = 0;
    commit_count = 0;
    rollback_count = 0;
  };
  last_error = cleared;
  transactions = [];
  object_store_schema_ready = true;
}

-- The Store "s", the key "k" and the value true.
abbrev pub store_s : Bytes
store_s = 115 ∷ []

abbrev pub key_k : Bytes
key_k = 107 ∷ []

abbrev pub yes_value : Value
yes_value = record { type = bool; payload = 1 ∷ [] }
