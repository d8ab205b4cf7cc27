-- ===== src/ObjectStore/Read.antt =====
-- The reads of src/esdb_object_store.cpp: `esdb_object_store_get`, `_exists`, `_count`, `_scan` and
-- `_revision`. The callback of a scan runs when the lock is released: it may use the connection, so
-- that it acts on the caller's data `U` and on the connection.
use esdb.Prelude.{
  ℕ, suc, Bool, true, false, not, Option, none, some, List, [], ◌∷◌, leb, ◌==◌, ◌&&◌, if◌then◌else◌,
}
use esdb.Bytes.{Bytes, CString}
use esdb.Errors.{Status, Phase, AllocPlan}
use esdb.SqliteCode
use esdb.Utf8.{valid_object_store_name, valid_object_store_key}
use esdb.Value.{Value}
use esdb.Store.Changes.{Answer, carry_on, stop, throws}
use esdb.Runtime.Session.{Session, count_operation}
use esdb.ObjectStore.Sql.{
  Row, column, StoreEngine, select_record, record_exists, count_records, scan_records,
}
use esdb.ObjectStore.Action.{
  Outcome, done, stopped, Action, pure, refuse, refuse_if, quietly, ◌>>=◌, ◌>>◌, first, all,
  allocate,
}
use esdb.ObjectStore.Schema.{
  corrupt, unfinished, ensure_object_store_schema, read_store_revision_metadata,
}
use esdb.ObjectStore.Rows.{OwnedRecord, clone_sql_value, owned_records}

abbrev pub object_scan_limit_max : ℕ
object_scan_limit_max = 10000

abbrev pub valid_start : CString → Bool
valid_start none = true
valid_start (some key) = valid_object_store_key (some key)

-- Where a delivery loop ended: how many rows, the last of them, and whether the callback threw.
pub record Delivered (R : Type 0) : Type 0 where
  pub count : ℕ
  pub last : Option R
  pub threw : Bool

module _ {R W : Type 0} where
  -- The loop over a snapshot: `W` is what the callback acts on.
  unfoldable pub deliver_rows : (R → W → Answer × W) → List R → ℕ → Option R → W → Delivered R × W
  deliver_rows callback [] n last w = (record { count = n; last = last; threw = false }, w)
  deliver_rows callback (r ∷ rs) n last w =
      let answer = callback r w in
      let rest = deliver_rows callback rs (suc n) (some r) answer.1 in
      elim answer.0 [
        | carry_on ↦ rest
        | stop ↦ (record { count = suc n; last = some r; threw = false }, answer.1)
        | throws ↦ (record { count = suc n; last = some r; threw = true }, answer.1)
      ]

module _ {Db : Type 0} (store : StoreEngine Db) where
  abbrev pub bad_arguments : {A : Type 0} → Action Db A
  bad_arguments = refuse Status.invalid_argument Phase.object_store SqliteCode.misuse

  abbrev pub found_value : AllocPlan → Option Row → Action Db Value
  found_value plan none = quietly Status.not_found
  found_value plan (some r) = clone_sql_value plan (column 0 r) (column 1 r)

  unfoldable pub get_valid : AllocPlan → Bytes → Bytes → Action Db Value
  get_valid plan name key = do
    ensure_object_store_schema store
    r ← first store (select_record name key) Phase.object_store
    found_value plan r

  -- A name and a key that pass their checks, and an out parameter.
  abbrev pub checked :
      {A : Type 0} → Bool → CString → CString → (Bytes → Bytes → Action Db A) → Action Db A
  checked has_out (some name) (some key) k =
      if has_out && (valid_object_store_name (some name) && valid_object_store_key (some key))
      then k name key
      else bad_arguments
  checked has_out _ _ k = bad_arguments

  -- `esdb_object_store_get`: a key that is not there is `ESDB_ERR_NOT_FOUND`, with no error recorded.
  unfoldable pub object_store_get : AllocPlan → CString → CString → Bool → Action Db Value
  object_store_get plan name key has_out s =
      checked has_out name key (get_valid plan) (count_operation s)

  abbrev pub is_row : Option Row → Bool
  is_row none = false
  is_row (some r) = true

  unfoldable pub exists_valid : Bytes → Bytes → Action Db Bool
  exists_valid name key = do
    ensure_object_store_schema store
    r ← first store (record_exists name key) Phase.object_store
    pure (is_row r)

  -- `esdb_object_store_exists`
  unfoldable pub object_store_exists : CString → CString → Bool → Action Db Bool
  object_store_exists name key has_out s = checked has_out name key exists_valid (count_operation s)

  abbrev pub count_row : Option Row → Action Db ℕ
  count_row none = unfinished
  count_row (some r) =
      if leb 9223372036854775808 (column 0 r).int64 then corrupt else pure (column 0 r).int64

  unfoldable pub count_valid : Bytes → Action Db ℕ
  count_valid name = do
    ensure_object_store_schema store
    r ← first store (count_records name) Phase.object_store
    count_row r

  abbrev pub checked_name : {A : Type 0} → Bool → CString → (Bytes → Action Db A) → Action Db A
  checked_name b none k = bad_arguments
  checked_name b (some name) k =
      if b && valid_object_store_name (some name) then k name else bad_arguments

  -- `esdb_object_store_count`
  unfoldable pub object_store_count : CString → Bool → Action Db ℕ
  object_store_count name has_out s = checked_name has_out name count_valid (count_operation s)

  -- The part of a scan that holds the lock.
  unfoldable pub scan_snapshot : AllocPlan → Bytes → CString → ℕ → Action Db (List OwnedRecord)
  scan_snapshot plan name after limit = do
    allocate (plan 0) Phase.object_store
    ensure_object_store_schema store
    r ← all store (scan_records name after limit)
    owned_records (λ n. plan (suc n)) r.rows r.failure

  -- `esdb_object_store_revision`
  unfoldable pub object_store_revision : Bool → Action Db ℕ
  object_store_revision has_out s =
      (do
        refuse_if (not has_out) Status.invalid_argument Phase.object_store SqliteCode.misuse
        ensure_object_store_schema store
        read_store_revision_metadata store)
        (count_operation s)

-- A call whose callback acts on the caller's data too.
abbrev pub Calls : Type 0 → Type 0 → Type 0 → Type 0
Calls Db U A = U × Session Db → Outcome A × (U × Session Db)

module _ {Db U : Type 0} (store : StoreEngine Db) where
  abbrev pub after_delivery :
      {R A : Type 0}
      → Phase
      → (Delivered R → A)
      → Delivered R × (U × Session Db)
      → Outcome A × (U × Session Db)
  after_delivery phase result (d, (u, s)) =
      if d.threw
      then (let r = refuse Status.internal phase SqliteCode.abort s in (r.0, (u, r.1)))
      else (done (result d), (u, s))

  abbrev pub on_snapshot :
      {R A : Type 0}
      → Phase
      → (Delivered R → A)
      → (R → U × Session Db → Answer × (U × Session Db))
      → U
      → Outcome (List R) × Session Db
      → Outcome A × (U × Session Db)
  on_snapshot phase result callback u (done rs, s) =
      after_delivery phase result (deliver_rows callback rs 0 none (u, s))
  on_snapshot phase result callback u (stopped st e, s) = (stopped st e, (u, s))

  -- `esdb_object_store_scan`: the number of records that the callback was shown.
  unfoldable pub object_store_scan :
      AllocPlan
      → CString
      → CString
      → ℕ
      → Option (OwnedRecord → U × Session Db → Answer × (U × Session Db))
      → Calls Db U ℕ
  object_store_scan plan name after limit none (u, s) =
      let r = bad_arguments store (count_operation s) in (r.0, (u, r.1))
  object_store_scan plan name after limit (some callback) (u, s) =
      let bound = if limit == 0 then object_scan_limit_max else limit in
      on_snapshot Phase.object_store (λ d. d.count) callback u
        (checked_name store (valid_start after && leb limit object_scan_limit_max) name
          (λ text. scan_snapshot store plan text after bound) (count_operation s))
