-- ===== src/ObjectStore/ChangeLog.antt =====
-- The change log of src/esdb_object_store.cpp: `object_store_changes_since_impl`,
-- `esdb_object_subscribe` and `esdb_object_subscription_poll`.
use esdb.Prelude.{
  ℕ, suc, Bool, true, false, not, Option, none, some, List, ltb, ◌==◌, ◌||◌, if◌then◌else◌,
}
use esdb.Bytes.{CString}
use esdb.Errors.{Status, Phase, AllocPlan, attempt_nothrow}
use esdb.SqliteCode
use esdb.Utf8.{valid_object_store_name}
use esdb.Store.Changes.{Answer}
use esdb.Store.State.{revision_max}
use esdb.Runtime.Session.{Session, count_operation}
use esdb.ObjectStore.Sql.{StoreEngine, select_changes}
use esdb.ObjectStore.Action.{
  Outcome, done, stopped, Action, pure, refuse, refuse_if, ◌>>=◌, ◌>>◌, all, allocate,
}
use esdb.ObjectStore.Schema.{ensure_object_store_schema}
use esdb.ObjectStore.Rows.{OwnedChange, owned_changes}
use esdb.ObjectStore.Read.{Delivered, Calls, on_snapshot}

abbrev pub object_change_limit_max : ℕ
object_change_limit_max = 10000

abbrev pub valid_filter : CString → Bool
valid_filter none = true
valid_filter (some name) = valid_object_store_name (some name)

-- The out parameters of a query: the cursor and the count.
pub record ObjectProgress : Type 0 where
  pub last_revision : ℕ
  pub change_count : ℕ

abbrev pub last_of : ℕ → Option OwnedChange → ℕ
last_of after none = after
last_of after (some c) = c.revision

abbrev pub progress : ℕ → Delivered OwnedChange → ObjectProgress
progress after d = record { last_revision = last_of after d.last; change_count = d.count }

-- A subscription: the Store it is for (`none` for all of them), its cursor, and whether a poll holds
-- its mutex.
pub record ObjectSubscription : Type 0 where
  pub store_name : CString
  pub cursor : ℕ
  pub polling : Bool

-- The cursor moves only where the query has succeeded.
unfoldable pub cursor_moved : ObjectSubscription → Outcome ObjectProgress → ObjectSubscription
cursor_moved sub (done p) = record sub { cursor = p.last_revision }
cursor_moved sub (stopped st e) = sub

abbrev pub bad_subscription : {Db A : Type 0} → ℕ → Action Db A
bad_subscription = refuse Status.invalid_argument Phase.subscription

module _ {Db : Type 0} (store : StoreEngine Db) where
  -- The checks, and the part of a query that holds the lock.
  unfoldable pub change_snapshot : AllocPlan → CString → ℕ → ℕ → Action Db (List OwnedChange)
  change_snapshot plan name after limit = do
    refuse_if (ltb object_change_limit_max limit) Status.invalid_argument Phase.subscription
        SqliteCode.misuse
    refuse_if (ltb revision_max after) Status.invalid_argument Phase.subscription SqliteCode.range
    refuse_if (not (valid_filter name)) Status.invalid_argument Phase.subscription
        SqliteCode.mismatch
    allocate (plan 0) Phase.subscription
    ensure_object_store_schema store
    r ←
        all store
          (select_changes name after (if limit == 0 then object_change_limit_max else limit))
    owned_changes (λ n. plan (suc n)) r.rows r.failure

  -- `esdb_object_subscribe`
  unfoldable pub object_subscribe : AllocPlan → CString → ℕ → Bool → Action Db ObjectSubscription
  object_subscribe plan name after has_out s =
      (do
        refuse_if (not has_out || not (valid_filter name)) Status.invalid_argument
            Phase.subscription SqliteCode.misuse
        refuse_if (ltb revision_max after) Status.invalid_argument Phase.subscription
            SqliteCode.range
        ensure_object_store_schema store
        attempt_nothrow (plan 0) (refuse Status.out_of_memory Phase.subscription SqliteCode.nomem)
            (pure (record { store_name = name; cursor = after; polling = false })))
        (count_operation s)

module _ {Db U : Type 0} (store : StoreEngine Db) where
  unfoldable pub object_store_changes_since_impl :
      AllocPlan
      → CString
      → ℕ
      → ℕ
      → Option (OwnedChange → U × Session Db → Answer × (U × Session Db))
      → Calls Db U ObjectProgress
  object_store_changes_since_impl plan name after limit none (u, s) =
      let r = bad_subscription SqliteCode.misuse s in (r.0, (u, r.1))
  object_store_changes_since_impl plan name after limit (some callback) (u, s) =
      on_snapshot store Phase.subscription (progress after) callback u
        (change_snapshot store plan name after limit s)

  -- `esdb_object_store_changes_since`
  unfoldable pub object_store_changes_since :
      AllocPlan
      → CString
      → ℕ
      → ℕ
      → Option (OwnedChange → U × Session Db → Answer × (U × Session Db))
      → Calls Db U ObjectProgress
  object_store_changes_since plan name after limit callback (u, s) =
      object_store_changes_since_impl plan name after limit callback (u, count_operation s)

  -- `esdb_object_subscription_poll`: the count, and the subscription afterwards.
  unfoldable pub object_subscription_poll :
      AllocPlan
      → ObjectSubscription
      → ℕ
      → Option (OwnedChange → U × Session Db → Answer × (U × Session Db))
      → U × Session Db
      → ObjectSubscription × (Outcome ObjectProgress × (U × Session Db))
  object_subscription_poll plan sub limit callback (u, s) =
      let counted = count_operation s in
      let busy =
        refuse {A = ObjectProgress} Status.busy Phase.subscription SqliteCode.busy counted in
      let r =
        object_store_changes_since_impl plan sub.store_name sub.cursor limit callback
          (u, counted) in
      if sub.polling then (sub, (busy.0, (u, busy.1))) else (cursor_moved sub r.0, r)
