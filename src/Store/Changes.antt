-- ===== src/Store/Changes.antt =====
-- Reading the journal: `changes_since_impl`, `esdb_store_changes_since`, `esdb_store_subscribe` and
-- `esdb_store_subscription_poll` of src/esdb_store.cpp. The callback is a function on the caller's
-- own data `U`; it runs after the lock is released, on a copy of the changes.
use esdb.Prelude.{
  ℕ, suc, Bool, true, false, Option, none, some, List, [], ◌∷◌, ltb, leb, ◌==◌, ◌||◌, not,
  if◌then◌else◌,
}
use esdb.Bytes.{Bytes}
use esdb.Errors.{AllocPlan, attempt, attempt_nothrow, Status, Phase, Reply, success, store_fail}
use esdb.Value.{ValueType}
use esdb.Store.State.{
  MemoryStoreState, MemoryChange, ChangeOperation, revision_max, change_limit_max,
}

-- What the callback is shown; a `clear` has no key.
pub record StoreChange : Type 0 where
  pub revision : ℕ
  pub operation : ChangeOperation
  pub value_type : ValueType
  pub key : Option Bytes

unfoldable pub shown : MemoryChange → StoreChange
shown c = record {
  revision = c.revision;
  operation = c.operation;
  value_type = c.value_type;
  key = elim c.operation [ ChangeOperation.clear ↦ none | _ ↦ some c.key ];
}

-- The loop over the journal under the lock; `taken` is the size of the snapshot so far.
unfoldable pub collect : ℕ → ℕ → ℕ → List MemoryChange → List MemoryChange
collect after limit taken [] = []
collect after limit taken (c ∷ cs) =
    let skipped = collect after limit taken cs in
    let rest = c ∷ collect after limit (suc taken) cs in
    if leb c.revision after then skipped else if leb limit taken then [] else rest

-- What a callback answers: zero, another number, or an exception.
pub data Answer : Type 0 where
  carry_on stop throws : Answer

-- Where the delivery loop ended: the cursor, the count, whether the callback threw, and its data.
pub record Delivery (U : Type 0) : Type 0 where
  pub last : ℕ
  pub delivered : ℕ
  pub threw : Bool
  pub user_data : U

-- Out parameters of a change query: the cursor, the count, and the caller's data.
pub record Progress (U : Type 0) : Type 0 where
  pub last_revision : ℕ
  pub change_count : ℕ
  pub user_data : U

module _ {U : Type 0} where
  unfoldable pub deliver :
      (StoreChange → U → Answer × U) → List MemoryChange → ℕ → ℕ → U → Delivery U
  unfolding shown
  deliver callback [] last n u = record { last = last; delivered = n; threw = false; user_data = u }
  deliver callback (c ∷ cs) last n u =
      let answer = callback (shown c) u in
      let rest = deliver callback cs c.revision (suc n) answer.1 in
      elim answer.0 [
        | carry_on ↦ rest
        | stop ↦ record {
          last = c.revision;
          delivered = suc n;
          threw = false;
          user_data = answer.1;
        }
        | throws ↦ record {
          last = c.revision;
          delivered = suc n;
          threw = true;
          user_data = answer.1;
        }
      ]

  -- An exception leaves the out parameters as they were set at the start.
  unfoldable pub report : ℕ → Delivery U → Reply (Progress U)
  unfolding store_fail
  report after d =
      if d.threw
      then store_fail Status.internal Phase.subscription
          (record { last_revision = after; change_count = 0; user_data = d.user_data })
      else success
          (record { last_revision = d.last; change_count = d.delivered; user_data = d.user_data })

  -- A null callback is `none`. The snapshot is the one allocation.
  unfoldable pub changes_since :
      AllocPlan
      → MemoryStoreState
      → ℕ
      → ℕ
      → Option (StoreChange → U → Answer × U)
      → U
      → Reply (Progress U)
  unfolding collect deliver report store_fail
  changes_since plan s after limit none u =
      store_fail Status.invalid_argument Phase.subscription
        (record { last_revision = after; change_count = 0; user_data = u })
  changes_since plan s after limit (some callback) u =
      let untouched : Progress U = record {
        last_revision = after;
        change_count = 0;
        user_data = u;
      } in
      let bound = if limit == 0 then change_limit_max else limit in
      if ltb change_limit_max limit || ltb revision_max after
      then store_fail Status.invalid_argument Phase.subscription untouched
      else if ltb s.revision after
      then attempt (plan 0) (λ st. store_fail st Phase.subscription untouched)
          (store_fail Status.invalid_argument Phase.subscription untouched)
      else if ltb after s.retained_floor
      then attempt (plan 0) (λ st. store_fail st Phase.subscription untouched)
          (store_fail Status.gap Phase.subscription untouched)
      else attempt (plan 0) (λ st. store_fail st Phase.subscription untouched)
          (report after (deliver callback (collect after bound 0 s.changes) after 0 u))

-- A subscription: its cursor, and whether a poll holds `poll_mutex` (which a second poll, made by
-- the callback or by another thread, finds taken).
pub record Subscription : Type 0 where
  pub cursor : ℕ
  pub polling : Bool

-- The checks of `esdb_store_subscribe` on the Store, and the new subscription.
unfoldable pub subscribe : AllocPlan → MemoryStoreState → ℕ → Bool → Reply (Option Subscription)
unfolding store_fail
subscribe plan s after has_out =
    if not has_out || ltb revision_max after
    then store_fail Status.invalid_argument Phase.subscription none
    else if ltb s.revision after
    then store_fail Status.invalid_argument Phase.subscription none
    else if ltb after s.retained_floor
    then store_fail Status.gap Phase.subscription none
    else attempt_nothrow (plan 0) (store_fail Status.out_of_memory Phase.subscription none)
        (success (some (record { cursor = after; polling = false })))

module _ {U : Type 0} where
  -- The cursor after a poll: it moves only if the query succeeded.
  unfoldable pub moved : Subscription → Reply (Progress U) → Subscription
  moved sub r = elim r.status [ Status.ok ↦ record sub { cursor = r.out.last_revision } | _ ↦ sub ]

  unfoldable pub poll :
      AllocPlan
      → MemoryStoreState
      → Subscription
      → ℕ
      → Option (StoreChange → U → Answer × U)
      → U
      → Reply (Progress U) × Subscription
  poll plan s sub limit none u = (
    store_fail Status.invalid_argument Phase.subscription
        (record { last_revision = sub.cursor; change_count = 0; user_data = u }),
    sub,
  )
  poll plan s sub limit (some callback) u =
      let r = changes_since plan s sub.cursor limit (some callback) u in
      if sub.polling
      then (
        store_fail Status.busy Phase.subscription
            (record { last_revision = sub.cursor; change_count = 0; user_data = u }),
        sub,
      )
      else (r, moved sub r)
