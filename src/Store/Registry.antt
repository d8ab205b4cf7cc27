-- ===== src/Store/Registry.antt =====
-- The registry of named Stores in src/esdb_store.cpp: a heap of Store states, the map from names to
-- them, and the handles and subscriptions that share them (`std::shared_ptr`). Opening, closing and
-- destroying, and the calls of the other operations through a handle.
--
-- A closed handle or a destroyed subscription is `none` in its slot. The sources leave its use
-- undefined; here such a call is refused like one on a null handle.
use esdb.Prelude.{
  ℕ, ◌+◌, ◌-◌, ◌%◌, ◌^◌, Bool, false, Option, none, some, List, [], ◌∷◌, ◌++◌, ◌==◌, ◌&&◌, ◌||◌,
  not, if◌then◌else◌, length, get_elem?, set,
}
use esdb.Bytes.{Bytes, CString}
use esdb.Errors.{AllocPlan, attempt, attempt_nothrow, Status, Phase, Reply, success, store_fail}
use esdb.Store.Records.{same_key}
use esdb.Store.State.{MemoryStoreState, new_store, valid_name}
use esdb.Store.Changes.{Subscription, subscribe}

-- A live subscription: the Store that it shares, and its cursor.
pub record SubscriptionSlot : Type 0 where
  pub target : ℕ
  pub sub : Subscription

pub record World : Type 0 where
  pub heap : List MemoryStoreState
  pub stores : List (Bytes × ℕ)
  pub handles : List (Option ℕ)
  pub subscriptions : List (Option SubscriptionSlot)

abbrev pub empty_world : World
empty_world = record { heap = []; stores = []; handles = []; subscriptions = [] }

-- `std::unordered_map::find`. `same_key` holds of equal names only.
unfoldable pub find_store : Bytes → List (Bytes × ℕ) → Option ℕ
find_store k [] = none
find_store k ((j, a) ∷ m) = if same_key j k then some a else find_store k m

unfoldable pub erase_store : Bytes → List (Bytes × ℕ) → List (Bytes × ℕ)
erase_store k [] = []
erase_store k ((j, a) ∷ m) = let rest = (j, a) ∷ erase_store k m in if same_key j k then m else rest

-- The counters are 32 bits wide.
abbrev pub counter_mod : ℕ
counter_mod = 2 ^ 32

abbrev pub fetch_add : ℕ → ℕ
fetch_add n = (n + 1) % counter_mod

abbrev pub fetch_sub : ℕ → ℕ
fetch_sub n = (n + counter_mod - 1) % counter_mod

unfoldable pub count_handle : (ℕ → ℕ) → MemoryStoreState → MemoryStoreState
count_handle f s = record s { handle_count = f s.handle_count }

unfoldable pub count_subscription : (ℕ → ℕ) → MemoryStoreState → MemoryStoreState
count_subscription f s = record s { subscription_count = f s.subscription_count }

-- Mutates the state at an address.
unfoldable pub modify : ℕ → (MemoryStoreState → MemoryStoreState) → World → World
modify a f w = elim (get_elem? w.heap a) [
  | none ↦ w
  | some s ↦ record w { heap = set w.heap a (f s) }
]

-- The state that was found, or a new one that is registered under the name.
unfoldable pub found_or_new : Option ℕ → Bytes → World → ℕ × World
found_or_new (some a) name w = (a, w)
found_or_new none name w = (
  length w.heap,
  record w { heap = w.heap ++ new_store name ∷ []; stores = (name, length w.heap) ∷ w.stores },
)

-- The handle is the next slot. Where it cannot be allocated its count is taken back, and a Store
-- that was made for it stays registered.
unfoldable pub add_handle : AllocPlan → ℕ × World → Reply (Option ℕ) × World
add_handle plan (a, w) =
    let counted = modify a (count_handle fetch_add) w in
    attempt_nothrow (plan 1)
      (store_fail Status.out_of_memory Phase.store none, modify a (count_handle fetch_sub) counted)
      (
        success (some (length counted.handles)),
        record counted { handles = counted.handles ++ some a ∷ [] },
      )

-- Only a new name allocates under the registry's lock.
unfoldable pub open_found : AllocPlan → Option ℕ → Bytes → World → Reply (Option ℕ) × World
open_found plan (some a) name w = add_handle plan (found_or_new (some a) name w)
open_found plan none name w =
    attempt (plan 0) (λ st. (store_fail st Phase.store none, w))
      (add_handle plan (found_or_new none name w))

unfoldable pub open_store : AllocPlan → CString → Bool → World → Reply (Option ℕ) × World
open_store plan none has_out w = (store_fail Status.invalid_argument Phase.store none, w)
open_store plan (some name) has_out w =
    if has_out && valid_name (some name)
    then open_found plan (find_store name w.stores) name w
    else (store_fail Status.invalid_argument Phase.store none, w)

-- The state that a live handle shares.
unfoldable pub target : World → Option ℕ → Option ℕ
target w none = none
target w (some h) = elim (get_elem? w.handles h) [ none ↦ none | some slot ↦ slot ]

unfoldable pub close_found : Option ℕ → ℕ → World → World
close_found none h w = w
close_found (some a) h w =
    let counted = modify a (count_handle fetch_sub) w in
    record counted { handles = set counted.handles h none }

unfoldable pub close_store : Option ℕ → World → World
close_store none w = w
close_store (some h) w = close_found (target w (some h)) h w

-- Whether a Store has handles or subscriptions, by its counters.
unfoldable pub in_use : World → ℕ → Bool
in_use w a = elim (get_elem? w.heap a) [
  | none ↦ false
  | some s ↦ not (s.handle_count == 0) || not (s.subscription_count == 0)
]

unfoldable pub destroy_store : CString → World → Reply (Unit {0}) × World
destroy_store none w = (store_fail Status.invalid_argument Phase.store tt, w)
destroy_store (some name) w =
    if valid_name (some name)
    then elim (find_store name w.stores) [
      | none ↦ (store_fail Status.not_found Phase.store tt, w)
      | some a ↦
          if in_use w a
          then (store_fail Status.busy Phase.store tt, w)
          else (success tt, record w { stores = erase_store name w.stores })
    ]
    else (store_fail Status.invalid_argument Phase.store tt, w)

-- A call through a handle: `validate_store`, and then the operation on the shared state.
unfoldable pub on_store {ℓ} :
    {A : Type ℓ}
    → Option ℕ
    → Reply A
    → (MemoryStoreState → Reply A × MemoryStoreState)
    → World
    → Reply A × World
on_store h refusal f w = elim (target w h) [
  | none ↦ (refusal, w)
  | some a ↦ elim (get_elem? w.heap a) [
    | none ↦ (refusal, w)
    | some s ↦ let r = f s in (r.0, record w { heap = set w.heap a r.1 })
  ]
]

-- The new subscription shares the Store at an address.
unfoldable pub subscribe_at : ℕ → Subscription → World → Reply (Option ℕ) × World
subscribe_at a sub w =
    let counted = modify a (count_subscription fetch_add) w in
    (
      success (some (length counted.subscriptions)),
      record counted {
        subscriptions = counted.subscriptions ++ some (record { target = a; sub = sub }) ∷ [];
      },
    )

-- What `esdb_store_subscribe` makes of the Store that a handle shares.
unfoldable pub subscribe_found : ℕ → Reply (Option Subscription) → World → Reply (Option ℕ) × World
subscribe_found a made w = elim made.out [
  | none ↦ (record { status = made.status; error = made.error; out = none }, w)
  | some sub ↦ subscribe_at a sub w
]

unfoldable pub subscribe_on : AllocPlan → Option ℕ → ℕ → Bool → World → Reply (Option ℕ) × World
subscribe_on plan none after has_out w =
    (store_fail Status.invalid_argument Phase.subscription none, w)
subscribe_on plan (some a) after has_out w = elim (get_elem? w.heap a) [
  | none ↦ (store_fail Status.invalid_argument Phase.subscription none, w)
  | some s ↦ subscribe_found a (subscribe plan s after has_out) w
]

-- `esdb_store_subscribe` through a handle.
unfoldable pub subscribe_store : AllocPlan → Option ℕ → ℕ → Bool → World → Reply (Option ℕ) × World
subscribe_store plan h after has_out w = subscribe_on plan (target w h) after has_out w

unfoldable pub subscription_slot : World → Option ℕ → Option SubscriptionSlot
subscription_slot w none = none
subscription_slot w (some i) = elim (get_elem? w.subscriptions i) [ none ↦ none | some slot ↦ slot ]

unfoldable pub destroy_found_subscription : Option SubscriptionSlot → ℕ → World → World
destroy_found_subscription none i w = w
destroy_found_subscription (some slot) i w =
    let counted = modify slot.target (count_subscription fetch_sub) w in
    record counted { subscriptions = set counted.subscriptions i none }

unfoldable pub destroy_subscription : Option ℕ → World → World
destroy_subscription none w = w
destroy_subscription (some i) w = destroy_found_subscription (subscription_slot w (some i)) i w
