-- ===== src/Store/Lifecycle.antt =====
-- The life of the Stores of src/esdb_store.cpp: any sequence of opening, closing, destroying,
-- subscribing and unsubscribing.
use esdb.Prelude.{
  ℕ, zero, suc, ◌<◌, ◌≡◌, refl, arith, Bool, Option, none, some, List, [], ◌∷◌, length, get_elem?,
  All, Option-cases, Bool-cases, inl, inr, if-cases,
}
use esdb.Bytes.{Bytes, CString}
use esdb.Errors.{AllocPlan, Reply}
use esdb.Store.Records.{same_key}
use esdb.Store.State.{MemoryStoreState, valid_name}
use esdb.Store.Registry.{
  World, empty_world, find_store, open_store, target, close_store, in_use, destroy_store,
  subscription_slot, destroy_subscription, subscribe_found, subscribe_on, subscribe_store,
  erase_store,
}
use esdb.Store.Counting.{IsCounted}
use esdb.Store.Changes.{Subscription, subscribe}
use esdb.Store.Handles.{open_store-IsCounted, close_store-IsCounted}
use esdb.Store.Subscribers.{subscribe_at-IsCounted, destroy_found-IsCounted}

pub data LifeCall : Type 0 where
  opens : AllocPlan → CString → Bool → LifeCall
  closes : Option ℕ → LifeCall
  destroys : CString → LifeCall
  subscribes : AllocPlan → Option ℕ → ℕ → Bool → LifeCall
  unsubscribes : Option ℕ → LifeCall

unfoldable pub live_on : World → LifeCall → World
live_on w (opens plan name has_out) = (open_store plan name has_out w).1
live_on w (closes h) = close_store h w
live_on w (destroys name) = (destroy_store name w).1
live_on w (subscribes plan h after has_out) = (subscribe_store plan h after has_out w).1
live_on w (unsubscribes i) = destroy_subscription i w

unfoldable pub live_through : World → List LifeCall → World
live_through w [] = w
live_through w (c ∷ cs) = live_through (live_on w c) cs

get_elem?-bound :
    (l : List MemoryStoreState) (i : ℕ) (s : MemoryStoreState)
    → get_elem? l i ≡ some s
    → i < length l
get_elem?-bound [] i s h = absurd (ground (arith, h))
get_elem?-bound (x ∷ l) zero s h = omega arith
get_elem?-bound (x ∷ l) (suc i) s h = omega (arith, get_elem?-bound l i s h)

subscribe_found-IsCounted :
    (a : ℕ) (made : Reply (Option Subscription)) (w : World)
    → IsCounted w
    → a < length w.heap
    → IsCounted (subscribe_found a made w).1
unfolding subscribe_found
subscribe_found-IsCounted a made w c lt = elim (Option-cases made.out) [
  | inl e ↦ rw e c
  | inr (sub, e) ↦ rw e (subscribe_at-IsCounted a sub w c lt)
]

subscribe_on-IsCounted :
    (plan : AllocPlan) (o : Option ℕ) (after : ℕ) (has_out : Bool) (w : World)
    → IsCounted w
    → IsCounted (subscribe_on plan o after has_out w).1
unfolding subscribe_on
subscribe_on-IsCounted plan none after has_out w c = c
subscribe_on-IsCounted plan (some a) after has_out w c = elim (Option-cases (get_elem? w.heap a)) [
  | inl q ↦ rw (subscribe_on, q) c
  | inr (s, q) ↦
      rw (subscribe_on, q)
        (subscribe_found-IsCounted a (subscribe plan s after has_out) w c
          (get_elem?-bound w.heap a s q))
]

erase_store-Below :
    (name : Bytes) (n : ℕ) (es : List (Bytes × ℕ))
    → All (λ e. e.1 < n) es
    → All (λ e. e.1 < n) (erase_store name es)
unfolding erase_store
erase_store-Below name n [] h = tt
erase_store-Below name n ((j, a) ∷ es) h =
    if-cases (All (λ (e : Bytes × ℕ). e.1 < n)) (same_key j name) _ _ (λ y. h.1)
      (λ y. (h.0, erase_store-Below name n es h.1))

destroy_store-IsCounted :
    (name : CString) (w : World) → IsCounted w → IsCounted (destroy_store name w).1
unfolding destroy_store
destroy_store-IsCounted none w c = c
destroy_store-IsCounted (some name) w c = elim (Bool-cases (valid_name (some name))) [
  | inr e ↦ rw e c
  | inl e ↦ elim (Option-cases (find_store name w.stores)) [
    | inl q ↦ rw (e, q) c
    | inr (a, q) ↦ elim (Bool-cases (in_use w a)) [
      | inl u ↦ rw (e, q, u) c
      | inr u ↦ rw (e, q, u) (c.0, c.1, c.2, erase_store-Below name (length w.heap) w.stores c.3)
    ]
  ]
]

live_on-IsCounted : (w : World) (k : LifeCall) → IsCounted w → IsCounted (live_on w k)
unfolding live_on destroy_subscription subscribe_store
live_on-IsCounted w (opens plan name has_out) c = open_store-IsCounted plan name has_out w c
live_on-IsCounted w (closes h) c = close_store-IsCounted h w c
live_on-IsCounted w (destroys name) c = destroy_store-IsCounted name w c
live_on-IsCounted w (subscribes plan h after has_out) c =
    subscribe_on-IsCounted plan (target w h) after has_out w c
live_on-IsCounted w (unsubscribes none) c = c
live_on-IsCounted w (unsubscribes (some i)) c =
    destroy_found-IsCounted (subscription_slot w (some i)) i w c refl

-- Whatever is opened, closed, destroyed, subscribed and unsubscribed, with any allocation failures:
-- the counters of each Store are the numbers of its live handles and subscriptions, modulo 2^32, and
-- all of them refer to Stores that exist.
pub live_through-IsCounted :
    (w : World) (ks : List LifeCall) → IsCounted w → IsCounted (live_through w ks)
unfolding live_through
live_through-IsCounted w [] c = c
live_through-IsCounted w (k ∷ ks) c =
    live_through-IsCounted (live_on w k) ks (live_on-IsCounted w k c)

pub empty_world-IsCounted : IsCounted empty_world
empty_world-IsCounted = (λ a s h. absurd (ground (arith, h)), tt, tt, tt)
