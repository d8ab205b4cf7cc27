-- ===== src/Store/Counting.antt =====
-- The counters of the Stores of src/esdb_store.cpp count their handles and subscriptions.
use esdb.Prelude.{
  ℕ, zero, suc, ◌+◌, ◌%◌, ◌≤◌, ◌<◌, ◌≡◌, ◌⊎◌, refl, arith, true, Option, none, some, List, [], ◌∷◌,
  ◌++◌, ◌==◌, if◌then◌else◌, length, get_elem?, set, All, ap,
}
use esdb.Bytes.{Bytes}
use esdb.Errors.{Status, store_fail, set_error}
use esdb.Store.State.{MemoryStoreState, valid_name}
use esdb.Store.Registry.{
  World, SubscriptionSlot, counter_mod, find_store, in_use, destroy_store, erase_store,
}

-- One where the addresses are the same.
abbrev pub hit : ℕ → ℕ → ℕ
hit a b = if a == b then 1 else 0

-- How many live references a list has to an address.
abbrev pub live : ℕ → List (Option ℕ) → ℕ
live a [] = 0
live a (none ∷ rs) = live a rs
live a (some b ∷ rs) = hit a b + live a rs

abbrev pub targets : List (Option SubscriptionSlot) → List (Option ℕ)
targets [] = []
targets (none ∷ ss) = none ∷ targets ss
targets (some s ∷ ss) = some s.target ∷ targets ss

-- The references are to Stores of the heap.
abbrev pub Below : ℕ → Option ℕ → Type 0
Below n none = Unit {0}
Below n (some b) = b < n

abbrev pub Counted : World → ℕ → MemoryStoreState → Type 0
Counted w a s =
    (s.handle_count ≡ live a w.handles % counter_mod)
    × (s.subscription_count ≡ live a (targets w.subscriptions) % counter_mod)

-- References and registered addresses are to Stores of the heap, and each counter of a Store is the number of its handles or subscriptions, modulo 2^32.
abbrev pub IsCounted : World → Type 0
IsCounted w =
    ((a : ℕ) (s : MemoryStoreState) → get_elem? w.heap a ≡ some s → Counted w a s)
    × All (Below (length w.heap)) w.handles
    × All (Below (length w.heap)) (targets w.subscriptions)
    × All (λ (e : Bytes × ℕ). e.1 < length w.heap) w.stores

pub live-append :
    (a b : ℕ) (rs : List (Option ℕ)) → live a (rs ++ some b ∷ []) ≡ live a rs + hit a b
live-append a b [] = omega arith
live-append a b (none ∷ rs) = live-append a b rs
live-append a b (some c ∷ rs) = omega (arith, live-append a b rs)

pub live-set :
    (a b i : ℕ) (rs : List (Option ℕ))
    → get_elem? rs i ≡ some (some b)
    → live a (set rs i none) + hit a b ≡ live a rs
live-set a b i [] h = absurd (ground (arith, h))
live-set a b zero (none ∷ rs) h = absurd (ground (arith, h))
live-set a b zero (some c ∷ rs) h = let e : c ≡ b = ground (arith, h) in rw e (omega arith)
live-set a b (suc i) (none ∷ rs) h = live-set a b i rs h
live-set a b (suc i) (some c ∷ rs) h = omega (arith, live-set a b i rs h)

pub live-Below : (n a : ℕ) (rs : List (Option ℕ)) → All (Below n) rs → n ≤ a → live a rs ≡ 0
live-Below n a [] h le = refl
live-Below n a (none ∷ rs) h le = live-Below n a rs h.1 le
live-Below n a (some b ∷ rs) h le =
    let ne : hit a b ≡ 0 = ground (arith, h.0, le) in omega (arith, ne, live-Below n a rs h.1 le)

live-length : (a : ℕ) (rs : List (Option ℕ)) → live a rs ≤ length rs
live-length a [] = omega arith
live-length a (none ∷ rs) = omega (arith, live-length a rs)
live-length a (some b ∷ rs) =
    let one : hit a b ≤ 1 = ground arith in omega (arith, one, live-length a rs)

targets-length : (ss : List (Option SubscriptionSlot)) → length (targets ss) ≡ length ss
targets-length [] = refl
targets-length (none ∷ ss) = ap suc (targets-length ss)
targets-length (some s ∷ ss) = ap suc (targets-length ss)

-- Destroying a registered Store is refused as busy, and changes nothing, exactly while it has a live
-- handle or subscription; else the Store is taken out of the registry. Fewer than 2^32 handles and
-- subscriptions were ever made.
pub destroy-unused :
    (name : Bytes) (a : ℕ) (s : MemoryStoreState) (w : World)
    → IsCounted w
    → length w.handles < counter_mod
    → length w.subscriptions < counter_mod
    → valid_name (some name) ≡ true
    → find_store name w.stores ≡ some a
    → get_elem? w.heap a ≡ some s
    → (((destroy_store (some name) w).0.status ≡ Status.busy)
        × (0 < live a w.handles + live a (targets w.subscriptions))
        × ((destroy_store (some name) w).1 ≡ w))
      ⊎ (((destroy_store (some name) w).0.status ≡ Status.ok)
          × (live a w.handles ≡ 0)
          × (live a (targets w.subscriptions) ≡ 0)
          × ((destroy_store (some name) w).1.stores ≡ erase_store name w.stores))
unfolding in_use destroy_store store_fail set_error
destroy-unused name a s w c few_handles few_subs valid found at =
    let handles : s.handle_count ≡ live a w.handles =
      omega (arith, (c.0 a s at).0, live-length a w.handles, few_handles) in
    let subs : s.subscription_count ≡ live a (targets w.subscriptions) = omega (
      arith,
      (c.0 a s at).1,
      live-length a (targets w.subscriptions),
      targets-length w.subscriptions,
      few_subs,
    ) in
    ground (arith, valid, found, at, handles, subs)
