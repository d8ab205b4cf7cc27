-- ===== src/Store/Subscribers.antt =====
-- Subscriptions to the Stores of src/esdb_store.cpp keep their counters.
use esdb.Prelude.{
  ℕ, zero, suc, ◌+◌, ◌%◌, ◌<◌, ◌≡◌, refl, arith, Option, none, some, List, [], ◌∷◌, ◌++◌, ◌==◌,
  if◌then◌else◌, length, get_elem?, set, All, sym, ap, subst, ◌∙◌, Option-cases, Bool-cases, inl,
  inr, some-injective,
}
use esdb.Bytes.{Bytes}
use esdb.Store.Registry.{
  World, SubscriptionSlot, counter_mod, fetch_add, fetch_sub, count_subscription, modify,
  subscription_slot, destroy_found_subscription, subscribe_at,
}
use esdb.Store.Counting.{live, hit, targets, Below, IsCounted, live-append, live-set}
use esdb.Store.Changes.{Subscription}
use esdb.Store.Heap.{modify-get, modify-length, modify-rest, All-append, All-set}

targets-append :
    (ss : List (Option SubscriptionSlot)) (x : SubscriptionSlot)
    → targets (ss ++ some x ∷ []) ≡ targets ss ++ some x.target ∷ []
targets-append [] x = refl
targets-append (none ∷ ss) x = ap (λ l. none ∷ l) (targets-append ss x)
targets-append (some s ∷ ss) x = ap (λ l. some s.target ∷ l) (targets-append ss x)

targets-set :
    (ss : List (Option SubscriptionSlot)) (i : ℕ)
    → targets (set ss i none) ≡ set (targets ss) i none
targets-set [] i = refl
targets-set (none ∷ ss) zero = refl
targets-set (some s ∷ ss) zero = refl
targets-set (none ∷ ss) (suc i) = ap (λ l. none ∷ l) (targets-set ss i)
targets-set (some s ∷ ss) (suc i) = ap (λ l. some s.target ∷ l) (targets-set ss i)

targets-get :
    (ss : List (Option SubscriptionSlot)) (i : ℕ) (x : SubscriptionSlot)
    → get_elem? ss i ≡ some (some x)
    → get_elem? (targets ss) i ≡ some (some x.target)
targets-get [] i x h = absurd (ground (arith, h))
targets-get (none ∷ ss) zero x h = absurd (ground (arith, h))
targets-get (some s ∷ ss) zero x h =
    let e : s ≡ x = some-injective s x (some-injective (some s) (some x) h) in
    ap (λ (y : SubscriptionSlot). some (some y.target)) e
targets-get (none ∷ ss) (suc i) x h = targets-get ss i x h
targets-get (some s ∷ ss) (suc i) x h = targets-get ss i x h

-- One subscription more or less.
modify-IsCounted :
    (w : World) (a : ℕ) (f : ℕ → ℕ) (subs : List (Option SubscriptionSlot))
    → IsCounted w
    → All (Below (length w.heap)) (targets subs)
    → ((b n : ℕ)
        → n ≡ live b (targets w.subscriptions) % counter_mod
        → (if b == a then f n else n) ≡ live b (targets subs) % counter_mod)
    → IsCounted (record (modify a (count_subscription f) w) { subscriptions = subs })
unfolding count_subscription
modify-IsCounted w a f subs c below step =
    let (handles, _, named) = modify-rest a (count_subscription f) w in
    (
      λ b s h.
          let (q, at, e) = modify-get a b (count_subscription f) w s h in
          let (hc, sc) = c.0 b q at in
          let count : s.subscription_count
              ≡ (if b == a then f q.subscription_count else q.subscription_count) =
            elim (Bool-cases (b == a)) [
              | inl y ↦ ground (arith, e, y)
              | inr n ↦ ground (arith, e, n)
            ] in
          let same : s.handle_count ≡ q.handle_count = elim (Bool-cases (b == a)) [
            | inl y ↦ ground (arith, e, y)
            | inr n ↦ ground (arith, e, n)
          ] in
          (
            same ∙ (hc ∙ ap (λ l. live b l % counter_mod) (sym handles)),
            count ∙ step b q.subscription_count sc,
          ),
      subst (λ n. All (Below n) (modify a (count_subscription f) w).handles)
          (sym (modify-length a (count_subscription f) w))
          (subst (λ l. All (Below (length w.heap)) l) (sym handles) c.1),
      subst (λ n. All (Below n) (targets subs)) (sym (modify-length a (count_subscription f) w))
          below,
      subst (λ n. All (λ (e : Bytes × ℕ). e.1 < n) (modify a (count_subscription f) w).stores)
          (sym (modify-length a (count_subscription f) w))
          (subst (λ l. All (λ (e : Bytes × ℕ). e.1 < length w.heap) l) (sym named) c.3),
    )

pub subscribe_at-IsCounted :
    (a : ℕ) (sub : Subscription) (w : World)
    → IsCounted w
    → a < length w.heap
    → IsCounted (subscribe_at a sub w).1
unfolding subscribe_at
subscribe_at-IsCounted a sub w c lt =
    let (_, ss, _) = modify-rest a (count_subscription fetch_add) w in
    let slot : SubscriptionSlot = record { target = a; sub = sub } in
    let grown = targets-append w.subscriptions slot in
    subst
      (λ l. IsCounted (record (modify a (count_subscription fetch_add) w) {
        subscriptions = l ++ some slot ∷ [];
      }))
      (sym ss)
      (modify-IsCounted w a fetch_add (w.subscriptions ++ some slot ∷ []) c
        (subst (All (Below (length w.heap))) (sym grown)
          (All-append (length w.heap) a (targets w.subscriptions) c.2 lt))
        (λ b n h.
          let more : live b (targets (w.subscriptions ++ some slot ∷ []))
              ≡ live b (targets w.subscriptions) + hit b a =
            ap (live b) grown ∙ live-append b a (targets w.subscriptions) in
          elim (Bool-cases (b == a)) [
            | inl y ↦ rw y (let one : hit b a ≡ 1 = rw y refl in omega (arith, h, more, one))
            | inr n0 ↦
                rw n0
                  (let none_more : hit b a ≡ 0 = rw n0 refl in omega (arith, h, more, none_more))
          ]))

pub destroy_found-IsCounted :
    (o : Option SubscriptionSlot) (i : ℕ) (w : World)
    → IsCounted w
    → subscription_slot w (some i) ≡ o
    → IsCounted (destroy_found_subscription o i w)
unfolding destroy_found_subscription subscription_slot
destroy_found-IsCounted none i w c e = c
destroy_found-IsCounted (some slot) i w c e =
    let at : get_elem? w.subscriptions i ≡ some (some slot) =
      elim (Option-cases (get_elem? w.subscriptions i)) [
        | inl q ↦ absurd (ground (arith, e, q))
        | inr (x, q) ↦ ground (arith, e, q)
      ] in
    let (_, ss, _) = modify-rest slot.target (count_subscription fetch_sub) w in
    let shrunk = targets-set w.subscriptions i in
    subst
      (λ l. IsCounted (record (modify slot.target (count_subscription fetch_sub) w) {
        subscriptions = set l i none;
      }))
      (sym ss)
      (modify-IsCounted w slot.target fetch_sub (set w.subscriptions i none) c
        (subst (All (Below (length w.heap))) (sym shrunk)
          (All-set (length w.heap) i (targets w.subscriptions) c.2))
        (λ b n k.
          let less : live b (targets (set w.subscriptions i none)) + hit b slot.target
              ≡ live b (targets w.subscriptions) =
            ap (λ l. live b l + hit b slot.target) shrunk
            ∙ live-set b slot.target i (targets w.subscriptions)
                (targets-get w.subscriptions i slot at) in
          elim (Bool-cases (b == slot.target)) [
            | inl y ↦
                rw y (let one : hit b slot.target ≡ 1 = rw y refl in omega (arith, k, less, one))
            | inr n0 ↦ rw n0 (
                let none_less : hit b slot.target ≡ 0 = rw n0 refl in
                omega (arith, k, less, none_less))
          ]))
