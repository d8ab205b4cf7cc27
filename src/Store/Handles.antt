-- ===== src/Store/Handles.antt =====
-- Opening and closing handles and subscriptions keeps the counters of the Stores of
-- src/esdb_store.cpp.
use esdb.Prelude.{
  ℕ, suc, ◌%◌, ◌≤◌, ◌<◌, ◌≡◌, refl, arith, Bool, ◌&&◌, Option, none, some, List, [], ◌∷◌, ◌++◌,
  ◌==◌, if◌then◌else◌, length, get_elem?, set, All, sym, ap, subst, ◌∙◌, Option-cases, Bool-cases,
  inl, inr, if-cases, some-injective, set-set, set-get_elem?, length-append, get_elem?-append_new,
  get_elem?-append_cases,
}
use esdb.Bytes.{Bytes, CString}
use esdb.Errors.{AllocPlan, Reply}
use esdb.Store.State.{MemoryStoreState, new_store, valid_name}
use esdb.Store.Registry.{
  World, counter_mod, fetch_add, fetch_sub, count_handle, modify, find_store, found_or_new,
  open_found, close_found, add_handle, open_store, target, close_store,
}
use esdb.Store.Counting.{
  live, hit, targets, Below, Counted, IsCounted, live-append, live-set, live-Below,
}
use esdb.Store.Heap.{
  outcome-cases, modify-get, modify-length, modify-rest, All-append, All-set, All-grow, stores-grow,
  find_store-Below, modify-none, modify-some,
}

-- One handle more or less.
modify-IsCounted :
    (w : World) (a : ℕ) (f : ℕ → ℕ) (handles : List (Option ℕ))
    → IsCounted w
    → All (Below (length w.heap)) handles
    → ((b n : ℕ)
        → n ≡ live b w.handles % counter_mod
        → (if b == a then f n else n) ≡ live b handles % counter_mod)
    → IsCounted (record (modify a (count_handle f) w) { handles = handles })
unfolding count_handle
modify-IsCounted w a f handles c below step =
    let (_, subs, named) = modify-rest a (count_handle f) w in
    (
      λ b s h.
          let (q, at, e) = modify-get a b (count_handle f) w s h in
          let (hc, sc) = c.0 b q at in
          let count : s.handle_count ≡ (if b == a then f q.handle_count else q.handle_count) =
            elim (Bool-cases (b == a)) [
              | inl y ↦ ground (arith, e, y)
              | inr n ↦ ground (arith, e, n)
            ] in
          let same : s.subscription_count ≡ q.subscription_count = elim (Bool-cases (b == a)) [
            | inl y ↦ ground (arith, e, y)
            | inr n ↦ ground (arith, e, n)
          ] in
          (
            count ∙ step b q.handle_count hc,
            same ∙ (sc ∙ ap (λ l. live b (targets l) % counter_mod) (sym subs)),
          ),
      subst (λ n. All (Below n) handles) (sym (modify-length a (count_handle f) w)) below,
      subst (λ n. All (Below n) (targets (modify a (count_handle f) w).subscriptions))
          (sym (modify-length a (count_handle f) w))
          (subst (λ l. All (Below (length w.heap)) (targets l)) (sym subs) c.2),
      subst (λ n. All (λ (e : Bytes × ℕ). e.1 < n) (modify a (count_handle f) w).stores)
          (sym (modify-length a (count_handle f) w))
          (subst (λ l. All (λ (e : Bytes × ℕ). e.1 < length w.heap) l) (sym named) c.3),
    )

-- A new name has a Store with no references.
found_or_new-IsCounted :
    (o : Option ℕ) (name : Bytes) (w : World)
    → IsCounted w
    → find_store name w.stores ≡ o
    → IsCounted (found_or_new o name w).1
      × ((found_or_new o name w).0 < length (found_or_new o name w).1.heap)
unfolding found_or_new new_store
found_or_new-IsCounted (some a) name w c e =
    (c, find_store-Below name (length w.heap) a w.stores c.3 e)
found_or_new-IsCounted none name w c e =
    let more : length (w.heap ++ new_store name ∷ []) ≡ suc (length w.heap) =
      omega (arith, length-append w.heap (new_store name ∷ [])) in
    let le : length w.heap ≤ length (w.heap ++ new_store name ∷ []) = omega (arith, more) in
    (
      (
        λ a s h. elim (get_elem?-append_cases w.heap (new_store name) s a h) [
          | inr old ↦ c.0 a s old
          | inl new ↦
              let is_new : new_store name ≡ s = some-injective (new_store name) s (
                sym (get_elem?-append_new w.heap (new_store name))
                ∙ subst (λ n. get_elem? (w.heap ++ new_store name ∷ []) n ≡ some s) new h) in
              let none_live = live-Below (length w.heap) a w.handles c.1 (omega (arith, new)) in
              let none_subs =
                live-Below (length w.heap) a (targets w.subscriptions) c.2 (omega (arith, new)) in
              subst (λ q. Counted w a q) is_new (omega (arith, none_live), omega (arith, none_subs))
        ],
        All-grow (length w.heap) (length (w.heap ++ new_store name ∷ [])) w.handles le c.1,
        All-grow (length w.heap) (length (w.heap ++ new_store name ∷ [])) (targets w.subscriptions)
            le c.2,
        (
          omega (arith, more),
          stores-grow (length w.heap) (length (w.heap ++ new_store name ∷ [])) w.stores le c.3,
        ),
      ),
      omega (arith, more),
    )

twice :
    (s : MemoryStoreState)
    → count_handle fetch_sub (count_handle fetch_add s)
      ≡ count_handle (λ n. fetch_sub (fetch_add n)) s
unfolding count_handle
twice s = refl

-- A count that is raised and taken back.
modify-twice :
    (a : ℕ) (w : World)
    → modify a (count_handle fetch_sub) (modify a (count_handle fetch_add) w)
      ≡ record (modify a (count_handle (λ n. fetch_sub (fetch_add n))) w) { handles = w.handles }
modify-twice a w = elim (Option-cases (get_elem? w.heap a)) [
  | inl e ↦
      ap (modify a (count_handle fetch_sub)) (modify-none a (count_handle fetch_add) w e)
      ∙ (modify-none a (count_handle fetch_sub) w e
          ∙ sym (
              ap (λ (v : World). record v { handles = w.handles })
                (modify-none a (count_handle (λ n. fetch_sub (fetch_add n))) w e)))
  | inr (s, e) ↦
      let once = record w { heap = set w.heap a (count_handle fetch_add s) } in
      let there = set-get_elem? w.heap a s (count_handle fetch_add s) e in
      ap (modify a (count_handle fetch_sub)) (modify-some a (count_handle fetch_add) w s e)
      ∙ (modify-some a (count_handle fetch_sub) once (count_handle fetch_add s) there
          ∙ (ap (λ (h : List MemoryStoreState). record w { heap = h })
                (set-set w.heap a (count_handle fetch_add s)
                    (count_handle fetch_sub (count_handle fetch_add s))
                  ∙ ap (set w.heap a) (twice s))
              ∙ sym (
                  ap (λ (v : World). record v { handles = w.handles })
                    (modify-some a (count_handle (λ n. fetch_sub (fetch_add n))) w s e))))
]

undone-IsCounted :
    (a : ℕ) (w : World)
    → IsCounted w
    → IsCounted (modify a (count_handle fetch_sub) (modify a (count_handle fetch_add) w))
undone-IsCounted a w c = subst IsCounted (sym (modify-twice a w)) (
    modify-IsCounted w a (λ n. fetch_sub (fetch_add n)) w.handles c c.1
      (λ b n h.
        let small : fetch_sub (fetch_add n) ≡ n = omega (arith, h) in ground (arith, h, small)))

-- The handle of `add_handle`, or its count taken back.
add_handle-IsCounted :
    (plan : AllocPlan) (a : ℕ) (w : World)
    → IsCounted w
    → a < length w.heap
    → IsCounted (add_handle plan (a, w)).1
unfolding add_handle
add_handle-IsCounted plan a w c lt =
    let (hs, _, _) = modify-rest a (count_handle fetch_add) w in
    elim (outcome-cases (plan 1)) [
      | inl e ↦
          let made : IsCounted (record (modify a (count_handle fetch_add) w) {
            handles = w.handles ++ some a ∷ [];
          }) =
            modify-IsCounted w a fetch_add (w.handles ++ some a ∷ []) c
              (All-append (length w.heap) a w.handles c.1 lt)
              (λ b n h.
                let more = live-append b a w.handles in
                elim (Bool-cases (b == a)) [
                  | inl y ↦ rw y (let one : hit b a ≡ 1 = rw y refl in omega (arith, h, more, one))
                  | inr n0 ↦ rw n0 (
                      let none_more : hit b a ≡ 0 = rw n0 refl in omega (arith, h, more, none_more))
                ]) in
          rw e (
            subst
              (λ l.
                IsCounted
                  (record (modify a (count_handle fetch_add) w) { handles = l ++ some a ∷ [] }))
              (sym hs) made)
      | inr (inl e) ↦ rw e (undone-IsCounted a w c)
      | inr (inr e) ↦ rw e (undone-IsCounted a w c)
    ]

open_found-IsCounted :
    (plan : AllocPlan) (o : Option ℕ) (name : Bytes) (w : World)
    → IsCounted w
    → find_store name w.stores ≡ o
    → IsCounted (open_found plan o name w).1
unfolding open_found
open_found-IsCounted plan (some a) name w c e =
    let (made, lt) = found_or_new-IsCounted (some a) name w c e in
    add_handle-IsCounted plan (found_or_new (some a) name w).0 (found_or_new (some a) name w).1 made
      lt
open_found-IsCounted plan none name w c e =
    let (made, lt) = found_or_new-IsCounted none name w c e in
    elim (outcome-cases (plan 0)) [
      | inl g ↦ rw g (
          add_handle-IsCounted plan (found_or_new none name w).0 (found_or_new none name w).1 made
            lt)
      | inr (inl g) ↦ rw g c
      | inr (inr g) ↦ rw g c
    ]

-- Opening a Store, whatever fails, keeps the counters.
pub open_store-IsCounted :
    (plan : AllocPlan) (name : CString) (has_out : Bool) (w : World)
    → IsCounted w
    → IsCounted (open_store plan name has_out w).1
unfolding open_store
open_store-IsCounted plan none has_out w c = c
open_store-IsCounted plan (some name) has_out w c =
    if-cases (λ (r : Reply (Option ℕ) × World). IsCounted r.1) (has_out && valid_name (some name)) _
      _ (λ h. open_found-IsCounted plan (find_store name w.stores) name w c refl) (λ h. c)

close_found-IsCounted :
    (o : Option ℕ) (h : ℕ) (w : World)
    → IsCounted w
    → target w (some h) ≡ o
    → IsCounted (close_found o h w)
unfolding close_found target
close_found-IsCounted none h w c e = c
close_found-IsCounted (some a) h w c e =
    let at : get_elem? w.handles h ≡ some (some a) = elim (Option-cases (get_elem? w.handles h)) [
      | inl q ↦ absurd (ground (arith, e, q))
      | inr (slot, q) ↦ ground (arith, e, q)
    ] in
    let (hs, _, _) = modify-rest a (count_handle fetch_sub) w in
    subst (λ l. IsCounted (record (modify a (count_handle fetch_sub) w) { handles = set l h none }))
      (sym hs)
      (modify-IsCounted w a fetch_sub (set w.handles h none) c
        (All-set (length w.heap) h w.handles c.1)
        (λ b n k.
          let less = live-set b a h w.handles at in
          elim (Bool-cases (b == a)) [
            | inl y ↦ rw y (let one : hit b a ≡ 1 = rw y refl in omega (arith, k, less, one))
            | inr n0 ↦
                rw n0
                  (let none_less : hit b a ≡ 0 = rw n0 refl in omega (arith, k, less, none_less))
          ]))

-- Closing a handle keeps the counters.
pub close_store-IsCounted : (h : Option ℕ) (w : World) → IsCounted w → IsCounted (close_store h w)
unfolding close_store
close_store-IsCounted none w c = c
close_store-IsCounted (some h) w c = close_found-IsCounted (target w (some h)) h w c refl
