-- ===== src/Store/Delivery.antt =====
-- What the change queries of src/esdb_store.cpp deliver: every change after the cursor, once, in
-- order, with no gap; and where the cursor of a subscription then stands.
use esdb.Prelude.{
  ℕ, suc, ◌+◌, ◌-◌, ◌≤◌, min, false, Option, none, some, List, [], ◌∷◌, leb, ◌==◌, if◌then◌else◌,
  ◌≡◌, ◌≢◌, refl, arith, length, Bool-cases, subst, sym, ◌⊎◌, inl, inr,
}
use esdb.Errors.{AllocPlan, Status, store_fail}
use esdb.Store.State.{MemoryStoreState, MemoryChange, change_limit_max}
use esdb.Store.Journal.{Contiguous, length-Contiguous}
use esdb.Store.Invariant.{Inv}
use esdb.Store.Changes.{
  StoreChange, shown, collect, Answer, deliver, report, changes_since, Subscription, moved, poll,
}

-- Past the cursor the snapshot takes what fits.
length-collect_past :
    (after limit taken floor : ℕ) (cs : List MemoryChange) (last : ℕ)
    → Contiguous floor cs last
    → after ≤ floor
    → length (collect after limit taken cs) ≡ min (length cs) (limit - taken)
unfolding collect
length-collect_past after limit taken floor [] last h le = omega arith
length-collect_past after limit taken floor (c ∷ cs) last h le =
    ground (arith, length-collect_past after limit (suc taken) (suc floor) cs last h.1)

collect_past-Contiguous :
    (after limit taken floor : ℕ) (cs : List MemoryChange) (last : ℕ)
    → Contiguous floor cs last
    → after ≤ floor
    → Contiguous floor
        (collect after limit taken cs)
        (floor + length (collect after limit taken cs))
unfolding collect
collect_past-Contiguous after limit taken floor [] last h le = omega arith
collect_past-Contiguous after limit taken floor (c ∷ cs) last h le =
    elim (Bool-cases (leb limit taken)) [
      | inl full ↦ ground (arith, full)
      | inr room ↦
          let ih =
            collect_past-Contiguous after limit (suc taken) (suc floor) cs last h.1 (omega arith) in
          let skip : leb c.revision after ≡ false = ground arith in
          rw (skip, room) (h.0, subst (Contiguous (suc floor) _) (omega arith) ih)
    ]

-- The snapshot of a query from `after`: the changes that follow it, as many as the limit admits.
pub collect-Contiguous :
    (after limit floor : ℕ) (cs : List MemoryChange) (last : ℕ)
    → Contiguous floor cs last
    → floor ≤ after
    → after ≤ last
    → Contiguous after (collect after limit 0 cs) (after + length (collect after limit 0 cs))
      × (length (collect after limit 0 cs) ≡ min (last - after) limit)
unfolding collect
collect-Contiguous after limit floor [] last h le el = ground arith
collect-Contiguous after limit floor (c ∷ cs) last h le el =
    elim (Bool-cases (leb c.revision after)) [
      | inl old ↦
          rw old (collect-Contiguous after limit (suc floor) cs last h.1 (ground (arith, old)) el)
      | inr new ↦
          let here : floor ≡ after = ground (arith, new) in
          let past = collect_past-Contiguous after limit 0 floor (c ∷ cs) last h (omega arith) in
          let size = length-collect_past after limit 0 floor (c ∷ cs) last h (omega arith) in
          let whole = length-Contiguous floor (c ∷ cs) last h in
          (
            subst
                (λ f.
                  Contiguous f (collect after limit 0 (c ∷ cs))
                    (f + length (collect after limit 0 (c ∷ cs))))
                here past,
            omega (arith, size, whole, here),
          )
    ]

module _ {U : Type 0} where
  -- Whatever the callback answers, the cursor has moved by the number of changes it was shown.
  deliver-last :
      (callback : StoreChange → U → Answer × U) (cs : List MemoryChange) (from n : ℕ) (u : U)
      (last : ℕ)
      → Contiguous from cs last
      → ((deliver callback cs from n u).last + n ≡ from + (deliver callback cs from n u).delivered)
        × ((deliver callback cs from n u).last ≤ last)
  unfolding deliver
  deliver-last callback [] from n u last h = (omega arith, omega arith)
  deliver-last callback (c ∷ cs) from n u last h =
      let rest =
        deliver-last callback cs c.revision (suc n) (callback (shown c) u).1 last
          (subst (λ f. Contiguous f cs last) (sym h.0) h.1) in
      ground (arith, rest, length-Contiguous (suc from) cs last h.1)

  deliver_bounds :
      (callback : StoreChange → U → Answer × U) (s : MemoryStoreState) (after bound : ℕ) (u : U)
      → Inv s
      → s.retained_floor ≤ after
      → after ≤ s.revision
      → (let d = deliver callback (collect after bound 0 s.changes) after 0 u in
          (d.last ≡ after + d.delivered) × (d.last ≤ s.revision))
  deliver_bounds callback s after bound u inv le el =
      let snapshot = collect after bound 0 s.changes in
      let (whole, size) =
        collect-Contiguous after bound s.retained_floor s.changes s.revision inv.journal le el in
      let facts = deliver-last callback snapshot after 0 u (after + length snapshot) whole in
      (omega (arith, facts), omega (arith, facts, size))

  changes_since-progress :
      (plan : AllocPlan) (s : MemoryStoreState) (after limit : ℕ)
      (callback : StoreChange → U → Answer × U) (u : U)
      → Inv s
      → (let r = changes_since plan s after limit (some callback) u in
          ((r.status ≡ Status.ok)
            × (r.out.last_revision ≡ after + r.out.change_count)
            × (r.out.last_revision ≤ s.revision)
            × (s.retained_floor ≤ after))
          ⊎ (r.status ≢ Status.ok))
  unfolding changes_since report store_fail
  changes_since-progress plan s after limit callback u inv = ground (
    arith,
    deliver_bounds callback s after (if limit == 0 then change_limit_max else limit) u inv,
  )

  -- A poll that succeeds moves the cursor by the number of changes that the callback was shown, and
  -- never past the Store; one that fails, also by an exception of the callback, leaves it.
  pub poll-cursor :
      (plan : AllocPlan) (s : MemoryStoreState) (sub : Subscription) (limit : ℕ)
      (callback : Option (StoreChange → U → Answer × U)) (u : U)
      → Inv s
      → (let (r, next) = poll plan s sub limit callback u in
          ((r.status ≡ Status.ok)
            × (next.cursor ≡ sub.cursor + r.out.change_count)
            × (next.cursor ≤ s.revision)
            × (s.retained_floor ≤ sub.cursor))
          ⊎ ((r.status ≢ Status.ok) × (next ≡ sub)))
  unfolding poll moved
  poll-cursor plan s sub limit none u inv = unfold store_fail in inr (ground arith, refl)
  poll-cursor plan s sub limit (some callback) u inv =
      unfold store_fail in
      ground (arith, changes_since-progress plan s sub.cursor limit callback u inv)
