-- ===== src/Store/Record.antt =====
-- A client of src/esdb_store.cpp that writes down every change it is shown.
use esdb.Prelude.{
  ℕ, suc, ◌+◌, ◌-◌, ◌≤◌, min, false, some, List, [], ◌∷◌, ◌++◌, ltb, leb, ◌==◌, ◌&&◌, if◌then◌else◌,
  ◌≡◌, refl, arith, map, append-nil, append_assoc, length, ◌∙◌, Bool-cases, inl, inr, subst, sym,
}
use esdb.Errors.{AllocPlan, granted, success}
use esdb.Store.State.{MemoryStoreState, MemoryChange, change_limit_max}
use esdb.Store.Journal.{Contiguous}
use esdb.Store.Invariant.{Inv}
use esdb.Store.Delivery.{collect-Contiguous}
use esdb.Store.Changes.{
  StoreChange, shown, collect, Answer, carry_on, deliver, report, changes_since,
}

abbrev pub recorder : StoreChange → List StoreChange → Answer × List StoreChange
recorder c log = (carry_on, log ++ c ∷ [])

-- The changes of a journal with a revision above `low` and up to `high`, whatever its shape.
unfoldable pub between : ℕ → ℕ → List MemoryChange → List MemoryChange
between low high [] = []
between low high (c ∷ cs) =
    let rest = between low high cs in
    if ltb low c.revision && leb c.revision high then c ∷ rest else rest

between-beyond :
    (low high floor : ℕ) (cs : List MemoryChange) (last : ℕ)
    → Contiguous floor cs last
    → high ≤ floor
    → between low high cs ≡ []
unfolding between
between-beyond low high floor [] last h le = refl
between-beyond low high floor (c ∷ cs) last h le =
    ground (arith, between-beyond low high (suc floor) cs last h.1)

collect_past-between :
    (after limit taken : ℕ) (cs : List MemoryChange) (last : ℕ)
    → Contiguous (after + taken) cs last
    → collect after limit taken cs ≡ between after (after + limit) cs
unfolding collect between
collect_past-between after limit taken [] last h = refl
collect_past-between after limit taken (c ∷ cs) last h =
    let later : Contiguous (after + suc taken) cs last =
      subst (λ f. Contiguous f cs last) (omega arith) h.1 in
    ground (
      arith,
      collect_past-between after limit (suc taken) cs last later,
      between-beyond after (after + limit) (after + suc taken) cs last later,
    )

collect-between :
    (after limit floor : ℕ) (cs : List MemoryChange) (last : ℕ)
    → Contiguous floor cs last
    → floor ≤ after
    → collect after limit 0 cs ≡ between after (after + limit) cs
unfolding collect between
collect-between after limit floor [] last h le = refl
collect-between after limit floor (c ∷ cs) last h le = elim (Bool-cases (leb c.revision after)) [
  | inl old ↦ ground (arith, old, collect-between after limit (suc floor) cs last h.1)
  | inr new ↦
      let here : floor ≡ after + 0 = ground (arith, new) in
      unfold collect between in
      collect_past-between after limit 0 (c ∷ cs) last
        (subst (λ f. Contiguous f (c ∷ cs) last) here h)
]

deliver-recorder :
    (cs : List MemoryChange) (from n : ℕ) (log : List StoreChange) (last : ℕ)
    → Contiguous from cs last
    → deliver recorder cs from n log ≡ record {
      last = last;
      delivered = n + length cs;
      threw = false;
      user_data = log ++ map shown cs;
    }
unfolding deliver
deliver-recorder [] from n log last h = ground (arith, append-nil log)
deliver-recorder (c ∷ cs) from n log last h =
    deliver-recorder cs c.revision (suc n) (log ++ shown c ∷ []) last
      (subst (λ f. Contiguous f cs last) (sym h.0) h.1)
    ∙ ground (arith, append_assoc log (shown c ∷ []) (map shown cs))

-- A query from a revision that the journal still covers delivers exactly the changes with the next
-- revisions, in order, as many as the limit admits (0 asks for the largest), and reports where it
-- stopped.
pub changes_since-recorder :
    (plan : AllocPlan) (s : MemoryStoreState) (after limit : ℕ)
    → Inv s
    → plan 0 ≡ granted
    → s.retained_floor ≤ after
    → after ≤ s.revision
    → limit ≤ change_limit_max
    → (let bound = if limit == 0 then change_limit_max else limit in
        changes_since plan s after limit (some recorder) []
        ≡ success (record {
          last_revision = min s.revision (after + bound);
          change_count = min (s.revision - after) bound;
          user_data = map shown (between after (after + bound) s.changes);
        }))
unfolding changes_since report
changes_since-recorder plan s after limit inv alloc le el lim =
    let bound = if limit == 0 then change_limit_max else limit in
    let (whole, size) =
      collect-Contiguous after bound s.retained_floor s.changes s.revision inv.journal le el in
    ground (
      arith,
      size,
      collect-between after bound s.retained_floor s.changes s.revision inv.journal le,
      deliver-recorder (collect after bound 0 s.changes) after 0 [] _ whole,
    )
