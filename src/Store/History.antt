-- ===== src/Store/History.antt =====
-- Histories of a Store of src/esdb_store.cpp: any sequence of operations, each with its own
-- allocation failures, as a path of committed steps.
use esdb.Prelude.{◌<◌, true, Option, none, some, List, [], ◌∷◌, ◌≡◌, inl, inr, subst, sym}
use esdb.Bytes.{Bytes, CString}
use esdb.Errors.{AllocPlan, all_granted}
use esdb.Value.{Value}
use esdb.Store.State.{MemoryStoreState, revision_max, valid_key, valid_value_type}
use esdb.Store.Mutate.{put, patch, delete, clear, PatchEntry, PatchEntries, entries, absent}
use esdb.Store.Outcomes.{write, remove, wipe, put-outcome, delete-outcome, clear-outcome}
use esdb.Store.Patching.{put_each, patch-absent, patch-eq-puts}
use esdb.Store.Invariant.{
  Inv, put-Inv, patch-Inv, delete-Inv, clear-Inv, write-Inv, remove-Inv, wipe-Inv,
}

pub data Operation : Type 0 where
  puts : CString → Option Value → Operation
  patches : PatchEntries → Operation
  deletes : CString → Operation
  clears : Operation

unfoldable pub step : MemoryStoreState → AllocPlan × Operation → MemoryStoreState
step s (plan, puts key value) = (put plan key value s).1
step s (plan, patches es) = (patch plan es s).1
step s (plan, deletes key) = (delete plan key s).1
step s (plan, clears) = (clear plan s).1

unfoldable pub run : MemoryStoreState → List (AllocPlan × Operation) → MemoryStoreState
run s [] = s
run s (op ∷ ops) = run (step s op) ops

step-Inv : (s : MemoryStoreState) (op : AllocPlan × Operation) → Inv s → Inv (step s op)
unfolding step
step-Inv s (plan, puts key value) inv = put-Inv plan key value s inv
step-Inv s (plan, patches es) inv = patch-Inv plan es s inv
step-Inv s (plan, deletes key) inv = delete-Inv plan key s inv
step-Inv s (plan, clears) inv = clear-Inv plan s inv

-- Every history keeps the records sorted and stamped, the journal contiguous and within its
-- capacity, and the revision in its domain.
pub run-Inv : (s : MemoryStoreState) (ops : List (AllocPlan × Operation)) → Inv s → Inv (run s ops)
unfolding run
run-Inv s [] inv = inv
run-Inv s (op ∷ ops) inv = run-Inv (step s op) ops (step-Inv s op inv)

-- One committed mutation.
pub data Commits : MemoryStoreState → MemoryStoreState → Type 0 where
  wrote :
      (k : Bytes) (v : Value) (s : MemoryStoreState)
      → valid_key (some k) ≡ true
      → valid_value_type v.type ≡ true
      → s.revision < revision_max
      → Commits s (write k v s)
  removed : (k : Bytes) (s : MemoryStoreState) → s.revision < revision_max → Commits s (remove k s)
  wiped : (s : MemoryStoreState) → s.revision < revision_max → Commits s (wipe s)

pub data Reach (s : MemoryStoreState) : MemoryStoreState → Type 0 where
  here : Reach s s
  next : {t u : MemoryStoreState} → Reach s t → Commits t u → Reach s u

Reach-trans : {s t u : MemoryStoreState} → Reach s t → Reach t u → Reach s u
Reach-trans r here = r
Reach-trans r (next q c) = next (Reach-trans r q) c

put-Reach :
    (plan : AllocPlan) (key : CString) (value : Option Value) (s : MemoryStoreState)
    → Reach s (put plan key value s).1
put-Reach plan key value s = elim (put-outcome plan key value s) [
  | inl (_, e) ↦ subst (Reach s) (sym e) here
  | inr (k, v, (_, _, vk, vt), lt, e) ↦
      subst (λ r. Reach s r.1) (sym e) (next here (wrote k v s vk vt lt))
]

put_each-Reach : (es : List PatchEntry) (s : MemoryStoreState) → Reach s (put_each es s)
unfolding put_each
put_each-Reach [] s = here
put_each-Reach (e ∷ es) s =
    Reach-trans (put-Reach all_granted e.key e.value s) (put_each-Reach es _)

step-Reach : (s : MemoryStoreState) (op : AllocPlan × Operation) → Inv s → Reach s (step s op)
unfolding step
step-Reach s (plan, puts key value) inv = put-Reach plan key value s
step-Reach s (plan, patches (absent n)) inv = subst (Reach s) (sym (patch-absent plan n s)) here
step-Reach s (plan, patches (entries es)) inv = elim (patch-eq-puts plan es s inv.in_range) [
  | inl (_, e) ↦ subst (Reach s) (sym e) here
  | inr e ↦ subst (λ r. Reach s r.1) (sym e) (put_each-Reach es s)
]
step-Reach s (plan, deletes none) inv = unfold delete in here
step-Reach s (plan, deletes (some k)) inv = elim (delete-outcome plan k s) [
  | inl (_, e) ↦ subst (Reach s) (sym e) here
  | inr (inl (_, e)) ↦ subst (λ r. Reach s r.1) (sym e) here
  | inr (inr (q, _, vk, lt, e)) ↦ subst (λ r. Reach s r.1) (sym e) (next here (removed k s lt))
]
step-Reach s (plan, clears) inv = elim (clear-outcome plan s) [
  | inl (_, e) ↦ subst (Reach s) (sym e) here
  | inr (inl (_, e)) ↦ subst (λ r. Reach s r.1) (sym e) here
  | inr (inr (_, lt, e)) ↦ subst (λ r. Reach s r.1) (sym e) (next here (wiped s lt))
]

-- Every history of calls is a path of committed writes of valid keys and values, removals and
-- clears, each at the next revision.
pub run-Reach :
    (s : MemoryStoreState) (ops : List (AllocPlan × Operation)) → Inv s → Reach s (run s ops)
unfolding run
run-Reach s [] inv = here
run-Reach s (op ∷ ops) inv =
    Reach-trans (step-Reach s op inv) (run-Reach (step s op) ops (step-Inv s op inv))

Commits-Inv : {s t : MemoryStoreState} → Commits s t → Inv s → Inv t
Commits-Inv (wrote k v s vk vt lt) inv = write-Inv k v s vk vt lt inv
Commits-Inv (removed k s lt) inv = remove-Inv k s lt inv
Commits-Inv (wiped s lt) inv = wipe-Inv s lt inv

pub Reach-Inv : {s t : MemoryStoreState} → Reach s t → Inv s → Inv t
Reach-Inv here inv = inv
Reach-Inv (next r c) inv = Commits-Inv c (Reach-Inv r inv)
