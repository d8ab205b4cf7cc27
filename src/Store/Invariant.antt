-- ===== src/Store/Invariant.antt =====
-- The well-formedness of a Store of src/esdb_store.cpp, which every operation keeps.
use esdb.Prelude.{
  ℕ, suc, ◌+◌, ◌≤◌, ◌<◌, ◌≡◌, refl, true, List, [], ◌∷◌, Option, none, some, arith, length, inl,
  inr, subst, sym,
}
use esdb.Bytes.{Bytes, CString}
use esdb.Errors.{AllocPlan, all_granted}
use esdb.Value.{Value, null}
use esdb.Store.Records.{
  Records, MemoryRecord, upsert, erase, IsSorted, upsert-IsSorted, erase-IsSorted,
}
use esdb.Store.Mutate.{put, patch, delete, clear, PatchEntry, PatchEntries, entries, absent}
use esdb.Store.Outcomes.{
  commit, next_change, write, remove, wipe, put-outcome, delete-outcome, clear-outcome,
}
use esdb.Store.Patching.{put_each, patch-absent, patch-eq-puts}
use esdb.Store.State.{
  ChangeOperation, MemoryStoreState, change_capacity, revision_max, valid_key, valid_value_type,
  retain_change, new_store,
}
use esdb.Store.Journal.{Contiguous, retain_change-Contiguous, length-retain_change-le}

-- A record is stored under a valid key, with a known type and the revision of a past write.
abbrev pub IsStamped : ℕ → Bytes × MemoryRecord → Type 0
IsStamped last (key, r) =
    (valid_key (some key) ≡ true)
    × (valid_value_type r.value.type ≡ true)
    × (0 < r.revision)
    × (r.revision ≤ last)

abbrev pub AllStamped : ℕ → Records → Type 0
AllStamped last [] = Unit {0}
AllStamped last (p ∷ m) = IsStamped last p × AllStamped last m

pub record Inv (s : MemoryStoreState) : Type 0 where
  pub sorted : IsSorted s.records
  pub stamped : AllStamped s.revision s.records
  pub journal : Contiguous s.retained_floor s.changes s.revision
  pub bounded : length s.changes ≤ change_capacity
  pub in_range : s.revision ≤ revision_max

pub new_store-Inv : (name : Bytes) → Inv (new_store name)
unfolding new_store
new_store-Inv name = record {
  sorted = tt;
  stamped = tt;
  journal = refl;
  bounded = omega arith;
  in_range = omega arith;
}

AllStamped-suc : (n : ℕ) (m : Records) → AllStamped n m → AllStamped (suc n) m
AllStamped-suc n [] h = tt
AllStamped-suc n ((k, r) ∷ m) h = ((h.0.0, h.0.1, h.0.2, omega arith), AllStamped-suc n m h.1)

AllStamped-upsert :
    (n : ℕ) (k : Bytes) (r : MemoryRecord) (m : Records)
    → IsStamped n (k, r)
    → AllStamped n m
    → AllStamped n (upsert k r m)
unfolding upsert
AllStamped-upsert n k r [] p h = (p, tt)
AllStamped-upsert n k r ((j, q) ∷ m) p h = ground (arith, AllStamped-upsert n k r m)

AllStamped-erase : (n : ℕ) (k : Bytes) (m : Records) → AllStamped n m → AllStamped n (erase k m)
unfolding erase
AllStamped-erase n k [] h = tt
AllStamped-erase n k ((j, q) ∷ m) h = ground (arith, AllStamped-erase n k m)

commit-Inv :
    (s : MemoryStoreState) (m : Records) (op : ChangeOperation) (v : Value) (k : Bytes)
    → Inv s
    → s.revision < revision_max
    → IsSorted m
    → AllStamped (suc s.revision) m
    → Inv (commit m op v k s)
unfolding commit
commit-Inv s m op v k inv lt sorted stamped =
    let c = next_change s op v k in
    let e : s.revision + 1 ≡ suc s.revision = omega arith in
    record {
      sorted = sorted;
      stamped = rw e stamped;
      journal =
          subst (λ n. Contiguous (retain_change s c).retained_floor (retain_change s c).changes n)
            (sym e) (retain_change-Contiguous s c inv.journal e);
      bounded = length-retain_change-le s c;
      in_range = omega arith;
    }

pub write-Inv :
    (k : Bytes) (v : Value) (s : MemoryStoreState)
    → valid_key (some k) ≡ true
    → valid_value_type v.type ≡ true
    → s.revision < revision_max
    → Inv s
    → Inv (write k v s)
unfolding write
write-Inv k v s vk vt lt inv =
    let r : MemoryRecord = record { value = v; revision = s.revision + 1 } in
    commit-Inv s _ ChangeOperation.put v k inv lt (upsert-IsSorted k r s.records inv.sorted) (
      AllStamped-upsert (suc s.revision) k r s.records (vk, vt, omega arith, omega arith)
        (AllStamped-suc s.revision s.records inv.stamped))

pub remove-Inv :
    (k : Bytes) (s : MemoryStoreState) → s.revision < revision_max → Inv s → Inv (remove k s)
unfolding remove
remove-Inv k s lt inv =
    commit-Inv s (erase k s.records) ChangeOperation.delete (record { type = null; payload = [] }) k
      inv lt (erase-IsSorted k s.records inv.sorted)
      (AllStamped-erase (suc s.revision) k s.records
        (AllStamped-suc s.revision s.records inv.stamped))

pub wipe-Inv : (s : MemoryStoreState) → s.revision < revision_max → Inv s → Inv (wipe s)
unfolding wipe
wipe-Inv s lt inv =
    commit-Inv s [] ChangeOperation.clear (record { type = null; payload = [] }) [] inv lt tt tt

pub put-Inv :
    (plan : AllocPlan) (key : CString) (value : Option Value) (s : MemoryStoreState)
    → Inv s
    → Inv (put plan key value s).1
put-Inv plan key value s inv = elim (put-outcome plan key value s) [
  | inl (_, e) ↦ subst Inv (sym e) inv
  | inr (k, v, (_, _, vk, vt), lt, e) ↦ subst (λ r. Inv r.1) (sym e) (write-Inv k v s vk vt lt inv)
]

pub put_each-Inv : (es : List PatchEntry) (s : MemoryStoreState) → Inv s → Inv (put_each es s)
unfolding put_each
put_each-Inv [] s inv = inv
put_each-Inv (e ∷ es) s inv = put_each-Inv es _ (put-Inv all_granted e.key e.value s inv)

pub patch-Inv :
    (plan : AllocPlan) (es : PatchEntries) (s : MemoryStoreState) → Inv s → Inv (patch plan es s).1
patch-Inv plan (absent count) s inv = subst Inv (sym (patch-absent plan count s)) inv
patch-Inv plan (entries es) s inv = elim (patch-eq-puts plan es s inv.in_range) [
  | inl (_, e) ↦ subst Inv (sym e) inv
  | inr e ↦ subst (λ r. Inv r.1) (sym e) (put_each-Inv es s inv)
]

pub delete-Inv :
    (plan : AllocPlan) (key : CString) (s : MemoryStoreState) → Inv s → Inv (delete plan key s).1
delete-Inv plan none s inv = unfold delete in inv
delete-Inv plan (some k) s inv = elim (delete-outcome plan k s) [
  | inl (_, e) ↦ subst Inv (sym e) inv
  | inr (inl (_, e)) ↦ subst (λ r. Inv r.1) (sym e) inv
  | inr (inr (q, _, vk, lt, e)) ↦ subst (λ r. Inv r.1) (sym e) (remove-Inv k s lt inv)
]

pub clear-Inv : (plan : AllocPlan) (s : MemoryStoreState) → Inv s → Inv (clear plan s).1
clear-Inv plan s inv = elim (clear-outcome plan s) [
  | inl (_, e) ↦ subst Inv (sym e) inv
  | inr (inl (_, e)) ↦ subst (λ r. Inv r.1) (sym e) inv
  | inr (inr (_, lt, e)) ↦ subst (λ r. Inv r.1) (sym e) (wipe-Inv s lt inv)
]
