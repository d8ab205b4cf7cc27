-- ===== src/Store/Lookup.antt =====
-- The Store of src/esdb_store.cpp as a map from keys to values: what `get` answers after each
-- write.
use esdb.Prelude.{
  ℕ, ◌+◌, true, Option, none, some, [], ◌∷◌, if◌then◌else◌, ◌≡◌, arith, Option-cases, inl, inr,
}
use esdb.Bytes.{Bytes}
use esdb.Errors.{AllocPlan, all_granted, Status, Reply, success, cleared}
use esdb.Value.{Value}
use esdb.Store.Records.{
  Records, MemoryRecord, find, same_key, eq_of_same_key, find-upsert, find-erase,
}
use esdb.Store.State.{MemoryStoreState, valid_key, valid_value_type, clone_value}
use esdb.Store.Mutate.{put, delete, clear}
use esdb.Store.Outcomes.{commit, write, remove, wipe, put-outcome, delete-outcome, clear-outcome}
use esdb.Store.Invariant.{Inv, AllStamped, put-Inv, delete-Inv}
use esdb.Store.Query.{get}

-- The abstract view: the record under a key.
abbrev pub lookup : MemoryStoreState → Bytes → Option MemoryRecord
lookup s k = find k s.records

-- The abstract write: one key changes.
abbrev pub update :
    (Bytes → Option MemoryRecord) → Bytes → Option MemoryRecord → Bytes → Option MemoryRecord
update f k r j = if same_key k j then r else f j

pub lookup-write :
    (k j : Bytes) (v : Value) (s : MemoryStoreState)
    → lookup (write k v s) j
      ≡ update (lookup s) k (some (record { value = v; revision = s.revision + 1 })) j
unfolding write commit
lookup-write k j v s = find-upsert k j (record { value = v; revision = s.revision + 1 }) s.records

-- A `put` that returns ESDB_OK is the abstract write of the record with the returned revision.
pub put-refines :
    (plan : AllocPlan) (k : Bytes) (v : Value) (s : MemoryStoreState)
    → (put plan (some k) (some v) s).0.status ≡ Status.ok
    → (j : Bytes)
    → lookup (put plan (some k) (some v) s).1 j
      ≡ update
          (lookup s)
          k
          (some (record { value = v; revision = (put plan (some k) (some v) s).0.out }))
          j
put-refines plan k v s h j = elim (put-outcome plan (some k) (some v) s) [
  | inl (bad, _) ↦ absurd (bad h)
  | inr (k', v', (ek, ev, _, _), lt, e) ↦ ground (arith, e, ek, ev, lookup-write k j v s)
]

pub lookup-remove :
    (k j : Bytes) (s : MemoryStoreState)
    → Inv s
    → lookup (remove k s) j ≡ update (lookup s) k none j
unfolding remove commit
lookup-remove k j s inv = find-erase k j s.records inv.sorted

-- `delete` is the abstract removal, whether or not the key was there; it says which.
pub delete-refines :
    (plan : AllocPlan) (k : Bytes) (s : MemoryStoreState)
    → Inv s
    → (delete plan (some k) s).0.status ≡ Status.ok
    → (j : Bytes) → lookup (delete plan (some k) s).1 j ≡ update (lookup s) k none j
delete-refines plan k s inv h j = elim (delete-outcome plan k s) [
  | inl (bad, _) ↦ absurd (bad h)
  | inr (inl (gone, e)) ↦ ground (arith, e, gone, eq_of_same_key k j)
  | inr (inr (q, _, _, _, e)) ↦ ground (arith, e, lookup-remove k j s inv)
]

-- `clear` that returns ESDB_OK leaves no record, also where there was none.
pub clear-refines :
    (plan : AllocPlan) (s : MemoryStoreState)
    → (clear plan s).0.status ≡ Status.ok
    → (j : Bytes) → lookup (clear plan s).1 j ≡ none
unfolding find
clear-refines plan s h j = elim (clear-outcome plan s) [
  | inl (bad, _) ↦ absurd (bad h)
  | inr (inl (gone, e)) ↦ ground (arith, e, gone)
  | inr (inr (_, _, e)) ↦ unfold wipe commit in ground (arith, e)
]

find-known :
    (n : ℕ) (k : Bytes) (m : Records) (r : MemoryRecord)
    → AllStamped n m
    → find k m ≡ some r
    → valid_value_type r.value.type ≡ true
unfolding find
find-known n k [] r h e = ground arith
find-known n k ((j, q) ∷ m) r h e = ground (arith, find-known n k m r)

-- What `get` answers for a record.
abbrev pub answer : Option MemoryRecord → Reply (Option Value)
answer none = record { status = Status.not_found; error = cleared; out = none }
answer (some r) = success (some r.value)

get-answer :
    (k : Bytes) (s : MemoryStoreState)
    → Inv s
    → valid_key (some k) ≡ true
    → get all_granted (some k) true s ≡ answer (lookup s k)
unfolding get clone_value
get-answer k s inv h = elim (Option-cases (find k s.records)) [
  | inl e ↦ ground (arith, e)
  | inr (r, e) ↦ ground (arith, e, find-known s.revision k s.records r inv.stamped e)
]

-- After a `put` that returns ESDB_OK, `get` of its key answers the value that was put, and `get` of
-- any other key what it answered before.
pub get-put :
    (plan : AllocPlan) (k j : Bytes) (v : Value) (s : MemoryStoreState)
    → Inv s
    → (put plan (some k) (some v) s).0.status ≡ Status.ok
    → valid_key (some j) ≡ true
    → get all_granted (some j) true (put plan (some k) (some v) s).1
      ≡ (if same_key k j then success (some v) else get all_granted (some j) true s)
get-put plan k j v s inv h vj = ground (
  arith,
  get-answer j (put plan (some k) (some v) s).1 (put-Inv plan (some k) (some v) s inv) vj,
  get-answer j s inv vj,
  put-refines plan k v s h j,
)

-- After a `delete` that returns ESDB_OK its key is gone, and every other key answers as before.
pub get-delete :
    (plan : AllocPlan) (k j : Bytes) (s : MemoryStoreState)
    → Inv s
    → (delete plan (some k) s).0.status ≡ Status.ok
    → valid_key (some j) ≡ true
    → get all_granted (some j) true (delete plan (some k) s).1
      ≡ (if same_key k j then answer none else get all_granted (some j) true s)
get-delete plan k j s inv h vj = ground (
  arith,
  get-answer j (delete plan (some k) s).1 (delete-Inv plan (some k) s inv) vj,
  get-answer j s inv vj,
  delete-refines plan k s inv h j,
)
