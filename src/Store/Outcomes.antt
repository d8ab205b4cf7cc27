-- ===== src/Store/Outcomes.antt =====
-- The two outcomes of each writing operation of src/esdb_store.cpp: it commits its whole effect and
-- returns ESDB_OK, or it returns an error and the Store is the one that it found, whichever
-- allocation failed.
use esdb.Prelude.{
  ◌+◌, ◌<◌, ◌≡◌, ◌≢◌, refl, true, false, [], Option, none, some, arith, ◌&&◌, Bool-cases,
  Option-cases, inl, inr, ◌⊎◌,
}
use esdb.Bytes.{Bytes, CString}
use esdb.Errors.{AllocPlan, Reply, Status, success, store_fail}
use esdb.Value.{Value, null}
use esdb.Store.Records.{
  Records, MemoryRecord, find, upsert, erase, erase-upsert_new, upsert-upsert_old,
}
use esdb.Store.State.{
  MemoryChange, MemoryStoreState, ChangeOperation, revision_max, valid_key, valid_value_type,
  retain_change,
}
use esdb.Store.Mutate.{put, put_locked, publish, delete, delete_locked, clear}

-- A change for the next revision of `s`.
abbrev pub next_change : MemoryStoreState → ChangeOperation → Value → Bytes → MemoryChange
next_change s operation value key = record {
  revision = s.revision + 1;
  operation = operation;
  value_type = value.type;
  key = key;
}

-- The committed effect of a mutation: the new records, one change, the next revision.
unfoldable pub commit :
    Records → ChangeOperation → Value → Bytes → MemoryStoreState → MemoryStoreState
commit records operation value key s =
    record (retain_change s (next_change s operation value key)) {
      records = records;
      revision = s.revision + 1;
    }

-- The committed write of one value under one key.
unfoldable pub write : Bytes → Value → MemoryStoreState → MemoryStoreState
unfolding commit
write key value s =
    commit (upsert key (record { value = value; revision = s.revision + 1 }) s.records)
      ChangeOperation.put value key s

-- A call that returned an error and left the Store as it was.
abbrev pub Refused : {A : Type 0} → Reply A × MemoryStoreState → MemoryStoreState → Type 0
Refused r s = (r.0.status ≢ Status.ok) × (r.1 ≡ s)

publish-outcome :
    (plan : AllocPlan) (undo : Records → Records) (key : Bytes) (value : Value)
    (s : MemoryStoreState)
    → undo (upsert key (record { value = value; revision = s.revision + 1 }) s.records) ≡ s.records
    → Refused (publish plan undo key value s) s
      ⊎ (publish plan undo key value s ≡ (success (s.revision + 1), write key value s))
unfolding publish write retain_change
publish-outcome plan undo key value s h = ground arith

put_locked-outcome :
    (plan : AllocPlan) (key : Bytes) (value : Value) (s : MemoryStoreState)
    → Refused (put_locked plan key value s) s
      ⊎ ((s.revision < revision_max)
          × (put_locked plan key value s ≡ (success (s.revision + 1), write key value s)))
unfolding put_locked store_fail
put_locked-outcome plan key value s =
    let r : MemoryRecord = record { value = value; revision = s.revision + 1 } in
    elim (Option-cases (find key s.records)) [
      | inl e ↦ ground (
        arith,
        e,
        publish-outcome plan (erase key) key value s (erase-upsert_new key r s.records e),
      )
      | inr (q, e) ↦ ground (
        arith,
        e,
        publish-outcome plan (upsert key q) key value s (upsert-upsert_old key r q s.records e),
      )
    ]

-- What a put that commits has had for arguments.
abbrev pub PutArguments : CString → Option Value → Bytes → Value → Type 0
PutArguments key value k v =
    (key ≡ some k)
    × (value ≡ some v)
    × (valid_key (some k) ≡ true)
    × (valid_value_type v.type ≡ true)

put-accepted :
    (plan : AllocPlan) (k : Bytes) (v : Value) (s : MemoryStoreState)
    → (valid_key (some k) && valid_value_type v.type) ≡ true
    → Refused (put plan (some k) (some v) s) s
      ⊎ ((s.revision < revision_max)
          × (put plan (some k) (some v) s ≡ (success (s.revision + 1), write k v s)))
unfolding put store_fail
put-accepted plan k v s h = ground (arith, h, put_locked-outcome plan k v s)

-- put: an error, and the Store untouched; or the write of a valid key and value at the next
-- revision, which is what the call returns.
pub put-outcome :
    (plan : AllocPlan) (key : CString) (value : Option Value) (s : MemoryStoreState)
    → Refused (put plan key value s) s
      ⊎ ((k : Bytes) × (v : Value) × PutArguments key value k v
          × (s.revision < revision_max)
          × (put plan key value s ≡ (success (s.revision + 1), write k v s)))
unfolding put store_fail
put-outcome plan none value s = inl (ground arith, refl)
put-outcome plan (some k) none s = inl (ground arith, refl)
put-outcome plan (some k) (some v) s =
    elim (Bool-cases (valid_key (some k) && valid_value_type v.type)) [
      | inl good ↦ elim (put-accepted plan k v s good) [
        | inl r ↦ inl r
        | inr (lt, e) ↦ inr (k, v, (refl, refl, ground (arith, good), ground (arith, good)), lt, e)
      ]
      | inr bad ↦ rw bad (inl (ground arith, refl))
    ]

-- The committed removal of a key.
unfoldable pub remove : Bytes → MemoryStoreState → MemoryStoreState
unfolding commit
remove key s =
    commit (erase key s.records) ChangeOperation.delete (record { type = null; payload = [] }) key s

delete_locked-outcome :
    (plan : AllocPlan) (key : Bytes) (s : MemoryStoreState)
    → Refused (delete_locked plan key s) s
      ⊎ ((find key s.records ≡ none)
          × (delete_locked plan key s ≡ (success (false, s.revision), s)))
      ⊎ ((q : MemoryRecord) × (find key s.records ≡ some q)
          × (s.revision < revision_max)
          × (delete_locked plan key s ≡ (success (true, s.revision + 1), remove key s)))
unfolding delete_locked store_fail remove retain_change
delete_locked-outcome plan key s = ground arith

-- delete: an error, and the Store untouched; or no such key, and nothing happens; or the record
-- goes, at the next revision.
pub delete-outcome :
    (plan : AllocPlan) (key : Bytes) (s : MemoryStoreState)
    → Refused (delete plan (some key) s) s
      ⊎ ((find key s.records ≡ none)
          × (delete plan (some key) s ≡ (success (false, s.revision), s)))
      ⊎ ((q : MemoryRecord) × (find key s.records ≡ some q)
          × (valid_key (some key) ≡ true)
          × (s.revision < revision_max)
          × (delete plan (some key) s ≡ (success (true, s.revision + 1), remove key s)))
unfolding delete store_fail
delete-outcome plan key s = ground (arith, delete_locked-outcome plan key s)

unfoldable pub wipe : MemoryStoreState → MemoryStoreState
unfolding commit
wipe s = commit [] ChangeOperation.clear (record { type = null; payload = [] }) [] s

-- clear: an error, and the Store untouched; or it was empty, and nothing happens; or all records
-- go, at the next revision.
pub clear-outcome :
    (plan : AllocPlan) (s : MemoryStoreState)
    → Refused (clear plan s) s
      ⊎ ((s.records ≡ []) × (clear plan s ≡ (success (false, s.revision), s)))
      ⊎ ((s.records ≢ [])
          × (s.revision < revision_max)
          × (clear plan s ≡ (success (true, s.revision + 1), wipe s)))
unfolding clear store_fail wipe retain_change
clear-outcome plan s = ground arith
