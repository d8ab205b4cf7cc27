-- ===== src/Store/Mutate.antt =====
-- The operations of src/esdb_store.cpp that write: put, patch, delete and clear. Each takes the
-- state of a Store whose handle is valid (`esdb.Store.Registry` has the handles), and returns the
-- reply and the state that it leaves, also where it fails.
use esdb.Prelude.{
  ℕ, suc, ◌+◌, ◌-◌, Bool, true, false, Option, none, some, List, [], ◌∷◌, ltb, leb, ◌==◌, ◌&&◌,
  if◌then◌else◌, length,
}
use esdb.Bytes.{Bytes, CString}
use esdb.Errors.{AllocPlan, AllocOutcome, attempt, Status, Phase, Reply, success, store_fail}
use esdb.Value.{Value, null}
use esdb.Store.Records.{Records, MemoryRecord, find, upsert, erase}
use esdb.Store.State.{
  MemoryStoreState, MemoryChange, ChangeOperation, revision_max, patch_max_entries, valid_key,
  valid_value_type, retain_change,
}

-- Out parameters of `delete` and `clear`: whether anything went, and the revision.
abbrev pub Removal : Type 0
Removal = Bool × ℕ

abbrev record_of : Value → ℕ → MemoryRecord
record_of value revision = record {
  value = record { type = value.type; payload = value.payload };
  revision = revision;
}

abbrev put_change : Bytes → Value → ℕ → MemoryChange
put_change key value revision = record {
  revision = revision;
  operation = ChangeOperation.put;
  value_type = value.type;
  key = key;
}

-- The second half of `put`: the record is staged, and the change is published. Where the journal
-- cannot grow, `undo` takes the record back.
unfoldable pub publish :
    AllocPlan → (Records → Records) → Bytes → Value → MemoryStoreState → Reply ℕ × MemoryStoreState
unfolding store_fail
publish plan undo key value s =
    let revision = s.revision + 1 in
    let staged : MemoryStoreState = record s {
      records = upsert key (record_of value revision) s.records;
    } in
    attempt (plan 2)
      (λ st. (store_fail st Phase.store 0, record staged { records = undo staged.records }))
      (
        success revision,
        record (retain_change staged (put_change key value revision)) { revision = revision },
      )

-- `put` under the lock. Only a new key makes the map allocate.
unfoldable pub put_locked :
    AllocPlan → Bytes → Value → MemoryStoreState → Reply ℕ × MemoryStoreState
unfolding publish
put_locked plan key value s =
    if leb revision_max s.revision
    then (store_fail Status.invalid_state Phase.store 0, s)
    else elim (find key s.records) [
      | some previous ↦ publish plan (upsert key previous) key value s
      | none ↦
          attempt (plan 1) (λ st. (store_fail st Phase.store 0, s))
            (publish plan (erase key) key value s)
    ]

unfoldable pub put :
    AllocPlan → CString → Option Value → MemoryStoreState → Reply ℕ × MemoryStoreState
unfolding put_locked
put plan none value s = (store_fail Status.invalid_argument Phase.store 0, s)
put plan (some key) none s = (store_fail Status.invalid_argument Phase.store 0, s)
put plan (some key) (some value) s =
    if valid_key (some key) && valid_value_type value.type
    then attempt (plan 0) (λ st. (store_fail st Phase.store 0, s)) (put_locked plan key value s)
    else (store_fail Status.invalid_argument Phase.store 0, s)

pub record PatchEntry : Type 0 where
  pub key : CString
  pub value : Option Value

-- The entries argument: `absent` is a null pointer, with the count passed.
pub data PatchEntries : Type 0 where
  absent : ℕ → PatchEntries
  entries : List PatchEntry → PatchEntries

unfoldable pub valid_entry : PatchEntry → Bool
valid_entry e = elim e.value [ none ↦ false | some v ↦ valid_key e.key && valid_value_type v.type ]

unfoldable pub valid_entries : List PatchEntry → Bool
unfolding valid_entry
valid_entries [] = true
valid_entries (e ∷ es) = valid_entry e && valid_entries es

-- One round of the loop of `patch` on the candidate, whose failing allocations throw.
unfoldable pub patch_entry : CString → Option Value → MemoryStoreState → MemoryStoreState
patch_entry none value c = c
patch_entry (some key) none c = c
patch_entry (some key) (some value) c =
    let revision = c.revision + 1 in
    record (retain_change (record c { records = upsert key (record_of value revision) c.records })
      (put_change key value revision)) { revision = revision }

pub data Loop : Type 0 where
  finished : MemoryStoreState → Loop
  threw : AllocOutcome → Loop

-- The loop of `patch`; the round number picks the outcome of its allocations.
unfoldable pub patch_loop : AllocPlan → ℕ → List PatchEntry → MemoryStoreState → Loop
unfolding patch_entry
patch_loop plan i [] c = finished c
patch_loop plan i (e ∷ es) c =
    let rest = patch_loop plan (suc i) es (patch_entry e.key e.value c) in
    elim (plan i) [
      | AllocOutcome.granted ↦ rest
      | AllocOutcome.bad_alloc ↦ threw AllocOutcome.bad_alloc
      | AllocOutcome.thrown ↦ threw AllocOutcome.thrown
    ]

-- The candidate is swapped in, or an exception leaves the Store as it was.
unfoldable pub patch_commit : Loop → MemoryStoreState → Reply ℕ × MemoryStoreState
unfolding store_fail
patch_commit (finished c) s = (
  success c.revision,
  record s {
    records = c.records;
    changes = c.changes;
    revision = c.revision;
    retained_floor = c.retained_floor;
  },
)
patch_commit (threw o) s =
    attempt o (λ st. (store_fail st Phase.store 0, s)) (store_fail Status.internal Phase.store 0, s)

unfoldable pub patch_locked :
    AllocPlan → List PatchEntry → MemoryStoreState → Reply ℕ × MemoryStoreState
unfolding patch_loop patch_commit
patch_locked plan [] s = (success s.revision, s)
patch_locked plan (e ∷ es) s =
    if ltb (revision_max - length (e ∷ es)) s.revision
    then (store_fail Status.invalid_state Phase.store 0, s)
    else attempt (plan 0) (λ st. (store_fail st Phase.store 0, s))
        (patch_commit (patch_loop plan 1 (e ∷ es) s) s)

unfoldable pub patch : AllocPlan → PatchEntries → MemoryStoreState → Reply ℕ × MemoryStoreState
unfolding patch_locked valid_entries
patch plan (absent count) s =
    if count == 0
    then patch_locked plan [] s
    else (store_fail Status.invalid_argument Phase.store 0, s)
patch plan (entries es) s =
    if leb (length es) patch_max_entries && valid_entries es
    then patch_locked plan es s
    else (store_fail Status.invalid_argument Phase.store 0, s)

unfoldable pub delete_locked :
    AllocPlan → Bytes → MemoryStoreState → Reply Removal × MemoryStoreState
unfolding store_fail
delete_locked plan key s =
    let revision = s.revision + 1 in
    let change : MemoryChange = record {
      revision = revision;
      operation = ChangeOperation.delete;
      value_type = null;
      key = key;
    } in
    elim (find key s.records) [
      | none ↦ (success (false, s.revision), s)
      | some found ↦
          if leb revision_max s.revision
          then (store_fail Status.invalid_state Phase.store (false, 0), s)
          else attempt (plan 1) (λ st. (store_fail st Phase.store (false, 0), s))
              (
                success (true, revision),
                record (retain_change s change) {
                  records = erase key s.records;
                  revision = revision;
                },
              )
    ]

unfoldable pub delete : AllocPlan → CString → MemoryStoreState → Reply Removal × MemoryStoreState
unfolding delete_locked
delete plan none s = (store_fail Status.invalid_argument Phase.store (false, 0), s)
delete plan (some key) s =
    if valid_key (some key)
    then attempt (plan 0) (λ st. (store_fail st Phase.store (false, 0), s))
        (delete_locked plan key s)
    else (store_fail Status.invalid_argument Phase.store (false, 0), s)

-- The change that `clear` publishes has no key.
unfoldable pub clear : AllocPlan → MemoryStoreState → Reply Removal × MemoryStoreState
unfolding store_fail
clear plan s =
    let revision = s.revision + 1 in
    let change : MemoryChange = record {
      revision = revision;
      operation = ChangeOperation.clear;
      value_type = null;
      key = [];
    } in
    elim s.records [
      | [] ↦ (success (false, s.revision), s)
      | _ ∷ _ ↦
          if leb revision_max s.revision
          then (store_fail Status.invalid_state Phase.store (false, 0), s)
          else attempt (plan 0) (λ st. (store_fail st Phase.store (false, 0), s))
              (
                success (true, revision),
                record (retain_change s change) { records = []; revision = revision },
              )
    ]
