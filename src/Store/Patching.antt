-- ===== src/Store/Patching.antt =====
-- `esdb_store_patch` of src/esdb_store.cpp against a sequence of calls of `esdb_store_put`.
use esdb.Prelude.{
  ℕ, suc, ◌+◌, ◌≤◌, ◌<◌, ◌≡◌, ◌≢◌, refl, true, false, List, [], ◌∷◌, Option, none, some, arith, leb,
  ◌&&◌, length, Bool-cases, inl, inr, sym, ◌⊎◌, ap, ◌∙◌,
}
use esdb.Bytes.{CString}
use esdb.Errors.{AllocPlan, all_granted, AllocOutcome, granted, success, store_fail}
use esdb.Utf8.{valid_c_string}
use esdb.Value.{Value}
use esdb.Store.State.{MemoryStoreState, revision_max, patch_max_entries, valid_key, retain_change}
use esdb.Store.Mutate.{
  put, put_locked, publish, patch, patch_locked, patch_loop, patch_commit, patch_entry, PatchEntry,
  entries, absent, Loop, finished, threw, valid_entry, valid_entries,
}
use esdb.Store.Outcomes.{Refused}

-- The Store after a call of `put` for each entry in turn, none of whose allocations fails.
unfoldable pub put_each : List PatchEntry → MemoryStoreState → MemoryStoreState
put_each [] s = s
put_each (e ∷ es) s = put_each es (put all_granted e.key e.value s).1

put-patch_entry :
    (key : CString) (value : Option Value) (s : MemoryStoreState)
    → valid_entry (record { key = key; value = value }) ≡ true
    → s.revision < revision_max
    → (put all_granted key value s).1 ≡ patch_entry key value s
unfolding put put_locked publish patch_entry valid_entry
put-patch_entry key none s h lt = ground arith
put-patch_entry none (some v) s h lt = refl
put-patch_entry (some k) (some v) s h lt = ground arith

-- What no write changes.
abbrev SameIdentity : MemoryStoreState → MemoryStoreState → Type 0
SameIdentity s t =
    (t.name ≡ s.name)
    × (t.handle_count ≡ s.handle_count)
    × (t.subscription_count ≡ s.subscription_count)

patch_entry-SameIdentity :
    (key : CString) (value : Option Value) (s : MemoryStoreState)
    → SameIdentity s (patch_entry key value s)
unfolding patch_entry retain_change
patch_entry-SameIdentity none value s = (refl, refl, refl)
patch_entry-SameIdentity (some k) none s = (refl, refl, refl)
patch_entry-SameIdentity (some k) (some v) s = (refl, refl, refl)

valid_key-null : valid_key none ≡ false
unfolding valid_key valid_c_string
valid_key-null = refl

patch_entry-revision :
    (key : CString) (value : Option Value) (s : MemoryStoreState)
    → valid_entry (record { key = key; value = value }) ≡ true
    → (patch_entry key value s).revision ≡ suc s.revision
unfolding patch_entry valid_entry
patch_entry-revision none none s h = ground arith
patch_entry-revision none (some v) s h = ground (arith, valid_key-null)
patch_entry-revision (some k) none s h = ground arith
patch_entry-revision (some k) (some v) s h = omega arith

-- What the loop of `patch` ends with, from the candidate `c`.
abbrev Patched : List PatchEntry → MemoryStoreState → Loop → Type 0
Patched es c (threw o) = o ≢ granted
Patched es c (finished t) =
    (t ≡ put_each es c) × SameIdentity c t × (t.revision ≡ c.revision + length es)

Patched-extend :
    (r : Loop) (e : PatchEntry) (es : List PatchEntry) (c d : MemoryStoreState)
    → (put all_granted e.key e.value c).1 ≡ d
    → SameIdentity c d
    → d.revision ≡ suc c.revision
    → Patched es d r
    → Patched (e ∷ es) c r
unfolding put_each
Patched-extend (threw o) e es c d p i n h = h
Patched-extend (finished t) e es c d p i n (eq, j, m) =
    (eq ∙ ap (put_each es) (sym p), (j.0 ∙ i.0, j.1 ∙ i.1, j.2 ∙ i.2), omega arith)

patch_loop-Patched :
    (plan : AllocPlan) (i : ℕ) (es : List PatchEntry) (c : MemoryStoreState)
    → valid_entries es ≡ true
    → c.revision + length es ≤ revision_max
    → Patched es c (patch_loop plan i es c)
unfolding patch_loop valid_entries
patch_loop-Patched plan i [] c h le = (unfold put_each in refl, (refl, refl, refl), omega arith)
patch_loop-Patched plan i (e ∷ es) c h le =
    let v : valid_entry e ≡ true = ground (arith, h) in
    let next = patch_entry e.key e.value c in
    let n = patch_entry-revision e.key e.value c v in
    let rest : Patched (e ∷ es) c (patch_loop plan (suc i) es next) =
      Patched-extend (patch_loop plan (suc i) es next) e es c next
        (put-patch_entry e.key e.value c v (omega arith)) (patch_entry-SameIdentity e.key e.value c)
        n (patch_loop-Patched plan (suc i) es next (ground (arith, h)) (omega (arith, n))) in
    elim (plan i)
      as (λ o. Patched (e ∷ es) c (elim o [
        | AllocOutcome.granted ↦ patch_loop plan (suc i) es next
        | AllocOutcome.bad_alloc ↦ threw AllocOutcome.bad_alloc
        | AllocOutcome.thrown ↦ threw AllocOutcome.thrown
      ])) [
        | AllocOutcome.granted ↦ rest
        | AllocOutcome.bad_alloc ↦ λ q. ground (arith, q)
        | AllocOutcome.thrown ↦ λ q. ground (arith, q)
      ]

patch_commit-outcome :
    (r : Loop) (es : List PatchEntry) (s : MemoryStoreState)
    → Patched es s r
    → Refused (patch_commit r s) s
      ⊎ (patch_commit r s ≡ (success (s.revision + length es), put_each es s))
unfolding patch_commit store_fail
patch_commit-outcome (threw o) es s h = ground arith
patch_commit-outcome (finished t) es s (e, i, n) = inr (ground (arith, e, i, n))

-- patch: an error, and the Store untouched; or what one `put` after another would have left, at the
-- revision of the last of them. An empty patch only reads the revision.
pub patch-eq-puts :
    (plan : AllocPlan) (es : List PatchEntry) (s : MemoryStoreState)
    → s.revision ≤ revision_max
    → Refused (patch plan (entries es) s) s
      ⊎ (patch plan (entries es) s ≡ (success (s.revision + length es), put_each es s))
unfolding patch patch_locked store_fail
patch-eq-puts plan [] s le = inr (unfold put_each valid_entries in ground arith)
patch-eq-puts plan (e ∷ es) s le =
    elim (Bool-cases (
      leb (length (e ∷ es)) patch_max_entries
      && valid_entries (e ∷ es)
      && leb (s.revision + length (e ∷ es)) revision_max)) [
        | inl good ↦ ground (
          arith,
          good,
          patch_commit-outcome (patch_loop plan 1 (e ∷ es) s) (e ∷ es) s
              (patch_loop-Patched plan 1 (e ∷ es) s (ground (arith, good)) (ground (arith, good))),
        )
        | inr bad ↦ inl (ground (arith, bad))
      ]

-- A null array is an error or, with a count of 0, an empty patch.
pub patch-absent :
    (plan : AllocPlan) (count : ℕ) (s : MemoryStoreState) → (patch plan (absent count) s).1 ≡ s
unfolding patch patch_locked
patch-absent plan count s = ground arith
