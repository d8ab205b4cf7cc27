-- ===== src/Store/Notice.antt =====
-- The journal of src/esdb_store.cpp tells a client of every key that changed.
use esdb.Prelude.{
  ℕ, suc, ◌+◌, ◌≤◌, Bool, true, false, not, ◌&&◌, ◌||◌, List, [], ◌∷◌, ◌++◌, ◌≡◌, refl, arith, ◌∙◌,
  inl, inr, subst, sym, leb, ltb, length, Bool-cases,
}
use esdb.Bytes.{Bytes}
use esdb.Value.{Value, null}
use esdb.Store.State.{
  MemoryStoreState, MemoryChange, ChangeOperation, trim, retain_change, change_capacity,
}
use esdb.Store.Records.{Records, same_key, upsert, erase}
use esdb.Store.Journal.{Contiguous, Contiguous-append}
use esdb.Store.Outcomes.{commit, next_change, write, remove, wipe}
use esdb.Store.Invariant.{Inv}
use esdb.Store.Lookup.{lookup, lookup-write, lookup-remove}
use esdb.Store.History.{Commits, wrote, removed, wiped, Reach, here, next, Reach-Inv}

abbrev is_clear : ChangeOperation → Bool
is_clear ChangeOperation.clear = true
is_clear _ = false

-- A change concerns a key if it names it, or clears the Store.
abbrev pub touches : Bytes → MemoryChange → Bool
touches k c = is_clear c.operation || same_key c.key k

-- No change with a revision above `r` concerns the key.
unfoldable pub quiet : Bytes → ℕ → List MemoryChange → Bool
quiet k r [] = true
quiet k r (c ∷ cs) = (leb c.revision r || not (touches k c)) && quiet k r cs

quiet-append :
    (k : Bytes) (r : ℕ) (cs : List MemoryChange) (c : MemoryChange)
    → quiet k r (cs ++ c ∷ []) ≡ (quiet k r cs && (leb c.revision r || not (touches k c)))
unfolding quiet
quiet-append k r [] c = ground arith
quiet-append k r (d ∷ cs) c = ground (arith, quiet-append k r cs c)

le-trim :
    (floor : ℕ) (cs : List MemoryChange) (last : ℕ)
    → Contiguous floor cs last
    → floor ≤ (trim floor cs).0
unfolding trim
le-trim floor [] last h = omega arith
le-trim floor (c ∷ cs) last h =
    let ih = le-trim c.revision cs last (subst (λ f. Contiguous f cs last) (sym h.0) h.1) in
    ground (arith, ih)

-- What the journal drops lies at or below the new floor.
quiet-trim :
    (k : Bytes) (r floor : ℕ) (cs : List MemoryChange) (last : ℕ)
    → Contiguous floor cs last
    → (trim floor cs).0 ≤ r
    → quiet k r (trim floor cs).1 ≡ quiet k r cs
unfolding trim
quiet-trim k r floor [] last h le = refl
quiet-trim k r floor (c ∷ cs) last h le =
    let below : Contiguous c.revision cs last = subst (λ f. Contiguous f cs last) (sym h.0) h.1 in
    elim (Bool-cases (ltb change_capacity (length (c ∷ cs)))) [
      | inl over ↦
          let moved : (trim c.revision cs).0 ≤ r = ground (arith, over) in
          let ih = quiet-trim k r c.revision cs last below moved in
          rw over (ih ∙ (unfold quiet in ground (arith, le-trim c.revision cs last below)))
      | inr fits ↦ rw fits refl
    ]

-- What a committed step says of the key and of the older journal.
commit-quiet :
    (s : MemoryStoreState) (m : Records) (op : ChangeOperation) (v : Value) (j k : Bytes) (r : ℕ)
    → Inv s
    → (commit m op v j s).retained_floor ≤ r
    → r ≤ s.revision
    → quiet k r (commit m op v j s).changes ≡ true
    → (quiet k r s.changes ≡ true)
      × (touches k (next_change s op v j) ≡ false)
      × (s.retained_floor ≤ r)
unfolding commit retain_change
commit-quiet s m op v j k r inv le el q =
    let c = next_change s op v j in
    let longer : Contiguous s.retained_floor (s.changes ++ c ∷ []) (suc s.revision) =
      Contiguous-append s.retained_floor s.changes s.revision c inv.journal (omega arith) in
    ground (
      arith,
      q,
      quiet-trim k r s.retained_floor (s.changes ++ c ∷ []) (suc s.revision) longer le,
      quiet-append k r s.changes c,
      le-trim s.retained_floor (s.changes ++ c ∷ []) (suc s.revision) longer,
    )

-- One committed step whose change does not concern the key.
Commits-lookup :
    {s t : MemoryStoreState} (k : Bytes) (r : ℕ)
    → Commits s t
    → Inv s
    → t.retained_floor ≤ r
    → r ≤ s.revision
    → quiet k r t.changes ≡ true
    → (lookup t k ≡ lookup s k) × (quiet k r s.changes ≡ true) × (s.retained_floor ≤ r)
unfolding write remove wipe
Commits-lookup k r (wrote j v s _ _ lt) inv le el q =
    let r' = upsert j (record { value = v; revision = s.revision + 1 }) s.records in
    let (older, apart, kept) = commit-quiet s r' ChangeOperation.put v j k r inv le el q in
    (ground (arith, apart, lookup-write j k v s), older, kept)
Commits-lookup k r (removed j s lt) inv le el q =
    let (older, apart, kept) =
      commit-quiet s (erase j s.records) ChangeOperation.delete
        (record { type = null; payload = [] }) j k r inv le el q in
    (ground (arith, apart, lookup-remove j k s inv), older, kept)
Commits-lookup k r (wiped s lt) inv le el q =
    let (older, apart, kept) =
      commit-quiet s [] ChangeOperation.clear (record { type = null; payload = [] }) [] k r inv le
        el q in
    ground (arith, apart)

Commits-revision : {s t : MemoryStoreState} → Commits s t → s.revision ≤ t.revision
Commits-revision (wrote j v s _ _ lt) = unfold write in omega arith
Commits-revision (removed j s lt) = unfold remove in omega arith
Commits-revision (wiped s lt) = unfold wipe in omega arith

pub Reach-revision : {s t : MemoryStoreState} → Reach s t → s.revision ≤ t.revision
Reach-revision here = omega arith
Reach-revision (next r c) = omega (arith, Reach-revision r, Commits-revision c)

-- While the journal still covers the revision of an earlier state of the Store, a key that no later
-- change concerns has the same record now as it had then: a change query from that revision misses
-- nothing.
pub quiet-lookup :
    {s t : MemoryStoreState} (k : Bytes)
    → Reach s t
    → Inv s
    → t.retained_floor ≤ s.revision
    → quiet k s.revision t.changes ≡ true
    → lookup t k ≡ lookup s k
quiet-lookup k here inv le q = refl
quiet-lookup {s} k (next r c) inv le q =
    let (same, older, kept) =
      Commits-lookup k s.revision c (Reach-Inv r inv) le (Reach-revision r) q in
    same ∙ quiet-lookup k r inv kept older
