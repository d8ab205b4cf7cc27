-- ===== src/Store/Notified.antt =====
-- A client of src/esdb_store.cpp that asks for the changes since a revision misses none.
use esdb.Prelude.{
  ℕ, suc, ◌+◌, ◌≤◌, min, Bool, true, false, not, ◌&&◌, Option, none, some, List, [], ◌∷◌, ltb, leb,
  ◌==◌, if◌then◌else◌, ◌≡◌, refl, arith, map, ◌∙◌, ap, sym, Bool-cases, inl, inr,
}
use esdb.Bytes.{Bytes}
use esdb.Errors.{AllocPlan, granted}
use esdb.Store.State.{
  MemoryStoreState, MemoryChange, ChangeOperation, put, delete, clear, change_limit_max,
}
use esdb.Store.Records.{same_key}
use esdb.Store.Journal.{Contiguous, length-Contiguous}
use esdb.Store.Invariant.{Inv}
use esdb.Store.Lookup.{lookup}
use esdb.Store.History.{Operation, run, run-Inv, run-Reach}
use esdb.Store.Changes.{StoreChange, shown, changes_since}
use esdb.Store.Record.{recorder, between, changes_since-recorder}
use esdb.Store.Notice.{quiet, touches, quiet-lookup, Reach-revision}

-- A change that is shown concerns a key if it names it, or has no key since it clears the Store.
abbrev concerns : Bytes → Option Bytes → Bool
concerns k none = true
concerns k (some j) = same_key j k

-- No change that was shown concerns the key.
unfoldable pub unmentioned : Bytes → List StoreChange → Bool
unmentioned k [] = true
unmentioned k (c ∷ log) = not (concerns k c.key) && unmentioned k log

and-left : (a b : Bool) → (a && b) ≡ true → a ≡ true
and-left true b h = refl
and-left false b h = h

and-right : (a b : Bool) → (a && b) ≡ true → b ≡ true
and-right true b h = h
and-right false b h = absurd (cc h)

concerns-shown : (k : Bytes) (c : MemoryChange) → concerns k (shown c).key ≡ touches k c
unfolding shown
concerns-shown k c = by_operation c.operation
  where
    by_operation :
        (op : ChangeOperation)
        → concerns k (elim op [ clear ↦ none | _ ↦ some c.key ])
          ≡ touches k (record c { operation = op })
    by_operation put = refl
    by_operation delete = refl
    by_operation clear = refl

-- A key that no change of the answer concerns is quiet in the journal, if the answer reaches its end.
unmentioned-quiet :
    (k : Bytes) (low high floor : ℕ) (cs : List MemoryChange) (last : ℕ)
    → Contiguous floor cs last
    → last ≤ high
    → unmentioned k (map shown (between low high cs)) ≡ true
    → quiet k low cs ≡ true
unfolding unmentioned between quiet
unmentioned-quiet k low high floor [] last h le q = refl
unmentioned-quiet k low high floor (c ∷ cs) last h le q =
    let size = length-Contiguous (suc floor) cs last h.1 in
    let first = h.0 in
    let reached : leb c.revision high ≡ true = ground (arith, size, first) in
    elim (Bool-cases (ltb low c.revision)) [
      | inl new ↦
          let old : leb c.revision low ≡ false = ground (arith, new) in
          let both : (not (concerns k (shown c).key)
                && unmentioned k (map shown (between low high cs)))
              ≡ true =
            rw (new, reached) at q in
          let apart : not (touches k c) ≡ true =
            ap (λ b. not b) (sym (concerns-shown k c)) ∙ and-left _ _ both in
          let later =
            unmentioned-quiet k low high (suc floor) cs last h.1 le (and-right _ _ both) in
          rw (old, apart, later) refl
      | inr seen ↦
          let old : leb c.revision low ≡ true = ground (arith, seen) in
          let later = unmentioned-quiet k low high (suc floor) cs last h.1 le (rw (seen) at q) in
          rw (old, later) refl
    ]

-- Whatever calls change a Store, and whichever of their allocations fail: `esdb_store_changes_since`
-- from an earlier revision misses no key that has changed. A key that none of the changes concerns
-- which it delivers has the same record as at that revision, if the journal still covers the revision,
-- memory is granted to the query and its answer reaches the present revision.
pub changes_since-lookup :
    (plan : AllocPlan) (k : Bytes) (s : MemoryStoreState) (ops : List (AllocPlan × Operation))
    (limit : ℕ)
    → Inv s
    → plan 0 ≡ granted
    → limit ≤ change_limit_max
    → (run s ops).retained_floor ≤ s.revision
    → (changes_since plan (run s ops) s.revision limit (some recorder) []).out.last_revision
      ≡ (run s ops).revision
    → unmentioned k
        (changes_since plan (run s ops) s.revision limit (some recorder) []).out.user_data
      ≡ true
    → lookup (run s ops) k ≡ lookup s k
changes_since-lookup plan k s ops limit inv alloc lim covered reached silent =
    let t : MemoryStoreState = run s ops in
    let there : Inv t = run-Inv s ops inv in
    let path = run-Reach s ops inv in
    let bound : ℕ = if limit == 0 then change_limit_max else limit in
    let exact =
      changes_since-recorder plan t s.revision limit there alloc covered (Reach-revision path)
        lim in
    let end : min t.revision (s.revision + bound) ≡ t.revision =
      sym (ap (λ r. r.out.last_revision) exact) ∙ reached in
    let named : unmentioned k (map shown (between s.revision (s.revision + bound) t.changes))
        ≡ true =
      sym (ap (λ r. unmentioned k r.out.user_data) exact) ∙ silent in
    quiet-lookup k path inv covered (
      unmentioned-quiet k s.revision (s.revision + bound) t.retained_floor t.changes t.revision
        there.journal (omega (arith, end)) named)
