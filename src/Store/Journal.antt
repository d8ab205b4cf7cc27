-- ===== src/Store/Journal.antt =====
-- The journal of changes in src/esdb_store.cpp: it holds every revision above the retained floor,
-- once and in order, and never more than its capacity.
use esdb.Prelude.{
  ℕ, suc, ◌+◌, ◌≤◌, ◌≡◌, List, [], ◌∷◌, ◌++◌, arith, ltb, length, Bool-cases, inl, inr, subst, sym,
}
use esdb.Store.State.{MemoryChange, MemoryStoreState, change_capacity, trim, retain_change}

-- The changes have the revisions floor + 1, floor + 2, …, up to `last`.
abbrev pub Contiguous : ℕ → List MemoryChange → ℕ → Type 0
Contiguous floor [] last = floor ≡ last
Contiguous floor (c ∷ cs) last = (c.revision ≡ suc floor) × Contiguous (suc floor) cs last

pub Contiguous-append :
    (floor : ℕ) (cs : List MemoryChange) (last : ℕ) (c : MemoryChange)
    → Contiguous floor cs last
    → c.revision ≡ suc last
    → Contiguous floor (cs ++ c ∷ []) (suc last)
Contiguous-append floor [] last c h e = (omega arith, omega arith)
Contiguous-append floor (d ∷ cs) last c h e = (h.0, Contiguous-append (suc floor) cs last c h.1 e)

pub length-Contiguous :
    (floor : ℕ) (cs : List MemoryChange) (last : ℕ)
    → Contiguous floor cs last
    → floor + length cs ≡ last
length-Contiguous floor [] last h = omega arith
length-Contiguous floor (c ∷ cs) last h = omega (arith, length-Contiguous (suc floor) cs last h.1)

pub trim-Contiguous :
    (floor : ℕ) (cs : List MemoryChange) (last : ℕ)
    → Contiguous floor cs last
    → Contiguous (trim floor cs).0 (trim floor cs).1 last
unfolding trim
trim-Contiguous floor [] last h = h
trim-Contiguous floor (c ∷ cs) last h = elim (Bool-cases (ltb change_capacity (length (c ∷ cs)))) [
  | inl over ↦
      rw over (trim-Contiguous c.revision cs last (subst (λ f. Contiguous f cs last) (sym h.0) h.1))
  | inr fits ↦ rw fits h
]

pub length-trim-le :
    (floor : ℕ) (cs : List MemoryChange) → length (trim floor cs).1 ≤ change_capacity
unfolding trim
length-trim-le floor [] = omega arith
length-trim-le floor (c ∷ cs) = ground (arith, length-trim-le c.revision cs)

-- Publishing the next revision keeps the journal whole and within its capacity.
pub retain_change-Contiguous :
    (s : MemoryStoreState) (c : MemoryChange)
    → Contiguous s.retained_floor s.changes s.revision
    → c.revision ≡ suc s.revision
    → Contiguous (retain_change s c).retained_floor (retain_change s c).changes (suc s.revision)
unfolding retain_change
retain_change-Contiguous s c h e =
    trim-Contiguous s.retained_floor (s.changes ++ c ∷ []) (suc s.revision)
      (Contiguous-append s.retained_floor s.changes s.revision c h e)

pub length-retain_change-le :
    (s : MemoryStoreState) (c : MemoryChange) → length (retain_change s c).changes ≤ change_capacity
unfolding retain_change
length-retain_change-le s c = length-trim-le s.retained_floor (s.changes ++ c ∷ [])
