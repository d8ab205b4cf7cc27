-- ===== src/Adapter/Outcomes.antt =====
-- The branches of `close` and `openStaged` of adapters/externalobject/esdb_externalobject.cpp.
use esdb.Prelude.{
  ℕ, ◌≡◌, ◌⊎◌, refl, arith, Bool, true, false, Option, none, some, List, set, Option-cases,
  Bool-cases, inl, inr,
}
use esdb.Bytes.{Bytes}
use esdb.Errors.{Result, got, refused, Status, AllocOutcome, granted, bad_alloc, thrown}
use esdb.Adapter.Handles.{
  Slot, encode_handle, lookup_slot, advance_generation, vacated, claim, Table, open_staged, close,
  not_positive, settle, is_empty,
}

-- Closing refuses, and leaves the slots as they are, or vacates the slot of a live token.
pub close-outcome :
    (token : Option ℕ) (t : Table)
    → (((close token t).0 ≡ false) × ((close token t).1.slots ≡ t.slots))
      ⊎ ((n : ℕ) × (i : ℕ) × (slot : Slot) × (token ≡ some n)
          × (lookup_slot t.slots n ≡ some (i, slot))
          × ((close token t).1.slots ≡ set t.slots i (advance_generation (vacated slot))))
unfolding close
close-outcome none t = inl (refl, refl)
close-outcome (some n) t = elim (Option-cases (lookup_slot t.slots n)) [
  | inl e ↦ inl (ground (arith, e))
  | inr ((i, slot), e) ↦ elim (Bool-cases (not_positive n)) [
    | inl p ↦ inl (ground (arith, p))
    | inr p ↦ inr (n, i, slot, refl, e, ground (arith, p, e))
  ]
]

pub Result-cases : (r : Result ℕ) → ((st : Status) × (r ≡ refused st)) ⊎ ((db : ℕ) × (r ≡ got db))
Result-cases (got db) = inr (db, refl)
Result-cases (refused st) = inl (st, refl)

-- Opening leaves the slots as they are and returns no token, or gives the database to a free slot.
pub open_staged-outcome :
    (outcome : AllocOutcome) (dummy : Bool) (esdb_open : Bytes → Result ℕ) (t : Table)
    → (((open_staged outcome dummy esdb_open t).0 ≡ 0)
        × ((open_staged outcome dummy esdb_open t).1.slots ≡ t.slots))
      ⊎ ((db : ℕ) × (i : ℕ) × (g : ℕ) × (slots : List Slot) × (esdb_open t.staged_path ≡ got db)
          × (claim db 0 t.slots ≡ some (i, g, slots))
          × ((open_staged outcome dummy esdb_open t).0 ≡ encode_handle i g)
          × ((open_staged outcome dummy esdb_open t).1.slots ≡ slots))
unfolding open_staged settle
open_staged-outcome outcome false esdb_open t = inl (refl, refl)
open_staged-outcome bad_alloc true esdb_open t = elim (Bool-cases (is_empty t.staged_path)) [
  | inl e ↦ inl (ground (arith, e))
  | inr e ↦ inl (ground (arith, e))
]
open_staged-outcome thrown true esdb_open t = elim (Bool-cases (is_empty t.staged_path)) [
  | inl e ↦ inl (ground (arith, e))
  | inr e ↦ inl (ground (arith, e))
]
open_staged-outcome granted true esdb_open t = elim (Bool-cases (is_empty t.staged_path)) [
  | inl e ↦ inl (ground (arith, e))
  | inr some_path ↦ elim (Result-cases (esdb_open t.staged_path)) [
    | inl (st, e) ↦ inl (ground (arith, some_path, e))
    | inr (db, e) ↦ elim (Option-cases (claim db 0 t.slots)) [
      | inl q ↦ inl (ground (arith, some_path, e, q))
      | inr ((i, g, slots), q) ↦
          inr (
            db,
            i,
            g,
            slots,
            e,
            q,
            ground (arith, some_path, e, q),
            ground (arith, some_path, e, q),
          )
    ]
  ]
]
