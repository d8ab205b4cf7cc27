-- ===== src/Adapter/Stale.antt =====
-- Histories of the handle table of adapters/externalobject/esdb_externalobject.cpp.
use esdb.Prelude.{
  ℕ, zero, suc, ◌≤◌, ◌≡◌, refl, arith, Bool, true, not, ◌&&◌, Option, none, some, List, [], ◌∷◌,
  get_elem?, set, set-get_elem?, sym, subst, Option-cases, Bool-cases, inl, inr,
}
use esdb.Bytes.{Bytes}
use esdb.Errors.{Result, AllocOutcome, granted, bad_alloc, thrown}
use esdb.Adapter.Handles.{
  Slot, decode_handle, lookup_slot, advance_generation, vacated, claim, is_some, shut_slots,
  shut_slot, Table, stage, open_staged, close, terminate,
}
use esdb.Adapter.Tokens.{Later, AllLater, spent, spent-lookup, lookup-some}
use esdb.Adapter.Outcomes.{close-outcome, open_staged-outcome}

AllLater-refl : (slots : List Slot) → AllLater slots slots
AllLater-refl [] = tt
AllLater-refl (s ∷ ss) = ((omega arith, λ h. h), AllLater-refl ss)

AllLater-set :
    (slots : List Slot) (i : ℕ) (s t : Slot)
    → get_elem? slots i ≡ some s
    → Later s t
    → AllLater slots (set slots i t)
AllLater-set [] i s t h later = tt
AllLater-set (x ∷ xs) zero s t h later =
    ((ground (arith, later.0, h), ground (arith, later.1, h)), AllLater-refl xs)
AllLater-set (x ∷ xs) (suc i) s t h later = ((omega arith, λ r. r), AllLater-set xs i s t h later)

AllLater-get :
    (ss ts : List Slot) (i : ℕ) (s : Slot)
    → AllLater ss ts
    → get_elem? ss i ≡ some s
    → (t : Slot) × (get_elem? ts i ≡ some t)
      × (s.generation ≤ t.generation)
      × (s.retired ≡ true → t.retired ≡ true)
AllLater-get [] ts i s h e = absurd (ground arith)
AllLater-get (x ∷ ss) [] i s h e = absurd h
AllLater-get (x ∷ ss) (y ∷ ts) zero s h e =
    (y, refl, ground (arith, h.0.0, e), ground (arith, h.0.1, e))
AllLater-get (x ∷ ss) (y ∷ ts) (suc i) s h e = AllLater-get ss ts i s h.1 e

pub spent-Later :
    (ss ts : List Slot) (token : ℕ) → AllLater ss ts → spent ss token ≡ true → spent ts token ≡ true
unfolding spent
spent-Later ss ts token later h = elim (Option-cases (decode_handle token)) [
  | inl e ↦ absurd (ground (arith, h, e))
  | inr ((i, g), e) ↦ elim (Option-cases (get_elem? ss i)) [
    | inl q ↦ absurd (ground (arith, h, e, q))
    | inr (s, q) ↦
        let (t, r, up, kept) = AllLater-get ss ts i s later q in
        ground (arith, h, e, q, r, up, kept)
  ]
]

advance-Later : (s : Slot) → Later s (advance_generation (vacated s))
unfolding advance_generation
advance-Later s = ground arith

claim-AllLater :
    (db i : ℕ) (slots : List Slot) (j g : ℕ) (after : List Slot)
    → claim db i slots ≡ some (j, g, after)
    → AllLater slots after
unfolding claim
claim-AllLater db i [] j g after h = absurd (ground (arith, h))
claim-AllLater db i (s ∷ ss) j g after h =
    elim (Bool-cases (not (is_some s.database) && not s.retired)) [
      | inl free ↦
          let e : record s { database = some db } ∷ ss ≡ after = ground (arith, h, free) in
          subst (AllLater (s ∷ ss)) e ((omega arith, λ r. r), AllLater-refl ss)
      | inr taken ↦ elim (Option-cases (claim db (suc i) ss)) [
        | inl e ↦ absurd (ground (arith, h, taken, e))
        | inr ((j', g', after'), e) ↦
            let q : s ∷ after' ≡ after = ground (arith, h, taken, e) in
            subst (AllLater (s ∷ ss)) q
              ((omega arith, λ r. r), claim-AllLater db (suc i) ss j' g' after' e)
      ]
    ]

shut_slot-Later : (s : Slot) → Later s (shut_slot s)
unfolding shut_slot advance_generation
shut_slot-Later s = elim (Option-cases s.database) [
  | inl e ↦ ground (arith, e)
  | inr (db, e) ↦ ground (arith, e)
]

shut-AllLater : (slots : List Slot) (t : Table) → AllLater slots (shut_slots slots t).0
unfolding shut_slots
shut-AllLater [] t = tt
shut-AllLater (s ∷ ss) t = (shut_slot-Later s, shut-AllLater ss _)

close-AllLater : (token : Option ℕ) (t : Table) → AllLater t.slots (close token t).1.slots
close-AllLater token t = elim (close-outcome token t) [
  | inl (_, e) ↦ subst (AllLater t.slots) (sym e) (AllLater-refl t.slots)
  | inr (n, i, slot, _, h, e) ↦
      subst (AllLater t.slots) (sym e)
        (AllLater-set t.slots i slot _ ((lookup-some t.slots n i slot h).1) (advance-Later slot))
]

open_staged-AllLater :
    (outcome : AllocOutcome) (dummy : Bool) (esdb_open : Bytes → Result ℕ) (t : Table)
    → AllLater t.slots (open_staged outcome dummy esdb_open t).1.slots
open_staged-AllLater outcome dummy esdb_open t =
    elim (open_staged-outcome outcome dummy esdb_open t) [
      | inl (_, e) ↦ subst (AllLater t.slots) (sym e) (AllLater-refl t.slots)
      | inr (db, i, g, slots, _, q, _, e) ↦
          subst (AllLater t.slots) (sym e) (claim-AllLater db 0 t.slots i g slots q)
    ]

pub stage-slots :
    (outcome : AllocOutcome) (path : Option Bytes) (t : Table)
    → (stage outcome path t).1.slots ≡ t.slots
unfolding stage
stage-slots outcome none t = refl
stage-slots outcome (some []) t = refl
stage-slots granted (some (b ∷ path)) t = refl
stage-slots bad_alloc (some (b ∷ path)) t = refl
stage-slots thrown (some (b ∷ path)) t = refl

-- The calls that change the table.
pub data Event : Type 0 where
  stages : AllocOutcome → Option Bytes → Event
  opens : AllocOutcome → Bool → (Bytes → Result ℕ) → Event
  closes : Option ℕ → Event
  terminates : Event

unfoldable pub handle : Table → Event → Table
handle t (stages outcome path) = (stage outcome path t).1
handle t (opens outcome dummy esdb_open) = (open_staged outcome dummy esdb_open t).1
handle t (closes token) = (close token t).1
handle t terminates = terminate t

unfoldable pub handle_all : Table → List Event → Table
handle_all t [] = t
handle_all t (e ∷ es) = handle_all (handle t e) es

handle-AllLater : (t : Table) (e : Event) → AllLater t.slots (handle t e).slots
unfolding handle
handle-AllLater t (stages outcome path) =
    subst (AllLater t.slots) (sym (stage-slots outcome path t)) (AllLater-refl t.slots)
handle-AllLater t (opens outcome dummy esdb_open) = open_staged-AllLater outcome dummy esdb_open t
handle-AllLater t (closes token) = close-AllLater token t
handle-AllLater t terminates = unfold terminate in shut-AllLater t.slots t

-- A spent token stays spent.
pub handle_all-spent :
    (t : Table) (es : List Event) (token : ℕ)
    → spent t.slots token ≡ true
    → spent (handle_all t es).slots token ≡ true
unfolding handle_all
handle_all-spent t [] token h = h
handle_all-spent t (e ∷ es) token h =
    handle_all-spent (handle t e) es token (spent-Later t.slots _ token (handle-AllLater t e) h)

pub close-spent :
    (token : ℕ) (t : Table)
    → (close (some token) t).0 ≡ true
    → spent (close (some token) t).1.slots token ≡ true
unfolding spent advance_generation
close-spent token t h = elim (close-outcome (some token) t) [
  | inl (failed, _) ↦ absurd (ground (arith, h, failed))
  | inr (n, i, slot, same, found, e) ↦
      let q : token ≡ n = ground (arith, same) in
      let (d, g, _, _) = lookup-some t.slots n i slot found in
      let w : get_elem? (set t.slots i (advance_generation (vacated slot))) i
          ≡ some (advance_generation (vacated slot)) =
        set-get_elem? t.slots i slot _ g in
      ground (arith, q, d, e, w)
]

-- A token that was closed never names a database again, whatever is staged, opened, closed or
-- terminated later: the generation of its slot is not used twice.
pub closed_lookup :
    (token : ℕ) (t : Table) (es : List Event)
    → (close (some token) t).0 ≡ true
    → lookup_slot (handle_all (close (some token) t).1 es).slots token ≡ none
closed_lookup token t es h =
    spent-lookup _ token (handle_all-spent _ es token (close-spent token t h))
