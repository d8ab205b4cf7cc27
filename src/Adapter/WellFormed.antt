-- ===== src/Adapter/WellFormed.antt =====
-- The handle table of adapters/externalobject/esdb_externalobject.cpp stays well formed: 255 slots,
-- generations in their domain, and no database in a retired slot.
use esdb.Prelude.{
  ℕ, zero, suc, ◌+◌, ◌≤◌, ◌<◌, ◌≡◌, refl, arith, Bool, true, false, not, ◌&&◌, Option, none, some,
  List, [], ◌∷◌, get_elem?, set, length, ◌∙◌, sym, ap, subst, Option-cases, Bool-cases, inl, inr,
  All, length-set,
}
use esdb.Bytes.{Bytes}
use esdb.Errors.{Result, AllocOutcome}
use esdb.Adapter.Handles.{
  Slot, generation_max, slot_count, advance_generation, vacated, claim, is_some, shut_slots,
  shut_slot, Table, initial_slots, open_staged, close, terminate, log,
}
use esdb.Adapter.Tokens.{lookup-some}
use esdb.Adapter.Outcomes.{close-outcome, open_staged-outcome}
use esdb.Adapter.Stale.{Event, handle, handle_all, stages, opens, closes, terminates, stage-slots}

abbrev pub IsGood : Slot → Type 0
IsGood s =
    (1 ≤ s.generation) × (s.generation ≤ generation_max) × (s.retired ≡ true → s.database ≡ none)

abbrev pub IsGoodTable : List Slot → Type 0
IsGoodTable slots = (length slots ≡ slot_count) × All IsGood slots

initial_slots-IsGood : (n : ℕ) → (length (initial_slots n) ≡ n) × All IsGood (initial_slots n)
unfolding initial_slots
initial_slots-IsGood zero = (refl, tt)
initial_slots-IsGood (suc n) =
    let (len, good) = initial_slots-IsGood n in
    (ap suc len, ((omega arith, omega arith, λ r. absurd (ground (arith, r))), good))

All-set :
    (slots : List Slot) (i : ℕ) (s : Slot)
    → All IsGood slots
    → IsGood s
    → All IsGood (set slots i s)
All-set [] i s a g = tt
All-set (x ∷ xs) zero s a g = (g, a.1)
All-set (x ∷ xs) (suc i) s a g = (a.0, All-set xs i s a.1 g)

pub All-get :
    (slots : List Slot) (i : ℕ) (s : Slot)
    → All IsGood slots
    → get_elem? slots i ≡ some s
    → IsGood s
All-get [] i s a h = absurd (ground (arith, h))
All-get (x ∷ xs) zero s a h =
    (ground (arith, h, a.0.0), ground (arith, h, a.0.1), ground (arith, h, a.0.2))
All-get (x ∷ xs) (suc i) s a h = All-get xs i s a.1 h

advance-IsGood : (s : Slot) → IsGood s → IsGood (advance_generation (vacated s))
unfolding advance_generation
advance-IsGood s g = ground (arith, g.0, g.1, g.2)

pub get_elem?-bound :
    (slots : List Slot) (i : ℕ) (s : Slot) → get_elem? slots i ≡ some s → i < length slots
get_elem?-bound [] i s h = absurd (ground (arith, h))
get_elem?-bound (x ∷ xs) zero s h = omega arith
get_elem?-bound (x ∷ xs) (suc i) s h = omega (arith, get_elem?-bound xs i s h)

-- The database goes to a free slot, and no other slot changes.
pub claim-some :
    (db i : ℕ) (slots : List Slot) (j g : ℕ) (after : List Slot)
    → claim db i slots ≡ some (j, g, after)
    → (k : ℕ) × (s : Slot) × (j ≡ i + k)
      × (get_elem? slots k ≡ some s)
      × (s.generation ≡ g)
      × (s.retired ≡ false)
      × (s.database ≡ none)
      × (set slots k (record s { database = some db }) ≡ after)
unfolding claim
claim-some db i [] j g after h = absurd (ground (arith, h))
claim-some db i (s ∷ ss) j g after h =
    elim (Bool-cases (not (is_some s.database) && not s.retired)) [
      | inl free ↦
          let none_there : s.database ≡ none = elim (Option-cases s.database) [
            | inl e ↦ e
            | inr (a, e) ↦ ground (arith, e, free)
          ] in
          (
            0,
            s,
            ground (arith, h, free),
            refl,
            ground (arith, h, free),
            ground (arith, free),
            none_there,
            ground (arith, h, free),
          )
      | inr taken ↦ elim (Option-cases (claim db (suc i) ss)) [
        | inl e ↦ absurd (ground (arith, h, taken, e))
        | inr ((j', g', after'), e) ↦
            let (k, t, jk, gt, gg, r, d, q) = claim-some db (suc i) ss j' g' after' e in
            let p : s ∷ after' ≡ after = ground (arith, h, taken, e) in
            (
              suc k,
              t,
              ground (arith, jk, h, taken, e),
              gt,
              ground (arith, gg, h, taken, e),
              r,
              d,
              ap (λ l. s ∷ l) q ∙ p,
            )
      ]
    ]

pub claim-IsGood :
    (db : ℕ) (slots : List Slot) (j g : ℕ) (after : List Slot)
    → claim db 0 slots ≡ some (j, g, after)
    → IsGoodTable slots
    → IsGoodTable after
claim-IsGood db slots j g after h (len, good) =
    let (k, s, _, at, _, r, _, e) = claim-some db 0 slots j g after h in
    let now = record s { database = some db } in
    let (low, high, _) = All-get slots k s good at in
    let g : IsGood now = (low, high, λ y. absurd (ground (arith, r, y))) in
    subst IsGoodTable e (length-set slots k now ∙ len, All-set slots k now good g)

close-IsGood :
    (token : Option ℕ) (t : Table) → IsGoodTable t.slots → IsGoodTable (close token t).1.slots
close-IsGood token t (len, good) = elim (close-outcome token t) [
  | inl (_, e) ↦ subst IsGoodTable (sym e) (len, good)
  | inr (n, i, slot, _, found, e) ↦
      let at = (lookup-some t.slots n i slot found).1 in
      subst IsGoodTable (sym e) (
        length-set t.slots i _ ∙ len,
        All-set t.slots i _ good (advance-IsGood slot (All-get t.slots i slot good at)),
      )
]

open_staged-IsGood :
    (outcome : AllocOutcome) (dummy : Bool) (esdb_open : Bytes → Result ℕ) (t : Table)
    → IsGoodTable t.slots
    → IsGoodTable (open_staged outcome dummy esdb_open t).1.slots
open_staged-IsGood outcome dummy esdb_open t good =
    elim (open_staged-outcome outcome dummy esdb_open t) [
      | inl (_, e) ↦ subst IsGoodTable (sym e) good
      | inr (db, i, g, slots, _, q, _, e) ↦
          subst IsGoodTable (sym e) (claim-IsGood db t.slots i g slots q good)
    ]

shut_slots-IsGood :
    (slots : List Slot) (t : Table)
    → All IsGood slots
    → (length (shut_slots slots t).0 ≡ length slots) × All IsGood (shut_slots slots t).0
unfolding shut_slots shut_slot
shut_slots-IsGood [] t a = (refl, tt)
shut_slots-IsGood (s ∷ ss) t a =
    let rest =
      shut_slots-IsGood ss
        (record t { closed = log s.database t.closed; destroyed = log s.transaction t.destroyed })
        a.1 in
    let g : IsGood (shut_slot s) = elim (Option-cases s.database) [
      | inl e ↦ ground (arith, e, a.0.0, a.0.1)
      | inr (db, e) ↦ ground (arith, e, advance-IsGood s a.0)
    ] in
    (ap suc rest.0, (g, rest.1))

handle-IsGood : (t : Table) (e : Event) → IsGoodTable t.slots → IsGoodTable (handle t e).slots
unfolding handle
handle-IsGood t (stages outcome path) good =
    subst IsGoodTable (sym (stage-slots outcome path t)) good
handle-IsGood t (opens outcome dummy esdb_open) good =
    open_staged-IsGood outcome dummy esdb_open t good
handle-IsGood t (closes token) good = close-IsGood token t good
handle-IsGood t terminates (len, good) =
    let shut = shut_slots-IsGood t.slots t good in unfold terminate in (shut.0 ∙ len, shut.1)

-- A table made of fresh slots is well formed after any sequence of calls.
pub handle_all-IsGood :
    (t : Table) (es : List Event) → IsGoodTable t.slots → IsGoodTable (handle_all t es).slots
unfolding handle_all
handle_all-IsGood t [] good = good
handle_all-IsGood t (e ∷ es) good = handle_all-IsGood (handle t e) es (handle-IsGood t e good)

pub initial-IsGood : IsGoodTable (initial_slots slot_count)
initial-IsGood = initial_slots-IsGood slot_count
