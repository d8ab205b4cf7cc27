-- ===== src/Adapter/Ownership.antt =====
-- The adapter of adapters/externalobject/esdb_externalobject.cpp owns each database that it opens:
-- a slot holds it, or it has been closed.
use esdb.Prelude.{
  ℕ, zero, suc, ◌+◌, ◌≡◌, refl, arith, true, false, Option, none, some, List, [], ◌∷◌, ◌==◌,
  if◌then◌else◌, get_elem?, set, ap, Option-cases, Bool-cases, inl, inr,
}
use esdb.Errors.{got, refused, granted, bad_alloc, thrown}
use esdb.Adapter.Handles.{
  Slot, lookup_slot, advance_generation, vacated, claim, shut_slots, shut_slot, Table, stage,
  open_staged, close, terminate, log, not_positive, settle, is_empty,
}
use esdb.Adapter.Tokens.{lookup-some}
use esdb.Adapter.Outcomes.{Result-cases}
use esdb.Adapter.Stale.{Event, handle, stages, opens, closes, terminates}
use esdb.Adapter.WellFormed.{claim-some}

abbrev pub occurs : ℕ → Option ℕ → ℕ
occurs x none = 0
occurs x (some y) = if x == y then 1 else 0

-- The slots that hold a database.
abbrev pub held : ℕ → List Slot → ℕ
held x [] = 0
held x (s ∷ ss) = occurs x s.database + held x ss

-- The times that a database was closed.
abbrev pub times : ℕ → List ℕ → ℕ
times x [] = 0
times x (y ∷ ys) = occurs x (some y) + times x ys

abbrev pub accounted : ℕ → Table → ℕ
accounted x t = held x t.slots + times x t.closed

-- The times that a call makes `esdb_open` return a database.
abbrev pub opened : ℕ → Table → Event → ℕ
opened x t (opens granted true esdb_open) =
    if is_empty t.staged_path
    then 0
    else elim (esdb_open t.staged_path) [ refused status ↦ 0 | got db ↦ occurs x (some db) ]
opened x t _ = 0

held-set :
    (x : ℕ) (slots : List Slot) (i : ℕ) (s t : Slot)
    → get_elem? slots i ≡ some s
    → held x (set slots i t) + occurs x s.database ≡ held x slots + occurs x t.database
held-set x [] i s t h = absurd (ground (arith, h))
held-set x (y ∷ ys) zero s t h =
    let e : occurs x y.database ≡ occurs x s.database = ground (arith, h) in omega arith
held-set x (y ∷ ys) (suc i) s t h = omega (arith, held-set x ys i s t h)

times-log : (x : ℕ) (o : Option ℕ) (ys : List ℕ) → times x (log o ys) ≡ occurs x o + times x ys
unfolding log
times-log x none ys = omega arith
times-log x (some y) ys = refl

settle-accounted :
    (x db : ℕ) (t : Table) → accounted x (settle db t).1 ≡ occurs x (some db) + accounted x t
unfolding settle
settle-accounted x db t = elim (Option-cases (claim db 0 t.slots)) [
  | inl q ↦ rw (settle, q) (omega arith)
  | inr ((i, g, slots), q) ↦
      let (k, s, _, at, _, _, d, made) = claim-some db 0 t.slots i g slots q in
      let e : occurs x s.database ≡ 0 = rw d refl in
      let after : held x (set t.slots k (record s { database = some db })) ≡ held x slots =
        ap (held x) made in
      let moved = held-set x t.slots k s (record s { database = some db }) at in
      rw (settle, q) (omega (arith, moved, after, e))
]

close-accounted :
    (x : ℕ) (token : Option ℕ) (t : Table) → accounted x (close token t).1 ≡ accounted x t
unfolding close
close-accounted x none t = refl
close-accounted x (some n) t = elim (Bool-cases (not_positive n)) [
  | inl p ↦ rw p refl
  | inr p ↦ elim (Option-cases (lookup_slot t.slots n)) [
    | inl e ↦ rw (p, e) refl
    | inr ((i, slot), e) ↦
        let (_, at, _, _) = lookup-some t.slots n i slot e in
        let moved = held-set x t.slots i slot (advance_generation (vacated slot)) at in
        let gone : occurs x (advance_generation (vacated slot)).database ≡ 0 =
          unfold advance_generation in ground arith in
        rw (p, e) (omega (arith, moved, gone, times-log x slot.database t.closed))
  ]
]

shut_slot-database : (s : Slot) → (shut_slot s).database ≡ none
unfolding shut_slot advance_generation
shut_slot-database s = ground arith

shut_slots-accounted :
    (x : ℕ) (slots : List Slot) (t : Table)
    → held x (shut_slots slots t).0 + times x (shut_slots slots t).1.closed
      ≡ held x slots + times x t.closed
unfolding shut_slots
shut_slots-accounted x [] t = refl
shut_slots-accounted x (s ∷ ss) t =
    let logged = record t {
      closed = log s.database t.closed;
      destroyed = log s.transaction t.destroyed;
    } in
    let e : occurs x (shut_slot s).database ≡ 0 = rw (shut_slot-database s) refl in
    omega (arith, e, shut_slots-accounted x ss logged, times-log x s.database t.closed)

-- Every database that `esdb_open` returns is held by a slot or is closed, and never both or twice:
-- a call adds to what is accounted for just what it has opened.
pub handle-accounted :
    (x : ℕ) (t : Table) (e : Event) → accounted x (handle t e) ≡ opened x t e + accounted x t
unfolding handle open_staged
handle-accounted x t (stages outcome none) = unfold stage in omega arith
handle-accounted x t (stages outcome (some [])) = unfold stage in omega arith
handle-accounted x t (stages granted (some (b ∷ path))) = unfold stage in omega arith
handle-accounted x t (stages bad_alloc (some (b ∷ path))) = unfold stage in omega arith
handle-accounted x t (stages thrown (some (b ∷ path))) = unfold stage in omega arith
handle-accounted x t (opens granted false esdb_open) = omega arith
handle-accounted x t (opens bad_alloc false esdb_open) = omega arith
handle-accounted x t (opens thrown false esdb_open) = omega arith
handle-accounted x t (opens bad_alloc true esdb_open) = elim (Bool-cases (is_empty t.staged_path)) [
  | inl e ↦ rw (handle, open_staged, e) (omega arith)
  | inr e ↦ rw (handle, open_staged, e) (omega arith)
]
handle-accounted x t (opens thrown true esdb_open) = elim (Bool-cases (is_empty t.staged_path)) [
  | inl e ↦ rw (handle, open_staged, e) (omega arith)
  | inr e ↦ rw (handle, open_staged, e) (omega arith)
]
handle-accounted x t (opens granted true esdb_open) = elim (Bool-cases (is_empty t.staged_path)) [
  | inl e ↦ rw (handle, open_staged, e) (omega arith)
  | inr e ↦ elim (Result-cases (esdb_open t.staged_path)) [
    | inl (st, q) ↦ rw (handle, open_staged, e, q) (omega arith)
    | inr (db, q) ↦ rw (handle, open_staged, e, q) (settle-accounted x db t)
  ]
]
handle-accounted x t (closes token) = omega (arith, close-accounted x token t)
handle-accounted x t terminates =
    unfold terminate in omega (arith, shut_slots-accounted x t.slots t)
