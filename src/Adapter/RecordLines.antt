-- ===== src/Adapter/RecordLines.antt =====
-- The lines of records in adapters/externalobject/esdb_externalobject.cpp are sent whole or the reply
-- fails.
use esdb.Prelude.{
  ℕ, ◌+◌, ◌≡◌, Bool, true, false, Option, none, some, List, [], ◌∷◌, ◌++◌, refl, ◌⊎◌, inl, inr, sym,
  ap, ◌∙◌, append-nil, append_assoc, Option-cases, subst,
}
use esdb.Bytes.{Bytes, CString}
use esdb.Errors.{AllocPlan, AllocOutcome, granted, bad_alloc, thrown, attempt, Status}
use esdb.Value.{Value}
use esdb.Adapter.Wire.{FloatText}
use esdb.Adapter.ResultWire.{cell}
use esdb.Adapter.RecordWire.{
  RecordWireContext, append_pieces, after_pieces, append_cell, record_pieces, append_record_wire,
}

abbrev joined_pieces : List Bytes → Bytes
joined_pieces [] = []
joined_pieces (piece ∷ pieces) = piece ++ joined_pieces pieces

-- An exception, or the whole text.
abbrev Pieces : Bytes → Bytes × Bool → Type 0
Pieces whole r = ((body : Bytes) × (r ≡ (body, true))) ⊎ (r ≡ (whole, false))

attempt-Pieces :
    (o : AllocOutcome) (body whole : Bytes) (r : Bytes × Bool)
    → Pieces whole r
    → Pieces whole (attempt o (λ (st : Status). (body, true)) r)
attempt-Pieces granted body whole r h = h
attempt-Pieces bad_alloc body whole r h = inl (body, refl)
attempt-Pieces thrown body whole r h = inl (body, refl)

append_pieces-outcome :
    (plan : AllocPlan) (n : ℕ) (pieces : List Bytes) (body : Bytes)
    → Pieces (body ++ joined_pieces pieces) (append_pieces plan n pieces body)
unfolding append_pieces
append_pieces-outcome plan n [] body = inr (ap (λ b. (b, false)) (sym (append-nil body)))
append_pieces-outcome plan n (piece ∷ pieces) body =
    attempt-Pieces (plan n) body (body ++ (piece ++ joined_pieces pieces))
      (append_pieces plan (n + 1) pieces (body ++ piece))
      (subst (λ whole. Pieces whole (append_pieces plan (n + 1) pieces (body ++ piece)))
        (append_assoc body piece (joined_pieces pieces))
        (append_pieces-outcome plan (n + 1) pieces (body ++ piece)))

-- The callback stops the scan and counts no record: the reply is marked as failed, or an argument was
-- a null pointer and the reply is untouched.
abbrev pub Stopped : RecordWireContext → ℕ × RecordWireContext → Type 0
Stopped c r = (r.0 ≡ 1) × (r.1.count ≡ c.count) × ((r.1.failed ≡ true) ⊎ (r.1 ≡ c))

-- The callback adds one line with the revision, the key in hexadecimal and the text of the value.
pub Added :
    FloatText → ℕ → CString → Option Value → RecordWireContext → ℕ × RecordWireContext → Type 0
Added io revision none value c r = ⊥
Added io revision (some key) value c r =
    (text : Bytes) × (cell io value ≡ some text)
    × (r ≡ (
      0,
      record c {
        body = c.body ++ joined_pieces (record_pieces revision key text);
        count = c.count + 1;
      },
    ))

after_pieces-outcome :
    (c : RecordWireContext) (plan : AllocPlan) (pieces : List Bytes)
    → Stopped c (after_pieces c 1 (append_pieces plan 1 pieces c.body))
      ⊎ (after_pieces c 1 (append_pieces plan 1 pieces c.body)
          ≡ (0, record c { body = c.body ++ joined_pieces pieces; count = c.count + 1 }))
unfolding after_pieces
after_pieces-outcome c plan pieces = elim (append_pieces-outcome plan 1 pieces c.body) [
  | inl (body, e) ↦ rw e (inl (refl, refl, inl refl))
  | inr e ↦ rw e (inr refl)
]

append_cell-outcome :
    (io : FloatText) (plan : AllocPlan) (revision : ℕ) (key : Bytes) (value : Option Value)
    (c : RecordWireContext)
    → Stopped c (append_cell plan revision key (cell io value) c)
      ⊎ Added io revision (some key) value c (append_cell plan revision key (cell io value) c)
unfolding append_cell Added
append_cell-outcome io plan revision key value c = elim (Option-cases (cell io value)) [
  | inl e ↦ rw e (inl (refl, refl, inl refl))
  | inr (text, e) ↦ elim (after_pieces-outcome c plan (record_pieces revision key text)) [
    | inl stopped ↦ inl (subst (λ t. Stopped c (append_cell plan revision key t c)) (sym e) stopped)
    | inr added ↦ inr (text, e, ap (λ t. append_cell plan revision key t c) e ∙ added)
  ]
]

-- Whichever allocation fails, the callback either stops the scan and counts no record, or goes on with
-- the whole line of the record added and counted.
pub append_record_wire-outcome :
    (io : FloatText) (plan : AllocPlan) (revision : ℕ) (key : CString) (value : Option Value)
    (c : RecordWireContext)
    → Stopped c (append_record_wire io plan revision key value c)
      ⊎ Added io revision key value c (append_record_wire io plan revision key value c)
unfolding append_record_wire
append_record_wire-outcome io plan revision none value c = inl (refl, refl, inr refl)
append_record_wire-outcome io plan revision (some key) none c = inl (refl, refl, inr refl)
append_record_wire-outcome io plan revision (some key) (some value) c = with_first (plan 0)
  where
    read : AllocOutcome → ℕ × RecordWireContext
    read o =
        attempt o (λ st. (1, record c { failed = true }))
          (append_cell plan revision key (cell io (some value)) c)

    with_first :
        (o : AllocOutcome)
        → Stopped c (read o) ⊎ Added io revision (some key) (some value) c (read o)
    with_first granted = append_cell-outcome io plan revision key (some value) c
    with_first bad_alloc = inl (refl, refl, inl refl)
    with_first thrown = inl (refl, refl, inl refl)
