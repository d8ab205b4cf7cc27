-- ===== src/Adapter/ResultBounds.antt =====
-- The reply of `querySql` in adapters/externalobject/esdb_externalobject.cpp keeps its limits.
use esdb.Prelude.{
  ℕ, ◌+◌, ◌≤◌, ◌<◌, ◌≡◌, refl, arith, true, false, not, ◌&&◌, Option, none, some, List, [], ◌∷◌,
  ◌++◌, ltb, leb, ◌==◌, length, Bool-cases, Option-cases, inl, inr, ◌∙◌, sym, some-injective, subst,
  length-append, if-cases,
}
use esdb.Bytes.{Bytes, CString}
use esdb.Errors.{Status, AllocPlan, AllocOutcome, attempt, granted, bad_alloc, thrown}
use esdb.Value.{Value}
use esdb.Adapter.Wire.{FloatText}
use esdb.Adapter.ResultWire.{
  QueryWireContext, names_within, set_query_column_names, encode_names, encode_cells, add_row,
  append_cells, finish_row, append_named, failing, with_names, append_query_row_wire, started,
  names_or_failed, is_null, prime_query_column_names, primed,
}

-- The names and rows leave room for the header, there is no row before the names, and no more rows
-- than were asked for.
unfoldable pub IsWithin : ℕ → QueryWireContext → Type 0
IsWithin max_rows c =
    (c.max_rows ≡ max_rows)
    × (c.returned_rows ≤ max_rows)
    × (length c.names + length c.rows + 128 ≤ 16777216)
    × (c.names_ready ≡ false → (length c.names ≡ 0) × (length c.rows ≡ 0))

add_row-IsWithin :
    (max_rows : ℕ) (row : Bytes) (c : QueryWireContext)
    → IsWithin max_rows c
    → c.returned_rows < max_rows
    → c.names_ready ≡ true
    → IsWithin max_rows (add_row row c).1
unfolding add_row IsWithin
add_row-IsWithin max_rows row c (same, few, short, before) room ready =
    elim (Bool-cases (ltb 16777216 (length c.names + length c.rows + length row + 128))) [
      | inl e ↦ rw e (same, few, short, before)
      | inr e ↦
          let size = length-append c.rows row in
          let fits : length c.names + (length c.rows + length row) + 128 ≤ 16777216 =
            ground (arith, e) in
          rw (e, size) (same, omega arith, fits, λ q. absurd (cc (sym ready ∙ q)))
    ]

failing-IsWithin :
    (max_rows : ℕ) (c : QueryWireContext) → IsWithin max_rows c → IsWithin max_rows (failing c).1
unfolding IsWithin
failing-IsWithin max_rows c h = h

attempt-IsWithin :
    (max_rows : ℕ) (o : AllocOutcome) (c : QueryWireContext) (r : ℕ × QueryWireContext)
    → IsWithin max_rows c
    → IsWithin max_rows r.1
    → IsWithin max_rows (attempt o (λ (st : Status). failing c) r).1
unfolding IsWithin
attempt-IsWithin max_rows granted c r h k = k
attempt-IsWithin max_rows bad_alloc c r h k = h
attempt-IsWithin max_rows thrown c r h k = h

finish_row-IsWithin :
    (max_rows : ℕ) (text : Option Bytes) (c : QueryWireContext)
    → IsWithin max_rows c
    → c.returned_rows < max_rows
    → c.names_ready ≡ true
    → IsWithin max_rows (finish_row text c).1
unfolding finish_row IsWithin
finish_row-IsWithin max_rows none c h room ready = h
finish_row-IsWithin max_rows (some text) c h room ready =
    add_row-IsWithin max_rows (82 ∷ 58 ∷ text ++ 10 ∷ []) c h room ready

append_cells-IsWithin :
    (io : FloatText) (outcome : AllocOutcome) (values : List (Option Value)) (max_rows : ℕ)
    (c : QueryWireContext)
    → IsWithin max_rows c
    → c.names_ready ≡ true
    → IsWithin max_rows (append_cells io outcome values c).1
unfolding append_cells IsWithin
append_cells-IsWithin io outcome values max_rows c h ready =
    elim (Bool-cases (leb c.max_rows c.returned_rows)) [
      | inl e ↦ rw e h
      | inr e ↦
          let same = h.0 in
          let room : c.returned_rows < max_rows = ground (arith, e, same) in
          rw e (
            attempt-IsWithin max_rows outcome c (finish_row (encode_cells io true values) c) h
              (finish_row-IsWithin max_rows (encode_cells io true values) c h room ready))
    ]

names_within-IsWithin :
    (max_rows count : ℕ) (names : Bytes) (c named : QueryWireContext)
    → IsWithin max_rows c
    → c.names_ready ≡ false
    → names_within count names c ≡ some named
    → IsWithin max_rows named × (named.names_ready ≡ true)
unfolding names_within IsWithin
names_within-IsWithin max_rows count names c named (same, few, short, before) unready h =
    elim (Bool-cases (ltb 16777216 (length names + 128))) [
      | inl e ↦ absurd (cc (rw e at h))
      | inr e ↦
          let empty = (before unready).1 in
          let fits : length names + length c.rows + 128 ≤ 16777216 = ground (arith, e, empty) in
          let made =
            some-injective (record c { column_count = count; names = names; names_ready = true })
              named (rw e at h) in
          subst (λ n. IsWithin max_rows n × (n.names_ready ≡ true)) made
            ((same, few, fits, λ q. absurd (cc q)), refl)
    ]

set_query_column_names-IsWithin :
    (max_rows count : ℕ) (names : Option (List CString)) (c named : QueryWireContext)
    → IsWithin max_rows c
    → c.names_ready ≡ false
    → set_query_column_names names count c ≡ some named
    → IsWithin max_rows named × (named.names_ready ≡ true)
unfolding set_query_column_names
set_query_column_names-IsWithin max_rows count none c named h unready e =
    elim (Bool-cases (count == 0)) [
      | inl q ↦ names_within-IsWithin max_rows 0 (78 ∷ 58 ∷ 10 ∷ []) c named h unready (rw q at e)
      | inr q ↦ absurd (cc (rw q at e))
    ]
set_query_column_names-IsWithin max_rows count (some names) c named h unready e =
    elim (Option-cases (encode_names true names)) [
      | inl q ↦ absurd (cc (rw (set_query_column_names, q) at e))
      | inr (text, q) ↦
          names_within-IsWithin max_rows count (78 ∷ 58 ∷ text ++ 10 ∷ []) c named h unready
            (rw (set_query_column_names, q) at e)
    ]

append_named-IsWithin :
    (io : FloatText) (outcome : AllocOutcome) (values : List (Option Value)) (max_rows count : ℕ)
    (names : Option (List CString)) (c : QueryWireContext)
    → IsWithin max_rows c
    → c.names_ready ≡ false
    → IsWithin max_rows (append_named io outcome values c (set_query_column_names names count c)).1
unfolding append_named IsWithin
append_named-IsWithin io outcome values max_rows count names c h unready =
    elim (Option-cases (set_query_column_names names count c)) [
      | inl e ↦ rw e h
      | inr (named, e) ↦
          let set = set_query_column_names-IsWithin max_rows count names c named h unready e in
          rw e (append_cells-IsWithin io outcome values max_rows named set.0 set.1)
    ]

with_names-IsWithin :
    (io : FloatText) (plan : AllocPlan) (names : Option (List CString))
    (values : List (Option Value)) (max_rows : ℕ) (c : QueryWireContext)
    → IsWithin max_rows c
    → IsWithin max_rows (with_names io plan names values c).1
unfolding with_names
with_names-IsWithin io plan names values max_rows c h =
    let Kept : ℕ × QueryWireContext → Type 0 = λ r. IsWithin max_rows r.1 in
    let named = set_query_column_names names (length values) c in
    if-cases Kept c.names_ready _ _
      (λ ready.
        if-cases Kept (c.column_count == length values) _ _
          (λ e. append_cells-IsWithin io (plan 1) values max_rows c h ready)
          (λ e. failing-IsWithin max_rows c h))
      (λ unready.
        attempt-IsWithin max_rows (plan 0) c (append_named io (plan 1) values c named) h
          (append_named-IsWithin io (plan 1) values max_rows (length values) names c h unready))

append_query_row_wire-IsWithin :
    (io : FloatText) (plan : AllocPlan) (names : Option (List CString))
    (values : Option (List (Option Value))) (max_rows : ℕ) (c : QueryWireContext)
    → IsWithin max_rows c
    → IsWithin max_rows (append_query_row_wire io plan names values c).1
unfolding append_query_row_wire
append_query_row_wire-IsWithin io plan names none max_rows c h = h
append_query_row_wire-IsWithin io plan names (some values) max_rows c h =
    elim (Bool-cases (not (length values == 0) && is_null names)) [
      | inl e ↦ rw e h
      | inr e ↦ rw e (with_names-IsWithin io plan names values max_rows c h)
    ]

started-IsWithin : (max_rows : ℕ) → IsWithin max_rows (started max_rows)
unfolding started IsWithin
started-IsWithin max_rows = (refl, omega arith, omega arith, λ q. (refl, refl))

settled-IsWithin :
    (max_rows count : ℕ) (names : Option (List CString))
    → IsWithin max_rows
        (names_or_failed (started max_rows) (set_query_column_names names count (started max_rows)))
unfolding IsWithin started
settled-IsWithin max_rows count names =
    let h = started-IsWithin max_rows in
    elim (Option-cases (set_query_column_names names count (started max_rows))) [
      | inl e ↦ rw e h
      | inr (named, e) ↦
          rw e
            (set_query_column_names-IsWithin max_rows count names (started max_rows) named h refl
              e).0
    ]

pub primed-IsWithin :
    (max_rows : ℕ) (names : Option (List CString))
    → IsWithin max_rows (primed names (started max_rows))
unfolding primed prime_query_column_names
primed-IsWithin max_rows none = started-IsWithin max_rows
primed-IsWithin max_rows (some []) = settled-IsWithin max_rows 0 none
primed-IsWithin max_rows (some (name ∷ names)) =
    settled-IsWithin max_rows (length (name ∷ names)) (some (name ∷ names))

-- A row that `esdb_query` hands to the callback, with the outcomes of its allocations.
pub record QueryRow : Type 0 where
  pub plan : AllocPlan
  pub column_names : Option (List CString)
  pub values : Option (List (Option Value))

-- The callback on one row after another.
unfoldable pub append_all : FloatText → List QueryRow → QueryWireContext → QueryWireContext
append_all io [] c = c
append_all io (row ∷ rows) c =
    append_all io rows (append_query_row_wire io row.plan row.column_names row.values c).1

pub append_all-IsWithin :
    (io : FloatText) (rows : List QueryRow) (max_rows : ℕ) (c : QueryWireContext)
    → IsWithin max_rows c
    → IsWithin max_rows (append_all io rows c)
unfolding append_all
append_all-IsWithin io [] max_rows c h = h
append_all-IsWithin io (row ∷ rows) max_rows c h =
    append_all-IsWithin io rows max_rows
      (append_query_row_wire io row.plan row.column_names row.values c).1
      (append_query_row_wire-IsWithin io row.plan row.column_names row.values max_rows c h)
