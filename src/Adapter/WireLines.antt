-- ===== src/Adapter/WireLines.antt =====
-- The list of parameters that `parse_query_parameter_wire` of
-- adapters/externalobject/esdb_externalobject.cpp reads, line by line.
use esdb.Prelude.{
  ℕ, zero, suc, ◌+◌, ◌/◌, ◌%◌, ◌≤◌, ◌≡◌, refl, arith, Bool, true, false, not, ◌&&◌, some, List, [],
  ◌∷◌, ◌++◌, ltb, ◌==◌, length, Bool-cases, inl, inr, ap, ◌∙◌,
}
use esdb.Bytes.{Bytes}
use esdb.Errors.{AllocPlan}
use esdb.Value.{Value}
use esdb.ObjectStore.RevisionText.{decimal, digits}
use esdb.Adapter.Handles.{is_empty}
use esdb.Adapter.Decimal.{canonical_number, parse_u32_decimal}
use esdb.Adapter.DecimalDigits.{canonical-decimal}
use esdb.Adapter.DecimalRoundTrip.{parse_unsigned_iff, canonical_nil}
use esdb.Adapter.Wire.{FloatText}
use esdb.Adapter.WireParse.{
  split_at, next_line, parse_query_value_wire, parse_lines, parse_header, parse_parameters,
  parse_query_parameter_wire,
}

abbrev pub no_newline : Bytes → Bool
no_newline [] = true
no_newline (c ∷ text) = not (c == 10) && no_newline text

split_at-line :
    (line text : Bytes)
    → no_newline line ≡ true
    → split_at 10 (line ++ 10 ∷ text) ≡ some (line, text)
unfolding split_at
split_at-line [] text h = refl
split_at-line (c ∷ line) text h = elim (Bool-cases (c == 10)) [
  | inl e ↦ absurd (cc (rw e at h))
  | inr e ↦ rw (e, split_at-line line text (rw e at h)) refl
]

next_line-line :
    (line text : Bytes) → no_newline line ≡ true → next_line (line ++ 10 ∷ text) ≡ (line, text)
unfolding next_line
next_line-line line text h = rw (next_line, split_at-line line text h) refl

digits-no_newline :
    (fuel n : ℕ) (after : Bytes) → no_newline after ≡ true → no_newline (digits fuel n after) ≡ true
unfolding digits
digits-no_newline zero n after h = ground (arith, h)
digits-no_newline (suc fuel) n after h = elim (Bool-cases (ltb n 10)) [
  | inl e ↦ rw e (ground (arith, h))
  | inr e ↦ rw e (digits-no_newline fuel (n / 10) ((48 + n % 10) ∷ after) (ground (arith, h)))
]

header-no_newline : (n : ℕ) → no_newline (80 ∷ 49 ∷ 58 ∷ decimal n) ≡ true
unfolding decimal
header-no_newline n = digits-no_newline n n [] refl

parse_header-number :
    (text : Bytes) (n : ℕ)
    → canonical_number text ≡ true
    → parse_u32_decimal text ≡ some n
    → n ≤ 1024
    → parse_header (80 ∷ 49 ∷ 58 ∷ text) ≡ some n
unfolding parse_header
parse_header-number [] n ok e fits = absurd (canonical_nil ok)
parse_header-number (a ∷ text) n ok e fits =
    let within : ltb 1024 n ≡ false = ground arith in rw (parse_header, e, within) refl

parse_header-decimal : (n : ℕ) → n ≤ 1024 → parse_header (80 ∷ 49 ∷ 58 ∷ decimal n) ≡ some n
unfolding parse_u32_decimal
parse_header-decimal n fits =
    parse_header-number (decimal n) n (canonical-decimal n)
      ((parse_unsigned_iff 4294967295 (decimal n) n).1 (refl, omega arith)) fits

-- Lines, each with its end.
abbrev pub joined : List Bytes → Bytes
joined [] = []
joined (line ∷ lines) = line ++ 10 ∷ joined lines

-- The list of parameters with these lines.
abbrev pub parameter_wire : List Bytes → Bytes
parameter_wire lines = (80 ∷ 49 ∷ 58 ∷ decimal (length lines)) ++ 10 ∷ joined lines

module _ (io : FloatText) (plans : ℕ → AllocPlan) where
  -- Each line has no line end in it and is the text form of its value.
  unfoldable pub LinesOf : List Bytes → List Value → Type 0
  LinesOf [] [] = Unit
  LinesOf [] (v ∷ values) = ⊥
  LinesOf (line ∷ lines) [] = ⊥
  LinesOf (line ∷ lines) (v ∷ values) =
      (no_newline line ≡ true)
      × (parse_query_value_wire io (plans (length lines)) line ≡ some v)
      × LinesOf lines values

  parse-is_empty :
      (plan : AllocPlan) (line : Bytes) (v : Value)
      → parse_query_value_wire io plan line ≡ some v
      → is_empty line ≡ false
  unfolding parse_query_value_wire
  parse-is_empty plan [] v h = absurd (cc h)
  parse-is_empty plan (c ∷ line) v h = refl

  parse_lines-joined :
      (lines : List Bytes) (values : List Value)
      → LinesOf lines values
      → parse_lines io plans (length lines) (joined lines) ≡ some (values, [])
  unfolding parse_lines LinesOf
  parse_lines-joined [] [] h = refl
  parse_lines-joined [] (v ∷ values) h = absurd h
  parse_lines-joined (line ∷ lines) [] h = absurd h
  parse_lines-joined (line ∷ lines) (v ∷ values) h =
      let kept = parse-is_empty (plans (length lines)) line v h.1 in
      rw
        (
          parse_lines,
          next_line-line line (joined lines) h.0,
          kept,
          h.1,
          parse_lines-joined lines values h.2,
        )
        refl

  parse_parameters-split :
      (wire header rest : Bytes) (count : ℕ) (values : List Value)
      → next_line wire ≡ (header, rest)
      → parse_header header ≡ some count
      → parse_lines io plans count rest ≡ some (values, [])
      → parse_parameters io plans wire ≡ some values
  unfolding parse_parameters
  parse_parameters-split wire header rest count values e p q =
      let named = ap (λ (r : Bytes × Bytes). parse_header r.0) e ∙ p in
      let listed = ap (λ (r : Bytes × Bytes). parse_lines io plans count r.1) e ∙ q in
      rw (parse_parameters, named, listed) refl

  -- At most 1024 parameters in at most 8 MiB are read whole and in order.
  pub parse_query_parameter_wire-lines :
      (lines : List Bytes) (values : List Value)
      → LinesOf lines values
      → length lines ≤ 1024
      → length (parameter_wire lines) ≤ 8388608
      → parse_query_parameter_wire io plans (some (parameter_wire lines)) ≡ some values
  unfolding parse_query_parameter_wire
  parse_query_parameter_wire-lines lines values h few short =
      let within : ltb 8388608 (length (parameter_wire lines)) ≡ false = ground arith in
      let first =
        next_line-line (80 ∷ 49 ∷ 58 ∷ decimal (length lines)) (joined lines)
          (header-no_newline (length lines)) in
      rw (parse_query_parameter_wire, within)
        (parse_parameters-split (parameter_wire lines) (80 ∷ 49 ∷ 58 ∷ decimal (length lines))
          (joined lines) (length lines) values first (parse_header-decimal (length lines) few)
          (parse_lines-joined lines values h))
