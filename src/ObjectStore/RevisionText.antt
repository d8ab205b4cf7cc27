-- ===== src/ObjectStore/RevisionText.antt =====
-- `parse_revision_text` of src/esdb_object_store.cpp, and the decimal text that SQLite makes of a
-- revision (`CAST(?1 AS TEXT)`).
use esdb.Prelude.{
  ℕ, zero, suc, ◌+◌, ◌-◌, ◌*◌, ◌/◌, ◌%◌, ◌≤◌, ◌<◌, ◌≡◌, refl, arith, Bool, true, false, Option,
  none, some, [], ◌∷◌, ltb, ◌==◌, ◌||◌, ◌&&◌, if◌then◌else◌, Bool-cases, inl, inr, ap, ◌∙◌,
}
use esdb.Bytes.{Bytes, CString}
use esdb.Store.State.{revision_max}

unfoldable pub parse_loop : ℕ → Bytes → Option ℕ
parse_loop value [] = some value
parse_loop value (p ∷ text) =
    let digit = p - 48 in
    let rest = parse_loop (value * 10 + digit) text in
    if ltb p 48 || ltb 57 p
    then none
    else if ltb ((revision_max - digit) / 10) value
    then none
    else rest

abbrev more : Bytes → Bool
more [] = false
more (c ∷ cs) = true

unfoldable pub parse_revision_text : CString → Option ℕ
unfolding parse_loop
parse_revision_text none = none
parse_revision_text (some []) = none
parse_revision_text (some (c ∷ text)) =
    if c == 48 && more text then none else parse_loop 0 (c ∷ text)

-- The decimal digits of a number before those at hand; the fuel is at least the number.
unfoldable pub digits : ℕ → ℕ → Bytes → Bytes
digits zero n after = (48 + n % 10) ∷ after
digits (suc fuel) n after =
    let rest = digits fuel (n / 10) ((48 + n % 10) ∷ after) in
    if ltb n 10 then (48 + n) ∷ after else rest

unfoldable pub decimal : ℕ → Bytes
unfolding digits
decimal n = digits n n []

-- One digit that keeps the value within the domain of revisions.
parse_digit :
    (value digit : ℕ) (text : Bytes)
    → digit < 10
    → value * 10 + digit ≤ revision_max
    → parse_loop value ((48 + digit) ∷ text) ≡ parse_loop (value * 10 + digit) text
unfolding parse_loop
parse_digit value digit text small fits =
    let low : ltb (48 + digit) 48 ≡ false = ground arith in
    let high : ltb 57 (48 + digit) ≡ false = ground arith in
    let read : 48 + digit - 48 ≡ digit = omega arith in
    let room : ltb ((revision_max - digit) / 10) value ≡ false = ground arith in
    rw (low, high, read, room) refl

parse-digits :
    (fuel n : ℕ) (after : Bytes)
    → n ≤ fuel
    → n ≤ revision_max
    → parse_loop 0 (digits fuel n after) ≡ parse_loop n after
unfolding digits
parse-digits zero n after h fits =
    let e : n ≡ 0 = omega arith in rw e (parse_digit 0 0 after (omega arith) (omega arith))
parse-digits (suc fuel) n after h fits = elim (Bool-cases (ltb n 10)) [
  | inl e ↦
      let whole : 0 * 10 + n ≡ n = omega arith in
      rw e (
        parse_digit 0 n after (ground (arith, e)) (omega arith)
        ∙ ap (λ k. parse_loop k after) whole)
  | inr e ↦
      let large : 10 ≤ n = ground (arith, e) in
      let whole : n / 10 * 10 + n % 10 ≡ n = omega arith in
      rw e (
        parse-digits fuel (n / 10) ((48 + n % 10) ∷ after) (omega arith) (omega arith)
        ∙ parse_digit (n / 10) (n % 10) after (omega arith) (omega arith)
        ∙ ap (λ k. parse_loop k after) whole)
]

-- A text whose first character is not the digit 0.
abbrev Headed : Bytes → Type 0
Headed [] = ⊥
Headed (c ∷ text) = (c == 48) ≡ false

digits-Headed : (fuel n : ℕ) (after : Bytes) → n ≤ fuel → 0 < n → Headed (digits fuel n after)
unfolding digits
digits-Headed zero n after h pos = absurd (omega arith)
digits-Headed (suc fuel) n after h pos = elim (Bool-cases (ltb n 10)) [
  | inl e ↦ rw e (ground arith)
  | inr e ↦
      rw e (digits-Headed fuel (n / 10) ((48 + n % 10) ∷ after) (omega arith) (ground (arith, e)))
]

parse-Headed : (text : Bytes) → Headed text → parse_revision_text (some text) ≡ parse_loop 0 text
unfolding parse_revision_text
parse-Headed [] h = absurd h
parse-Headed (c ∷ text) h = rw h refl

-- A revision in the domain is read back from its decimal text.
pub parse-decimal : (n : ℕ) → n ≤ revision_max → parse_revision_text (some (decimal n)) ≡ some n
unfolding decimal parse_revision_text parse_loop
parse-decimal zero fits = refl
parse-decimal (suc n) fits =
    parse-Headed (digits (suc n) (suc n) [])
      (digits-Headed (suc n) (suc n) [] (omega arith) (omega arith))
    ∙ parse-digits (suc n) (suc n) [] (omega arith) fits

loop-bounded :
    (value n : ℕ) (text : Bytes)
    → value ≤ revision_max
    → parse_loop value text ≡ some n
    → n ≤ revision_max
unfolding parse_loop
loop-bounded value n [] fits h = ground (arith, h)
loop-bounded value n (p ∷ text) fits h = elim (Bool-cases (ltb p 48 || ltb 57 p)) [
  | inl bad ↦ absurd (cc (rw bad at h))
  | inr digit ↦ elim (Bool-cases (ltb ((revision_max - (p - 48)) / 10) value)) [
    | inl bad ↦ absurd (cc (rw (digit, bad) at h))
    | inr room ↦
        loop-bounded (value * 10 + (p - 48)) n text (ground (arith, digit, room))
          (rw (digit, room) at h)
  ]
]

-- Whatever text is stored as the revision, a number that is read from it is in the domain of
-- revisions.
pub parse-bounded : (text : CString) (n : ℕ) → parse_revision_text text ≡ some n → n ≤ revision_max
unfolding parse_revision_text
parse-bounded none n h = absurd (cc h)
parse-bounded (some []) n h = absurd (cc h)
parse-bounded (some (c ∷ text)) n h = elim (Bool-cases (c == 48 && more text)) [
  | inl bad ↦ absurd (cc (rw bad at h))
  | inr good ↦ loop-bounded 0 n (c ∷ text) (omega arith) (rw good at h)
]
