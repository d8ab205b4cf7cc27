-- ===== src/Adapter/DecimalDigits.antt =====
-- The decimal codecs of adapters/externalobject/esdb_externalobject.cpp: the digits that are
-- written of a number, and the number that is read from digits.
use esdb.Prelude.{
  ℕ, zero, suc, ◌+◌, ◌-◌, ◌*◌, ◌/◌, ◌%◌, ◌≤◌, ◌<◌, ◌≡◌, refl, arith, true, false, [], ◌∷◌, ltb,
  ◌==◌, ◌||◌, Bool-cases, inl, inr, ap, ◌∙◌,
}
use esdb.Bytes.{Bytes}
use esdb.ObjectStore.RevisionText.{decimal, digits}
use esdb.Adapter.Handles.{is_empty}
use esdb.Adapter.Decimal.{all_digits, is_digit, canonical_number, read_digits}

read_digits-digit :
    (value digit : ℕ) (text : Bytes)
    → digit < 10
    → read_digits value ((48 + digit) ∷ text) ≡ read_digits (value * 10 + digit) text
unfolding read_digits
read_digits-digit value digit text small =
    let e : is_digit (48 + digit) ≡ true = ground arith in
    let read : 48 + digit - 48 ≡ digit = omega arith in rw (e, read) refl

read_digits-digits :
    (fuel n : ℕ) (after : Bytes)
    → n ≤ fuel
    → read_digits 0 (digits fuel n after) ≡ read_digits n after
unfolding digits
read_digits-digits zero n after h =
    let e : n ≡ 0 = omega arith in rw e (read_digits-digit 0 0 after (omega arith))
read_digits-digits (suc fuel) n after h = elim (Bool-cases (ltb n 10)) [
  | inl e ↦
      let whole : 0 * 10 + n ≡ n = omega arith in
      rw e (read_digits-digit 0 n after (ground (arith, e)) ∙ ap (λ k. read_digits k after) whole)
  | inr e ↦
      let large : 10 ≤ n = ground (arith, e) in
      let whole : n / 10 * 10 + n % 10 ≡ n = omega arith in
      rw e (
        read_digits-digits fuel (n / 10) ((48 + n % 10) ∷ after) (omega arith)
        ∙ read_digits-digit (n / 10) (n % 10) after (omega arith)
        ∙ ap (λ k. read_digits k after) whole)
]

canonical-digits :
    (fuel n : ℕ) (after : Bytes)
    → n ≤ fuel
    → 0 < n
    → all_digits after ≡ true
    → canonical_number (digits fuel n after) ≡ true
unfolding digits canonical_number all_digits
canonical-digits zero n after h pos ok = absurd (omega arith)
canonical-digits (suc fuel) n after h pos ok = elim (Bool-cases (ltb n 10)) [
  | inl e ↦
      let first : (48 + n == 48) ≡ false = ground (arith, e) in
      let digit : (ltb (48 + n) 49 || ltb 57 (48 + n)) ≡ false = ground (arith, e) in
      rw (e, first, digit) ok
  | inr e ↦
      let digit : is_digit (48 + n % 10) ≡ true = ground arith in
      rw e (
        canonical-digits fuel (n / 10) ((48 + n % 10) ∷ after) (omega arith) (ground (arith, e))
          (rw (digit, ok) refl))
]

pub canonical-decimal : (n : ℕ) → canonical_number (decimal n) ≡ true
unfolding decimal digits canonical_number all_digits
canonical-decimal zero = refl
canonical-decimal (suc n) = canonical-digits (suc n) (suc n) [] (omega arith) (omega arith) refl

-- Any fuel from the number on writes the same digits.
digits-fuel :
    (fuel fuel' n : ℕ) (after : Bytes)
    → n ≤ fuel
    → n ≤ fuel'
    → digits fuel n after ≡ digits fuel' n after
unfolding digits
digits-fuel zero zero n after h h' = refl
digits-fuel zero (suc fuel') n after h h' = let e : n ≡ 0 = omega arith in rw e refl
digits-fuel (suc fuel) zero n after h h' = let e : n ≡ 0 = omega arith in rw e refl
digits-fuel (suc fuel) (suc fuel') n after h h' = elim (Bool-cases (ltb n 10)) [
  | inl e ↦ rw e refl
  | inr e ↦
      let large : 10 ≤ n = ground (arith, e) in
      rw e (digits-fuel fuel fuel' (n / 10) ((48 + n % 10) ∷ after) (omega arith) (omega arith))
]

-- The digits written of a number are the digits of its tenth part and its last digit.
digits-last :
    (value digit fuel : ℕ) (after : Bytes)
    → digit < 10
    → 0 < value
    → digits (suc fuel) (value * 10 + digit) after ≡ digits fuel value ((48 + digit) ∷ after)
unfolding digits
digits-last value digit fuel after small pos =
    let large : ltb (value * 10 + digit) 10 ≡ false = ground arith in
    let tenth : (value * 10 + digit) / 10 ≡ value = omega arith in
    let last : (value * 10 + digit) % 10 ≡ digit = omega arith in rw (large, tenth, last) refl

-- The digits read after a number that is not 0 are the digits written after its own.
digits-read_digits :
    (text : Bytes) (value fuel fuel' : ℕ)
    → all_digits text ≡ true
    → 0 < value
    → value ≤ fuel
    → (read_digits value text).0 ≤ fuel'
    → digits fuel' (read_digits value text).0 [] ≡ digits fuel value text
unfolding read_digits all_digits
digits-read_digits [] value fuel fuel' ok pos h h' = digits-fuel fuel' fuel value [] h' h
digits-read_digits (c ∷ text) value fuel fuel' ok pos h h' = elim (Bool-cases (is_digit c)) [
  | inl e ↦
      let whole : 48 + (c - 48) ≡ c = ground (arith, e) in
      let next : ℕ = value * 10 + (c - 48) in
      let rest : all_digits text ≡ true = rw e at ok in
      rw e (
        digits-read_digits text next (suc next) fuel' rest (omega arith) (omega arith) (rw e at h')
        ∙ digits-last value (c - 48) next text (ground (arith, e)) pos
        ∙ ap (λ d. digits next value (d ∷ text)) whole
        ∙ digits-fuel next fuel value (c ∷ text) (omega arith) h)
  | inr e ↦ absurd (cc (rw e at ok))
]

-- Reading stops at the end of a text of digits.
read_digits-whole :
    (text : Bytes) (value : ℕ) → all_digits text ≡ true → (read_digits value text).1 ≡ []
unfolding read_digits all_digits
read_digits-whole [] value ok = refl
read_digits-whole (c ∷ text) value ok = elim (Bool-cases (is_digit c)) [
  | inl e ↦ rw e (read_digits-whole text (value * 10 + (c - 48)) (rw e at ok))
  | inr e ↦ absurd (cc (rw e at ok))
]

empty-nil : (text : Bytes) → is_empty text ≡ true → text ≡ []
empty-nil [] h = refl
empty-nil (c ∷ text) h = absurd (cc h)

digits-one :
    (digit fuel : ℕ) (after : Bytes) → digit < 10 → digits fuel digit after ≡ (48 + digit) ∷ after
unfolding digits
digits-one digit zero after small = let e : digit % 10 ≡ digit = omega arith in rw e refl
digits-one digit (suc fuel) after small = let e : ltb digit 10 ≡ true = ground arith in rw e refl

-- A canonical text is the one that is written of the number that is read from it.
pub decimal-read_digits :
    (text : Bytes) → canonical_number text ≡ true → decimal (read_digits 0 text).0 ≡ text
unfolding canonical_number decimal read_digits digits
decimal-read_digits [] ok = absurd (cc ok)
decimal-read_digits (c ∷ text) ok = elim (Bool-cases (c == 48)) [
  | inl e ↦
      let none_left : text ≡ [] = empty-nil text (rw e at ok) in
      let zero_digit : c ≡ 48 = ground (arith, e) in rw (none_left, zero_digit) refl
  | inr e ↦ elim (Bool-cases (ltb c 49 || ltb 57 c)) [
    | inl bad ↦ absurd (cc (rw (e, bad) at ok))
    | inr good ↦
        let digit : is_digit c ≡ true = ground (arith, good) in
        let whole : 48 + (0 * 10 + (c - 48)) ≡ c = ground (arith, good) in
        let value : ℕ = 0 * 10 + (c - 48) in
        let small : value < 10 = ground (arith, good) in
        let pos : 0 < value = ground (arith, good, e) in
        let all : all_digits text ≡ true = rw (e, good) at ok in
        let n : ℕ = (read_digits value text).0 in
        rw digit (
          digits-read_digits text value value n all pos (omega arith) (omega arith)
          ∙ digits-one value value text small
          ∙ ap (λ d. d ∷ text) whole)
  ]
]

pub read_digits-decimal : (n : ℕ) → read_digits 0 (decimal n) ≡ (n, [])
unfolding decimal read_digits
read_digits-decimal n = read_digits-digits n n [] (omega arith)
