-- ===== src/Adapter/DecimalRoundTrip.antt =====
-- The decimal codecs of adapters/externalobject/esdb_externalobject.cpp: every number has one text
-- that is accepted, and it is the one that is written.
use esdb.Prelude.{
  ℕ, zero, suc, ◌-◌, ◌≤◌, ◌<◌, ◌≡◌, refl, arith, true, false, some, [], ◌∷◌, ltb, leb, ◌==◌, ◌&&◌,
  Bool-cases, inl, inr, ap, ◌∙◌, sym, ◌↔◌, some-injective,
}
use esdb.Bytes.{Bytes}
use esdb.Store.State.{revision_max}
use esdb.ObjectStore.RevisionText.{decimal, digits}
use esdb.Adapter.Handles.{is_empty}
use esdb.Adapter.Decimal.{
  canonical_number, canonical_decimal_syntax, read_digits, unsigned_within, parse_unsigned,
  parse_revision_decimal, signed_within, strtoll, is_minus_zero, parse_i64_decimal, u64_decimal,
  i64_decimal,
}
use esdb.Adapter.DecimalDigits.{canonical-decimal, decimal-read_digits, read_digits-decimal}

-- No canonical number starts with the sign.
canonical-unsigned_head :
    (c : ℕ) (text : Bytes) → canonical_number (c ∷ text) ≡ true → (c == 45) ≡ false
unfolding canonical_number
canonical-unsigned_head c text ok = elim (Bool-cases (c == 45)) [
  | inl e ↦ let sign : c ≡ 45 = ground (arith, e) in absurd (cc (rw sign at ok))
  | inr e ↦ e
]

pub canonical_nil : ¬ (canonical_number [] ≡ true)
unfolding canonical_number
canonical_nil ok = absurd (cc ok)

canonical-unsigned :
    (text : Bytes)
    → canonical_number text ≡ true
    → canonical_decimal_syntax (some text) false ≡ true
unfolding canonical_decimal_syntax
canonical-unsigned [] ok = absurd (canonical_nil ok)
canonical-unsigned (c ∷ text) ok = rw (canonical-unsigned_head c text ok, ok) refl

unsigned-canonical :
    (text : Bytes)
    → canonical_decimal_syntax (some text) false ≡ true
    → canonical_number text ≡ true
unfolding canonical_decimal_syntax
unsigned-canonical [] ok = absurd (cc ok)
unsigned-canonical (c ∷ text) ok = elim (Bool-cases (c == 45)) [
  | inl e ↦ absurd (cc (rw e at ok))
  | inr e ↦ rw e at ok
]

unsigned_within-some :
    (most : ℕ) (read : ℕ × Bytes) (n : ℕ)
    → unsigned_within most read ≡ some n
    → (read.0 ≡ n) × (n ≤ most)
unfolding unsigned_within
unsigned_within-some most read n h = elim (Bool-cases (leb read.0 most && is_empty read.1)) [
  | inl e ↦
      let same : read.0 ≡ n = some-injective read.0 n (rw e at h) in (same, ground (arith, e, same))
  | inr e ↦ absurd (cc (rw e at h))
]

-- Within the bound each number has one text that is accepted.
pub parse_unsigned_iff :
    (most : ℕ) (text : Bytes) (n : ℕ)
    → (parse_unsigned most (some text) ≡ some n) ↔ ((text ≡ decimal n) × (n ≤ most))
unfolding parse_unsigned unsigned_within
parse_unsigned_iff most text n = (reads, λ h. writes h.0 h.1)
  where
    reads : parse_unsigned most (some text) ≡ some n → (text ≡ decimal n) × (n ≤ most)
    reads h = elim (Bool-cases (canonical_decimal_syntax (some text) false)) [
      | inl e ↦
          let read = unsigned_within-some most (read_digits 0 text) n (rw e at h) in
          (sym (decimal-read_digits text (unsigned-canonical text e)) ∙ ap decimal read.0, read.1)
      | inr e ↦ absurd (cc (rw e at h))
    ]

    writes : text ≡ decimal n → n ≤ most → parse_unsigned most (some text) ≡ some n
    writes h fits =
        let e = canonical-unsigned (decimal n) (canonical-decimal n) in
        let within : leb n most ≡ true = ground arith in
        rw (h, e, read_digits-decimal n, within) refl

-- The text of a revision is accepted exactly if it is the one that is written of a number in the
-- domain of revisions, which is then the number read.
pub parse_revision_decimal_iff :
    (text : Bytes) (n : ℕ)
    → (parse_revision_decimal (some text) ≡ some n) ↔ ((text ≡ u64_decimal n) × (n ≤ revision_max))
unfolding parse_revision_decimal u64_decimal
parse_revision_decimal_iff = parse_unsigned_iff revision_max

signed_within-some :
    (read : ℕ × Bytes) (n : ℕ)
    → signed_within false read ≡ some n
    → (read.0 ≡ n) × (n < 9223372036854775808)
unfolding signed_within
signed_within-some read n h =
    elim (Bool-cases (leb read.0 9223372036854775807 && is_empty read.1)) [
      | inl e ↦
          let same : read.0 ≡ n = some-injective read.0 n (rw e at h) in
          (same, ground (arith, e, same))
      | inr e ↦ absurd (cc (rw e at h))
    ]

signed_within-negative :
    (read : ℕ × Bytes) (n : ℕ)
    → 0 < read.0
    → signed_within true read ≡ some n
    → (18446744073709551616 - n ≡ read.0) × (9223372036854775808 ≤ n) × (n < 18446744073709551616)
unfolding signed_within
signed_within-negative read n pos h =
    elim (Bool-cases (leb read.0 9223372036854775808 && is_empty read.1)) [
      | inl e ↦
          let sign : (read.0 == 0) ≡ false = ground arith in
          let same : 18446744073709551616 - read.0 ≡ n =
            some-injective (18446744073709551616 - read.0) n (rw (e, sign) at h) in
          let small : read.0 ≤ 9223372036854775808 = ground (arith, e) in
          (omega arith, omega arith, omega arith)
      | inr e ↦ absurd (cc (rw e at h))
    ]

-- The texts of the two halves of the signed 64-bit integers.
i64_decimal-positive : (n : ℕ) → n < 9223372036854775808 → i64_decimal n ≡ decimal n
unfolding i64_decimal
i64_decimal-positive n h = let e : ltb n 9223372036854775808 ≡ true = ground arith in rw e refl

i64_decimal-negative :
    (n : ℕ) → 9223372036854775808 ≤ n → i64_decimal n ≡ 45 ∷ decimal (18446744073709551616 - n)
unfolding i64_decimal
i64_decimal-negative n h = let e : ltb n 9223372036854775808 ≡ false = ground arith in rw e refl

-- A canonical number that is read as 0 makes the text "-0".
minus_zero :
    (text : Bytes)
    → canonical_number text ≡ true
    → (read_digits 0 text).0 ≡ 0
    → is_minus_zero (45 ∷ text) ≡ true
unfolding decimal digits
minus_zero text ok h =
    let same : 48 ∷ [] ≡ text = ap decimal (sym h) ∙ decimal-read_digits text ok in
    rw (sym same) refl

minus_zero-digits : (text : Bytes) → is_minus_zero (45 ∷ text) ≡ true → text ≡ 48 ∷ []
minus_zero-digits [] h = absurd (cc h)
minus_zero-digits (c ∷ []) h = let e : c ≡ 48 = ground (arith, h) in rw e refl
minus_zero-digits (c ∷ d ∷ text) h = absurd (cc h)

minus_zero-head : (c : ℕ) (text : Bytes) → (c == 45) ≡ false → is_minus_zero (c ∷ text) ≡ false
minus_zero-head c [] e = refl
minus_zero-head c (d ∷ []) e = rw e refl
minus_zero-head c (d ∷ b ∷ text) e = refl

-- How a text is read: by its sign.
parse_i64-positive :
    (c : ℕ) (text : Bytes)
    → (c == 45) ≡ false
    → canonical_number (c ∷ text) ≡ true
    → parse_i64_decimal (some (c ∷ text)) ≡ signed_within false (read_digits 0 (c ∷ text))
unfolding parse_i64_decimal canonical_decimal_syntax strtoll
parse_i64-positive c text e ok = rw (e, ok, minus_zero-head c text e) refl

parse_i64-negative :
    (text : Bytes)
    → canonical_number text ≡ true
    → is_minus_zero (45 ∷ text) ≡ false
    → parse_i64_decimal (some (45 ∷ text)) ≡ signed_within true (read_digits 0 text)
unfolding parse_i64_decimal canonical_decimal_syntax strtoll
parse_i64-negative text ok e = rw (ok, e) refl

reads-positive :
    (c : ℕ) (text : Bytes) (n : ℕ)
    → (c == 45) ≡ false
    → parse_i64_decimal (some (c ∷ text)) ≡ some n
    → (c ∷ text ≡ i64_decimal n) × (n < 18446744073709551616)
unfolding parse_i64_decimal canonical_decimal_syntax
reads-positive c text n e h = elim (Bool-cases (canonical_number (c ∷ text))) [
  | inl ok ↦
      let read =
        signed_within-some (read_digits 0 (c ∷ text)) n
          (sym (parse_i64-positive c text e ok) ∙ h) in
      (
        sym (decimal-read_digits (c ∷ text) ok)
            ∙ ap decimal read.0
            ∙ sym (i64_decimal-positive n read.1),
        omega (arith, read.1),
      )
  | inr bad ↦ absurd (cc (rw (e, bad) at h))
]

reads-negative :
    (text : Bytes) (n : ℕ)
    → parse_i64_decimal (some (45 ∷ text)) ≡ some n
    → (45 ∷ text ≡ i64_decimal n) × (n < 18446744073709551616)
unfolding parse_i64_decimal canonical_decimal_syntax
reads-negative text n h = elim (Bool-cases (canonical_number text)) [
  | inr bad ↦ absurd (cc (rw bad at h))
  | inl ok ↦ elim (Bool-cases (is_minus_zero (45 ∷ text))) [
    | inl zero_text ↦ absurd (cc (rw (ok, zero_text) at h))
    | inr signed ↦
        let read = read_digits 0 text in
        let pos : 0 < read.0 =
          elim (read_digits 0 text).0 as (λ k. (read_digits 0 text).0 ≡ k → 0 < k) [
            | zero ↦ λ z. absurd (cc (sym signed ∙ minus_zero text ok z))
            | suc k ↦ λ z. omega arith
          ]
            refl in
        let value =
          signed_within-negative read n pos (sym (parse_i64-negative text ok signed) ∙ h) in
        (
          ap (λ t. 45 ∷ t) (sym (decimal-read_digits text ok) ∙ ap decimal (sym value.0))
              ∙ sym (i64_decimal-negative n value.1),
          value.2,
        )
  ]
]

parse_i64-reads :
    (text : Bytes) (n : ℕ)
    → parse_i64_decimal (some text) ≡ some n
    → (text ≡ i64_decimal n) × (n < 18446744073709551616)
unfolding parse_i64_decimal canonical_decimal_syntax
parse_i64-reads [] n h = absurd (cc h)
parse_i64-reads (c ∷ text) n h = elim (Bool-cases (c == 45)) [
  | inl e ↦
      let sign : c ≡ 45 = ground (arith, e) in
      rw sign (reads-negative text n (ap (λ s. parse_i64_decimal (some (s ∷ text))) (sym sign) ∙ h))
  | inr e ↦ reads-positive c text n e h
]

writes-positive :
    (text : Bytes)
    → canonical_number text ≡ true
    → parse_i64_decimal (some text) ≡ signed_within false (read_digits 0 text)
writes-positive [] ok = absurd (canonical_nil ok)
writes-positive (c ∷ text) ok = parse_i64-positive c text (canonical-unsigned_head c text ok) ok

writes-negative :
    (m : ℕ) → 0 < m → parse_i64_decimal (some (45 ∷ decimal m)) ≡ signed_within true (m, [])
unfolding read_digits
writes-negative m pos = elim (Bool-cases (is_minus_zero (45 ∷ decimal m))) [
  | inl e ↦
      let same : read_digits 0 (decimal m) ≡ (0, []) =
        ap (read_digits 0) (minus_zero-digits (decimal m) e) in
      let zero_value : m ≡ 0 = ap (λ r. r.0) (sym (read_digits-decimal m) ∙ same) in
      absurd (omega arith)
  | inr e ↦
      parse_i64-negative (decimal m) (canonical-decimal m) e
      ∙ ap (signed_within true) (read_digits-decimal m)
]

parse_i64-writes :
    (n : ℕ) → n < 18446744073709551616 → parse_i64_decimal (some (i64_decimal n)) ≡ some n
unfolding signed_within
parse_i64-writes n h = elim (Bool-cases (ltb n 9223372036854775808)) [
  | inl e ↦
      let small : n < 9223372036854775808 = ground (arith, e) in
      let within : leb n 9223372036854775807 ≡ true = ground arith in
      rw
        (
          i64_decimal-positive n small,
          writes-positive (decimal n) (canonical-decimal n),
          read_digits-decimal n,
          within,
        )
        refl
  | inr e ↦
      let large : 9223372036854775808 ≤ n = ground (arith, e) in
      let m : ℕ = 18446744073709551616 - n in
      let within : leb m 9223372036854775808 ≡ true = ground arith in
      let sign : (m == 0) ≡ false = ground arith in
      let back : 18446744073709551616 - m ≡ n = omega arith in
      rw (i64_decimal-negative n large, writes-negative m (omega arith), within, sign, back) refl
]

-- A decimal text is accepted as a signed 64-bit integer exactly if it is the one that is written
-- of the integer, which is then the number read: neither "-0" nor a leading zero, a plus sign or a
-- number out of range is.
pub parse_i64_decimal_iff :
    (text : Bytes) (n : ℕ)
    → (parse_i64_decimal (some text) ≡ some n)
      ↔ ((text ≡ i64_decimal n) × (n < 18446744073709551616))
parse_i64_decimal_iff text n =
    (parse_i64-reads text n, λ h. ap (λ t. parse_i64_decimal (some t)) h.0 ∙ parse_i64-writes n h.1)
