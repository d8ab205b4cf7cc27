-- ===== src/Adapter/WireNumbers.antt =====
-- The numbers of the value text of adapters/externalobject/esdb_externalobject.cpp: the signed
-- 32-bit integers and the doubles.
use esdb.Prelude.{
  ℕ, ◌+◌, ◌-◌, ◌/◌, ◌%◌, ◌<◌, ◌≡◌, refl, arith, Bool, true, false, not, ◌&&◌, ◌||◌, some, [], ◌∷◌,
  ltb, ◌==◌, if◌then◌else◌, Bool-cases, inl, inr,
}
use esdb.Bytes.{Bytes}
use esdb.Value.{ValueType, double, read_le}
use esdb.Adapter.Decimal.{parse_i64_decimal, i64_decimal}
use esdb.Adapter.DecimalRoundTrip.{parse_i64_decimal_iff}
use esdb.Adapter.Wire.{
  FloatText, double_decimal, parse_double_decimal, nan_text, infinity_text, minus_infinity_text,
  minus_zero_text, i32_decimal,
}
use esdb.Adapter.WireParse.{in_int32}
use esdb.Runtime.Savepoints.{same_text}

-- A signed 32-bit pattern, widened to 64 bits.
abbrev pub widened : ℕ → ℕ
widened n = if ltb n 2147483648 then n else n + 18446744069414584320

i32_decimal-widened : (n : ℕ) → n < 4294967296 → i32_decimal n ≡ i64_decimal (widened n)
unfolding i32_decimal i64_decimal
i32_decimal-widened n h = elim (Bool-cases (ltb n 2147483648)) [
  | inl e ↦ let small : ltb n 9223372036854775808 ≡ true = ground (arith, e) in rw (e, small) refl
  | inr e ↦
      let large : ltb (n + 18446744069414584320) 9223372036854775808 ≡ false = ground arith in
      let same : 18446744073709551616 - (n + 18446744069414584320) ≡ 4294967296 - n = omega arith in
      rw (e, large, same) refl
]

widened-fits : (n : ℕ) → n < 4294967296 → widened n < 18446744073709551616
widened-fits n h = ground arith

pub widened-in_int32 : (n : ℕ) → n < 4294967296 → in_int32 (widened n) ≡ true
widened-in_int32 n h = ground arith

pub widened-narrowed : (n : ℕ) → n < 4294967296 → widened n % 4294967296 ≡ n
widened-narrowed n h = ground arith

pub widened-read :
    (n : ℕ) → n < 4294967296 → parse_i64_decimal (some (i32_decimal n)) ≡ some (widened n)
widened-read n h =
    (parse_i64_decimal_iff (i32_decimal n) (widened n)).1
      (i32_decimal-widened n h, widened-fits n h)

-- What the streams promise: a finite double that is normal or zero is read back from its text of
-- 17 digits, which is none of the words.
abbrev pub is_word : Bytes → Bool
is_word [] = true
is_word (c ∷ text) =
    same_text (c ∷ text) nan_text
    || same_text (c ∷ text) infinity_text
    || same_text (c ∷ text) minus_infinity_text
    || same_text (c ∷ text) minus_zero_text

abbrev pub is_normal : ℕ → Bool
is_normal bits =
    let exponent : ℕ = bits / 4503599627370496 % 2048 in
    bits == 0 || not (exponent == 0) && not (exponent == 2047)

unfoldable pub IsFloatText : FloatText → Type 0
IsFloatText io =
    (bits : ℕ)
    → bits < 18446744073709551616
    → is_normal bits ≡ true
    → (io.read_double (io.shown bits) ≡ some bits) × (is_word (io.shown bits) ≡ false)

-- Zeros, normal doubles and infinities: neither a subnormal double nor NaN.
abbrev pub is_readable : ℕ → Bool
is_readable bits =
    is_normal bits
    || bits == 9223372036854775808
    || bits == 9218868437227405312
    || bits == 18442240474082181120

unfoldable pub double_readable : ValueType → Bytes → Bool
double_readable double p = is_readable (read_le p)
double_readable _ p = true

word-read :
    (io : FloatText) (text : Bytes)
    → is_word text ≡ false
    → parse_double_decimal io (some text) ≡ io.read_double text
unfolding parse_double_decimal
word-read io [] h = absurd (cc h)
word-read io (c ∷ text) h = ground (arith, h)

double_decimal-normal :
    (io : FloatText) (bits : ℕ) → is_normal bits ≡ true → double_decimal io bits ≡ io.shown bits
unfolding double_decimal
double_decimal-normal io bits h = ground (arith, h)

double_decimal-special :
    (io : FloatText) (bits : ℕ)
    → is_normal bits ≡ false
    → is_readable bits ≡ true
    → parse_double_decimal io (some (double_decimal io bits)) ≡ some bits
unfolding parse_double_decimal double_decimal same_text
double_decimal-special io bits e h = elim (Bool-cases (bits == 9223372036854775808)) [
  | inl q ↦ let same : bits ≡ 9223372036854775808 = ground (arith, q) in rw same refl
  | inr q ↦ elim (Bool-cases (bits == 9218868437227405312)) [
    | inl r ↦ let same : bits ≡ 9218868437227405312 = ground (arith, r) in rw same refl
    | inr r ↦ let same : bits ≡ 18442240474082181120 = ground (arith, e, h, q, r) in rw same refl
  ]
]

pub double-reads :
    (io : FloatText) (bits : ℕ)
    → IsFloatText io
    → bits < 18446744073709551616
    → is_readable bits ≡ true
    → parse_double_decimal io (some (double_decimal io bits)) ≡ some bits
unfolding IsFloatText
double-reads io bits law fits h = elim (Bool-cases (is_normal bits)) [
  | inl e ↦
      let promised = law bits fits e in
      rw (double_decimal-normal io bits e, word-read io (io.shown bits) promised.1) promised.0
  | inr e ↦ double_decimal-special io bits e h
]
