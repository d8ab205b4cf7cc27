-- ===== src/Adapter/HexRoundTrip.antt =====
-- The hexadecimal codec of adapters/externalobject/esdb_externalobject.cpp undoes itself.
use esdb.Prelude.{
  ◌||◌, ℕ, ◌+◌, ◌-◌, ◌*◌, ◌/◌, ◌%◌, ◌<◌, ◌≡◌, refl, arith, Bool, true, not, some, [], ◌∷◌, leb,
  if◌then◌else◌, All, Option-cases, inl, inr, ap, Bool-cases, subst,
}
use esdb.Bytes.{Bytes, CString}
use esdb.Adapter.Handles.{is_empty}
use esdb.Adapter.Hex.{
  hex_nibble, hex_pairs, hex_decode, no_nul, decode_hex_cstring, hex_digit, hex_encode,
}

nibble-digit : (v : ℕ) → v < 16 → hex_nibble (hex_digit v) ≡ some v
unfolding hex_nibble hex_digit
nibble-digit v h = ground (arith, h)

-- Decoding gives back the bytes that were encoded.
pub hex_decode-encode :
    (bytes : Bytes) → All (λ b. b < 256) bytes → hex_decode (some (hex_encode bytes)) ≡ some bytes
unfolding hex_decode hex_encode hex_pairs
hex_decode-encode [] h = refl
hex_decode-encode (b ∷ bytes) h =
    let hi = nibble-digit (b / 16) (omega (arith, h.0)) in
    let lo = nibble-digit (b % 16) (omega arith) in
    let ih = hex_decode-encode bytes h.1 in
    rw (hi, lo, ih) (ap (λ x. some (x ∷ bytes)) (omega (arith, h.0)))

-- The capital of a hexadecimal digit.
abbrev pub capital : ℕ → ℕ
capital c = if leb 97 c then c - 32 else c

abbrev pub capitals : Bytes → Bytes
capitals [] = []
capitals (c ∷ text) = capital c ∷ capitals text

nibble-capital : (c v : ℕ) → hex_nibble c ≡ some v → (hex_digit v ≡ capital c) × (v < 16)
unfolding hex_nibble hex_digit
nibble-capital c v h = ground (arith, h)

-- Any text that decodes is the encoding of its bytes, but for the case of its letters; and the
-- bytes are bytes.
pub hex_encode-decode :
    (text bytes : Bytes)
    → hex_decode (some text) ≡ some bytes
    → (hex_encode bytes ≡ capitals text) × All (λ b. b < 256) bytes
unfolding hex_decode hex_encode hex_pairs
hex_encode-decode [] [] h = (refl, tt)
hex_encode-decode [] (b ∷ bytes) h = absurd (ground (arith, h))
hex_encode-decode (hi ∷ []) bytes h = absurd (ground (arith, h))
hex_encode-decode (hi ∷ lo ∷ text) bytes h = elim (Option-cases (hex_nibble hi)) [
  | inl e ↦ absurd (ground (arith, h, e))
  | inr (u, e) ↦ elim (Option-cases (hex_nibble lo)) [
    | inl q ↦ absurd (ground (arith, h, e, q))
    | inr (v, q) ↦ elim (Option-cases (hex_pairs text)) [
      | inl r ↦ absurd (ground (arith, h, e, q, r))
      | inr (rest, r) ↦
          let ih = hex_encode-decode text rest r in
          let made : (u * 16 + v) % 256 ∷ rest ≡ bytes = ground (arith, h, e, q, r) in
          let (cu, lu) = nibble-capital hi u e in
          let (cv, lv) = nibble-capital lo v q in
          let hi_part : (u * 16 + v) % 256 / 16 ≡ u = omega arith in
          let lo_part : (u * 16 + v) % 256 % 16 ≡ v = omega arith in
          subst
            (λ bs.
              (hex_encode bs ≡ capital hi ∷ capital lo ∷ capitals text) × All (λ b. b < 256) bs)
            made
            (
              rw (hi_part, lo_part, cu, cv) (ap (λ l. capital hi ∷ capital lo ∷ l) ih.0),
              (omega arith, ih.1),
            )
    ]
  ]
]

-- What `decode_hex_cstring` hands on as a C string has no NUL in it, and is empty only where that
-- is allowed.
pub decode_hex_cstring-no_nul :
    (text : CString) (allow_empty : Bool) (out : Bytes)
    → decode_hex_cstring text allow_empty ≡ some out
    → (no_nul out ≡ true) × ((not (is_empty out) || allow_empty) ≡ true)
unfolding decode_hex_cstring
decode_hex_cstring-no_nul text allow_empty out h = elim (Option-cases (hex_decode text)) [
  | inl e ↦ absurd (ground (arith, h, e))
  | inr (d, e) ↦ elim (Bool-cases (no_nul d)) [
    | inl n ↦ ground (arith, h, e, n)
    | inr n ↦ absurd (ground (arith, h, e, n))
  ]
]
