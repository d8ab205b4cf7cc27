-- ===== src/Utf8/Sound.antt =====
-- What the validator of src/esdb_runtime.cpp accepts is UTF-8.
use esdb.Prelude.{
  ℕ, zero, suc, ◌≡◌, refl, inl, inr, true, some, List, [], ◌∷◌, ◌++◌, arith, All, Option-cases, ap,
  ◌∙◌,
}
use esdb.Bytes.{Bytes}
use esdb.Utf8.{next_char, utf8_loop}
use esdb.Utf8.Encoding.{IsScalar, encode, encode_all}

abbrev Decodes : ℕ → Bytes → Bytes → Type 0
Decodes code rest bs = IsScalar code × (bs ≡ encode code ++ rest)

-- One round takes the encoding of one scalar value off the front.
next_char-Decodes :
    (bs : Bytes) (code : ℕ) (rest : Bytes) → next_char bs ≡ some (code, rest) → Decodes code rest bs
unfolding next_char encode
next_char-Decodes [] code rest h = ground arith
next_char-Decodes (c ∷ []) code rest h = ground arith
next_char-Decodes (c ∷ d ∷ []) code rest h = ground arith
next_char-Decodes (c ∷ d ∷ e ∷ []) code rest h = ground arith
next_char-Decodes (c ∷ d ∷ e ∷ f ∷ r) code rest h = ground arith

utf8_round :
    (fuel : ℕ) (c : ℕ) (r : Bytes)
    → utf8_loop (suc fuel) (c ∷ r) ≡ true
    → (code : ℕ) × (rest : Bytes) × (next_char (c ∷ r) ≡ some (code, rest))
      × (utf8_loop fuel rest ≡ true)
unfolding utf8_loop
utf8_round fuel c r h = elim (Option-cases (next_char (c ∷ r))) [
  | inl e ↦ absurd (ground (arith, e))
  | inr ((code, rest), e) ↦ (code, rest, e, ground (arith, e))
]

-- What the loop accepts is a sequence of scalar values, each in its shortest form.
pub utf8_loop_sound :
    (fuel : ℕ) (bs : Bytes)
    → utf8_loop fuel bs ≡ true
    → (cs : List ℕ) × All IsScalar cs × (bs ≡ encode_all cs)
unfolding encode_all
utf8_loop_sound fuel [] h = ([], tt, refl)
utf8_loop_sound zero (c ∷ r) h = absurd (unfold utf8_loop in ground arith)
utf8_loop_sound (suc fuel) (c ∷ r) h =
    let (code, rest, e, more) = utf8_round fuel c r h in
    let (cs, scalars, eq) = utf8_loop_sound fuel rest more in
    let (scalar, first) = next_char-Decodes (c ∷ r) code rest e in
    (code ∷ cs, (scalar, scalars), first ∙ ap (λ t. encode code ++ t) eq)
