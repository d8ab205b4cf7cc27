-- ===== src/Utf8/Complete.antt =====
-- Every UTF-8 text passes the validator of src/esdb_runtime.cpp, which so decides UTF-8; and what
-- the checks on C strings then accept.
use esdb.Prelude.{
  ℕ, zero, suc, ◌+◌, ◌≤◌, ◌<◌, ◌≡◌, refl, inl, inr, true, false, none, some, List, [], ◌∷◌, ◌++◌,
  arith, leb, All, length, length-append, ◌↔◌, ◌∙◌, take-all, min, Bool-cases, sym, subst,
}
use esdb.Bytes.{Bytes, CString}
use esdb.Utf8.{next_char, utf8_loop, valid_utf8, valid_c_string, bounded_length}
use esdb.Utf8.Encoding.{IsScalar, encode, encode_all}
use esdb.Utf8.Sound.{utf8_loop_sound}

next_char-encode :
    (c : ℕ) (rest : Bytes) → IsScalar c → next_char (encode c ++ rest) ≡ some (c, rest)
unfolding next_char encode
next_char-encode c rest h = ground arith

encode-length : (c : ℕ) → 0 < length (encode c)
unfolding encode
encode-length c = ground arith

utf8_loop-next :
    (fuel : ℕ) (bs : Bytes) (code : ℕ) (rest : Bytes)
    → next_char bs ≡ some (code, rest)
    → utf8_loop (suc fuel) bs ≡ utf8_loop fuel rest
utf8_loop-next fuel [] code rest h = absurd (unfold next_char in ground (arith, h))
utf8_loop-next fuel (c ∷ r) code rest h = unfold utf8_loop in ground (arith, h)

utf8_loop_complete :
    (fuel : ℕ) (cs : List ℕ)
    → All IsScalar cs
    → length (encode_all cs) ≤ fuel
    → utf8_loop fuel (encode_all cs) ≡ true
unfolding encode_all
utf8_loop_complete fuel [] h le = unfold utf8_loop in refl
utf8_loop_complete zero (c ∷ cs) h le =
    absurd (omega (arith, length-append (encode c) (encode_all cs), encode-length c))
utf8_loop_complete (suc fuel) (c ∷ cs) h le =
    utf8_loop-next fuel _ c (encode_all cs) (next_char-encode c (encode_all cs) h.0)
    ∙ utf8_loop_complete fuel cs h.1
        (omega (arith, length-append (encode c) (encode_all cs), encode-length c))

-- The validator accepts exactly the encodings of the sequences of Unicode scalar values.
pub valid_utf8_iff :
    (text : Bytes)
    → (valid_utf8 text ≡ true) ↔ ((cs : List ℕ) × All IsScalar cs × (text ≡ encode_all cs))
unfolding valid_utf8
valid_utf8_iff text = (
  λ h. utf8_loop_sound (length text) text h,
  λ p.
      subst (λ t. utf8_loop (length t) t ≡ true) (sym p.2)
        (utf8_loop_complete _ p.0 p.1 (omega arith)),
)

bounded_length-min :
    (max_bytes len : ℕ) (text : Bytes)
    → len ≤ suc max_bytes
    → bounded_length max_bytes len text ≡ min (len + length text) (suc max_bytes)
unfolding bounded_length
bounded_length-min max_bytes len [] h = omega arith
bounded_length-min max_bytes len (c ∷ rest) h =
    ground (arith, bounded_length-min max_bytes (suc len) rest)

valid_c_string-fits :
    (max_bytes c : ℕ) (r : Bytes)
    → length (c ∷ r) ≤ max_bytes
    → valid_c_string max_bytes (some (c ∷ r)) ≡ valid_utf8 (c ∷ r)
unfolding valid_c_string
valid_c_string-fits max_bytes c r h =
    let e : bounded_length max_bytes 0 (c ∷ r) ≡ length (c ∷ r) =
      omega (arith, bounded_length-min max_bytes 0 (c ∷ r)) in
    rw e (ground (arith, take-all (length r) r))

valid_c_string-long :
    (max_bytes c : ℕ) (r : Bytes)
    → max_bytes < length (c ∷ r)
    → valid_c_string max_bytes (some (c ∷ r)) ≡ false
unfolding valid_c_string
valid_c_string-long max_bytes c r h =
    let e : bounded_length max_bytes 0 (c ∷ r) ≡ suc max_bytes =
      omega (arith, bounded_length-min max_bytes 0 (c ∷ r)) in
    rw e (ground arith)

-- A C string is accepted exactly if it is there, not empty, at most the limit long, and UTF-8.
pub valid_c_string_iff :
    (max_bytes : ℕ) (text : CString)
    → (valid_c_string max_bytes text ≡ true) ↔ (
        (t : Bytes) × (text ≡ some t)
        × (0 < length t)
        × (length t ≤ max_bytes)
        × (valid_utf8 t ≡ true))
valid_c_string_iff max_bytes none =
    unfold valid_c_string in (λ h. ground arith, λ p. ground (arith, p.1))
valid_c_string_iff max_bytes (some []) =
    unfold valid_c_string in (λ h. ground arith, λ p. ground (arith, p.1, p.2))
valid_c_string_iff max_bytes (some (c ∷ r)) = elim (Bool-cases (leb (length (c ∷ r)) max_bytes)) [
  | inl short ↦
      let e = valid_c_string-fits max_bytes c r (ground (arith, short)) in
      (
        λ h. (c ∷ r, refl, omega arith, ground (arith, short), sym e ∙ h),
        λ p. e ∙ ground (arith, p.1, p.4),
      )
  | inr long ↦
      let e = valid_c_string-long max_bytes c r (ground (arith, long)) in
      (λ h. ground (arith, e, h), λ p. ground (arith, p.1, p.3, long))
]
