-- ===== src/Value/Payload.antt =====
-- The payloads of the numbers, which src/esdb_value.cpp stores in little-endian order, are made again
-- of the numbers that are read from them.
use esdb.Prelude.{
  ℕ, zero, suc, ◌+◌, ◌*◌, ◌/◌, ◌%◌, ◌^◌, ◌<◌, ◌≡◌, refl, arith, true, [], ◌∷◌, ◌==◌, length, All,
  ◌∙◌,
}
use esdb.Bytes.{Bytes}
use esdb.Value.{append_le32, append_le64, read_le}

le_bytes : ℕ → ℕ → Bytes
le_bytes zero x = []
le_bytes (suc size) x = x % 256 ∷ le_bytes size (x / 256)

limit : ℕ → ℕ
limit zero = 1
limit (suc size) = 256 * limit size

le_bytes-read_le :
    (size : ℕ) (p : Bytes)
    → All (λ b. b < 256) p
    → length p ≡ size
    → (le_bytes size (read_le p) ≡ p) × (read_le p < limit size)
unfolding le_bytes read_le limit
le_bytes-read_le zero [] h e = (refl, omega arith)
le_bytes-read_le zero (b ∷ p) h e = absurd (omega arith)
le_bytes-read_le (suc size) [] h e = absurd (omega arith)
le_bytes-read_le (suc size) (b ∷ p) h e =
    let ih = le_bytes-read_le size p h.1 (omega arith) in
    let small = h.0 in
    let below = ih.1 in
    let first : (b + 256 * read_le p) % 256 ≡ b = omega (arith, small) in
    let rest : (b + 256 * read_le p) / 256 ≡ read_le p = omega (arith, small) in
    (rw (first, rest, ih.0) refl, omega (arith, small, below))

append_le32-le_bytes : (x : ℕ) → append_le32 x ≡ le_bytes 4 x
unfolding append_le32 le_bytes
append_le32-le_bytes x =
    let b : x / 2 ^ 8 ≡ x / 256 = omega arith in
    let c : x / 2 ^ 16 ≡ x / 256 / 256 = omega arith in
    let d : x / 2 ^ 24 ≡ x / 256 / 256 / 256 = omega arith in rw (b, c, d) refl

append_le64-le_bytes : (x : ℕ) → append_le64 x ≡ le_bytes 8 x
unfolding append_le64 le_bytes
append_le64-le_bytes x =
    let b : x / 2 ^ 8 ≡ x / 256 = omega arith in
    let c : x / 2 ^ 16 ≡ x / 256 / 256 = omega arith in
    let d : x / 2 ^ 24 ≡ x / 256 / 256 / 256 = omega arith in
    let e : x / 2 ^ 32 ≡ x / 256 / 256 / 256 / 256 = omega arith in
    let f : x / 2 ^ 40 ≡ x / 256 / 256 / 256 / 256 / 256 = omega arith in
    let g : x / 2 ^ 48 ≡ x / 256 / 256 / 256 / 256 / 256 / 256 = omega arith in
    let h : x / 2 ^ 56 ≡ x / 256 / 256 / 256 / 256 / 256 / 256 / 256 = omega arith in
    rw (b, c, d, e, f, g, h) refl

pub append_le32-read_le :
    (p : Bytes)
    → All (λ b. b < 256) p
    → (length p == 4) ≡ true
    → (append_le32 (read_le p) ≡ p) × (read_le p < 4294967296)
unfolding limit
append_le32-read_le p h e =
    let read = le_bytes-read_le 4 p h (ground (arith, e)) in
    (append_le32-le_bytes (read_le p) ∙ read.0, read.1)

pub append_le64-read_le :
    (p : Bytes)
    → All (λ b. b < 256) p
    → (length p == 8) ≡ true
    → (append_le64 (read_le p) ≡ p) × (read_le p < 18446744073709551616)
unfolding limit
append_le64-read_le p h e =
    let read = le_bytes-read_le 8 p h (ground (arith, e)) in
    (append_le64-le_bytes (read_le p) ∙ read.0, read.1)
