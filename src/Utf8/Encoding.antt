-- ===== src/Utf8/Encoding.antt =====
-- UTF-8 as the Unicode standard defines it, independently of the validator: the scalar values and
-- their shortest encodings.
use esdb.Prelude.{ℕ, ◌+◌, ◌/◌, ◌%◌, ◌≤◌, ◌<◌, ◌⊎◌, List, [], ◌∷◌, ◌++◌, ltb, if◌then◌else◌}
use esdb.Bytes.{Bytes}

-- A Unicode scalar value: a code point that is no surrogate.
abbrev pub IsScalar : ℕ → Type 0
IsScalar c = (c < 0xd800) ⊎ ((0xe000 ≤ c) × (c < 0x110000))

abbrev pub trail : ℕ → ℕ
trail x = 0x80 + x % 64

unfoldable pub encode : ℕ → Bytes
encode c =
    if ltb c 0x80
    then c ∷ []
    else if ltb c 0x800
    then (0xc0 + c / 64) ∷ trail c ∷ []
    else if ltb c 0x10000
    then (0xe0 + c / 4096) ∷ trail (c / 64) ∷ trail c ∷ []
    else (0xf0 + c / 262144) ∷ trail (c / 4096) ∷ trail (c / 64) ∷ trail c ∷ []

unfoldable pub encode_all : List ℕ → Bytes
encode_all [] = []
encode_all (c ∷ cs) = encode c ++ encode_all cs
