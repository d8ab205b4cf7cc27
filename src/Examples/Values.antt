-- ===== src/Examples/Values.antt =====
-- The theorems on values and UTF-8 at small inputs.
use esdb.Prelude.{ℕ, ◌≡◌, ◌↔◌, refl, true, some, List, [], ◌∷◌, All}
use esdb.Bytes.{Bytes}
use esdb.Errors.{all_granted}
use esdb.Utf8.{valid_utf8, utf8_loop, next_char, lead, continuation, acceptable}
use esdb.Utf8.Encoding.{IsScalar, encode_all}
use esdb.Utf8.Complete.{valid_utf8_iff}
use esdb.Value.{Value, int32, create_int32, allocate_payload, append_le32}
use esdb.Value.Canonical.{construct, of_int32, payload_valid, construct-payload_valid}

-- "é"
abbrev e_acute : Bytes
e_acute = 195 ∷ 169 ∷ []

e_acute-valid : valid_utf8 e_acute ≡ true
unfolding valid_utf8 utf8_loop next_char lead continuation acceptable
e_acute-valid = refl

valid_utf8_iff_example :
    (valid_utf8 e_acute ≡ true) ↔ ((cs : List ℕ) × All IsScalar cs × (e_acute ≡ encode_all cs))
valid_utf8_iff_example = valid_utf8_iff e_acute

abbrev five : Value
five = record { type = int32; payload = 5 ∷ 0 ∷ 0 ∷ 0 ∷ [] }

five-constructed : (construct all_granted (of_int32 5) true).out ≡ some five
unfolding construct create_int32 allocate_payload append_le32
five-constructed = refl

construct-payload_valid_example : payload_valid five.type five.payload ≡ true
construct-payload_valid_example =
    construct-payload_valid all_granted (of_int32 5) true five five-constructed
