-- ===== src/Adapter/Hex.antt =====
-- The hexadecimal codec of adapters/externalobject/esdb_externalobject.cpp, by which text with any
-- byte but NUL crosses the host's ASCII boundary.
use esdb.Prelude.{
  ℕ, ◌+◌, ◌-◌, ◌*◌, ◌/◌, ◌%◌, Bool, true, false, not, ◌&&◌, Option, none, some, [], ◌∷◌, ltb, leb,
  ◌==◌, if◌then◌else◌,
}
use esdb.Bytes.{Bytes, CString}
use esdb.Adapter.Handles.{is_empty}

-- A negative result is `none`.
unfoldable pub hex_nibble : ℕ → Option ℕ
hex_nibble c =
    if leb 48 c && leb c 57
    then some (c - 48)
    else (if leb 97 c && leb c 102
        then some (10 + (c - 97))
        else (if leb 65 c && leb c 70 then some (10 + (c - 65)) else none))

abbrev combine : Option ℕ → Option ℕ → Option Bytes → Option Bytes
combine (some hi) (some lo) (some out) = some ((hi * 16 + lo) % 256 ∷ out)
combine _ _ _ = none

-- The loop of `hex_decode`: a length that is odd is refused, and so is any other character.
unfoldable pub hex_pairs : Bytes → Option Bytes
hex_pairs [] = some []
hex_pairs (hi ∷ []) = none
hex_pairs (hi ∷ lo ∷ text) = combine (hex_nibble hi) (hex_nibble lo) (hex_pairs text)

unfoldable pub hex_decode : CString → Option Bytes
hex_decode none = none
hex_decode (some text) = hex_pairs text

abbrev pub no_nul : Bytes → Bool
no_nul [] = true
no_nul (b ∷ bytes) = not (b == 0) && no_nul bytes

unfoldable pub decode_hex_cstring : CString → Bool → Option Bytes
decode_hex_cstring text allow_empty = elim (hex_decode text) [
  | none ↦ none
  | some decoded ↦
      if is_empty decoded && not allow_empty
      then none
      else (if no_nul decoded then some decoded else none)
]

-- The name of a Store and a key, both in hexadecimal and neither of them empty.
unfoldable pub decode_store_key_args : CString → CString → Option (Bytes × Bytes)
decode_store_key_args store_hex key_hex = elim (decode_hex_cstring store_hex false) [
  | none ↦ none
  | some store_name ↦ elim (decode_hex_cstring key_hex false) [
    | none ↦ none
    | some key ↦ some (store_name, key)
  ]
]

-- The entry of the table "0123456789ABCDEF".
unfoldable pub hex_digit : ℕ → ℕ
hex_digit v = if ltb v 10 then v + 48 else v + 55

unfoldable pub hex_encode : Bytes → Bytes
hex_encode [] = []
hex_encode (value ∷ bytes) = hex_digit (value / 16) ∷ hex_digit (value % 16) ∷ hex_encode bytes
