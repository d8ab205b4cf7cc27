-- ===== src/Runtime/SavepointName.antt =====
-- `valid_savepoint_name` of src/esdb_runtime.cpp.
use esdb.Prelude.{
  ℕ, suc, ◌+◌, ◌-◌, Bool, true, false, not, ◌&&◌, ◌||◌, none, some, [], ◌∷◌, ltb, leb, ◌==◌,
  if◌then◌else◌,
}
use esdb.Bytes.{Bytes, CString}

abbrev pub savepoint_name_max_bytes : ℕ
savepoint_name_max_bytes = 64

unfoldable pub is_between : ℕ → ℕ → ℕ → Bool
is_between low high c = leb low c && leb c high

unfoldable pub is_allowed : ℕ → Bool
is_allowed c = is_between 65 90 c || is_between 97 122 c || is_between 48 57 c || c == 95

unfoldable pub to_lower : ℕ → ℕ
to_lower c = if is_between 65 90 c then c - 65 + 97 else c

-- The loop over the characters, with the length so far.
unfoldable pub allowed_loop : ℕ → Bytes → Bool
allowed_loop length [] = true
allowed_loop length (c ∷ text) =
    let rest = allowed_loop (suc length) text in
    if is_allowed c
    then if ltb savepoint_name_max_bytes (suc length) then false else rest
    else false

-- "__esdb_"
abbrev pub reserved : Bytes
reserved = 95 ∷ 95 ∷ 101 ∷ 115 ∷ 100 ∷ 98 ∷ 95 ∷ []

-- Whether a text begins with a prefix, in lower case.
unfoldable pub has_prefix : Bytes → Bytes → Bool
has_prefix [] text = true
has_prefix (p ∷ prefix) [] = false
has_prefix (p ∷ prefix) (c ∷ text) = to_lower c == p && has_prefix prefix text

unfoldable pub valid_savepoint_name : CString → Bool
valid_savepoint_name none = false
valid_savepoint_name (some []) = false
valid_savepoint_name (some (c ∷ text)) =
    if allowed_loop 0 (c ∷ text) then not (has_prefix reserved (c ∷ text)) else false
