-- ===== src/Utf8.antt =====
-- The validators of src/esdb_runtime.cpp (`valid_utf8`, `valid_c_string`, the names and keys, the
-- savepoint names).
pub mod Encoding
pub mod Sound
pub mod Complete
use esdb.Prelude.{
  ℕ, zero, suc, ◌+◌, ◌-◌, ◌*◌, ◌/◌, ◌%◌, Bool, true, false, not, ◌&&◌, ◌||◌, Option, none, some,
  List, [], ◌∷◌, ltb, leb, ◌==◌, if◌then◌else◌, length, take,
}
use esdb.Bytes.{Bytes, CString}

-- The class of a lead byte: how many continuation bytes it needs, and its own bits of the code
-- point (`c & 0x1f` is `c % 32`).
unfoldable pub lead : ℕ → Option (ℕ × ℕ)
lead c =
    if leb c 0x7f
    then some (0, c)
    else if leb 0xc2 c && leb c 0xdf
    then some (1, c % 32)
    else if leb 0xe0 c && leb c 0xef
    then some (2, c % 16)
    else if leb 0xf0 c && leb c 0xf4
    then some (3, c % 8)
    else none

-- The inner loop. `(cc & 0xc0) != 0x80` is `cc / 64 != 2`, and `(code << 6) | (cc & 0x3f)` is
-- `code * 64 + cc % 64`. It returns the code point and what follows; `none` rejects the text, also
-- where the text ends first (`i + need > size`).
unfoldable pub continuation : ℕ → ℕ → Bytes → Option (ℕ × Bytes)
continuation zero code rest = some (code, rest)
continuation (suc need) code [] = none
continuation (suc need) code (cc ∷ rest) =
    let more = continuation need (code * 64 + cc % 64) rest in if cc / 64 == 2 then more else none

-- The tests after the inner loop: no overlong form, no surrogate, nothing above U+10FFFF.
unfoldable pub acceptable : ℕ → ℕ → Bool
acceptable need code =
    not ((need == 2 && ltb code 0x800) || (need == 3 && ltb code 0x10000))
    && not (leb 0xd800 code && leb code 0xdfff)
    && not (ltb 0x10ffff code)

-- One round of the outer loop.
unfoldable pub next_char : Bytes → Option (ℕ × Bytes)
unfolding lead continuation acceptable
next_char [] = none
next_char (c ∷ rest) = elim (lead c) [
  | none ↦ none
  | some (zero, code) ↦ some (code, rest)
  | some (suc need, code) ↦ elim (continuation (suc need) code rest) [
    | none ↦ none
    | some (code', rest') ↦ if acceptable (suc need) code' then some (code', rest') else none
  ]
]

-- The outer loop, a character to a round. Each round takes a byte at least, so that as many rounds
-- as there are bytes are enough.
unfoldable pub utf8_loop : ℕ → Bytes → Bool
unfolding next_char
utf8_loop fuel [] = true
utf8_loop zero (c ∷ rest) = false
utf8_loop (suc fuel) (c ∷ rest) = elim (next_char (c ∷ rest)) [
  | none ↦ false
  | some (code, rest') ↦ utf8_loop fuel rest'
]

unfoldable pub valid_utf8 : Bytes → Bool
unfolding utf8_loop
valid_utf8 text = utf8_loop (length text) text

-- `while (length <= max_bytes && text[length] != '\0') ++length;`
unfoldable pub bounded_length : ℕ → ℕ → Bytes → ℕ
bounded_length max_bytes len [] = len
bounded_length max_bytes len (c ∷ rest) =
    let more = bounded_length max_bytes (suc len) rest in if leb len max_bytes then more else len

unfoldable pub valid_c_string : ℕ → CString → Bool
valid_c_string max_bytes none = false
valid_c_string max_bytes (some []) = false
valid_c_string max_bytes (some (c ∷ rest)) =
    let len = bounded_length max_bytes 0 (c ∷ rest) in
    ltb 0 len && leb len max_bytes && valid_utf8 (take len (c ∷ rest))

abbrev pub object_store_name_max_bytes : ℕ
object_store_name_max_bytes = 255

abbrev pub object_store_key_max_bytes : ℕ
object_store_key_max_bytes = 4096

unfoldable pub valid_object_store_name : CString → Bool
valid_object_store_name = valid_c_string object_store_name_max_bytes

unfoldable pub valid_object_store_key : CString → Bool
valid_object_store_key = valid_c_string object_store_key_max_bytes
