-- ===== src/Bytes.antt =====
-- Byte strings, and the order ByteLess of src/esdb_store.cpp. A byte is a number; a C string is
-- the list of its bytes before the terminating NUL, and a null pointer is `none`.
use esdb.Prelude.{ℕ, ◌≡◌, refl, Bool, true, false, List, [], ◌∷◌, Option, arith, ltb, if◌then◌else◌}

abbrev pub Bytes : Type 0
Bytes = List ℕ

abbrev pub CString : Type 0
CString = Option Bytes

-- ByteLess: the first byte that differs decides, and a proper prefix comes first.
unfoldable pub byte_less : Bytes → Bytes → Bool
byte_less [] [] = false
byte_less [] (b ∷ right) = true
byte_less (a ∷ left) [] = false
byte_less (a ∷ left) (b ∷ right) =
    if ltb a b then true else if ltb b a then false else byte_less left right

pub byte_less_irrefl : (k : Bytes) → byte_less k k ≡ false
unfolding byte_less
byte_less_irrefl [] = refl
byte_less_irrefl (a ∷ k) = ground (arith, byte_less_irrefl k)

pub byte_less_trans :
    (i j k : Bytes) → byte_less i j ≡ true → byte_less j k ≡ true → byte_less i k ≡ true
unfolding byte_less
byte_less_trans [] [] k p q = ground arith
byte_less_trans [] (b ∷ j) [] p q = ground arith
byte_less_trans [] (b ∷ j) (c ∷ k) p q = refl
byte_less_trans (a ∷ i) [] k p q = ground arith
byte_less_trans (a ∷ i) (b ∷ j) [] p q = ground arith
byte_less_trans (a ∷ i) (b ∷ j) (c ∷ k) p q = ground (arith, byte_less_trans i j k)

-- Two keys that neither precede one another are the same key.
pub byte_less_antisym : (j k : Bytes) → byte_less j k ≡ false → byte_less k j ≡ false → j ≡ k
unfolding byte_less
byte_less_antisym [] [] p q = refl
byte_less_antisym [] (b ∷ k) p q = ground arith
byte_less_antisym (a ∷ j) [] p q = ground arith
byte_less_antisym (a ∷ j) (b ∷ k) p q = ground (arith, byte_less_antisym j k)

pub byte_less_asym : (j k : Bytes) → byte_less j k ≡ true → byte_less k j ≡ false
unfolding byte_less
byte_less_asym [] [] p = refl
byte_less_asym [] (b ∷ k) p = refl
byte_less_asym (a ∷ j) [] p = ground arith
byte_less_asym (a ∷ j) (b ∷ k) p = ground (arith, byte_less_asym j k)
