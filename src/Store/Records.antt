-- ===== src/Store/Records.antt =====
-- `std::map<std::string, MemoryRecord, ByteLess>` as src/esdb_store.cpp uses it: a list in the
-- order of its keys. Two keys are the same if neither precedes the other.
use esdb.Prelude.{
  ℕ, ◌≡◌, refl, Bool, true, not, ◌&&◌, Option, none, some, List, [], ◌∷◌, arith, if◌then◌else◌,
}
use esdb.Bytes.{
  Bytes, byte_less, byte_less_trans, byte_less_irrefl, byte_less_asym, byte_less_antisym,
}
use esdb.Value.{Value}

pub record MemoryRecord : Type 0 where
  pub value : Value
  pub revision : ℕ

abbrev pub Records : Type 0
Records = List (Bytes × MemoryRecord)

unfoldable pub same_key : Bytes → Bytes → Bool
same_key j k = not (byte_less j k) && not (byte_less k j)

unfoldable pub find : Bytes → Records → Option MemoryRecord
find k [] = none
find k ((j, r) ∷ m) = if byte_less k j then none else if byte_less j k then find k m else some r

-- Assignment to the record of an existing key, or `emplace` of a new one.
unfoldable pub upsert : Bytes → MemoryRecord → Records → Records
upsert k r [] = (k, r) ∷ []
upsert k r ((j, q) ∷ m) =
    let later = (j, q) ∷ upsert k r m in
    if byte_less k j then (k, r) ∷ (j, q) ∷ m else if byte_less j k then later else (j, r) ∷ m

unfoldable pub erase : Bytes → Records → Records
erase k [] = []
erase k ((j, q) ∷ m) =
    let later = (j, q) ∷ erase k m in
    if byte_less k j then (j, q) ∷ m else if byte_less j k then later else m

-- The records whose key comes after `k`.
unfoldable pub upper_bound : Bytes → Records → Records
upper_bound k [] = []
upper_bound k ((j, q) ∷ m) =
    let later = upper_bound k m in if byte_less k j then (j, q) ∷ m else later

abbrev pub Above : Bytes → Records → Type 0
Above k [] = Unit {0}
Above k ((j, q) ∷ m) = byte_less k j ≡ true

-- The keys rise strictly along the list.
abbrev pub IsSorted : Records → Type 0
IsSorted [] = Unit {0}
IsSorted ((j, q) ∷ m) = Above j m × IsSorted m

pub same_key_refl : (k : Bytes) → same_key k k ≡ true
unfolding same_key
same_key_refl k = ground (arith, byte_less_irrefl k)

pub eq_of_same_key : (j k : Bytes) → same_key j k ≡ true → j ≡ k
unfolding same_key
eq_of_same_key j k h = ground (arith, byte_less_antisym j k)

Above-trans : (i j : Bytes) (m : Records) → byte_less i j ≡ true → Above j m → Above i m
Above-trans i j [] p a = tt
Above-trans i j ((k, r) ∷ m) p a = byte_less_trans i j k p a

Above-upsert :
    (i k : Bytes) (r : MemoryRecord) (m : Records)
    → byte_less i k ≡ true
    → Above i m
    → Above i (upsert k r m)
unfolding upsert
Above-upsert i k r [] p a = p
Above-upsert i k r ((j, q) ∷ m) p a = ground arith

pub upsert-IsSorted :
    (k : Bytes) (r : MemoryRecord) (m : Records) → IsSorted m → IsSorted (upsert k r m)
unfolding upsert
upsert-IsSorted k r [] s = (tt, tt)
upsert-IsSorted k r ((j, q) ∷ m) s = ground (arith, upsert-IsSorted k r m s.1, Above-upsert j k r m)

Above-erase : (i k : Bytes) (m : Records) → IsSorted m → Above i m → Above i (erase k m)
unfolding erase
Above-erase i k [] s a = tt
Above-erase i k ((j, q) ∷ m) s a = ground (arith, Above-trans i j m a s.0)

pub erase-IsSorted : (k : Bytes) (m : Records) → IsSorted m → IsSorted (erase k m)
unfolding erase
erase-IsSorted k [] s = tt
erase-IsSorted k ((j, q) ∷ m) s = ground (arith, erase-IsSorted k m s.1, Above-erase j k m s.1 s.0)

find-Above : (k : Bytes) (m : Records) → Above k m → find k m ≡ none
unfolding find
find-Above k [] a = refl
find-Above k ((j, q) ∷ m) a = ground arith

-- A write shows under its own key, and under no other.
pub find-upsert :
    (k j : Bytes) (r : MemoryRecord) (m : Records)
    → find j (upsert k r m) ≡ (if same_key k j then some r else find j m)
unfolding find upsert same_key
find-upsert k j r [] = ground arith
find-upsert k j r ((i, q) ∷ m) = ground (
  arith,
  find-upsert k j r m,
  byte_less_trans j k i,
  byte_less_trans k i j,
  byte_less_antisym k i,
  byte_less_antisym k j,
  byte_less_antisym j i,
  byte_less_asym k i,
  byte_less_asym k j,
  byte_less_asym j i,
)

pub find-erase :
    (k j : Bytes) (m : Records)
    → IsSorted m
    → find j (erase k m) ≡ (if same_key k j then none else find j m)
unfolding find erase same_key
find-erase k j [] s = ground arith
find-erase k j ((i, q) ∷ m) s = ground (
  arith,
  find-erase k j m s.1,
  find-Above i m s.0,
  find-Above j m,
  Above-trans j i m,
  byte_less_trans k j i,
  byte_less_trans j k i,
  byte_less_antisym k i,
  byte_less_antisym k j,
  byte_less_antisym j i,
  byte_less_asym k i,
  byte_less_asym k j,
  byte_less_asym j i,
)

-- Taking back a record that was put under a new key.
pub erase-upsert_new :
    (k : Bytes) (r : MemoryRecord) (m : Records) → find k m ≡ none → erase k (upsert k r m) ≡ m
unfolding find upsert erase
erase-upsert_new k r [] h = ground (arith, byte_less_irrefl k)
erase-upsert_new k r ((j, q) ∷ m) h =
    ground (arith, erase-upsert_new k r m, byte_less_irrefl k, byte_less_asym j k)

-- Putting the previous record back under an existing key.
pub upsert-upsert_old :
    (k : Bytes) (r q : MemoryRecord) (m : Records)
    → find k m ≡ some q
    → upsert k q (upsert k r m) ≡ m
unfolding find upsert
upsert-upsert_old k r q [] h = ground arith
upsert-upsert_old k r q ((j, p) ∷ m) h = ground (arith, upsert-upsert_old k r q m)
