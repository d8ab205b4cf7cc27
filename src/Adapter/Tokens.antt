-- ===== src/Adapter/Tokens.antt =====
-- Tokens and slots of adapters/externalobject/esdb_externalobject.cpp: what a token names, and what
-- it no longer names.
use esdb.Prelude.{
  ℕ, ◌+◌, ◌*◌, ◌%◌, ◌≤◌, ◌<◌, ◌≡◌, arith, Bool, true, false, ◌||◌, none, some, List, [], ◌∷◌, ltb,
  get_elem?, Option-cases, inl, inr,
}
use esdb.Adapter.Handles.{
  Slot, generation_max, slot_count, encode_handle, decode_handle, lookup_slot, check_slot, is_some,
}

-- A token names the slot and the generation that it was made from.
pub decode-encode :
    (slot_index generation : ℕ)
    → slot_index < slot_count
    → 1 ≤ generation
    → generation ≤ generation_max
    → decode_handle (encode_handle slot_index generation) ≡ some (slot_index, generation)
unfolding encode_handle decode_handle
decode-encode i g lt low high =
    let small : (g * 256) % 4294967296 ≡ g * 256 = omega arith in
    let token : (g * 256 + (i + 1)) % 4294967296 ≡ g * 256 + (i + 1) = omega arith in
    ground (arith, small, token)

-- Only one 32-bit token names a slot and a generation.
pub encode-decode :
    (token slot_index generation : ℕ)
    → decode_handle token ≡ some (slot_index, generation)
    → encode_handle slot_index generation ≡ token
unfolding encode_handle decode_handle
encode-decode token i g h = ground (arith, h)

-- Generations only rise, and a retired slot stays retired.
abbrev pub Later : Slot → Slot → Type 0
Later s t = (s.generation ≤ t.generation) × (s.retired ≡ true → t.retired ≡ true)

abbrev pub AllLater : List Slot → List Slot → Type 0
AllLater [] [] = Unit {0}
AllLater (s ∷ ss) (t ∷ ts) = Later s t × AllLater ss ts
AllLater [] (t ∷ ts) = ⊥
AllLater (s ∷ ss) [] = ⊥

-- The slot of the token is retired, or has a later generation.
unfoldable pub spent : List Slot → ℕ → Bool
unfolding decode_handle
spent slots token = elim (decode_handle token) [
  | none ↦ false
  | some (i, generation) ↦ elim (get_elem? slots i) [
    | none ↦ false
    | some slot ↦ slot.retired || ltb generation slot.generation
  ]
]

pub spent-lookup :
    (slots : List Slot) (token : ℕ) → spent slots token ≡ true → lookup_slot slots token ≡ none
unfolding spent lookup_slot check_slot
spent-lookup slots token h = ground (arith, h)

-- What the lookup of a live token has found.
pub lookup-some :
    (slots : List Slot) (token i : ℕ) (slot : Slot)
    → lookup_slot slots token ≡ some (i, slot)
    → (decode_handle token ≡ some (i, slot.generation))
      × (get_elem? slots i ≡ some slot)
      × (slot.retired ≡ false)
      × (is_some slot.database ≡ true)
unfolding lookup_slot check_slot
lookup-some slots token i slot h = elim (Option-cases (decode_handle token)) [
  | inl e ↦ absurd (ground (arith, h, e))
  | inr ((j, g), e) ↦ elim (Option-cases (get_elem? slots j)) [
    | inl q ↦ absurd (ground (arith, h, e, q))
    | inr (s, q) ↦ ground (arith, h, e, q)
  ]
]

pub some-lookup :
    (slots : List Slot) (token i : ℕ) (slot : Slot)
    → decode_handle token ≡ some (i, slot.generation)
    → get_elem? slots i ≡ some slot
    → slot.retired ≡ false
    → is_some slot.database ≡ true
    → lookup_slot slots token ≡ some (i, slot)
unfolding lookup_slot check_slot
some-lookup slots token i slot e q r d = ground (arith, e, q, r, d)
