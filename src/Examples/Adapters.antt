-- ===== src/Examples/Adapters.antt =====
-- The theorems on the handle table and the codecs of adapters/externalobject/
-- esdb_externalobject.cpp at small inputs.
use esdb.Prelude.{ℕ, ◌+◌, ◌≡◌, ◌≢◌, refl, arith, true, false, none, some, List, [], ◌∷◌}
use esdb.Bytes.{Bytes}
use esdb.Errors.{Result, got, granted}
use esdb.Adapter.Handles.{
  Table, Slot, initial_slots, slot_count, adapter_ok, open_staged, close, lookup_slot,
  encode_handle, decode_handle, settle, claim, check_slot,
}
use esdb.Adapter.Tokens.{decode-encode, encode-decode, spent}
use esdb.Adapter.Stale.{Event, opens, terminates, handle, handle_all, closed_lookup}
use esdb.Adapter.WellFormed.{IsGoodTable, initial-IsGood, handle_all-IsGood}
use esdb.Adapter.Live.{open_staged-lookup}
use esdb.Adapter.Ownership.{accounted, opened, handle-accounted}
use esdb.Adapter.Hex.{hex_decode, hex_pairs, hex_nibble, decode_hex_cstring}

-- A table with the path "d" staged.
abbrev staged : Table
staged = record {
  slots = initial_slots slot_count;
  staged_path = 100 ∷ [];
  last_error = adapter_ok;
  closed = [];
  destroyed = [];
}

-- Every path opens as the database 7.
abbrev opens_7 : Bytes → Result ℕ
opens_7 path = got 7

abbrev one_open : ℕ × Table
one_open = open_staged granted true opens_7 staged

abbrev two_open : ℕ × Table
two_open = open_staged granted true opens_7 one_open.1

abbrev events : List Event
events = opens granted true opens_7 ∷ terminates ∷ []

-- The second token: the second slot at its first generation.
second-token : two_open.0 ≡ 258
unfolding open_staged settle claim encode_handle initial_slots
second-token = refl

closes_first : (close (some 257) one_open.1).0 ≡ true
unfolding open_staged settle claim encode_handle initial_slots close lookup_slot decode_handle
    check_slot
closes_first = refl

first_some : one_open.0 ≢ 0
unfolding open_staged settle claim encode_handle initial_slots
first_some h = omega arith

first_lookup :
    lookup_slot one_open.1.slots 257
    ≡ some (0, record { database = some 7; transaction = none; generation = 1; retired = false })
unfolding open_staged settle claim encode_handle initial_slots lookup_slot decode_handle check_slot
first_lookup = refl

first_lookup_later :
    lookup_slot two_open.1.slots 257
    ≡ some (0, record { database = some 7; transaction = none; generation = 1; retired = false })
unfolding open_staged settle claim encode_handle initial_slots lookup_slot decode_handle check_slot
first_lookup_later = refl

decode-encode_example : decode_handle (encode_handle 3 5) ≡ some (3, 5)
decode-encode_example = decode-encode 3 5 (omega arith) (omega arith) (omega arith)

first-decoded : decode_handle 257 ≡ some (0, 1)
unfolding decode_handle
first-decoded = refl

encode-decode_example : encode_handle 0 1 ≡ 257
encode-decode_example = encode-decode 257 0 1 first-decoded

closed_lookup_example :
    lookup_slot (handle_all (close (some 257) one_open.1).1 events).slots 257 ≡ none
closed_lookup_example = closed_lookup 257 one_open.1 events closes_first

handle_all-IsGood_example : IsGoodTable (handle_all staged events).slots
handle_all-IsGood_example = handle_all-IsGood staged events initial-IsGood

open_staged-lookup_example :
    (db : ℕ) × (i : ℕ) × (s : Slot) × (opens_7 staged.staged_path ≡ got db)
    × (s.database ≡ some db)
    × (lookup_slot staged.slots one_open.0 ≡ none)
    × (spent staged.slots one_open.0 ≡ false)
    × (lookup_slot one_open.1.slots one_open.0 ≡ some (i, s))
open_staged-lookup_example =
    open_staged-lookup granted true opens_7 staged initial-IsGood first_some

handle-accounted_example :
    accounted 7 (handle staged (opens granted true opens_7))
    ≡ opened 7 staged (opens granted true opens_7) + accounted 7 staged
handle-accounted_example = handle-accounted 7 staged (opens granted true opens_7)

-- "aB" spells the byte 0xab.
ab-decoded : hex_decode (some (97 ∷ 66 ∷ [])) ≡ some (171 ∷ [])
unfolding hex_decode hex_pairs hex_nibble
ab-decoded = refl

ab-cstring : decode_hex_cstring (some (97 ∷ 66 ∷ [])) false ≡ some (171 ∷ [])
unfolding decode_hex_cstring hex_decode hex_pairs hex_nibble
ab-cstring = refl
