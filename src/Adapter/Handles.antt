-- ===== src/Adapter/Handles.antt =====
-- The handle table of adapters/externalobject/esdb_externalobject.cpp: 255 slots whose tokens carry
-- a generation, and `openStaged`, `close` and `ESABI_TERMINATE_FUNCTION` over it.
--
-- A token is the 32-bit pattern of an `esabi_i32`. Databases and transactions are named by numbers;
-- what the runtime is told to close or destroy is logged, the latest first.
use esdb.Prelude.{
  ◌-◌, ℕ, zero, suc, ◌+◌, ◌*◌, ◌/◌, ◌%◌, Bool, true, false, not, ◌&&◌, ◌||◌, Option, none, some,
  List, [], ◌∷◌, ltb, leb, ◌==◌, if◌then◌else◌, get_elem?, set,
}
use esdb.Bytes.{Bytes}
use esdb.Errors.{Result, got, refused, Status, AllocOutcome, attempt}

abbrev pub slot_count : ℕ
slot_count = 255

-- `INT32_MAX >> k_slot_bits`
abbrev pub generation_max : ℕ
generation_max = 8388607

pub record Slot : Type 0 where
  pub database : Option ℕ
  pub transaction : Option ℕ
  pub generation : ℕ
  pub retired : Bool

pub data AdapterCode : Type 0 where
  adapter_ok bad_argument no_staged_path open_failed handle_exhausted : AdapterCode
  invalid_handle database_error adapter_out_of_memory adapter_internal : AdapterCode

pub record Table : Type 0 where
  pub slots : List Slot
  pub staged_path : Bytes
  pub last_error : AdapterCode
  pub closed : List ℕ
  pub destroyed : List ℕ

abbrev pub initial_slot : Slot
initial_slot = record { database = none; transaction = none; generation = 1; retired = false }

unfoldable pub initial_slots : ℕ → List Slot
initial_slots zero = []
initial_slots (suc n) = initial_slot ∷ initial_slots n

-- A slot index is below 255, so that the `|` of the source adds its two disjoint parts.
unfoldable pub encode_handle : ℕ → ℕ → ℕ
encode_handle slot_index generation =
    ((generation * 256) % 4294967296 + (slot_index + 1)) % 4294967296

-- `token <= 0` on the pattern of a signed number.
abbrev pub not_positive : ℕ → Bool
not_positive token = token == 0 || leb 2147483648 token

unfoldable pub decode_handle : ℕ → Option (ℕ × ℕ)
decode_handle token =
    let slot = token % 256 in
    let generation = token / 256 in
    if not_positive token
    then none
    else (if slot == 0 || ltb slot_count slot
        then none
        else (if generation == 0 || ltb generation_max generation
            then none
            else some (slot - 1, generation)))

abbrev pub is_some : Option ℕ → Bool
is_some none = false
is_some (some x) = true

-- The slot at an index, for a token of the given generation.
unfoldable pub check_slot : Slot → ℕ → Bool
check_slot slot generation =
    not (slot.retired || not (is_some slot.database) || not (slot.generation == generation))

-- `lookup_slot_unlocked`, with the index in place of the pointer.
unfoldable pub lookup_slot : List Slot → ℕ → Option (ℕ × Slot)
lookup_slot slots token = elim (decode_handle token) [
  | none ↦ none
  | some (i, generation) ↦ elim (get_elem? slots i) [
    | none ↦ none
    | some slot ↦ if check_slot slot generation then some (i, slot) else none
  ]
]

unfoldable pub advance_generation : Slot → Slot
advance_generation slot =
    if leb generation_max slot.generation
    then record slot { retired = true }
    else record slot { generation = suc slot.generation }

-- What the catch clauses of an exported call record.
abbrev pub exception_code : Status → AdapterCode
exception_code Status.out_of_memory = adapter_out_of_memory
exception_code _ = adapter_internal

-- Assigning the path allocates.
unfoldable pub stage : AllocOutcome → Option Bytes → Table → Bool × Table
stage outcome none t = (false, record t { last_error = bad_argument })
stage outcome (some []) t = (false, record t { last_error = bad_argument })
stage outcome (some (b ∷ path)) t =
    attempt outcome (λ st. (false, record t { last_error = exception_code st }))
      (true, record t { staged_path = b ∷ path; last_error = adapter_ok })

-- The loop of `openStaged` from an index on: the first free slot takes the database.
unfoldable pub claim : ℕ → ℕ → List Slot → Option (ℕ × ℕ × List Slot)
claim db i [] = none
claim db i (slot ∷ slots) =
    let rest = claim db (suc i) slots in
    if not (is_some slot.database) && not slot.retired
    then some (i, slot.generation, record slot { database = some db } ∷ slots)
    else elim rest [ none ↦ none | some (j, g, after) ↦ some (j, g, slot ∷ after) ]

-- The end of `openStaged`: an open database goes to a slot, or is closed where all are in use.
unfoldable pub settle : ℕ → Table → ℕ × Table
settle db t = elim (claim db 0 t.slots) [
  | none ↦ (0, record t { last_error = handle_exhausted; closed = db ∷ t.closed })
  | some (i, g, slots) ↦ (encode_handle i g, record t { slots = slots; last_error = adapter_ok })
]

abbrev pub is_empty : Bytes → Bool
is_empty [] = true
is_empty (b ∷ path) = false

-- `openStaged`: the outcome of copying the path, whether there is a dummy argument, and the result of
-- `esdb_open` on the staged path. The token 0 is a failure.
unfoldable pub open_staged : AllocOutcome → Bool → (Bytes → Result ℕ) → Table → ℕ × Table
open_staged outcome false esdb_open t = (0, record t { last_error = bad_argument })
open_staged outcome true esdb_open t =
    if is_empty t.staged_path
    then (0, record t { last_error = no_staged_path })
    else attempt outcome (λ st. (0, record t { last_error = exception_code st }))
        (elim (esdb_open t.staged_path) [
          | refused status ↦ (0, record t { last_error = open_failed })
          | got db ↦ settle db t
        ])

unfoldable pub log : Option ℕ → List ℕ → List ℕ
log none xs = xs
log (some x) xs = x ∷ xs

-- Closing a slot: its transaction is destroyed first.
abbrev pub vacated : Slot → Slot
vacated slot = record slot { database = none; transaction = none }

unfoldable pub close : Option ℕ → Table → Bool × Table
close none t = (false, record t { last_error = bad_argument })
close (some token) t =
    if not_positive token
    then (false, record t { last_error = bad_argument })
    else elim (lookup_slot t.slots token) [
      | none ↦ (false, record t { last_error = invalid_handle })
      | some (i, slot) ↦ (
        true,
        record t {
          slots = set t.slots i (advance_generation (vacated slot));
          last_error = adapter_ok;
          closed = log slot.database t.closed;
          destroyed = log slot.transaction t.destroyed;
        },
      )
    ]

unfoldable pub shut_slot : Slot → Slot
shut_slot slot = elim slot.database [
  | none ↦ record slot { transaction = none }
  | some db ↦ advance_generation (vacated slot)
]

-- The loop of `ESABI_TERMINATE_FUNCTION`.
unfoldable pub shut_slots : List Slot → Table → List Slot × Table
shut_slots [] t = ([], t)
shut_slots (slot ∷ slots) t =
    let logged = record t {
      closed = log slot.database t.closed;
      destroyed = log slot.transaction t.destroyed;
    } in
    let rest = shut_slots slots logged in (shut_slot slot ∷ rest.0, rest.1)

unfoldable pub terminate : Table → Table
terminate t =
    let shut = shut_slots t.slots t in
    record shut.1 { slots = shut.0; staged_path = []; last_error = adapter_ok }
