-- ===== src/Adapter/RecordWire.antt =====
-- The lines of records and changes that adapters/externalobject/esdb_externalobject.cpp sends to the
-- host. A callback appends one piece after another, and an exception leaves those before it.
use esdb.Prelude.{ℕ, ◌+◌, Bool, true, false, Option, none, some, List, [], ◌∷◌, ◌++◌}
use esdb.Bytes.{Bytes, CString}
use esdb.Errors.{AllocPlan, attempt}
use esdb.Value.{Value, ValueType}
use esdb.Store.State.{ChangeOperation, put, delete, clear}
use esdb.ObjectStore.RevisionText.{decimal}
use esdb.Adapter.Hex.{hex_encode}
use esdb.Adapter.Decimal.{u64_decimal}
use esdb.Adapter.Wire.{FloatText, type_number}
use esdb.Adapter.ResultWire.{cell}

-- The count is at most the limit of a scan, so that it does not wrap around.
pub record RecordWireContext : Type 0 where
  pub body : Bytes
  pub failed : Bool
  pub count : ℕ

-- The body with the pieces, and whether an exception stopped them.
unfoldable pub append_pieces : AllocPlan → ℕ → List Bytes → Bytes → Bytes × Bool
append_pieces plan n [] body = (body, false)
append_pieces plan n (piece ∷ pieces) body =
    attempt (plan n) (λ st. (body, true)) (append_pieces plan (n + 1) pieces (body ++ piece))

-- The return of a callback after its pieces: an exception is a failure, and the count is unchanged.
unfoldable pub after_pieces : RecordWireContext → ℕ → Bytes × Bool → ℕ × RecordWireContext
after_pieces context more (body, true) = (1, record context { body = body; failed = true })
after_pieces context more (body, false) =
    (0, record context { body = body; count = context.count + more })

abbrev pub record_pieces : ℕ → Bytes → Bytes → List Bytes
record_pieces revision key text =
    u64_decimal revision ∷ (58 ∷ []) ∷ hex_encode key ∷ (58 ∷ []) ∷ text ∷ (10 ∷ []) ∷ []

unfoldable pub append_cell :
    AllocPlan → ℕ → Bytes → Option Bytes → RecordWireContext → ℕ × RecordWireContext
append_cell plan revision key none context = (1, record context { failed = true })
append_cell plan revision key (some text) context =
    after_pieces context 1 (append_pieces plan 1 (record_pieces revision key text) context.body)

-- `append_record_wire` and `append_memory_record_wire`, which differ in the type of the record.
unfoldable pub append_record_wire :
    FloatText → AllocPlan → ℕ → CString → Option Value → RecordWireContext → ℕ × RecordWireContext
append_record_wire io plan revision none value context = (1, context)
append_record_wire io plan revision (some key) none context = (1, context)
append_record_wire io plan revision (some key) (some value) context =
    attempt (plan 0) (λ st. (1, record context { failed = true }))
      (append_cell plan revision key (cell io (some value)) context)

-- The number of the operation; the changes have no count.
abbrev operation_number : ChangeOperation → ℕ
operation_number put = 1
operation_number delete = 2
operation_number clear = 3

abbrev key_text : CString → List Bytes
key_text none = []
key_text (some key) = hex_encode key ∷ []

abbrev change_pieces : ℕ → ChangeOperation → ValueType → CString → List Bytes
change_pieces revision operation value_type key =
    (u64_decimal revision
      ∷ (58 ∷ [])
      ∷ decimal (operation_number operation)
      ∷ (58 ∷ [])
      ∷ decimal (type_number value_type)
      ∷ (58 ∷ [])
      ∷ [])
    ++ key_text key
    ++ ((10 ∷ []) ∷ [])

unfoldable pub append_memory_change_wire :
    AllocPlan
    → ℕ
    → ChangeOperation
    → ValueType
    → CString
    → RecordWireContext
    → ℕ × RecordWireContext
append_memory_change_wire plan revision clear value_type key context =
    after_pieces context 0
      (append_pieces plan 0 (change_pieces revision clear value_type key) context.body)
append_memory_change_wire plan revision operation value_type none context = (1, context)
append_memory_change_wire plan revision operation value_type (some key) context =
    after_pieces context 0
      (append_pieces plan 0 (change_pieces revision operation value_type (some key)) context.body)
