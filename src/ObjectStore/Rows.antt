-- ===== src/ObjectStore/Rows.antt =====
-- The rows that src/esdb_object_store.cpp reads back, checked: `clone_sql_value`, the loop of
-- `esdb_object_store_scan` and the loop of `object_store_changes_since_impl`.
use esdb.Prelude.{
  ℕ, ◌+◌, Bool, true, false, not, Option, none, some, List, [], ◌∷◌, ◌==◌, ◌||◌, ◌&&◌,
  if◌then◌else◌, length,
}
use esdb.Bytes.{Bytes, CString}
use esdb.Errors.{Status, Phase, AllocPlan, attempt_nothrow}
use esdb.SqliteCode
use esdb.Utf8.{valid_object_store_name, valid_object_store_key}
use esdb.Value.{
  Value, ValueType, Buffer, null_buffer, buffer, null, bool, int32, int64, double, utf8, bytes,
  array, object, unknown,
}
use esdb.Value.Canonical.{payload_valid}
use esdb.Store.State.{valid_value_type}
use esdb.ObjectStore.Sql.{
  Row, Cell, blob_storage, ObjectChangeOperation, put, delete, unknown_operation, column, int32_of,
  text_of, size_of, not_positive,
}
use esdb.ObjectStore.Action.{Action, pure, refuse, ◌>>=◌, ◌>>◌, end_of, allocate}
use esdb.ObjectStore.Schema.{corrupt}

pub record OwnedRecord : Type 0 where
  pub key : Bytes
  pub value : Value
  pub revision : ℕ

pub record OwnedChange : Type 0 where
  pub revision : ℕ
  pub operation : ObjectChangeOperation
  pub value_type : ValueType
  pub store_name : Bytes
  pub key : Bytes

-- The types by their numbers; a negative `int` is a large pattern.
abbrev pub type_of_code : ℕ → ValueType
type_of_code n =
    if n == 0
    then null
    else if n == 1
    then bool
    else if n == 2
    then int32
    else if n == 3
    then int64
    else if n == 4
    then double
    else if n == 5
    then utf8
    else if n == 6
    then bytes
    else if n == 7
    then array
    else if n == 8
    then object
    else unknown

abbrev pub operation_of_code : ℕ → ObjectChangeOperation
operation_of_code n = if n == 1 then put else if n == 2 then delete else unknown_operation

abbrev is_blob : Cell → Bool
is_blob c = elim c.storage [ blob_storage ↦ true | _ ↦ false ]

-- The bytes at the pointer of `column_blob`, or `none` for a null pointer to some bytes.
abbrev blob_of : Buffer → Option Bytes
blob_of (buffer bs) = some bs
blob_of (null_buffer n) = if n == 0 then some [] else none

abbrev is_delete : ObjectChangeOperation → Bool
is_delete delete = true
is_delete _ = false

abbrev is_known : ObjectChangeOperation → Bool
is_known unknown_operation = false
is_known _ = true

abbrev is_null_type : ValueType → Bool
is_null_type null = true
is_null_type _ = false

module _ {Db : Type 0} where
  abbrev no_memory : {A : Type 0} → Action Db A
  no_memory = refuse Status.out_of_memory Phase.object_store SqliteCode.nomem

  -- The allocation of the value, and that of its payload if it has bytes.
  abbrev pub new_value : AllocPlan → ValueType → Bytes → Action Db Value
  new_value plan type [] =
      attempt_nothrow (plan 0) no_memory (pure (record { type = type; payload = [] }))
  new_value plan type (b ∷ blob) =
      attempt_nothrow (plan 0) no_memory
        (attempt_nothrow (plan 1) no_memory (pure (record { type = type; payload = b ∷ blob })))

  abbrev pub clone_blob : AllocPlan → ValueType → Option Bytes → Action Db Value
  clone_blob plan type none = corrupt
  clone_blob plan type (some blob) =
      if payload_valid type blob then new_value plan type blob else corrupt

  unfoldable pub clone_sql_value : AllocPlan → Cell → Cell → Action Db Value
  clone_sql_value plan type_cell payload_cell =
      let type = type_of_code (int32_of type_cell) in
      if not (valid_value_type type) || not (is_blob payload_cell)
      then corrupt
      else clone_blob plan type (blob_of payload_cell.content)

  abbrev pub key_of_row : CString → Row → Action Db Bytes
  key_of_row none r = corrupt
  key_of_row (some key) r =
      if size_of (column 0 r) == 0
        || (not (size_of (column 0 r) == length key)
            || (not (valid_object_store_key (some key)) || not_positive (column 3 r).int64))
      then corrupt
      else pure key

  -- One row of a scan: its key is copied, its value cloned, and the record appended.
  unfoldable pub owned_record : AllocPlan → Row → Action Db OwnedRecord
  owned_record plan r = do
    key ← key_of_row (text_of (column 0 r)) r
    allocate (plan 0) Phase.object_store
    value ← clone_sql_value (λ n. plan (n + 1)) (column 1 r) (column 2 r)
    allocate (plan 3) Phase.object_store
    pure (record { key = key; value = value; revision = (column 3 r).int64 })

  unfoldable pub owned_records : AllocPlan → List Row → Option ℕ → Action Db (List OwnedRecord)
  owned_records plan [] failure = do end_of failure Phase.object_store; pure []
  owned_records plan (r ∷ rs) failure =
      let rest = owned_records (λ n. plan (n + 4)) rs failure in
      owned_record plan r >>= λ owned. rest >>= λ snapshot. pure (owned ∷ snapshot)

  abbrev bad_row : {A : Type 0} → Action Db A
  bad_row = refuse Status.corrupt Phase.subscription SqliteCode.corrupt

  abbrev pub checked_change : CString → CString → Row → Action Db OwnedChange
  checked_change none key r = bad_row
  checked_change (some name) none r = bad_row
  checked_change (some name) (some key) r =
      let operation = operation_of_code (int32_of (column 1 r)) in
      let type = type_of_code (int32_of (column 2 r)) in
      if not_positive (column 0 r).int64
        || (not (valid_object_store_name (some name))
            || (not (valid_object_store_key (some key))
                || (not (valid_value_type type)
                    || (not (is_known operation)
                        || (is_delete operation && not (is_null_type type))))))
      then bad_row
      else pure (record {
        revision = (column 0 r).int64;
        operation = operation;
        value_type = type;
        store_name = name;
        key = key;
      })

  unfoldable pub owned_changes : AllocPlan → List Row → Option ℕ → Action Db (List OwnedChange)
  owned_changes plan [] failure = do end_of failure Phase.subscription; pure []
  owned_changes plan (r ∷ rs) failure =
      let rest = owned_changes (λ n. plan (n + 1)) rs failure in
      checked_change (text_of (column 3 r)) (text_of (column 4 r)) r >>= λ owned.
      allocate (plan 0) Phase.subscription >> rest >>= λ snapshot. pure (owned ∷ snapshot)
