-- ===== src/Store/State.antt =====
-- The state of a named Store of src/esdb_store.cpp: its records, its bounded journal of changes,
-- its revision and the floor of the history that it retains.
use esdb.Prelude.{
  ℕ, Bool, true, false, Option, none, some, List, [], ◌∷◌, ◌++◌, ltb, ◌&&◌, if◌then◌else◌, length,
}
use esdb.Bytes.{Bytes, CString}
use esdb.Errors.{AllocPlan, attempt_nothrow, Status, Phase, Reply, success, store_fail}
use esdb.Utf8.{valid_utf8, valid_c_string}
use esdb.Value.{Value, ValueType, unknown}
use esdb.Store.Records.{Records}

abbrev pub revision_max : ℕ
revision_max = 9223372036854775807

abbrev pub store_name_max_bytes : ℕ
store_name_max_bytes = 511

abbrev pub store_key_max_bytes : ℕ
store_key_max_bytes = 4096

abbrev pub change_limit_max : ℕ
change_limit_max = 10000

abbrev pub scan_limit_max : ℕ
scan_limit_max = 10000

abbrev pub change_capacity : ℕ
change_capacity = 4096

abbrev pub patch_max_entries : ℕ
patch_max_entries = 1024

pub data ChangeOperation : Type 0 where
  put delete clear : ChangeOperation

pub record MemoryChange : Type 0 where
  pub revision : ℕ
  pub operation : ChangeOperation
  pub value_type : ValueType
  pub key : Bytes

pub record MemoryStoreState : Type 0 where
  pub name : Bytes
  pub records : Records
  pub changes : List MemoryChange
  pub revision : ℕ
  pub retained_floor : ℕ
  pub handle_count : ℕ
  pub subscription_count : ℕ

unfoldable pub new_store : Bytes → MemoryStoreState
new_store store_name = record {
  name = store_name;
  records = [];
  changes = [];
  revision = 0;
  retained_floor = 0;
  handle_count = 0;
  subscription_count = 0;
}

unfoldable pub valid_value_type : ValueType → Bool
valid_value_type unknown = false
valid_value_type _ = true

abbrev checked_utf8 : CString → Bool
checked_utf8 none = false
checked_utf8 (some text) = valid_utf8 text

-- The text is checked once more after `valid_c_string`.
unfoldable pub valid_name : CString → Bool
valid_name text = valid_c_string store_name_max_bytes text && checked_utf8 text

unfoldable pub valid_key : CString → Bool
valid_key text = valid_c_string store_key_max_bytes text && checked_utf8 text

-- The loop of `retain_change`: the oldest changes go, and each raises the floor.
unfoldable pub trim : ℕ → List MemoryChange → ℕ × List MemoryChange
trim floor [] = (floor, [])
trim floor (c ∷ cs) =
    let rest = trim c.revision cs in
    if ltb change_capacity (length (c ∷ cs)) then rest else (floor, c ∷ cs)

unfoldable pub retain_change : MemoryStoreState → MemoryChange → MemoryStoreState
retain_change s change =
    let kept = trim s.retained_floor (s.changes ++ change ∷ []) in
    record s { retained_floor = kept.0; changes = kept.1 }

-- `clone_value`: `new (std::nothrow)`, then the copy of the payload.
unfoldable pub clone_value : AllocPlan → Value → Phase → Reply (Option Value)
unfolding valid_value_type store_fail
clone_value plan source phase =
    if valid_value_type source.type
    then attempt_nothrow (plan 0) (store_fail Status.out_of_memory phase none) (
        attempt_nothrow (plan 1) (store_fail Status.out_of_memory phase none)
          (success (some (record { type = source.type; payload = source.payload }))))
    else store_fail Status.invalid_argument phase none
