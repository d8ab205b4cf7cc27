-- ===== src/Errors.antt =====
-- The error model: include/esdb/esdb_types.h, and `store_fail` of src/esdb_store.cpp. The text of
-- a message and the extended SQLite code are diagnostics, and are left out.
use esdb.Prelude.{ℕ}

pub data Status : Type 0 where
  ok invalid_argument out_of_memory io sqlite busy not_found type_mismatch : Status
  buffer_too_small constraint corrupt unsupported invalid_state migration internal gap : Status

pub data Phase : Type 0 where
  no_phase open_phase configure exec transaction savepoint migrating integrity backup : Phase
  value store subscription health object_store : Phase

pub record Error : Type 0 where
  pub status : Status
  pub phase : Phase
  pub sqlite_code : ℕ

-- What `clear_error` leaves behind.
abbrev pub cleared : Error
cleared = record { status = ok; phase = no_phase; sqlite_code = 0 }

-- What a call hands back: its status, the error structure, and its out parameters.
pub record Reply {ℓ} (A : Type ℓ) : Type ℓ where
  pub status : Status
  pub error : Error
  pub out : A

module _ {ℓ} {A : Type ℓ} where
  -- Success after `clear_error`.
  abbrev pub success : A → Reply A
  success a = record { status = ok; error = cleared; out = a }

  -- `set_error` with no connection: the status is recorded with the phase and the SQLite code.
  unfoldable pub set_error : Status → Phase → ℕ → A → Reply A
  set_error st phase code a = record {
    status = st;
    error = record { status = st; phase = phase; sqlite_code = code };
    out = a;
  }

  -- `store_fail`: the SQLite code is 0.
  unfoldable pub store_fail : Status → Phase → A → Reply A
  unfolding set_error
  store_fail st phase a = set_error st phase 0 a

-- The result of a call that has no error structure.
pub data Result {ℓ} (A : Type ℓ) : Type ℓ where
  got : A → Result A
  refused : Status → Result A

-- The outcome of one allocation: `thrown` is any exception but `std::bad_alloc`.
pub data AllocOutcome : Type 0 where
  granted bad_alloc thrown : AllocOutcome

-- The outcomes of the allocations of one call, in the order in which the call makes them.
abbrev pub AllocPlan : Type 0
AllocPlan = ℕ → AllocOutcome

abbrev pub all_granted : AllocPlan
all_granted n = granted

-- The two catch clauses that close every operation.
abbrev pub attempt {ℓ} : {A : Type ℓ} → AllocOutcome → (Status → A) → A → A
attempt granted failed rest = rest
attempt bad_alloc failed rest = failed out_of_memory
attempt thrown failed rest = failed internal

-- `new (std::nothrow)`, and a copy whose catch clause takes every exception.
abbrev pub attempt_nothrow {ℓ} : {A : Type ℓ} → AllocOutcome → A → A → A
attempt_nothrow granted failed rest = rest
attempt_nothrow _ failed rest = failed
