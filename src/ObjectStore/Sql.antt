-- ===== src/ObjectStore/Sql.antt =====
-- What src/esdb_object_store.cpp uses of SQLite: its prepared statements with the values bound to
-- them, and the columns that it reads. SQLite is a parameter (`StoreEngine`); what the statements
-- mean is in ObjectStore.Tables.
use esdb.Prelude.{
  ℕ, zero, suc, ◌%◌, Bool, Option, none, some, List, [], ◌∷◌, ◌==◌, ◌||◌, leb, if◌then◌else◌,
  length,
}
use esdb.Bytes.{Bytes, CString}
use esdb.Value.{Value, ValueType, Buffer, null_buffer, buffer}
use esdb.Runtime.Engine.{Engine}

pub data ObjectChangeOperation : Type 0 where
  put delete unknown_operation : ObjectChangeOperation

-- The statements. A name or key is the C string that is bound; `now` is a time in milliseconds.
pub data Query : Type 0 where
  count_tables read_revision read_schema_version : Query
  insert_store : Bytes → (now : ℕ) → Query
  select_store : Bytes → Query
  insert_change_row :
      (store : ℕ) (key : Bytes) (operation : ObjectChangeOperation) (type : ValueType) (now : ℕ)
      → Query
  upsert_record : (store : ℕ) (key : Bytes) (value : Value) (revision now : ℕ) → Query
  write_revision : ℕ → Query
  select_record record_exists : (name key : Bytes) → Query
  delete_record : (store : ℕ) (key : Bytes) → Query
  count_records : (name : Bytes) → Query
  scan_records : (name : Bytes) (after : CString) (limit : ℕ) → Query
  select_changes : (name : CString) (after limit : ℕ) → Query
  prune_changes : (through : ℕ) → Query

pub data Storage : Type 0 where
  integer_storage text_storage blob_storage other_storage : Storage

-- A column of a row, as the functions `sqlite3_column_*` give it: the storage class, the 64-bit
-- pattern of `column_int64`, and the pointer of `column_text` or `column_blob` with the size.
pub record Cell : Type 0 where
  pub storage : Storage
  pub int64 : ℕ
  pub content : Buffer

abbrev pub Row : Type 0
Row = List Cell

abbrev pub null_cell : Cell
null_cell = record { storage = other_storage; int64 = 0; content = null_buffer 0 }

abbrev pub column : ℕ → Row → Cell
column i [] = null_cell
column zero (c ∷ cs) = c
column (suc i) (c ∷ cs) = column i cs

-- `sqlite3_column_int` takes the low 32 bits.
abbrev pub int32_of : Cell → ℕ
int32_of c = c.int64 % 4294967296

-- `raw <= 0` of a 64-bit pattern.
abbrev pub not_positive : ℕ → Bool
not_positive v = v == 0 || leb 9223372036854775808 v

-- The C string at a pointer: the bytes before the first NUL.
unfoldable pub until_nul : Bytes → Bytes
until_nul [] = []
until_nul (b ∷ bs) = let rest = b ∷ until_nul bs in if b == 0 then [] else rest

abbrev pub text_of : Cell → CString
text_of c = elim c.content [ null_buffer n ↦ none | buffer bs ↦ some (until_nul bs) ]

abbrev pub size_of : Cell → ℕ
size_of c = elim c.content [ null_buffer n ↦ n | buffer bs ↦ length bs ]

-- What a statement that is prepared, bound and stepped once has given: the result code of the first
-- of these calls that failed, a row, or `SQLITE_DONE`.
pub data First : Type 0 where
  failed_first : ℕ → First
  row : Row → First
  finished_first : First

-- The same of a statement that is stepped to its end: its rows, and the code of the call that failed.
pub record Ran : Type 0 where
  pub rows : List Row
  pub failure : Option ℕ

-- `readonly` is `sqlite3_db_readonly` of the main database, `none` where there is none.
pub record StoreEngine (Db : Type 0) : Type 0 where
  pub engine : Engine Db
  pub first : Query → Db → First × Db
  pub all : Query → Db → Ran × Db
  pub readonly : Db → Option Bool
