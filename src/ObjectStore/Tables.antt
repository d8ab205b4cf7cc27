-- ===== src/ObjectStore/Tables.antt =====
-- What the SQL of src/esdb_object_store.cpp means: the tables of the schema, the change that each
-- statement makes to them and the rows that it gives, and the laws of a SQLite that runs the
-- statements so.
use esdb.Prelude.{
  ℕ, suc, Bool, true, Option, none, some, List, [], ◌∷◌, ◌++◌, ltb, leb, ◌==◌, ◌&&◌, if◌then◌else◌,
}
use esdb.Bytes.{Bytes, CString, byte_less}
use esdb.Value.{Value, ValueType}
use esdb.Runtime.Savepoints.{same_text}
use esdb.ObjectStore.RevisionText.{decimal}
use esdb.ObjectStore.Sql.{
  Query, ObjectChangeOperation, count_tables, read_revision, read_schema_version, insert_store,
  select_store, insert_change_row, upsert_record, write_revision, select_record, record_exists,
  delete_record, count_records, scan_records, select_changes, prune_changes,
}

pub record StoreRow : Type 0 where
  pub id : ℕ
  pub name : Bytes

pub record RecordRow : Type 0 where
  pub store_id : ℕ
  pub key : Bytes
  pub value : Value
  pub revision : ℕ

pub record ChangeRow : Type 0 where
  pub revision : ℕ
  pub store_id : ℕ
  pub key : Bytes
  pub operation : ObjectChangeOperation
  pub value_type : ValueType

-- The tables `__esdb_meta`, `__esdb_stores`, `__esdb_records` (in the order of the keys) and
-- `__esdb_object_changes` (in the order of the revisions), how many of them there are, and the
-- sequence of the last one. The columns of times are never read, and are left out.
pub record Tables : Type 0 where
  pub table_count : ℕ
  pub schema_version : Option Bytes
  pub store_revision : Option Bytes
  pub sequence : ℕ
  pub stores : List StoreRow
  pub records : List RecordRow
  pub changes : List ChangeRow

-- The texts of the initial rows of `__esdb_meta`.
unfoldable pub create_tables : Tables → Tables
create_tables t = record {
  table_count = 4;
  schema_version = some (49 ∷ []);
  store_revision = some (48 ∷ []);
  sequence = 0;
  stores = [];
  records = [];
  changes = [];
}

-- `SELECT id FROM __esdb_stores WHERE name=?1`
unfoldable pub id_of : Bytes → List StoreRow → Option ℕ
id_of name [] = none
id_of name (s ∷ ss) = if same_text s.name name then some s.id else id_of name ss

-- An `INTEGER PRIMARY KEY` that is left out is one more than the largest.
unfoldable pub next_id : List StoreRow → ℕ
next_id [] = 1
next_id (s ∷ ss) = let rest = next_id ss in if ltb s.id rest then rest else suc s.id

abbrev pub added_store : Bytes → List StoreRow → Option ℕ → List StoreRow
added_store name ss none = ss ++ record { id = next_id ss; name = name } ∷ []
added_store name ss (some id) = ss

abbrev pub is_record : ℕ → Bytes → RecordRow → Bool
is_record id key r = r.store_id == id && same_text r.key key

unfoldable pub find_record : ℕ → Bytes → List RecordRow → Option RecordRow
find_record id key [] = none
find_record id key (r ∷ rs) = if is_record id key r then some r else find_record id key rs

unfoldable pub upsert_row : RecordRow → List RecordRow → List RecordRow
upsert_row new [] = new ∷ []
upsert_row new (r ∷ rs) =
    let rest = r ∷ upsert_row new rs in
    if is_record new.store_id new.key r
    then new ∷ rs
    else if byte_less new.key r.key
    then new ∷ r ∷ rs
    else rest

unfoldable pub erase_row : ℕ → Bytes → List RecordRow → List RecordRow
erase_row id key [] = []
erase_row id key (r ∷ rs) =
    let rest = erase_row id key rs in if is_record id key r then rest else r ∷ rest

unfoldable pub records_of : ℕ → List RecordRow → List RecordRow
records_of id [] = []
records_of id (r ∷ rs) = let rest = records_of id rs in if r.store_id == id then r ∷ rest else rest

abbrev after_key : CString → Bytes → Bool
after_key none key = true
after_key (some after) key = byte_less after key

unfoldable pub records_after : CString → List RecordRow → List RecordRow
records_after after [] = []
records_after after (r ∷ rs) =
    let rest = records_after after rs in if after_key after r.key then r ∷ rest else rest

unfoldable pub kept_changes : ℕ → List ChangeRow → List ChangeRow
kept_changes through [] = []
kept_changes through (c ∷ cs) =
    let rest = kept_changes through cs in if leb c.revision through then rest else c ∷ rest

unfoldable pub pruned_changes : ℕ → List ChangeRow → List ChangeRow
pruned_changes through [] = []
pruned_changes through (c ∷ cs) =
    let rest = pruned_changes through cs in if leb c.revision through then c ∷ rest else rest

-- The name of the Store that a change joins with.
unfoldable pub name_of : ℕ → List StoreRow → Option Bytes
name_of id [] = none
name_of id (s ∷ ss) = if s.id == id then some s.name else name_of id ss

abbrev wanted : CString → Bytes → Bool
wanted none name = true
wanted (some filter) name = same_text name filter

-- The join of the changes after a revision with the names of their Stores.
abbrev join_change :
    CString → ChangeRow → Option Bytes → List (ChangeRow × Bytes) → List (ChangeRow × Bytes)
join_change filter c none rest = rest
join_change filter c (some name) rest = if wanted filter name then (c, name) ∷ rest else rest

unfoldable pub joined_changes :
    CString → ℕ → List StoreRow → List ChangeRow → List (ChangeRow × Bytes)
joined_changes filter after ss [] = []
joined_changes filter after ss (c ∷ cs) =
    let rest = joined_changes filter after ss cs in
    if ltb after c.revision then join_change filter c (name_of c.store_id ss) rest else rest

-- What a statement that succeeds makes of the tables.
unfoldable pub effect : Query → Tables → Tables
effect (insert_store name now) t = record t {
  stores = added_store name t.stores (id_of name t.stores);
}
effect (insert_change_row id key operation type now) t = record t {
  sequence = suc t.sequence;
  changes =
      t.changes
      ++ record {
        revision = suc t.sequence;
        store_id = id;
        key = key;
        operation = operation;
        value_type = type;
      }
        ∷ [];
}
effect (upsert_record id key value revision now) t = record t {
  records =
      upsert_row (record { store_id = id; key = key; value = value; revision = revision })
        t.records;
}
effect (write_revision revision) t = record t { store_revision = some (decimal revision) }
effect (delete_record id key) t = record t { records = erase_row id key t.records }
effect (prune_changes through) t = record t { changes = kept_changes through t.changes }
effect count_tables t = t
effect read_revision t = t
effect read_schema_version t = t
effect (select_store name) t = t
effect (select_record name key) t = t
effect (record_exists name key) t = t
effect (count_records name) t = t
effect (scan_records name after limit) t = t
effect (select_changes name after limit) t = t
