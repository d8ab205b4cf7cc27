-- ===== src/Lib.antt =====
-- ESDB, verified.
--
-- ESDB is a runtime over SQLite with a C interface. Its parts, and the modules of this library:
--
-- - Errors, SqliteCode, Bytes: the statuses, phases and error record (include/esdb/esdb_types.h),
--   allocation outcomes, C strings, and the order of keys (`ByteLess`).
-- - Utf8: `valid_utf8` and `valid_c_string` of src/esdb_runtime.cpp, against the encoding that the
--   Unicode standard defines (Utf8.Encoding). Every name and key of the other parts passes them.
-- - Value: src/esdb_value.cpp, the typed values with their little-endian payloads; Value.Canonical
--   has the payload check that src/esdb_object_store.cpp makes of what it reads back.
-- - Store: src/esdb_store.cpp, the in-memory Stores. Store.Records is the ordered map of records;
--   Store.State the state of one Store with its bounded journal of changes; Store.Mutate the
--   functions `esdb_store_put`, `_patch`, `_delete` and `_clear`; Store.Query `_get`, `_exists`,
--   `_count`, `_scan`, `_revision` and `_retained_floor`; Store.Changes `_changes_since`,
--   `_subscribe` and `_subscription_poll`; Store.Registry the named Stores with their handles
--   (`_open`, `_close`, `_destroy`). The other modules of Store are proofs: Counting, Handles,
--   Subscribers and Lifecycle of the registry, and Outcomes, Patching,
--   Lookup, Paging, Delivery, Record, Journal, Invariant, History, Notice and Notified.
-- - Adapter: adapters/externalobject/esdb_externalobject.cpp. Adapter.Handles is the table of
--   database handles (`stage`, `openStaged`, `close`, termination), Adapter.Hex the hexadecimal
--   codec, Adapter.Decimal the texts of integers and revisions, Adapter.Wire `make_text_value` and
--   `value_wire`, Adapter.WireParse `parse_query_value_wire` and `parse_query_parameter_wire`, and
--   Adapter.ResultWire the reply that `querySql` builds of rows, and Adapter.RecordWire the lines of
--   records and changes. The conversion between finite doubles and decimal text is a parameter
--   (`FloatText`). Tokens, Outcomes, Stale, WellFormed, Live, Ownership, HexRoundTrip, DecimalDigits,
--   DecimalRoundTrip, WireNumbers, WireRoundTrip, WireLines, ResultBounds, ResultSize and RecordLines
--   are proofs.
-- - Runtime: src/esdb_runtime.cpp. Runtime.Session is the connection with its error record and
--   counters, Runtime.Transactions `esdb_begin`, `_commit`, `_rollback`, `_transaction_destroy` and
--   `_exec`, Runtime.Savepoints the savepoints, Runtime.Migrate `esdb_user_version_get`, `_set` and
--   `esdb_migrate`. SQLite is a parameter (Runtime.Engine): what it does to a database, and what is
--   committed in it, are functions, and the laws that a theorem needs are hypotheses of the theorem
--   (Runtime.Committed.IsTransactional). Invariant, Finishing, Lifecycle, Calls, Stack, Committed
--   and Atomic are proofs.
-- - ObjectStore: src/esdb_object_store.cpp, named Stores of records in a SQLite database. An operation
--   is an action (ObjectStore.Action) on the connection, which is done or stopped with a status.
--   ObjectStore.Sql has the prepared statements and columns, RevisionText `parse_revision_text`,
--   Mutation the scope of a mutation, Schema the tables' creation and metadata, Write
--   `esdb_object_store_put`, `_delete`, `_ensure` and `_prune_changes`, Rows the checks on what is
--   read back, Read `_get`, `_exists`, `_count`, `_scan` and `_revision`, and ChangeLog
--   `_changes_since`, `esdb_object_subscribe` and `_subscription_poll`. Tables and Answers say what
--   the SQL texts mean, and Laws what is asked of a SQLite that runs them (IsStoreEngine): any
--   statement may fail, also a ROLLBACK, and a failure may end the transaction. Scope, Runs,
--   AllOrNothing, Restore, Mutate, PutSteps, Lookup, Sound, Keeping, Put, DeleteSteps, DeleteTables,
--   Delete, Get, ReadRules, Reads, Inspect and Initialize are proofs.
-- - Examples: tests, and each theorem at a concrete input.
--
-- How the code is modelled. A function takes the state and gives a reply with its status, its error
-- record and its out parameters, together with the new state. What a lock guards is one step. Each
-- allocation of a call has an outcome in the call's plan (`AllocPlan`): granted, `std::bad_alloc`, or
-- another exception, and every catch clause is modelled. Callbacks are functions of the caller's data,
-- which may go on, stop or throw. Numbers are natural numbers, with the wrap-around of the source's
-- machine words written out; signed values and doubles are their bit patterns. A loop over data is
-- structural recursion. Two loops have fuel: the UTF-8 loop has the length of the text, which is
-- enough since each round takes at least one byte, and the loop of `esdb_migrate` runs over the number
-- of versions that are left, since each round moves the version by one.
--
-- What is not modelled: the text of messages and the extended SQLite codes; null database handles;
-- threads within one critical section, and other processes that change a database during a call;
-- `esdb_open`, `esdb_query`, backup and health; src/esdb_zipvfs.cpp, whose provider is not in the
-- repository; the ORM, the schema compiler and the script bindings.
pub mod Prelude
pub mod Bytes
pub mod Errors
pub mod SqliteCode
pub mod Utf8
pub mod Value
pub mod Store
pub mod Adapter
pub mod Runtime
pub mod ObjectStore
pub mod Examples
