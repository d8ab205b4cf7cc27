-- ===== src/Runtime.antt =====
-- The connection of src/esdb_runtime.cpp: its error record and counters, its transactions and
-- savepoints, and its migrations.
pub mod Engine
pub mod Session
pub mod SavepointName
pub mod Transactions
pub mod Savepoints
pub mod Invariant
pub mod Finishing
pub mod Lifecycle
pub mod Stack
pub mod Calls
pub mod Migrate
pub mod Committed
pub mod Atomic
