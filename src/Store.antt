-- ===== src/Store.antt =====
-- The process-memory Store of src/esdb_store.cpp.
pub mod Records
pub mod State
pub mod Mutate
pub mod Journal
pub mod Invariant
pub mod Outcomes
pub mod Patching
pub mod Changes
pub mod Delivery
pub mod Record
pub mod Query
pub mod Lookup
pub mod Paging
pub mod History
pub mod Notice
pub mod Notified
pub mod Registry
pub mod Counting
pub mod Heap
pub mod Handles
pub mod Subscribers
pub mod Lifecycle
