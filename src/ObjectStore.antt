-- ===== src/ObjectStore.antt =====
-- The object store of src/esdb_object_store.cpp: named Stores of records in a SQLite database, with a
-- log of their changes.
pub mod Sql
pub mod Action
pub mod RevisionText
pub mod Schema
pub mod Write
pub mod Rows
pub mod Read
pub mod ChangeLog
pub mod Tables
pub mod Answers
pub mod Laws
pub mod Scope
pub mod Runs
pub mod AllOrNothing
pub mod Restore
pub mod Mutate
pub mod PutSteps
pub mod Lookup
pub mod Sound
pub mod Keeping
pub mod Put
pub mod DeleteSteps
pub mod DeleteTables
pub mod Delete
pub mod Get
pub mod ReadRules
pub mod Reads
pub mod Inspect
pub mod Initialize
pub mod Mutation
