-- ===== src/Examples.antt =====
-- Tests, and the theorems at concrete inputs: one module for each part of the library.
mod Stores
mod Registries
mod Values
mod Adapters
mod Wires
mod Runtimes
mod Disks
mod Objects
mod Failures
