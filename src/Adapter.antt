-- ===== src/Adapter.antt =====
-- The host adapter of adapters/externalobject/esdb_externalobject.cpp: its handle table, and the
-- text codecs of its boundary.
pub mod Handles
pub mod Tokens
pub mod Outcomes
pub mod Stale
pub mod WellFormed
pub mod Live
pub mod Ownership
pub mod Hex
pub mod HexRoundTrip
pub mod Decimal
pub mod DecimalDigits
pub mod DecimalRoundTrip
pub mod Wire
pub mod WireParse
pub mod WireNumbers
pub mod WireRoundTrip
pub mod WireLines
pub mod ResultWire
pub mod ResultBounds
pub mod ResultSize
pub mod RecordWire
pub mod RecordLines
