-- ===== src/Minimal.antt =====
-- The worked example examples/minimal: its aggregates, use cases and in-memory repository.
pub mod Account
pub mod Order
pub mod Shop
pub mod Server
pub mod Wiring
