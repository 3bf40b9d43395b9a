-- ===== src/Canon.antt =====
-- The canonical JSON of core/canon/json.go: values and the canonical writer.
pub mod Number
pub mod Value
pub mod Parser
pub mod Bytes
pub mod Keys
pub mod Consumed
pub mod Fuel
