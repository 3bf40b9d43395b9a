-- ===== src/Manifest.antt =====
-- The durable lane manifest (core/manifest): its records, normalization and validation
-- (model.go), the store on disk (store.go) and the guarded mutations (ops.go).
pub mod Model
pub mod Hashes
pub mod Normalize
pub mod Validate
pub mod Update
pub mod Store
pub mod Write
pub mod Atomic
pub mod Ops
pub mod Swap
pub mod Sound
