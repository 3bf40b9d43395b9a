-- ===== src/Evidence.antt =====
-- The evidence receipts of core/evidence: the record and its validation, its canonical bytes, the
-- store, and what a stored receipt is known to satisfy.
pub mod Receipt
pub mod Bytes
pub mod Store
pub mod Disk
pub mod Kept
pub mod Parents
pub mod Reread
pub mod Durable
pub mod Address
