-- ===== src/Policy.antt =====
-- The readiness of a reviewed candidate (core/policy/readiness.go).
pub mod Readiness
pub mod Candidate
pub mod EvidenceSet
pub mod Verified
pub mod Sound
