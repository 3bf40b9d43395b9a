-- ===== src/Fingerprint.antt =====
-- Git candidate identities (core/fingerprint/git.go, core/fingerprint/runner.go).
pub mod Identity
pub mod Status
pub mod Clean
pub mod Provider
pub mod Frozen
pub mod Again
