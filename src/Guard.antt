-- ===== src/Guard.antt =====
-- The source checker of internal/sourceguard/sourceguard.go.
pub mod Syntax
pub mod Values
pub mod Calls
pub mod File
pub mod Clean
pub mod Boundary
