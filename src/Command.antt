-- ===== src/Command.antt =====
-- The commands of cmd/provehito: `agent run` and `review record`.
pub mod State
pub mod Initialised
pub mod Lane
pub mod Opened
pub mod Candidate
pub mod Decided
pub mod Typed
pub mod Receipted
pub mod Doctor
pub mod Examined
pub mod Route
pub mod Words
pub mod Version
pub mod Agent
pub mod Recorded
pub mod Review
pub mod Reviewed
