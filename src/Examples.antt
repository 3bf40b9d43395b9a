-- ===== src/Examples.antt =====
-- Concrete lanes, files and texts, and the theorems applied to them.
pub mod Lanes
pub mod Storage
pub mod Readiness
pub mod Receipts
pub mod Steps
pub mod Formats
pub mod Archives
pub mod Leases
pub mod Places
pub mod Git
pub mod Runs
pub mod Agents
pub mod Reviews
pub mod Guards
pub mod Disks
pub mod Commands
pub mod Lines
pub mod Tools
pub mod Writes
