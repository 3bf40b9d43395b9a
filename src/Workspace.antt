-- ===== src/Workspace.antt =====
-- core/workspace: the canonical paths and their separation, and the exclusive writer lease of a workspace.
pub mod Paths
pub mod Separation
pub mod Active
pub mod Targets
pub mod Lease
pub mod Protocol
pub mod Exclusion
pub mod Abandoned
pub mod Runs
