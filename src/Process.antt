-- ===== src/Process.antt =====
-- The supervisor of core/process: its requests, its runs and the output budget that two streams share.
pub mod Budget
pub mod Bounded
pub mod Request
pub mod Run
pub mod Environment
pub mod Supervised
