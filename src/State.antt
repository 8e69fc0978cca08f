-- ===== src/State.antt =====
-- src/state.rs: the data shared between the consumer of the kernel trace and the analyzer.
pub mod Records
pub mod Rings
pub mod Losses
pub mod Reach
pub mod Steps
pub mod Covered
pub mod Windows
pub mod Tables
pub mod Waits
pub mod Callback
pub mod Notes
