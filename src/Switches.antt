-- ===== src/Switches.antt =====
-- src/switches.rs: what the scheduler did.
pub mod Reasons
pub mod Held
pub mod Probe
pub mod Verdict
pub mod Late
pub mod Agreement
pub mod Waits
pub mod Merging
