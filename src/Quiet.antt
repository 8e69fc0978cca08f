-- ===== src/Quiet.antt =====
-- src/quiet.rs: the folding of near-identical events into roll-ups.
pub mod Model
pub mod Accounting
pub mod Flush
