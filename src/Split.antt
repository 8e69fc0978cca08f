-- ===== src/Split.antt =====
-- src/storport/split.rs: where the time of a slow request went.
pub mod Union
pub mod Measure
pub mod Correlate
pub mod Totals
pub mod Time
pub mod Adding
