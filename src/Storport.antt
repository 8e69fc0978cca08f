-- ===== src/Storport.antt =====
-- src/storport: the storage port driver's trace.
pub mod Types
pub mod Ring
pub mod Events
pub mod Report
pub mod Retries
pub mod Totals
pub mod Bounds
pub mod Reads
pub mod Decode
pub mod Cover
pub mod Refinement
pub mod Progress
