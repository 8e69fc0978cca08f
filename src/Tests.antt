-- ===== src/Tests.antt =====
-- The theorems at concrete inputs.
mod Storport
mod Split
mod Quiet
mod State
mod Switches
mod DiskWait
mod Stacks
mod DiskStuck
mod Gpu
