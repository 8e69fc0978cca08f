-- ===== src/Stacks.antt =====
-- src/stacks.rs: the call stacks of slow requests and waits. Which events get a stack (Set), what a
-- stack event carries (Walk), which stacks are kept (Keep), and which one says where a thread
-- waited (Pick).
pub mod Set
pub mod Walk
pub mod Keep
pub mod Track
pub mod Events
pub mod Pick
pub mod Run
