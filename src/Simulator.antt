-- ===== src/Simulator.antt =====
-- crates/relay/src/simulator: the pool of execution nodes that simulate the submitted blocks.
pub mod Error
pub mod Request
pub mod Entry
pub mod Queue
pub mod Pool
pub mod Spawn
pub mod Dispatch
pub mod Reports
pub mod Slots
pub mod Conserved
pub mod Selection
pub mod Counters
mod Tests
