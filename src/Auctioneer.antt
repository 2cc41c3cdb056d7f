-- ===== src/Auctioneer.antt =====
-- crates/relay/src/auctioneer: the event loop that runs a slot's auction, and the state that it keeps.
pub mod BidSorter
pub mod SeenBlocks
pub mod Preferences
pub mod Payloads
pub mod Gloas
pub mod Slot
pub mod Validation
pub mod Unblind
pub mod Context
pub mod State
pub mod Submit
pub mod Simulation
pub mod BlockMerger
pub mod Header
pub mod ExecutionBid
pub mod Samples
mod Tests
mod FlowTests
mod HeaderTests
