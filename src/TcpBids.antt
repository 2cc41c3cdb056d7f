-- ===== src/TcpBids.antt =====
-- crates/relay/src/tcp_bid_recv, crates/tcp-types/src/lib.rs: the connections over which builders submit
-- bids, and the header of a submission on the wire.
pub mod Header
pub mod Listener
pub mod Poll
pub mod Loop
pub mod Registered
pub mod Pending
mod Tests
