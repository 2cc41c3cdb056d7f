-- ===== src/Merging.antt =====
-- crates/relay/src/block_merging: blocks and orders that the relay forwards to a merge builder, and the
-- merged blocks that come back.
pub mod Orders
pub mod Unbundling
pub mod Tile
pub mod Forward
pub mod Merged
mod Tests
