-- ===== src/Types.antt =====
-- crates/types: the values that the relay's components exchange. A hash, an address and a public key
-- are byte strings that the code only compares, so each is the number of its big-endian bytes; a U256
-- is its value.
pub mod SubmissionVersion
pub mod Payload
pub mod Hydration
pub mod Samples
mod Tests
