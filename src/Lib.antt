-- ===== src/Lib.antt =====
-- A model of helix, a relay between block builders and proposers, and its theorems.
--
-- The relay's auctioneer (crates/relay/src/auctioneer) is one event loop over one state. Builders submit
-- blocks with bids; the auctioneer validates a submission, hydrates it if it came without the parts that
-- the relay has seen before, and sorts its bid. A proposer asks for the best header of its fork and then
-- for the payload. A pool of simulators (crates/relay/src/simulator) runs the blocks that are not trusted
-- yet: the auctioneer dispatches requests to it and takes their results. Blocks that allow it
-- go to a merge builder (crates/relay/src/block_merging), which sends back blocks with more transactions.
-- Builders that submit over
-- TCP do so through a listener (crates/relay/src/tcp_bid_recv), which marks each bid with its builder. The
-- components here are the parts of that loop, of that pool, of that exchange and of that listener.
--
--   Base         numbers, lists, options and hash maps that the modules share
--   Types        crates/types/src: what the components exchange
--     SubmissionVersion  bid_submission.rs, the order of a builder's submissions
--     Payload            bid_submission.rs, execution_payload.rs, blobs.rs: bid, payload, their checks
--     Hydration          hydration.rs: the pre-check `can_hydrate_inner`
--       Hydrate            `hydrate_inner` and `feed_inner`, loop by loop
--       Builders           `HydrationCache`, one cache for each builder
--       TxRefs, BlobRefs, Precheck   what the pre-check says of the loops
--       Learning, Isolation          what a cache keeps, and whose it is
--   Auctioneer   crates/relay/src/auctioneer
--     BidSorter          bid_sorter.rs: the best bid of each fork
--       BestBid, Invariant, History   the best bid, the invariant, every history of calls
--       Verdict, Demotion, Accounting what `sort` answers, demotions, the telemetry counters
--     SeenBlocks         seen_blocks.rs: the blocks of a slot until its deadline
--     Preferences        builder_preferences.rs: what a proposer allows for a slot
--     Payloads           context.rs, `PayloadStore`: payloads of two generations
--     Gloas              gloas_payload.rs, builder_identity.rs: whether a payload is revealed
--     Slot               types.rs, slot_info.rs: slot data, submissions, stored payloads
--     Validation         validation.rs: `validate_submission`; Meaning, Soundness say what it makes sure of
--     Unblind            get_payload.rs: from the signed blinded block to the block with its payload
--     Context            context.rs, get_payload.rs: `on_new_slot`, pending and gossiped payloads
--     State              mod.rs, `State::_step`; Serving and Delivery are its invariant
--     Submit             submit_block.rs: `handle_submission`; Safety says which bids it makes live
--     Simulation         submit_block.rs, context.rs, mod.rs: a simulation's result; Answers, Optimism, Sorted say what it does
--     ExecutionBid       get_execution_payload_bid.rs: the Gloas bid that a proposer is served
--     BlockMerger        block_merger.rs, context.rs: the merged blocks that may be served
--     Header             get_header.rs, mod.rs: the header that a proposer is served
--       Merged, Served       which one it is, or why there is none
--       Held, Ready, Requests, History   its payload is at hand, after any history
--
--   Simulator          crates/relay/src/simulator/mod.rs, crates/common/src/simulator.rs
--     Error              which errors blame the block, the node or nobody
--     Request            a request and its sort key
--     Entry              `SimEntry`: limit, breaker, health of a node; Entry/Bounds its invariant
--     Queue              `PendingRequests`, `PendingMergeRequests`; Order, History their laws
--     Pool               the state of `Simulators`, and the answers given without a simulation
--     Spawn, Dispatch, Reports, Slots
--                        running a request, `dispatch`, `next_done`, `on_new_slot`
--     Selection          which node runs a request
--     Conserved          what is owed to those who wait: Answers, Running, Asked, Progress, History
--     Counters           the counters of the slot
--
--   Merging            crates/relay/src/block_merging, crates/types/src/block_merging.rs, crates/tcp-types/src/merging
--     Orders             `order_to_ref`, `order_ref_hash`: orders on the wire
--     Unbundling         `find_unbundled_txs`; Flags, Reference, Segments say what it finds
--     Tile               the state of `BlockMergingTile`, its connection and its slot
--     Forward            `forward_decoded`, the replay after a handshake; Sent, Quiet say when a block goes out,
--                        Wire, Unresolved what the builder can resolve of it
--     Merged             `handle_merged_block`; Accepted, Blobs say what holds of a block that passes
--
--   TcpBids            crates/relay/src/tcp_bid_recv, crates/tcp-types/src/lib.rs
--     Header             `BidSubmissionHeader`, its bytes and its flags
--     Listener           the state of `BidSubmissionTcpListener` and its answers
--     Poll, Loop         what a socket event does; `loop_body`
--     Registered         whose bids pass
--     Pending            which peers may still register; Seats, Open, that none is lost
--
-- Conventions. Each operation is a function from the state to the state and its answer, in the order of
-- the source's statements; the messages it sends on are a list, newest first
-- (oldest first in TcpBids). The clock is an argument. A
-- failed assertion is `none`. Hashes, addresses and public keys are numbers, since the code only compares
-- them; byte strings whose content or length is read are lists of bytes. A u256 and a u64 are their
-- values, and no modelled operation adds them up; the u32 counters wrap as in a release build, and the
-- counters of 64 bits are taken not to overflow. A hash map
-- is an association list, and no theorem depends on its order. The hasher, the tree hash root and the
-- limits of the consensus client's types are fields of the record `Externals`, of which no theorem asks
-- anything. Loops are recursive over the list they run over, so nothing needs fuel.
--
-- Not modelled: log lines, metrics, tracing, the database, sockets and HTTP, signature checks, SSZ and JSON
-- codecs, and the capacities of collections. `KzgCommitments` holds at most 4096 entries, which no
-- configured blob limit exceeds, so pushing to it does not fail here.
pub mod Base
pub mod Types
pub mod Simulator
pub mod Auctioneer
pub mod Merging
pub mod TcpBids
