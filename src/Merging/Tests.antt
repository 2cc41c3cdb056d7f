-- ===== src/Merging/Tests.antt =====
-- crates/relay/src/block_merging: the definitions and the theorems at concrete values.
use helix.Base.{
  ℕ, ◌≡◌, ◌==◌, if◌then◌else◌, refl, true, false, none, some, [], ◌∷◌, arith, length, ℕ_discrete,
}
use helix.Base.Map.{Map, get}
use helix.Types.Payload.{SignedBidSubmissionFulu, ExecutionPayload}
use helix.Types.Samples.{externals, payload, dehydrated, bytes}
use helix.Auctioneer.Slot.{full, fulu_submission}
use helix.Merging.Orders.{BlockMergingDataV2, bundle_order, order_to_ref}
use helix.Merging.Unbundling.{OrderTxs, find_unbundled_txs, positions_of}
use helix.Merging.Unbundling.Reference.{taken_apart, find_unbundled_txs-taken_apart}
use helix.Merging.Tile.{
  SlotStartV1, Tile, no_conn, new_slot_state, stale_slot, on_reject, SlotState,
}
use helix.Merging.Forward.{MergeExternals, is_member, forward_decoded}
use helix.Merging.Forward.Sent.{IsSent, forward_decoded-IsSent}
use helix.Merging.Forward.Quiet.{
  forwards, pings, acknowledges, slot_calls, blocks_sent, on_reject-blocks_sent,
}
use helix.Merging.Forward.Unresolved.{Unresolved, connecting, on_ack-Unresolved}
use helix.Merging.Merged.{TxExternals, MergedBlockV1, MergeResponse, handle_merged_block}
use helix.Merging.Merged.Accepted.{IsComplete, IsAtomic, handle_merged_block-IsAccepted}
use helix.Auctioneer.Slot.{bid_trace}
use helix.Base.Map.{insert}
use helix.Merging.Forward.{
  forward_in_slot, forward_signed, is_over_limits, mergeable, send_block, signed_submission,
}
use helix.Merging.Merged.{
  BlobWithMetadata, push_sidecar, collect_inclusions, all_txs, appended_tx_hashes,
  merged_block_to_response, only_members, with_builders,
}
use helix.Merging.Orders.{
  code, codes_for, convert_order, order_refs, range, read_codes, validate_order,
}
use helix.Merging.Tile.{send}
use helix.Merging.Unbundling.{
  flag_at, is_satisfied, mark, mark_all, positions_from, satisfied_from, set_or, unexplained,
}
use helix.Types.Payload.{validate_blobs_lengths}

abbrev fulu : SignedBidSubmissionFulu
fulu = record {
  message = dehydrated.message;
  execution_payload = payload;
  blobs_bundle = record { commitments = []; proofs = []; blobs = [] };
  execution_requests = [];
  signature = [];
}

-- The block's one transaction may be merged.
abbrev merging : BlockMergingDataV2
merging = record {
  allow_appending = true;
  builder_address = 70;
  orders = record { start = 0; len = 1; flags = 0 } ∷ [];
  tx_codes = [];
}

abbrev merge_externals : MergeExternals
merge_externals = record {
  hydration = externals;
  keccak = λ tx. length tx;
  bundle_order_hash = λ hashes. length hashes;
  frame_len = λ msg. 500;
  max_blobs_per_block = 6;
}

abbrev start_of_five : SlotStartV1
start_of_five = record {
  slot = 5;
  parent_hash = 1;
  proposer_fee_recipient = 2;
  parent_beacon_block_root = 4;
  apply_blacklist = false;
}

-- Connected and acknowledged, in a slot that has started.
abbrev tile : Tile
tile = record {
  token = some 0;
  conn = record no_conn { active = true; max_orders_per_slot = 8; max_frame_bytes = 1000 };
  slot = record (new_slot_state 5) { slot_start = some start_of_five };
  hydration_cache = [];
  ping_nonce = 0;
  decoded =
      (3, record { submission = full (fulu_submission fulu); merging_data = some merging }) ∷ [];
  sent = [];
}

-- Out of the bytes 0b10_01: the first transaction may revert, the second may be dropped.
mixed_bundle :
    order_to_ref
      (record { start = 1; len = 2; flags = 0 })
      (some (record { order = 0; codes = 9 ∷ [] }))
      8
    ≡ some (
        bundle_order (record {
          txs = 1 ∷ 2 ∷ [];
          reverting_txs = 0 ∷ [];
          dropping_txs = 1 ∷ [];
          latest_only = false;
        }))
unfolding order_to_ref convert_order read_codes code validate_order range
mixed_bundle = refl

-- A foreign transaction stands within the bundle.
abbrev bundle : OrderTxs
bundle = record { hashes = 1 ∷ 2 ∷ 3 ∷ []; droppable = [] }

interleaved : find_unbundled_txs (1 ∷ 99 ∷ 2 ∷ 3 ∷ []) (bundle ∷ []) ≡ 1 ∷ 2 ∷ 3 ∷ []
unfolding find_unbundled_txs unexplained flag_at mark_all mark get positions_from insert ℕ_discrete
    set_or is_satisfied satisfied_from
interleaved = refl

find_unbundled_txs-taken_apart_example :
    find_unbundled_txs (1 ∷ 99 ∷ 2 ∷ 3 ∷ []) (bundle ∷ [])
    ≡ taken_apart (positions_of (1 ∷ 99 ∷ 2 ∷ 3 ∷ [])) (bundle ∷ []) 0 (1 ∷ 99 ∷ 2 ∷ 3 ∷ [])
find_unbundled_txs-taken_apart_example =
    find_unbundled_txs-taken_apart (1 ∷ 99 ∷ 2 ∷ 3 ∷ []) (bundle ∷ [])

sent_once : blocks_sent (forward_decoded merge_externals true 3 none tile) ≡ 1
unfolding forward_decoded get ℕ_discrete bid_trace forward_in_slot signed_submission forward_signed
    send_block is_over_limits mergeable order_refs order_to_ref convert_order codes_for
    validate_order send
sent_once = refl

forward_decoded-IsSent_example :
    IsSent merge_externals true 3 tile (forward_decoded merge_externals true 3 none tile)
forward_decoded-IsSent_example =
    forward_decoded-IsSent merge_externals true 3 none tile (omega arith)

on_reject-blocks_sent_example :
    blocks_sent (
      slot_calls merge_externals
        (forwards true 3 ∷ pings ∷ acknowledges true 0 8 1000 ∷ [])
        (on_reject 0 stale_slot 5 tile))
    ≡ 0
on_reject-blocks_sent_example =
    on_reject-blocks_sent merge_externals 0 stale_slot 5
      (forwards true 3 ∷ pings ∷ acknowledges true 0 8 1000 ∷ []) tile refl refl

on_ack-Unresolved_example : Unresolved merge_externals fulu merging 0 8 1000 start_of_five tile (
    forward_decoded merge_externals true 3 none
      (connecting merge_externals fulu merging 0 start_of_five tile))
unfolding get ℕ_discrete
on_ack-Unresolved_example =
    on_ack-Unresolved merge_externals fulu merging 3 0 8 1000 start_of_five tile refl (omega arith)
      (omega arith) (λ msg. omega arith)

-- The base block's payment, an appended transaction and the last one.
abbrev merged_payload : ExecutionPayload
merged_payload = record payload { transactions = bytes 1 40 ∷ bytes 2 67 ∷ bytes 3 50 ∷ [] }

abbrev merged : MergedBlockV1
merged = record {
  slot = 5;
  base_block_hash = 5;
  execution_payload = some merged_payload;
  execution_requests = some [];
  proposer_value = 120;
  builder_inclusions = (70, 67 ∷ []) ∷ [];
  unmerged_txs = [];
}

abbrev tx_externals : TxExternals
tx_externals = record {
  limits = externals;
  keccak = λ tx. length tx;
  blob_hashes = λ tx. if length tx == 40 then some (90 ∷ []) else some [];
  max_blobs_per_block = 6;
}

-- The base block's transaction has a blob.
abbrev sidecars : Map ℕ BlobWithMetadata
sidecars = (90, record { commitment = 7 ∷ []; proofs = 1 ∷ 2 ∷ []; blob = 44 }) ∷ []

abbrev base_forwarded : SlotState
base_forwarded = record (new_slot_state 5) {
  appendable = 5 ∷ [];
  order_txs = record { hashes = 67 ∷ []; droppable = [] } ∷ [];
}

abbrev merged_answer : MergeResponse
merged_answer = record {
  response = record {
    base_block_hash = 5;
    execution_payload = merged_payload;
    execution_requests = [];
    blobs_bundle = record { commitments = (7 ∷ []) ∷ []; proofs = 1 ∷ 2 ∷ []; blobs = 44 ∷ [] };
    proposer_value = 120;
  };
  builder_inclusions = (70, 67 ∷ []) ∷ [];
  base_payment_tx_index = 0;
  unmerged_txs = [];
  tx_builders = [];
}

handle_merged_block-IsAccepted_example :
    (true ≡ true)
    × (merged.slot ≡ base_forwarded.bid_slot)
    × (is_member merged.base_block_hash base_forwarded.appendable ≡ true)
    × ((merged_answer.response.base_block_hash ≡ merged.base_block_hash)
        × IsComplete tx_externals sidecars merged_answer
        × IsAtomic tx_externals base_forwarded merged_answer)
unfolding handle_merged_block merged_block_to_response push_sidecar collect_inclusions
    validate_blobs_lengths appended_tx_hashes find_unbundled_txs unexplained only_members flag_at
    mark_all mark get positions_from insert ℕ_discrete set_or is_satisfied satisfied_from
    with_builders all_txs
handle_merged_block-IsAccepted_example =
    handle_merged_block-IsAccepted tx_externals true merged sidecars base_forwarded merged_answer
      refl
