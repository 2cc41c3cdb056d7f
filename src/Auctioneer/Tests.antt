-- ===== src/Auctioneer/Tests.antt =====
-- crates/relay/src/auctioneer: the small components on concrete calls, and the theorems on them.
use helix.Base.{ℕ, ◌≡◌, ◌↔◌, false, some, List, [], ◌∷◌, if◌then◌else◌, any}
use helix.Base.{◌≤◌, suc, inl, inr, length, ℕ_discrete, none, refl}
use helix.Base.Map.{get, insert}
use helix.Auctioneer.Samples.{
  chain, attributes, duty, slot_five, trusted, full_block, before, after,
}
use helix.Types.Samples.{externals, payload}
use helix.Types.Payload.{ForkName, out_of_sequence, validate_trace, check_tx_lengths}
use helix.Auctioneer.BidSorter.{process_slot, fork_key_discrete}
use helix.Auctioneer.Slot.{
  PayloadAndBlobs, bid_trace, timestamp, prev_randao, attrs_for_submission, candidates, fork,
  payload_and_blobs,
}
use helix.Auctioneer.Validation.{
  payload_attributes, validate_submission, validate_version, validate_submission_data,
  hydration_check, trace_mismatch, validate, check_submission_version, check_submission_fork,
  fork_eq, check_if_trusted_builder, builder_id_list,
}
use helix.Auctioneer.Validation.Soundness.{validate_submission_twice}
use helix.Auctioneer.Unblind.{
  BlindedBlock, Unblinded, get_unblinded, validate_proposal_coordinate, unblind, to_header,
  header_eq, bytes_eq, commitments_eq, is_fulu, get_unblinded-Matches,
}
use helix.Auctioneer.Context.{
  start_slot, start_payloads, handle_gossip_payload, maybe_try_unblind, try_unblind,
  handle_get_payload,
}
use helix.Auctioneer.State.{
  Event, slot_data, gossip_payload, bid_slot, step, on_slot_data, begin_slot, process_slot_data,
  insert_all, on_get_payload, on_gossip_payload, maybe_start_broadcasting, initial,
}
use helix.Auctioneer.State.Serving.{delivered_slots, FallsBelow}
use helix.Auctioneer.State.Delivery.{run-delivered}
use helix.Auctioneer.State.Delivery
use helix.Auctioneer.SeenBlocks.{
  SeenBlock, new_block, repeat, late, record_block, decide, same_root,
}
use helix.Auctioneer.SeenBlocks.History.{
  Call, records, decides, run, is_closed, seen_in, run-record, run-decide,
}
use helix.Auctioneer.Payloads.{is_empty_store, PayloadStore, get_payload, get_for_reveal}
use helix.Auctioneer.Payloads
use helix.Auctioneer.Preferences
use helix.Auctioneer.Gloas.{
  Reveal, Justified, handle_attestation_deadline, builder_index, run-reveal,
}

abbrev block : ℕ → SeenBlock
block root = record {
  block_root = root;
  parent_root = 1;
  bid_builder_index = 7;
  bid_block_hash = 50;
}

-- Newest first: slot 4 was decided, and slot 5 has seen block 10 twice.
abbrev calls : List Call
calls = records 5 (block 10) ∷ decides 4 ∷ records 5 (block 10) ∷ records 4 (block 9) ∷ []

run-record_example : (record_block 5 (block 11) (run calls)).1 ≡ (
    if is_closed 5 calls
    then late
    else if any (same_root (block 11)) (seen_in 5 calls)
    then repeat
    else new_block)
run-record_example = run-record calls 5 (block 11)

run-decide_example : (decide 5 (run calls)).1 ≡ (if is_closed 5 calls then [] else seen_in 5 calls)
run-decide_example = run-decide calls 5

run-max_execution_payment_example :
    Preferences.max_execution_payment 1 8
      (Preferences.run (Preferences.starts 8 ∷ Preferences.stores 1 8 500 ∷ []))
    ≡ Preferences.last_stored 1 8 (Preferences.starts 8 ∷ Preferences.stores 1 8 500 ∷ [])
run-max_execution_payment_example =
    Preferences.run-max_execution_payment (Preferences.starts 8 ∷ Preferences.stores 1 8 500 ∷ []) 1
      8

abbrev payload_calls : List (Payloads.Call ℕ)
payload_calls = Payloads.rotates ∷ Payloads.inserts 50 77 ∷ []

run-get_for_reveal_example :
    (get_payload 50 (Payloads.run payload_calls) ≡ Payloads.newest 1 50 payload_calls)
    × (get_for_reveal 50 (Payloads.run payload_calls) ≡ Payloads.newest 2 50 payload_calls)
run-get_for_reveal_example = Payloads.run-get_for_reveal payload_calls 50

abbrev revealed : Reveal ℕ
revealed = record { builder_index = 7; block = block 10; entry = 77 }

run-reveal_example :
    ((handle_attestation_deadline 5 10 7 (Payloads.run payload_calls) (run calls)).1
      ≡ some revealed)
    ↔ ((is_closed 5 calls ≡ false)
        × Justified (seen_in 5 calls) (builder_index 7) 10 (Payloads.run payload_calls) revealed)
run-reveal_example = run-reveal calls 5 10 7 (Payloads.run payload_calls) revealed

validate_full_block :
    validate_submission externals chain full_block trusted slot_five before
    ≡ (after, inr attributes)
unfolding validate_submission validate_version validate_submission_data hydration_check bid_trace
    timestamp prev_randao trace_mismatch payload_attributes attrs_for_submission candidates validate
    validate_trace check_submission_version check_submission_fork fork_eq check_if_trusted_builder
    builder_id_list get insert ℕ_discrete
validate_full_block = refl

validate_submission_twice_example :
    validate_submission externals chain full_block trusted slot_five after
    ≡ (after, inl (out_of_sequence full_block.version full_block.version))
validate_submission_twice_example =
    validate_submission_twice externals chain full_block trusted slot_five before after attributes
      validate_full_block

abbrev block_five : BlindedBlock
block_five = record {
  fork_name = ForkName.fulu;
  slot = 5;
  proposer_index = 31;
  header = record {
    parent_hash = 1;
    fee_recipient = 2;
    state_root = 0;
    receipts_root = 0;
    logs_bloom = 0;
    prev_randao = 3;
    block_number = 77;
    gas_limit = 30;
    gas_used = 20;
    timestamp = 12;
    extra_data = [];
    base_fee_per_gas = 1;
    block_hash = 5;
    transactions_root = 1;
    withdrawals_root = 0;
    blob_gas_used = 0;
    excess_blob_gas = 0;
  };
  blob_kzg_commitments = [];
}

abbrev held : PayloadAndBlobs
held = record {
  execution_payload = payload;
  blobs_bundle = record { commitments = []; proofs = []; blobs = [] };
}

abbrev unblinded : Unblinded
unblinded = record {
  slot = 5;
  proposer_index = 31;
  payload = payload;
  commitments = [];
  kzg_proofs = [];
  blobs = [];
}

get_unblinded_five : get_unblinded externals 5 block_five held slot_five ≡ inr unblinded
unfolding get_unblinded validate_proposal_coordinate unblind to_header header_eq bytes_eq
    commitments_eq is_fulu fork_eq check_tx_lengths
get_unblinded_five = refl

get_unblinded-Matches_example :
    (block_five.slot ≡ 5)
    × (unblinded.slot ≡ 5)
    × (unblinded.proposer_index ≡ slot_five.registration_data.validator_index)
    × (block_five.fork_name ≡ ForkName.fulu)
    × (to_header externals unblinded.payload ≡ block_five.header)
    × (unblinded.payload ≡ held.execution_payload)
    × (held.blobs_bundle.commitments ≡ block_five.blob_kzg_commitments)
    × (unblinded.commitments ≡ block_five.blob_kzg_commitments)
    × (length unblinded.commitments ≡ length unblinded.blobs)
get_unblinded-Matches_example =
    get_unblinded-Matches externals 5 block_five held slot_five unblinded get_unblinded_five

-- The request comes first and waits, and the payload comes by gossip.
abbrev events : List Event
events =
    slot_data 5 (some duty) (attributes ∷ []) none
    ∷ Event.get_payload block_five 5 1
    ∷ gossip_payload (record {
      slot = 5;
      proposer_pub_key = 6;
      execution_payload = held;
      bid_data = record {
        withdrawals_root = 0;
        tx_root = none;
        execution_requests = [];
        value = 100;
        builder_pubkey = 8;
      };
    })
    ∷ []

delivered_slots-events : delivered_slots (Delivery.run externals chain events initial).2 ≡ 5 ∷ []
unfolding Delivery.run step on_slot_data begin_slot start_slot start_payloads process_slot
    process_slot_data insert_all on_get_payload on_gossip_payload handle_gossip_payload
    maybe_start_broadcasting maybe_try_unblind try_unblind handle_get_payload payload_and_blobs
    is_empty_store fork_key_discrete fork get_unblinded validate_proposal_coordinate unblind
    to_header header_eq bytes_eq commitments_eq is_fulu fork_eq check_tx_lengths get insert
    ℕ_discrete
delivered_slots-events = refl

run-delivered_example :
    let (s, c, log) = Delivery.run externals chain events initial in
    FallsBelow (suc (bid_slot s)) (delivered_slots log)
    × (c.validator.bid_slot ≡ bid_slot s)
    × (c.bid_sorter.curr_bid_slot ≡ bid_slot s)
    × (bid_slot s
        ≤ bid_slot
            (Delivery.run externals chain events (Delivery.run externals chain events initial)).0)
run-delivered_example = run-delivered externals chain events events
