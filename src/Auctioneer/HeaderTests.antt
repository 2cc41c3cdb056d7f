-- ===== src/Auctioneer/HeaderTests.antt =====
-- crates/relay/src/auctioneer: a slot's history up to the header that its proposer is served.
use helix.Base.{
  ℕ, ◌≡◌, refl, inr, true, false, Option, none, some, List, [], ◌∷◌, ℕ_discrete, arith,
}
use helix.Types.Samples.{externals, payload, dehydrated}
use helix.Base.Map.{get}
use helix.Auctioneer.Samples.{chain, slot_five, trusted, full_block, after}
use helix.Auctioneer.BidSorter.{Bid, BidSorter, Producers}
use helix.Auctioneer.BidSorter.History.{Inv}
use helix.Auctioneer.BlockMerger.{BlockMergingConfig, empty_merger}
use helix.Auctioneer.Slot.{PayloadEntry, submission_entry}
use helix.Auctioneer.Context.{Context}
use helix.Auctioneer.Submit.{Gate}
use helix.Auctioneer.State.{initial_context}
use helix.Auctioneer.Header.{GetHeaderParams, HeaderResult, on_get_header}
use helix.Auctioneer.Header.History.{Call, submits, starts, call, run, run-IsHeld}
use helix.Auctioneer.Header.Held.{IsHeld}
use helix.Auctioneer.Header.Served.{Outcome, Unchanged, on_get_header-Outcome}

abbrev history : List Call
history =
    starts 5
    ∷ submits 11 3 (record { accept_optimistic = true; failsafe_triggered = false }) full_block
        trusted slot_five
    ∷ []

abbrev merging : BlockMergingConfig
merging = record {
  max_merged_bid_age_ms = 250;
  max_merged_bid_age_ms_by_builder = [];
  serve_merged_headers_allowlist = [];
}

abbrev header_request : GetHeaderParams
header_request = record { slot = 5; parent_hash = 1; pubkey = 6 }

abbrev stored : PayloadEntry
stored =
    submission_entry
      (record {
        message = dehydrated.message;
        execution_payload = payload;
        blobs_bundle = record { commitments = []; proofs = []; blobs = [] };
        execution_requests = [];
        signature = [];
      })
      10

abbrev only_bid : Bid
only_bid = record {
  version = record { on_receive_ns = 10; sequence = none };
  value = 100;
  slot = 5;
  block_hash = 5;
  builder_pubkey = 8;
  block_number = 77;
  parent_hash = 1;
  parent_root = 4;
  fee_recipient = 2;
}

abbrev sorted : BidSorter
sorted = record {
  curr_bid_slot = 5;
  forks =
      (
        record { parent_hash = 1; parent_root = 4 },
        record { bids = (8, only_bid) ∷ []; curr_bid = some only_bid; subs = 1; top_bids = 1 },
      )
      ∷ [];
  demotions = [];
  local_telemetry = record { subs = 1; subs_process_time = 3; stale_subs = 0 };
}

sorted-Inv : Inv sorted
unfolding get ℕ_discrete
sorted-Inv = (
  record {
    belongs = ((refl, refl, refl, refl), tt);
    distinct = (refl, tt);
    top = (refl, (omega arith, tt));
  },
  tt,
)

abbrev submitted : Context
submitted = record initial_context {
  validator = record after { payloads = (5, stored) ∷ [] };
  bid_sorter = sorted;
  block_merger = empty_merger 5;
}

abbrev updates : Producers
updates =
    record {
      timestamp = 11;
      slot = 5;
      block_number = 77;
      block_hash = 5;
      parent_hash = 1;
      builder_pubkey = 8;
      fee_recipient = 2;
      value = 100;
    }
    ∷ []

replayed : run externals chain history (initial_context, []) ≡ some (submitted, updates)
unfolding run call helix.Auctioneer.Submit.handle_submission
    helix.Auctioneer.Validation.validate_submission helix.Auctioneer.Slot.bid_trace
    helix.Auctioneer.Context.start_slot helix.Auctioneer.Context.start_payloads
    helix.Auctioneer.Payloads.is_empty_store helix.Auctioneer.Validation.trace_mismatch get
    helix.Auctioneer.Validation.payload_attributes helix.Auctioneer.Slot.attrs_for_submission
    helix.Auctioneer.Slot.candidates helix.Auctioneer.Slot.prev_randao
    helix.Auctioneer.Validation.hydration_check helix.Auctioneer.Validation.validate_version
    helix.Auctioneer.Validation.check_submission_version
    helix.Auctioneer.Validation.validate_submission_data
    helix.Auctioneer.Validation.check_submission_fork helix.Auctioneer.Validation.fork_eq
    helix.Auctioneer.Validation.validate helix.Types.Payload.validate_trace
    helix.Auctioneer.Slot.timestamp helix.Auctioneer.Validation.check_if_trusted_builder
    helix.Auctioneer.Validation.builder_id_list helix.Auctioneer.Submit.sort_submission
    helix.Auctioneer.Submit.should_process_optimistically
    helix.Auctioneer.Submit.bid_from_submission_data helix.Auctioneer.BidSorter.sort
    helix.Auctioneer.BidSorter.process_slot helix.Auctioneer.Submit.finish_submission
    helix.Auctioneer.BidSorter.process_bid helix.Auctioneer.Submit.hydrate_submission
    helix.Auctioneer.BidSorter.place_bid helix.Auctioneer.Submit.store_submission
    helix.Auctioneer.BidSorter.fork_or_default helix.Auctioneer.Preferences.on_new_slot
    helix.Auctioneer.BlockMerger.reset_merger helix.Base.Map.insert
    helix.Types.Hydration.Builders.clear helix.Base.Map.retain
    helix.Auctioneer.BidSorter.compare_with_top helix.Auctioneer.Slot.block_number
    helix.Auctioneer.Slot.fee_recipient
replayed = refl

stored_served :
    on_get_header merging true header_request slot_five submitted ≡ some (inr stored, submitted)
unfolding on_get_header helix.Auctioneer.Slot.fork_for_parent_hash helix.Auctioneer.Slot.find_fork
    helix.Auctioneer.Header.handle_get_header helix.Auctioneer.Header.get_header_result
    helix.Auctioneer.Header.best_block_hash helix.Auctioneer.BidSorter.get_header get
    helix.Auctioneer.BidSorter.fork_key_discrete helix.Auctioneer.Header.serve_header
    helix.Auctioneer.BlockMerger.get_merged_header
stored_served = refl

on_get_header-Outcome_example :
    (r : HeaderResult) × (c : Context) × (on_get_header merging true header_request slot_five
        submitted
      ≡ some (r, c))
    × Outcome merging true header_request slot_five submitted r
    × Unchanged submitted c
on_get_header-Outcome_example =
    on_get_header-Outcome merging true header_request slot_five submitted sorted-Inv refl

run-IsHeld_example : IsHeld submitted.validator.payloads stored
run-IsHeld_example =
    run-IsHeld externals chain history submitted submitted updates merging true header_request
      slot_five stored replayed refl stored_served
