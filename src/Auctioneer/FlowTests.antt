-- ===== src/Auctioneer/FlowTests.antt =====
-- crates/relay/src/auctioneer: a submission, a simulation and a Gloas bid, and the theorems on them.
use helix.Base.{ℕ, ◌≡◌, refl, inr, true, false, none, some, [], ◌∷◌, arith, ℕ_discrete}
use helix.Base.Map.{get}
use helix.Types.Samples.{externals}
use helix.Auctioneer.Samples.{chain, slot_five, trusted, full_block, before}
use helix.Auctioneer.BidSorter.{Bid, BidSorter, Producers, fork_key_discrete, get_header, new}
use helix.Auctioneer.BidSorter.History.{Inv, bids_of, ServesBest}
use helix.Auctioneer.Payloads.{PayloadStore, get_payload}
use helix.Auctioneer.BlockMerger.{empty_merger}
use helix.Auctioneer.SeenBlocks.{no_blocks}
use helix.Auctioneer.Gloas.{builder_index}
use helix.Auctioneer.Slot.{PayloadAttributesUpdate, GloasBidSubmission}
use helix.Auctioneer.Context.{Context}
use helix.Auctioneer.Submit.{Submitted, Gate, handle_submission}
use helix.Auctioneer.Submit.Safety.{Answered, IsLive, handle_submission-IsLive}
use helix.Simulator.Error.{invalid_tx_root}
use helix.Auctioneer.Simulation.{SimulationResult, Simulated, on_sim_result}
use helix.Auctioneer.Simulation.Answers.{Outcome, on_sim_result-Outcome}
use helix.Auctioneer.ExecutionBid.{
  GetExecutionPayloadBidParams, requested_fork, handle_get_execution_payload_bid,
  check_execution_payload_bid_liveness, signed_bid, handle_get_execution_payload_bid-ServesBest,
}

abbrev sorter_five : BidSorter
sorter_five = record new { curr_bid_slot = 5 }

abbrev context_five : Context
context_five = record {
  validator = before;
  pending_payload = none;
  bid_sorter = sorter_five;
  builder_preferences = [];
  seen_blocks = no_blocks;
  block_merger = empty_merger 5;
  completed_dry_run = false;
}

abbrev open_gate : Gate
open_gate = record { accept_optimistic = true; failsafe_triggered = false }

handle_submission-IsLive_example :
    (after : Context × Producers) × (s : Submitted) × (handle_submission externals chain 11 3
        open_gate full_block trusted slot_five
        (context_five, [])
      ≡ some (after, s))
    × Answered full_block.receive_ns s after.0.validator
    × IsLive open_gate full_block trusted slot_five (context_five, []) after
handle_submission-IsLive_example =
    handle_submission-IsLive externals chain 11 3 open_gate full_block trusted slot_five
      context_five [] refl

abbrev simulated_bid : Bid
simulated_bid = record {
  version = record { on_receive_ns = 10; sequence = none };
  value = 100;
  slot = 5;
  block_hash = 5;
  builder_pubkey = 8;
  block_number = 77;
  parent_hash = 1;
  parent_root = 4;
  fee_recipient = 2;
}

abbrev failed : SimulationResult
failed = record {
  is_optimistic = false;
  outcome = some (invalid_tx_root 1 2);
  bid = some simulated_bid;
}

abbrev simulating : Simulated
simulating = record {
  sorter = sorter_five;
  producers = [];
  builders = (8, trusted) ∷ [];
  answers = [];
}

on_sim_result-Outcome_example :
    (t : Simulated) × (on_sim_result 20 3 5 (some failed) simulating ≡ some t)
    × Outcome 20 3 5 failed simulating t
on_sim_result-Outcome_example = on_sim_result-Outcome 20 3 5 failed simulating refl

abbrev gloas_entry : GloasBidSubmission
gloas_entry = record {
  trace = record {
    slot = 5;
    parent_hash = 1;
    block_hash = 5;
    builder_pubkey = 8;
    proposer_pubkey = 6;
    proposer_fee_recipient = 2;
    gas_limit = 30;
    gas_used = 20;
    value = 100;
  };
  parent_block_root = 4;
  parent_hash = 1;
  block_hash = 5;
  gas_limit = 30;
  gas_used = 20;
  slot_number = 5;
  prev_randao = 3;
  timestamp = 12;
  block_number = 77;
  fee_recipient = 2;
}

abbrev bid_request : GetExecutionPayloadBidParams
bid_request = record { slot = 5; parent_hash = 1; parent_root = 4; proposer_pubkey = 6 }

abbrev one_bid : BidSorter
one_bid = record sorter_five {
  forks =
      (
        record { parent_hash = 1; parent_root = 4 },
        record {
          bids = (8, simulated_bid) ∷ [];
          curr_bid = some simulated_bid;
          subs = 1;
          top_bids = 1;
        },
      )
      ∷ [];
}

one_bid-Inv : Inv one_bid
unfolding get ℕ_discrete
one_bid-Inv = (
  record {
    belongs = ((refl, refl, refl, refl), tt);
    distinct = (refl, tt);
    top = (refl, (omega arith, tt));
  },
  tt,
)

abbrev gloas_held : PayloadStore GloasBidSubmission
gloas_held = record { current = (5, gloas_entry) ∷ []; previous = [] }

bid_request_served :
    handle_get_execution_payload_bid bid_request slot_five one_bid gloas_held 7
    ≡ inr (gloas_entry, 7)
unfolding handle_get_execution_payload_bid check_execution_payload_bid_liveness signed_bid
    get_header get_payload builder_index get ℕ_discrete fork_key_discrete
bid_request_served = refl

handle_get_execution_payload_bid-ServesBest_example :
    (bid_request.slot ≡ slot_five.bid_slot)
    × (bid_request.proposer_pubkey ≡ slot_five.registration_data.pubkey)
    × ((a : PayloadAttributesUpdate) × (get fork_key_discrete
            (requested_fork bid_request)
            slot_five.payload_attributes_map
          ≡ some a))
    × (builder_index 7 ≡ some 7)
    × ((hash : ℕ) × (get_payload hash gloas_held ≡ some gloas_entry)
        × ServesBest (some hash) (bids_of one_bid (requested_fork bid_request)))
handle_get_execution_payload_bid-ServesBest_example =
    handle_get_execution_payload_bid-ServesBest bid_request slot_five one_bid gloas_held 7 7
      gloas_entry one_bid-Inv bid_request_served
