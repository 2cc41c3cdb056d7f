-- ===== src/Auctioneer/Samples.antt =====
-- crates/relay/src/auctioneer: concrete values for the tests.
use helix.Base.{true, false, none, some, [], ◌∷◌}
use helix.Types.Samples.{payload, dehydrated}
use helix.Types.Payload.{ForkName}
use helix.Auctioneer.Slot.{
  PayloadAttributesUpdate, SlotDuty, SlotData, SubmissionData, full, fulu_submission,
}
use helix.Auctioneer.Validation.{Chain, BuilderInfo, Validator}

abbrev pub chain : Chain
chain = record {
  is_local_dev = false;
  max_blobs_per_block = 6;
  fork_at_slot = λ slot. ForkName.fulu;
}

abbrev pub attributes : PayloadAttributesUpdate
attributes = record {
  slot = 5;
  parent_hash = 1;
  withdrawals_root = 0;
  timestamp = 12;
  prev_randao = 3;
  parent_beacon_block_root = some 4;
}

abbrev pub duty : SlotDuty
duty = record {
  slot = 5;
  validator_index = 31;
  pubkey = 6;
  fee_recipient = 2;
  preferences = record {
    is_regional = false;
    trusted_builders = some (90 ∷ []);
    disable_optimistic = false;
  };
}

abbrev pub slot_five : SlotData
slot_five = record {
  bid_slot = 5;
  registration_data = duty;
  payload_attributes_map = (record { parent_hash = 1; parent_root = 4 }, attributes) ∷ [];
  current_fork = ForkName.fulu;
  il = none;
}

abbrev pub trusted : BuilderInfo
trusted = record {
  collateral = 1000;
  is_optimistic = true;
  is_optimistic_for_regional_filtering = false;
  builder_id = none;
  builder_ids = some (80 ∷ 90 ∷ []);
}

abbrev pub full_block : SubmissionData
full_block = record {
  submission = full (
      fulu_submission (record {
        message = dehydrated.message;
        execution_payload = payload;
        blobs_bundle = record { commitments = []; proofs = []; blobs = [] };
        execution_requests = [];
        signature = [];
      }));
  version = record { on_receive_ns = 10; sequence = none };
  withdrawals_root = some 0;
  decoded_fork = ForkName.fulu;
  is_pessimistic = false;
  receive_ns = 10;
  submission_id = 41;
}

abbrev pub before : Validator
before = record {
  bid_slot = 5;
  payloads = [];
  gloas_payloads = record { current = []; previous = [] };
  hydration_cache = [];
  submission_versions = [];
}

abbrev pub after : Validator
after = record before {
  submission_versions = (8, (5, record { on_receive_ns = 10; sequence = none })) ∷ [];
}
