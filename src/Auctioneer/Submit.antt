-- ===== src/Auctioneer/Submit.antt =====
-- crates/relay/src/auctioneer/submit_block.rs: from a submission to a bid in the auction and a stored
-- payload. The bid adjustor is the one of the repository, which adjusts nothing. What the atomics and
-- the simulators say, and the builder's entry in the cache, are arguments.
use helix.Base.{
  ℕ, Bool, true, false, not, ◌&&◌, ◌||◌, Option, none, some, List, [], ◌∷◌, ◌⊎◌, inl, inr, leb, ltb,
  if◌then◌else◌, ℕ_discrete,
}
use helix.Base.Map.{Map, insert}
use helix.Types.Payload.{
  Externals, BlockValidationError, SignedBidSubmissionFulu, validate_payload_ssz_lengths,
}
use helix.Types.Hydration.{HydratedData, Result, ok, err}
use helix.Types.Hydration.Builders.{HydrationCache}
use helix.Types.Hydration.Builders
use helix.Auctioneer.BidSorter.{Bid, BidSorter, Producers, top_bid_value}
use helix.Auctioneer.BidSorter
use helix.Auctioneer.Payloads.{insert_payload}
use helix.Auctioneer.Slot.{
  PayloadAttributesUpdate, parent_root, fork, SlotData, SignedBidSubmission, fulu_submission,
  gloas_submission, Submission, full, dehydrated, bid_trace, block_number, fee_recipient,
  SubmissionData, submission_entry,
}
use helix.Auctioneer.Validation.{Chain, BuilderInfo, Validator, validate_submission}
use helix.Auctioneer.Context.{Context}
use helix.Simulator.Request.{SimPriority, previous_slot, low, sample, top, ValidationRequest}
pub mod Safety

-- `Result<(), BuilderApiError>`.
pub data SubmissionResult : Type 0 where
  accepted : SubmissionResult
  bid_validation : BlockValidationError → SubmissionResult
  internal_error : SubmissionResult

-- The builder's answer, if it gets one before the simulation, and the request to the simulators.
pub record Submitted : Type 0 where
  pub answer : Option SubmissionResult
  pub request : Option ValidationRequest

-- Whether the simulators accept optimistic bids, and the failsafe.
pub record Gate : Type 0 where
  pub accept_optimistic : Bool
  pub failsafe_triggered : Bool

unfoldable pub bid_from_submission_data : SubmissionData → ℕ → Bid
bid_from_submission_data sub root =
    let t = bid_trace sub.submission in
    record {
      version = sub.version;
      value = t.value;
      slot = t.slot;
      block_hash = t.block_hash;
      builder_pubkey = t.builder_pubkey;
      block_number = block_number sub.submission;
      parent_hash = t.parent_hash;
      parent_root = root;
      fee_recipient = fee_recipient sub.submission;
    }

unfoldable pub sim_priority : Bool → Bool → SimPriority
sim_priority is_top_bid is_optimistic =
    if is_top_bid then top else if is_optimistic then sample else low

unfoldable pub should_process_optimistically : Bool → ℕ → BuilderInfo → SlotData → Bool
should_process_optimistically is_pessimistic value info d =
    let p = d.registration_data.preferences in
    not is_pessimistic
    && not p.disable_optimistic
    && info.is_optimistic
    && leb value info.collateral
    && (not p.is_regional || (info.is_optimistic && info.is_optimistic_for_regional_filtering))

-- `is_none_or(|top| value > top)`.
abbrev pub beats : ℕ → Option ℕ → Bool
beats value none = true
beats value (some t) = ltb t value

module _ (x : Externals) (chain : Chain) where
  -- The submission in full, and the builder's transactions root if it sent one.
  unfoldable pub hydrate_submission :
      Submission → HydrationCache → HydrationCache × Option (SignedBidSubmission × Option ℕ)
  hydrate_submission (full s) h = (h, some (s, none))
  hydrate_submission (dehydrated s) h =
      let (h', r) = Builders.hydrate x s h chain.max_blobs_per_block in
      (
        h',
        elim r [
          | err _ ↦ none
          | ok data' ↦
              elim (validate_payload_ssz_lengths x chain.max_blobs_per_block data'.submission) [
                | some _ ↦ none
                | none ↦ some (fulu_submission data'.submission, data'.tx_root)
              ]
        ],
      )

  -- Whether the bid is optimistic, and whether it is, or would be, the top bid.
  unfoldable pub sort_submission :
      ℕ
      → ℕ
      → Gate
      → SubmissionData
      → BuilderInfo
      → SlotData
      → PayloadAttributesUpdate
      → BidSorter × Producers
      → Option (BidSorter × Producers × Bool × Bool)
  sort_submission now_ns latency gate sub info d a (b, out) =
      let bid = bid_from_submission_data sub (parent_root a) in
      if gate.accept_optimistic
        && not gate.failsafe_triggered
        && should_process_optimistically sub.is_pessimistic bid.value info d
      then elim (BidSorter.sort now_ns latency bid (b, out)) [
        | none ↦ none
        | some (b', out', is_top_bid) ↦ some (b', out', true, is_top_bid)
      ]
      else some (b, out, false, beats bid.value (top_bid_value b (fork a)))

  unfoldable pub store_submission : ℕ → SignedBidSubmission → Validator → Validator
  store_submission receive_ns (fulu_submission s) v = record v {
    payloads =
        insert ℕ_discrete s.execution_payload.block_hash (submission_entry s receive_ns) v.payloads;
  }
  store_submission receive_ns (gloas_submission s) v = record v {
    gloas_payloads = insert_payload s.trace.block_hash s v.gloas_payloads;
  }

  unfoldable pub feed_rejected : Submission → HydrationCache → HydrationCache
  feed_rejected (full _) h = h
  feed_rejected (dehydrated s) h = Builders.feed x s h

  abbrev pub set_hydration : HydrationCache → Validator → Validator
  set_hydration h v = record v { hydration_cache = h }

  -- From the hydration on; the context holds the sorter that the bid went to.
  unfoldable pub finish_submission :
      SubmissionData
      → SlotData
      → PayloadAttributesUpdate
      → Bool
      → Bool
      → Context
      → Context × Submitted
  finish_submission sub d a is_optimistic is_top_bid c =
      let (h, r) = hydrate_submission sub.submission c.validator.hydration_cache in
      let v = set_hydration h c.validator in
      elim r [
        | none ↦
            (record c { validator = v }, record { answer = some internal_error; request = none })
        | some (s, tx_root) ↦ (
          record c { validator = store_submission sub.receive_ns s v },
          record {
            answer = if is_optimistic then some accepted else none;
            request = some (record {
              priority = sim_priority is_top_bid is_optimistic;
              is_top_bid = is_top_bid;
              is_optimistic = is_optimistic;
              apply_blacklist = d.registration_data.preferences.is_regional;
              parent_beacon_block_root = parent_root a;
              submission = s;
              tx_root = tx_root;
              version = sub.version;
              receive_ns = sub.receive_ns;
              submission_id = sub.submission_id;
            });
          },
        )
      ]

  -- `none` is a panic.
  unfoldable pub handle_submission :
      ℕ
      → ℕ
      → Gate
      → SubmissionData
      → BuilderInfo
      → SlotData
      → Context × Producers
      → Option ((Context × Producers) × Submitted)
  handle_submission now_ns latency gate sub info d (c, out) =
      let (v, validated) = validate_submission x chain sub info d c.validator in
      elim validated [
        | inl e ↦ some (
          (
            record c {
              validator = set_hydration (feed_rejected sub.submission v.hydration_cache) v;
            },
            out,
          ),
          record { answer = some (bid_validation e); request = none },
        )
        | inr a ↦ elim (sort_submission now_ns latency gate sub info d a (c.bid_sorter, out)) [
          | none ↦ none
          | some (b, out', is_optimistic, is_top_bid) ↦
              let (c', submitted) =
                finish_submission sub d a is_optimistic is_top_bid
                  (record c { validator = v; bid_sorter = b }) in
              some ((c', out'), submitted)
        ]
      ]
