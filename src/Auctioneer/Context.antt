-- ===== src/Auctioneer/Context.antt =====
-- crates/relay/src/auctioneer/context.rs and get_payload.rs: the auctioneer's state within a slot, its
-- change to a new slot, and the serving of payloads. What goes out is logged, newest first, an answer
-- to a request under the number of its channel. The context's other parts (simulators, bid adjustor,
-- database) are not in the model.
use helix.Base.{
  ℕ, Bool, false, not, ◌||◌, Option, none, some, List, [], ◌∷◌, inl, inr, ◌==◌, if◌then◌else◌,
  ℕ_discrete,
}
use helix.Base.Map.{get, insert, is_empty}
use helix.Types.Payload.{Externals}
use helix.Types.Hydration.Builders.{clear}
use helix.Auctioneer.BidSorter.{BidSorter, process_slot}
use helix.Auctioneer.SeenBlocks.{SeenBlocks}
use helix.Auctioneer.Preferences.{BuilderPreferencesStore}
use helix.Auctioneer.Preferences
use helix.Auctioneer.BlockMerger.{BlockMerger, reset_merger}
use helix.Auctioneer.Payloads.{rotate, is_empty_store}
use helix.Auctioneer.Gloas.{Reveal}
use helix.Auctioneer.Slot.{
  GloasBidSubmission, SlotData, PayloadAndBlobs, PayloadBidData, PayloadEntry, gossip_entry,
  payload_and_blobs,
}
use helix.Auctioneer.Validation.{Validator}
use helix.Auctioneer.Unblind.{
  BlindedBlock, Unblinded, ProposerApiError, no_execution_payload_found, get_unblinded,
}

pub record PendingPayload : Type 0 where
  pub block_hash : ℕ
  pub blinded : BlindedBlock
  pub res_tx : ℕ

pub data Answer : Type 0 where
  refused : ProposerApiError → Answer
  delivered : Unblinded → Answer
  preferences_stored : Answer

-- An answer to a request, and a Gloas payload that is revealed for a slot.
pub data Output : Type 0 where
  answered : ℕ → Answer → Output
  revealed : ℕ → Reveal GloasBidSubmission → Output

abbrev pub Log : Type 0
Log = List Output

-- What validation reads is a record of its own.
pub record Context : Type 0 where
  pub validator : Validator
  pub pending_payload : Option PendingPayload
  pub bid_sorter : BidSorter
  pub builder_preferences : BuilderPreferencesStore
  pub block_merger : BlockMerger
  pub seen_blocks : SeenBlocks
  pub completed_dry_run : Bool

pub record BroadcastPayloadParams : Type 0 where
  pub slot : ℕ
  pub proposer_pub_key : ℕ
  pub execution_payload : PayloadAndBlobs
  pub bid_data : PayloadBidData

-- The payloads are replaced, and the Gloas payloads rotated, if there are any.
unfoldable pub start_payloads : ℕ → Validator → Validator
start_payloads bid_slot v =
    let v' = record v {
      bid_slot = bid_slot;
      submission_versions = [];
      hydration_cache = clear v.hydration_cache;
    } in
    if not (is_empty v.payloads) || not (is_empty_store v.gloas_payloads)
    then record v' { payloads = []; gloas_payloads = (rotate v.gloas_payloads).0 }
    else v'

abbrev pub refuse_pending : Option PendingPayload → Log → Log
refuse_pending none log = log
refuse_pending (some p) log = answered p.res_tx (refused no_execution_payload_found) ∷ log

unfoldable pub start_slot : ℕ → Context × Log → Context × Log
start_slot bid_slot (c, log) = (
  record {
    validator = start_payloads bid_slot c.validator;
    pending_payload = none;
    bid_sorter = process_slot bid_slot c.bid_sorter;
    builder_preferences = Preferences.on_new_slot bid_slot c.builder_preferences;
    seen_blocks = c.seen_blocks;
    block_merger = reset_merger bid_slot c.block_merger;
    completed_dry_run = false;
  },
  refuse_pending c.pending_payload log,
)

abbrev pub set_pending : Option PendingPayload → Context → Context
set_pending p c = record c { pending_payload = p }

-- `entry(block_hash).or_insert(entry)`.
abbrev pub add_payload : ℕ → PayloadEntry → Validator → Validator
add_payload block_hash entry v = elim (get ℕ_discrete block_hash v.payloads) [
  | some _ ↦ v
  | none ↦ record v { payloads = insert ℕ_discrete block_hash entry v.payloads }
]

unfoldable pub handle_gossip_payload : BroadcastPayloadParams → SlotData → Context → Context
handle_gossip_payload g d c =
    if not (c.validator.bid_slot == g.slot)
    then c
    else if not (d.registration_data.pubkey == g.proposer_pub_key)
    then c
    else record c {
      validator =
          add_payload g.execution_payload.execution_payload.block_hash
            (gossip_entry g.execution_payload g.bid_data) c.validator;
    }

module _ (x : Externals) where
  -- The answer, and the hash of the block that is broadcast.
  unfoldable pub handle_get_payload :
      ℕ → PayloadAndBlobs → BlindedBlock → ℕ → SlotData → Log → Option ℕ × Log
  handle_get_payload bid_slot local blinded res_tx d log =
      elim (get_unblinded x bid_slot blinded local d) [
        | inl e ↦ (none, answered res_tx (refused e) ∷ log)
        | inr u ↦ (some u.payload.block_hash, answered res_tx (delivered u) ∷ log)
      ]

  -- With the payload that is pending, if there is one.
  unfoldable pub try_unblind :
      Option PendingPayload → SlotData → Context × Log → Option ℕ × Context × Log
  try_unblind none d (c, log) = (none, c, log)
  try_unblind (some p) d (c, log) = elim (get ℕ_discrete p.block_hash c.validator.payloads) [
    | none ↦ (none, c, log)
    | some local ↦
        let (h, log') =
          handle_get_payload c.validator.bid_slot (payload_and_blobs local) p.blinded p.res_tx d
            log in
        (h, set_pending none c, log')
  ]

  unfoldable pub maybe_try_unblind : SlotData → Context × Log → Option ℕ × Context × Log
  maybe_try_unblind d (c, log) = try_unblind c.pending_payload d (c, log)
