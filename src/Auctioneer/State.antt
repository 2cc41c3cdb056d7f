-- ===== src/Auctioneer/State.antt =====
-- crates/relay/src/auctioneer/mod.rs, `State::_step`: the slot's life. The events here are those that
-- bring slot data, ask for payloads, bring payloads of other relays, store preferences, and bring Gloas
-- blocks and their deadlines.
use helix.Base.{
  ℕ, suc, ◌-◌, Bool, true, false, not, ◌&&◌, Option, none, some, List, [], ◌∷◌, ◌==◌, ltb,
  if◌then◌else◌, ℕ_discrete,
}
use helix.Base.Map.{Map, get, insert, is_empty}
use helix.Types.Payload.{Externals}
use helix.Auctioneer.BidSorter.{ForkKey, fork_key_discrete, new}
use helix.Auctioneer.BlockMerger.{empty_merger}
use helix.Auctioneer.SeenBlocks.{SeenBlock, record_block, no_blocks}
use helix.Auctioneer.Preferences
use helix.Auctioneer.Payloads.{empty_store}
use helix.Auctioneer.Gloas.{Reveal, handle_attestation_deadline}
use helix.Auctioneer.Slot.{
  PayloadAttributesUpdate, SlotDuty, SlotData, fork, payload_and_blobs, GloasBidSubmission,
}
use helix.Auctioneer.Validation.{Chain, Validator}
use helix.Auctioneer.Unblind.{
  BlindedBlock, request_for_past_slot, proposer_not_registered, delivering_payload,
  get_payload_already_received,
}
use helix.Auctioneer.Context.{
  PendingPayload, Answer, refused, preferences_stored, Output, answered, revealed, Log, Context,
  BroadcastPayloadParams, start_slot, set_pending, handle_gossip_payload, handle_get_payload,
  maybe_try_unblind,
}
pub mod Serving
pub mod Delivery

abbrev pub Attributes : Type 0
Attributes = Map ForkKey PayloadAttributesUpdate

pub data State : Type 0 where
  waiting : ℕ → Option SlotDuty → Attributes → Option ℕ → State
  sorting : SlotData → State
  broadcasting : SlotData → ℕ → State

pub data Event : Type 0 where
  slot_data : ℕ → Option SlotDuty → List PayloadAttributesUpdate → Option ℕ → Event
  get_payload : BlindedBlock → ℕ → ℕ → Event
  gossip_payload : BroadcastPayloadParams → Event
  submit_builder_preferences : ℕ → ℕ → ℕ → ℕ → Event
  gloas_block : ℕ → SeenBlock → Event
  attestation_deadline : ℕ → ℕ → ℕ → Event

-- The state machine, its context and the answers that it gave.
abbrev pub Auctioneer : Type 0
Auctioneer = State × Context × Log

unfoldable pub bid_slot : State → ℕ
bid_slot (waiting slot reg m il) = slot
bid_slot (sorting d) = d.bid_slot
bid_slot (broadcasting d h) = d.bid_slot

abbrev pub or_else {ℓ} : {A : Type ℓ} → Option A → Option A → Option A
or_else none b = b
or_else (some a) b = some a

unfoldable pub insert_all : List PayloadAttributesUpdate → Attributes → Attributes
insert_all [] m = m
insert_all (a ∷ updates) m = insert_all updates (insert fork_key_discrete (fork a) a m)

-- Those whose fork is not known yet.
unfoldable pub new_forks : Attributes → List PayloadAttributesUpdate → List PayloadAttributesUpdate
new_forks m [] = []
new_forks m (a ∷ updates) =
    let rest = new_forks m updates in
    elim (get fork_key_discrete (fork a) m) [ none ↦ a ∷ rest | some _ ↦ rest ]

abbrev pub log_reveal : ℕ → Option (Reveal GloasBidSubmission) → Log → Log
log_reveal slot none log = log
log_reveal slot (some r) log = revealed slot r ∷ log

module _ (x : Externals) (chain : Chain) where
  unfoldable pub process_slot_data :
      ℕ → Attributes → Option SlotDuty → List PayloadAttributesUpdate → Option ℕ → State
  process_slot_data slot m registration updates il =
      let m' = insert_all updates m in
      elim registration [
        | none ↦ waiting slot none m' il
        | some duty ↦
            if is_empty m'
            then waiting slot (some duty) m' il
            else sorting (record {
              bid_slot = slot;
              registration_data = duty;
              payload_attributes_map = m';
              current_fork = chain.fork_at_slot slot;
              il = il;
            })
      ]

  -- A slot after the state's.
  unfoldable pub begin_slot :
      ℕ → Option SlotDuty → List PayloadAttributesUpdate → Option ℕ → Auctioneer → Auctioneer
  begin_slot slot registration updates il (s, c, log) =
      let (c', log') = start_slot slot (c, log) in
      (process_slot_data slot [] registration updates il, c', log')

  -- More data for the slot that is sorted.
  unfoldable pub more_slot_data : SlotData → List PayloadAttributesUpdate → Option ℕ → SlotData
  more_slot_data d updates il = elim (new_forks d.payload_attributes_map updates) [
    | [] ↦ record d { il = or_else d.il il }
    | a ∷ rest ↦ record d {
      payload_attributes_map = insert_all (a ∷ rest) d.payload_attributes_map;
    }
  ]

  unfoldable pub on_slot_data :
      ℕ → Option SlotDuty → List PayloadAttributesUpdate → Option ℕ → Auctioneer → Auctioneer
  on_slot_data slot registration updates il (waiting curr reg m curr_il, c, log) =
      if ltb slot curr
      then (waiting curr reg m curr_il, c, log)
      else if slot == curr
      then (
        process_slot_data slot m (or_else reg registration) updates (or_else curr_il il),
        c,
        log,
      )
      else begin_slot slot registration updates il (waiting curr reg m curr_il, c, log)
  on_slot_data slot registration updates il (sorting d, c, log) =
      if ltb slot d.bid_slot
      then (sorting d, c, log)
      else if slot == d.bid_slot
      then (sorting (more_slot_data d updates il), c, log)
      else begin_slot slot registration updates il (sorting d, c, log)
  on_slot_data slot registration updates il (broadcasting d h, c, log) =
      if ltb d.bid_slot slot
      then begin_slot slot registration updates il (broadcasting d h, c, log)
      else (broadcasting d h, c, log)

  -- The state after a payload may have been served.
  abbrev pub broadcast : SlotData → Option ℕ → State
  broadcast d none = sorting d
  broadcast d (some h) = broadcasting d h

  unfoldable pub on_get_payload : BlindedBlock → ℕ → ℕ → Auctioneer → Auctioneer
  on_get_payload blinded block_hash res_tx (sorting d, c, log) =
      elim (get ℕ_discrete block_hash c.validator.payloads) [
        | some local ↦
            let (h, log') =
              handle_get_payload x c.validator.bid_slot (payload_and_blobs local) blinded res_tx d
                log in
            (broadcast d h, c, log')
        | none ↦ elim c.pending_payload [
          | none ↦ (
            sorting d,
            set_pending
                (some (record { block_hash = block_hash; blinded = blinded; res_tx = res_tx })) c,
            log,
          )
          | some _ ↦ (sorting d, c, answered res_tx (refused get_payload_already_received) ∷ log)
        ]
      ]
  on_get_payload blinded block_hash res_tx (broadcasting d h, c, log) = (
    broadcasting d h,
    c,
    answered res_tx (
          refused (
            if d.bid_slot == blinded.slot && h == block_hash
            then delivering_payload
            else get_payload_already_received))
        ∷ log,
  )
  on_get_payload blinded block_hash res_tx (waiting slot reg m il, c, log) = (
    waiting slot reg m il,
    c,
    answered res_tx (
          refused (
            if slot - 1 == blinded.slot
            then request_for_past_slot blinded.slot blinded.slot
            else proposer_not_registered))
        ∷ log,
  )

  -- `maybe_start_broacasting`.
  unfoldable pub maybe_start_broadcasting : SlotData → Context × Log → Auctioneer
  maybe_start_broadcasting d (c, log) =
      let (h, c', log') = maybe_try_unblind x d (c, log) in (broadcast d h, c', log')

  unfoldable pub on_gossip_payload : BroadcastPayloadParams → Auctioneer → Auctioneer
  on_gossip_payload g (sorting d, c, log) =
      maybe_start_broadcasting d (handle_gossip_payload g d c, log)
  on_gossip_payload g (s, c, log) = (s, c, log)

  unfoldable pub on_preferences : ℕ → ℕ → ℕ → ℕ → Auctioneer → Auctioneer
  on_preferences pubkey slot payment res_tx (s, c, log) =
      if ltb slot (bid_slot s)
      then (s, c, answered res_tx (refused (request_for_past_slot slot (bid_slot s))) ∷ log)
      else (
        s,
        record c {
          builder_preferences = Preferences.store pubkey slot payment c.builder_preferences;
        },
        answered res_tx preferences_stored ∷ log,
      )

  -- The last number of a deadline is what the relay's builder index holds then.
  unfoldable pub step : Event → Auctioneer → Auctioneer
  step (slot_data slot registration updates il) a = on_slot_data slot registration updates il a
  step (get_payload blinded block_hash res_tx) a = on_get_payload blinded block_hash res_tx a
  step (gossip_payload g) a = on_gossip_payload g a
  step (submit_builder_preferences pubkey slot payment res_tx) a =
      on_preferences pubkey slot payment res_tx a
  step (gloas_block slot seen) (s, c, log) =
      (s, record c { seen_blocks = (record_block slot seen c.seen_blocks).0 }, log)
  step (attestation_deadline slot head_root identity) (s, c, log) =
      let (seen, reveal) =
        handle_attestation_deadline slot head_root identity c.validator.gloas_payloads
          c.seen_blocks in
      (s, record c { seen_blocks = seen }, log_reveal slot reveal log)

abbrev pub initial_context : Context
initial_context = record {
  validator = record {
    bid_slot = 0;
    payloads = [];
    gloas_payloads = empty_store;
    hydration_cache = [];
    submission_versions = [];
  };
  pending_payload = none;
  bid_sorter = new;
  builder_preferences = [];
  seen_blocks = no_blocks;
  block_merger = empty_merger 0;
  completed_dry_run = false;
}

abbrev pub initial : Auctioneer
initial = (waiting 0 none [] none, initial_context, [])
