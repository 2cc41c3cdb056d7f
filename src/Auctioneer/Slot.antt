-- ===== src/Auctioneer/Slot.antt =====
-- crates/relay/src/auctioneer/types.rs and crates/common/src: what is known of the slot that is
-- auctioned, and what is stored of a payload. Of each record there are the fields that the modelled
-- code reads: the api keys, delays, traces and ids of requests, and the data for adjustments and merging,
-- are left out. Builder ids are strings that the code only compares, and an inclusion list is a number.
use helix.Base.{ℕ, Bool, ◌&&◌, Option, none, some, List, [], ◌∷◌, ◌==◌, if◌then◌else◌}
use helix.Base.Map.{Map}
use helix.Types.SubmissionVersion.{SubmissionVersion}
use helix.Types.Payload.{
  BidTrace, ExecutionPayload, BlobsBundle, SignedBidSubmissionFulu, ForkName, bid_trace_eq,
}
use helix.Types.Hydration.{DehydratedBidSubmission}
use helix.Auctioneer.BidSorter.{ForkKey}

pub record PayloadAttributesUpdate : Type 0 where
  pub slot : ℕ
  pub parent_hash : ℕ
  pub withdrawals_root : ℕ
  pub timestamp : ℕ
  pub prev_randao : ℕ
  pub parent_beacon_block_root : Option ℕ

abbrev pub parent_root : PayloadAttributesUpdate → ℕ
parent_root a = elim a.parent_beacon_block_root [ none ↦ 0 | some root ↦ root ]

unfoldable pub fork : PayloadAttributesUpdate → ForkKey
fork a = record { parent_hash = a.parent_hash; parent_root = parent_root a }

pub record ValidatorPreferences : Type 0 where
  pub is_regional : Bool
  pub trusted_builders : Option (List ℕ)
  pub disable_optimistic : Bool

-- `BuilderGetValidatorsResponseEntry`, with the registration's message.
pub record SlotDuty : Type 0 where
  pub slot : ℕ
  pub validator_index : ℕ
  pub pubkey : ℕ
  pub fee_recipient : ℕ
  pub preferences : ValidatorPreferences

pub record SlotData : Type 0 where
  pub bid_slot : ℕ
  pub registration_data : SlotDuty
  pub payload_attributes_map : Map ForkKey PayloadAttributesUpdate
  pub current_fork : ForkName
  pub il : Option ℕ

unfoldable pub find_fork : ℕ → Map ForkKey PayloadAttributesUpdate → Option ForkKey
find_fork parent_hash [] = none
find_fork parent_hash ((k, a) ∷ m) =
    if k.parent_hash == parent_hash then some k else find_fork parent_hash m

unfoldable pub fork_for_parent_hash : SlotData → ℕ → Option ForkKey
fork_for_parent_hash d parent_hash = find_fork parent_hash d.payload_attributes_map

-- `values().filter(|a| a.parent_hash == parent_hash)`, and those of them with the randao.
unfoldable pub candidates : ℕ → Map ForkKey PayloadAttributesUpdate → List PayloadAttributesUpdate
candidates parent_hash [] = []
candidates parent_hash ((k, a) ∷ m) =
    let rest = candidates parent_hash m in if a.parent_hash == parent_hash then a ∷ rest else rest

unfoldable pub find_randao : ℕ → List PayloadAttributesUpdate → Option PayloadAttributesUpdate
find_randao prev_randao [] = none
find_randao prev_randao (a ∷ rest) =
    if a.prev_randao == prev_randao then some a else find_randao prev_randao rest

unfoldable pub attrs_for_submission : SlotData → ℕ → ℕ → Option PayloadAttributesUpdate
attrs_for_submission d parent_hash prev_randao =
    elim (candidates parent_hash d.payload_attributes_map) [
      | [] ↦ none
      | first ∷ rest ↦
          if first.prev_randao == prev_randao
          then some first
          else elim (find_randao prev_randao rest) [ some a ↦ some a | none ↦ some first ]
    ]

-- What the byte views of a Gloas submission read.
pub record GloasBidSubmission : Type 0 where
  pub trace : BidTrace
  pub parent_block_root : ℕ
  pub parent_hash : ℕ
  pub block_hash : ℕ
  pub gas_limit : ℕ
  pub gas_used : ℕ
  pub slot_number : ℕ
  pub prev_randao : ℕ
  pub timestamp : ℕ
  pub block_number : ℕ
  pub fee_recipient : ℕ

pub data SignedBidSubmission : Type 0 where
  fulu_submission : SignedBidSubmissionFulu → SignedBidSubmission
  gloas_submission : GloasBidSubmission → SignedBidSubmission

pub data Submission : Type 0 where
  full : SignedBidSubmission → Submission
  dehydrated : DehydratedBidSubmission → Submission

unfoldable pub bid_trace : Submission → BidTrace
bid_trace (full (fulu_submission s)) = s.message
bid_trace (full (gloas_submission s)) = s.trace
bid_trace (dehydrated s) = s.message

unfoldable pub timestamp : Submission → ℕ
timestamp (full (fulu_submission s)) = s.execution_payload.timestamp
timestamp (full (gloas_submission s)) = s.timestamp
timestamp (dehydrated s) = s.execution_payload.timestamp

unfoldable pub prev_randao : Submission → ℕ
prev_randao (full (fulu_submission s)) = s.execution_payload.prev_randao
prev_randao (full (gloas_submission s)) = s.prev_randao
prev_randao (dehydrated s) = s.execution_payload.prev_randao

unfoldable pub block_number : Submission → ℕ
block_number (full (fulu_submission s)) = s.execution_payload.block_number
block_number (full (gloas_submission s)) = s.block_number
block_number (dehydrated s) = s.execution_payload.block_number

unfoldable pub fee_recipient : Submission → ℕ
fee_recipient (full (fulu_submission s)) = s.execution_payload.fee_recipient
fee_recipient (full (gloas_submission s)) = s.fee_recipient
fee_recipient (dehydrated s) = s.execution_payload.fee_recipient

pub record SubmissionData : Type 0 where
  pub submission : Submission
  pub version : SubmissionVersion
  pub withdrawals_root : Option ℕ
  pub decoded_fork : ForkName
  pub is_pessimistic : Bool
  pub receive_ns : ℕ
  pub submission_id : ℕ

pub record PayloadBidData : Type 0 where
  pub withdrawals_root : ℕ
  pub tx_root : Option ℕ
  pub execution_requests : List ℕ
  pub value : ℕ
  pub builder_pubkey : ℕ

pub record PayloadAndBlobs : Type 0 where
  pub execution_payload : ExecutionPayload
  pub blobs_bundle : BlobsBundle

-- A submission that is stored, with the time it was received, and a payload that another relay or the
-- merge builder sent.
pub data PayloadEntry : Type 0 where
  submission_entry : SignedBidSubmissionFulu → ℕ → PayloadEntry
  gossip_entry : PayloadAndBlobs → PayloadBidData → PayloadEntry

unfoldable pub has_bid_trace : BidTrace → PayloadEntry → Bool
has_bid_trace t (submission_entry s _) = bid_trace_eq s.message t
has_bid_trace t (gossip_entry p d) = d.value == t.value && d.builder_pubkey == t.builder_pubkey

unfoldable pub payload_and_blobs : PayloadEntry → PayloadAndBlobs
payload_and_blobs (submission_entry s _) = record {
  execution_payload = s.execution_payload;
  blobs_bundle = s.blobs_bundle;
}
payload_and_blobs (gossip_entry p d) = p

unfoldable pub receive_ns : PayloadEntry → Option ℕ
receive_ns (submission_entry s ns) = some ns
receive_ns (gossip_entry p d) = none

unfoldable pub value : PayloadEntry → ℕ
value (submission_entry s _) = s.message.value
value (gossip_entry p d) = d.value

unfoldable pub builder_pubkey : PayloadEntry → ℕ
builder_pubkey (submission_entry s _) = s.message.builder_pubkey
builder_pubkey (gossip_entry p d) = d.builder_pubkey

unfoldable pub execution_payload : PayloadEntry → ExecutionPayload
execution_payload (submission_entry s _) = s.execution_payload
execution_payload (gossip_entry p d) = p.execution_payload
