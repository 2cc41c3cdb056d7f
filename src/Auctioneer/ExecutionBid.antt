-- ===== src/Auctioneer/ExecutionBid.antt =====
-- crates/relay/src/auctioneer/get_execution_payload_bid.rs: the Gloas bid that a proposer is served.
-- What is signed is the payload's own bid with the relay's builder index.
use helix.Base.{ℕ, ◌≡◌, ap, subst, ◌∙◌, ◌⊎◌, inl, inr, not, none, some, ◌==◌, if◌then◌else◌, arith}
use helix.Base.Map.{get}
use helix.Auctioneer.BidSorter.{BidSorter, ForkKey, fork_key_discrete, get_header}
use helix.Auctioneer.BidSorter.History.{Inv, bids_of, ServesBest, get_header-ServesBest}
use helix.Auctioneer.Payloads.{PayloadStore, get_payload}
use helix.Auctioneer.Gloas.{builder_index}
use helix.Auctioneer.Slot.{PayloadAttributesUpdate, SlotData, GloasBidSubmission}

pub record GetExecutionPayloadBidParams : Type 0 where
  pub slot : ℕ
  pub parent_hash : ℕ
  pub parent_root : ℕ
  pub proposer_pubkey : ℕ

pub data BidRequestError : Type 0 where
  bid_request_slot_mismatch : ℕ → ℕ → BidRequestError
  unexpected_proposer_pubkey : ℕ → ℕ → BidRequestError
  no_bid_prepared : BidRequestError

abbrev pub requested_fork : GetExecutionPayloadBidParams → ForkKey
requested_fork p = record { parent_hash = p.parent_hash; parent_root = p.parent_root }

unfoldable pub check_execution_payload_bid_liveness :
    GetExecutionPayloadBidParams → SlotData → BidRequestError ⊎ ForkKey
check_execution_payload_bid_liveness p d =
    if not (p.slot == d.bid_slot)
    then inl (bid_request_slot_mismatch d.bid_slot p.slot)
    else if not (p.proposer_pubkey == d.registration_data.pubkey)
    then inl (unexpected_proposer_pubkey d.registration_data.pubkey p.proposer_pubkey)
    else elim (get fork_key_discrete (requested_fork p) d.payload_attributes_map) [
      | none ↦ inl no_bid_prepared
      | some _ ↦ inr (requested_fork p)
    ]

-- The payload whose bid is signed, and the index that it is signed with.
unfoldable pub signed_bid :
    BidSorter
    → PayloadStore GloasBidSubmission
    → ℕ
    → ForkKey
    → BidRequestError ⊎ (GloasBidSubmission × ℕ)
signed_bid b payloads identity k = elim (get_header b k) [
  | none ↦ inl no_bid_prepared
  | some hash ↦ elim (get_payload hash payloads) [
    | none ↦ inl no_bid_prepared
    | some entry ↦ elim (builder_index identity) [
      | none ↦ inl no_bid_prepared
      | some index ↦ inr (entry, index)
    ]
  ]
]

unfoldable pub handle_get_execution_payload_bid :
    GetExecutionPayloadBidParams
    → SlotData
    → BidSorter
    → PayloadStore GloasBidSubmission
    → ℕ
    → BidRequestError ⊎ (GloasBidSubmission × ℕ)
handle_get_execution_payload_bid p d b payloads identity =
    elim (check_execution_payload_bid_liveness p d) [
      | inl e ↦ inl e
      | inr k ↦ signed_bid b payloads identity k
    ]

check_liveness-eq-inr :
    (p : GetExecutionPayloadBidParams) (d : SlotData) (k : ForkKey)
    → check_execution_payload_bid_liveness p d ≡ inr k
    → (p.slot ≡ d.bid_slot)
      × (p.proposer_pubkey ≡ d.registration_data.pubkey)
      × ((a : PayloadAttributesUpdate) × (get fork_key_discrete
              (requested_fork p)
              d.payload_attributes_map
            ≡ some a))
      × (requested_fork p ≡ k)
unfolding check_execution_payload_bid_liveness
check_liveness-eq-inr p d k e = ground arith

signed_bid-eq-inr :
    (b : BidSorter) (payloads : PayloadStore GloasBidSubmission) (identity : ℕ) (k : ForkKey)
    (entry : GloasBidSubmission) (index : ℕ)
    → signed_bid b payloads identity k ≡ inr (entry, index)
    → (builder_index identity ≡ some index)
      × ((hash : ℕ) × (get_header b k ≡ some hash) × (get_payload hash payloads ≡ some entry))
unfolding signed_bid
signed_bid-eq-inr b payloads identity k entry index e = ground arith

handle-eq-inr :
    (p : GetExecutionPayloadBidParams) (d : SlotData) (b : BidSorter)
    (payloads : PayloadStore GloasBidSubmission) (identity : ℕ) (r : GloasBidSubmission × ℕ)
    → handle_get_execution_payload_bid p d b payloads identity ≡ inr r
    → (k : ForkKey) × (check_execution_payload_bid_liveness p d ≡ inr k)
      × (signed_bid b payloads identity k ≡ inr r)
unfolding handle_get_execution_payload_bid
handle-eq-inr p d b payloads identity r e = ground arith

-- In a sorter that satisfies its invariant, a bid is served only for the slot of the auction, to its
-- registered proposer, on a fork that is known; it is signed with the relay's resolved index, and it is
-- the bid of a payload of this auction whose hash is the one of a best bid on record for the fork.
pub handle_get_execution_payload_bid-ServesBest :
    (p : GetExecutionPayloadBidParams) (d : SlotData) (b : BidSorter)
    (payloads : PayloadStore GloasBidSubmission) (identity index : ℕ) (entry : GloasBidSubmission)
    → Inv b
    → handle_get_execution_payload_bid p d b payloads identity ≡ inr (entry, index)
    → (p.slot ≡ d.bid_slot)
      × (p.proposer_pubkey ≡ d.registration_data.pubkey)
      × ((a : PayloadAttributesUpdate) × (get fork_key_discrete
              (requested_fork p)
              d.payload_attributes_map
            ≡ some a))
      × (builder_index identity ≡ some index)
      × ((hash : ℕ) × (get_payload hash payloads ≡ some entry)
          × ServesBest (some hash) (bids_of b (requested_fork p)))
handle_get_execution_payload_bid-ServesBest p d b payloads identity index entry i e =
    let (k, live, signed) = handle-eq-inr p d b payloads identity (entry, index) e in
    let (slot, proposer, known, same) = check_liveness-eq-inr p d k live in
    let (resolved, (hash, header, held)) =
      signed_bid-eq-inr b payloads identity k entry index signed in
    (
      slot,
      proposer,
      known,
      resolved,
      (
        hash,
        held,
        subst (λ h. ServesBest h (bids_of b (requested_fork p))) (ap (get_header b) same ∙ header)
            (get_header-ServesBest b (requested_fork p) i),
      ),
    )
