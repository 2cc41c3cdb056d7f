-- ===== src/Simulator/Request.antt =====
-- crates/relay/src/simulator/mod.rs: a request to simulate a submission, and the order in which waiting
-- requests run. The registered gas limit, the inclusion list and the submission's trace are left out:
-- they only go along to the node.
use Prim.Native.Nat.{compare, Ordering}
use helix.Base.{ℕ, ◌-◌, ◌^◌, Bool, true, false, Option}
use helix.Types.SubmissionVersion.{SubmissionVersion}
use helix.Types.Payload.{BidTrace, ForkName}
use helix.Auctioneer.Slot.{SignedBidSubmission, fulu_submission, gloas_submission}

pub data SimPriority : Type 0 where
  previous_slot low sample top : SimPriority

pub record ValidationRequest : Type 0 where
  pub priority : SimPriority
  pub is_top_bid : Bool
  pub is_optimistic : Bool
  pub apply_blacklist : Bool
  pub parent_beacon_block_root : ℕ
  pub submission : SignedBidSubmission
  pub tx_root : Option ℕ
  pub version : SubmissionVersion
  pub receive_ns : ℕ
  pub submission_id : ℕ

-- A merged block goes along with the request.
pub record MergedValidationRequest : Type 0 where
  pub submission_id : ℕ
  pub base_block_hash : ℕ
  pub slot : ℕ
  pub parent_beacon_block_root : ℕ
  pub proposer_fee_recipient : ℕ
  pub apply_blacklist : Bool
  pub receive_ns : ℕ

unfoldable pub trace_of : SignedBidSubmission → BidTrace
trace_of (fulu_submission s) = s.message
trace_of (gloas_submission s) = s.trace

unfoldable pub block_hash : SignedBidSubmission → ℕ
block_hash (fulu_submission s) = s.message.block_hash
block_hash (gloas_submission s) = s.trace.block_hash

unfoldable pub fork_name : SignedBidSubmission → ForkName
fork_name (fulu_submission _) = ForkName.fulu
fork_name (gloas_submission _) = ForkName.gloas

-- The derived order of the priorities, by their place.
abbrev pub rank : SimPriority → ℕ
rank previous_slot = 0
rank low = 1
rank sample = 2
rank top = 3

abbrev pub top_rank : Bool → ℕ
top_rank true = 1
top_rank false = 0

-- `(priority, is_top_bid, u64::MAX - receive_ns)`.
unfoldable pub sort_key : ValidationRequest → ℕ × ℕ × ℕ
sort_key r = (rank r.priority, top_rank r.is_top_bid, 2 ^ 64 - 1 - r.receive_ns)

-- `a >= b`, lexicographically.
unfoldable pub key_ge : ℕ × ℕ × ℕ → ℕ × ℕ × ℕ → Bool
key_ge (a, b, c) (a', b', c') = elim (compare a a') [
  | Ordering.lt ↦ false
  | Ordering.gt ↦ true
  | Ordering.eq ↦ elim (compare b b') [
    | Ordering.lt ↦ false
    | Ordering.gt ↦ true
    | Ordering.eq ↦ elim (compare c c') [ Ordering.lt ↦ false | _ ↦ true ]
  ]
]
