-- ===== src/Simulator/Pool.antt =====
-- crates/relay/src/simulator/mod.rs, `Simulators`: the state of the pool, and the answers that it gives
-- without a simulation. A task that was spawned is in `tasks` until it reports; `rx` is the channel to
-- which it reports, oldest first; `answered` and `superseded` are stacks, newest first.
use helix.Base.{ℕ, Bool, true, false, Option, none, some, List, [], ◌∷◌, if◌then◌else◌}
use helix.Base.Map.{Map}
use helix.Types.SubmissionVersion.{SubmissionVersion}
use helix.Auctioneer.BidSorter.{Bid}
use helix.Auctioneer.Slot.{SignedBidSubmission, full, block_number, fee_recipient}
use helix.Auctioneer.BlockMerger.{BlockMergeResponse}
use helix.Auctioneer.Simulation.{SimulationResult}
use helix.Simulator.Error.{BlockSimError, simulation_dropped}
use helix.Simulator.Request.{ValidationRequest, MergedValidationRequest, trace_of}
use helix.Simulator.Entry.{SimEntry}
use helix.Simulator.Queue.{Waiting, Merging, LocalTelemetry}

-- `SimulationResultInner`, without the telemetry of the transactions.
pub record SimulationResultInner : Type 0 where
  pub result : SimulationResult
  pub submission_id : ℕ
  pub block_hash : ℕ
  pub retried : Bool

pub record MergedSimulationResultInner : Type 0 where
  pub outcome : Option BlockSimError
  pub submission_id : ℕ
  pub block_hash : ℕ

-- With the index of the node.
pub data SimResult : Type 0 where
  validated : ℕ → SimulationResultInner → SimResult
  validated_merged : ℕ → MergedSimulationResultInner → SimResult

pub record SimDone : Type 0 where
  pub result : SimResult
  pub elapsed : ℕ

pub data SimulatorsEvent : Type 0 where
  task_done : ℕ → Option BlockSimError → SimResult → Option ℕ → SimulatorsEvent
  sync_status : ℕ → Option Bool → SimulatorsEvent

pub data SeenBlock : Type 0 where
  in_flight : List ValidationRequest → SeenBlock
  simulated : Option BlockSimError → SeenBlock

pub record SampleState : Type 0 where
  pub seen : ℕ
  pub sampled : ℕ

-- What runs on a node.
pub data Task : Type 0 where
  validating : ℕ → ValidationRequest → Task
  merging : ℕ → MergedValidationRequest → BlockMergeResponse → Task

pub record SimStarted : Type 0 where
  pub submission_id : ℕ
  pub block_hash : ℕ
  pub merged : Bool
  pub is_top_bid : Bool

pub record Simulators : Type 0 where
  pub simulators : List SimEntry
  pub requests : List Waiting
  pub priority_requests : List Waiting
  pub merge_requests : List Merging
  pub superseded : List ValidationRequest
  pub last_bid_slot : ℕ
  pub previous_bid_slot : ℕ
  pub local_telemetry : LocalTelemetry
  pub rx : List SimulatorsEvent
  pub sample_state : Map ℕ SampleState
  pub seen_blocks : Map ℕ SeenBlock
  pub accept_optimistic : Bool
  pub answered : List SimDone
  pub tasks : List Task

abbrev pub no_telemetry : LocalTelemetry
no_telemetry = record {
  sims_reqs = 0;
  sims_sent_immediately = 0;
  sims_reqs_dropped = 0;
  max_pending = 0;
  max_in_flight = 0;
  sample_skipped = 0;
  duplicate_skipped = 0;
  queued = 0;
  sims_sent_from_queue = 0;
  superseded = 0;
  superseded_sent = 0;
}

unfoldable pub new_pool : List SimEntry → Simulators
new_pool simulators = record {
  simulators = simulators;
  requests = [];
  priority_requests = [];
  merge_requests = [];
  superseded = [];
  last_bid_slot = 0;
  previous_bid_slot = 0;
  local_telemetry = no_telemetry;
  rx = [];
  sample_state = [];
  seen_blocks = [];
  accept_optimistic = true;
  answered = [];
  tasks = [];
}

-- `Bid::new`.
unfoldable pub new_bid : SubmissionVersion → SignedBidSubmission → ℕ → Bid
new_bid version submission root =
    let t = trace_of submission in
    record {
      version = version;
      value = t.value;
      slot = t.slot;
      block_hash = t.block_hash;
      builder_pubkey = t.builder_pubkey;
      block_number = block_number (full submission);
      parent_hash = t.parent_hash;
      parent_root = root;
      fee_recipient = fee_recipient (full submission);
    }

-- A result for a request that no node ran: its block hash is zero.
abbrev pub unsimulated : ValidationRequest → Option Bid → Option BlockSimError → SimDone
unsimulated req bid outcome = record {
  result = validated 0 (record {
    result = record { is_optimistic = req.is_optimistic; outcome = outcome; bid = bid };
    submission_id = req.submission_id;
    block_hash = 0;
    retried = false;
  });
  elapsed = 0;
}

-- `SimDone::dropped`, added to the answers.
unfoldable pub answer_dropped : ValidationRequest → List SimDone → List SimDone
answer_dropped req answered =
    if req.is_optimistic
    then answered
    else unsimulated req none (some simulation_dropped) ∷ answered

unfoldable pub answer_cached :
    ValidationRequest → Option BlockSimError → List SimDone → List SimDone
answer_cached req outcome answered =
    if req.is_optimistic
    then answered
    else unsimulated req (some (new_bid req.version req.submission req.parent_beacon_block_root))
        outcome
      ∷ answered

unfoldable pub answer_all_dropped : List ValidationRequest → List SimDone → List SimDone
answer_all_dropped [] answered = answered
answer_all_dropped (r ∷ rs) answered = answer_all_dropped rs (answer_dropped r answered)

unfoldable pub answer_all_cached :
    List ValidationRequest → Option BlockSimError → List SimDone → List SimDone
answer_all_cached [] outcome answered = answered
answer_all_cached (r ∷ rs) outcome answered =
    answer_all_cached rs outcome (answer_cached r outcome answered)
