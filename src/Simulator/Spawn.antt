-- ===== src/Simulator/Spawn.antt =====
-- crates/relay/src/simulator/mod.rs: choosing a node, and running a request there. What the node
-- answers, and how long it takes, is an argument of the task's end.
use helix.Base.{
  ℕ, zero, suc, ◌+◌, Bool, true, false, not, ◌&&◌, Option, none, some, List, [], ◌∷◌, ◌++◌, ◌==◌,
  leb, if◌then◌else◌, ℕ_discrete,
}
use helix.Base.Map.{Map, get, insert}
use helix.Types.Payload.{Externals, ForkName}
use helix.Auctioneer.Slot.{SignedBidSubmission, fulu_submission}
use helix.Auctioneer.BlockMerger.{BlockMergeResponse}
use helix.Simulator.Error.{
  BlockSimError, invalid_tx_root, rpc_error, hydration_miss, unsupported_fork,
}
use helix.Simulator.Request.{ValidationRequest, MergedValidationRequest, block_hash, fork_name}
use helix.Simulator.Entry.{SimEntry, max, can_simulate_at, utilization}
use helix.Simulator.Pool.{
  validated, validated_merged, SimulatorsEvent, task_done, SeenBlock, in_flight, Task, validating,
  merging, SimStarted, Simulators, new_bid,
}
use helix.Simulator.Queue.{LocalTelemetry}

abbrev pub later : Option (ℕ × ℕ) → Option (ℕ × ℕ)
later none = none
later (some (j, u)) = some (suc j, u)

-- `filter` and `min_by_key`: the first of the least used, with its index and its utilization.
unfoldable pub least_used : (SimEntry → Bool) → ℕ → List SimEntry → Option (ℕ × ℕ)
least_used eligible now [] = none
least_used eligible now (s ∷ sims) =
    let rest = later (least_used eligible now sims) in
    if eligible s && can_simulate_at now s
    then elim rest [
      | none ↦ some (0, utilization now s)
      | some (j, u) ↦ if leb (utilization now s) u then some (0, utilization now s) else some (j, u)
    ]
    else rest

abbrev pub index_of : Option (ℕ × ℕ) → Option ℕ
index_of none = none
index_of (some (i, _)) = some i

unfoldable pub next_client : ℕ → List SimEntry → Option ℕ
unfolding least_used
next_client now sims = index_of (least_used (λ _. true) now sims)

-- `select_simulator_at`.
unfoldable pub select_simulator : ℕ → List SimEntry → Option ℕ
unfolding least_used next_client
select_simulator now sims = elim (least_used (λ (s : SimEntry). s.has_ssz_url) now sims) [
  | some (i, _) ↦ some i
  | none ↦ next_client now sims
]

unfoldable pub update_at : ℕ → (SimEntry → SimEntry) → List SimEntry → List SimEntry
update_at i f [] = []
update_at zero f (s ∷ sims) = f s ∷ sims
update_at (suc i) f (s ∷ sims) = s ∷ update_at i f sims

unfoldable pub entry_at : ℕ → List SimEntry → Option SimEntry
entry_at i [] = none
entry_at zero (s ∷ sims) = some s
entry_at (suc i) (s ∷ sims) = entry_at i sims

-- `ssz_request_builder`, or else `sim_request_builder`: whether the client has a method for the fork.
abbrev pub supports : Bool → ForkName → Bool
supports has_ssz ForkName.fulu = true
supports has_ssz ForkName.gloas = has_ssz
supports has_ssz ForkName.electra = not has_ssz
supports has_ssz ForkName.deneb = not has_ssz
supports has_ssz ForkName.capella = not has_ssz
supports has_ssz ForkName.bellatrix = not has_ssz
supports has_ssz _ = false

abbrev pub sim_started : ℕ → ℕ → Bool → Bool → List SimStarted
sim_started submission_id hash merged is_top_bid =
    if hash == 0
    then []
    else record {
      submission_id = submission_id;
      block_hash = hash;
      merged = merged;
      is_top_bid = is_top_bid;
    }
      ∷ []

unfoldable pub mark_seen : ℕ → Map ℕ SeenBlock → Map ℕ SeenBlock
mark_seen hash seen = elim (get ℕ_discrete hash seen) [
  | none ↦ insert ℕ_discrete hash (in_flight []) seen
  | some _ ↦ seen
]

-- One more task on the node.
abbrev pub load : SimEntry → SimEntry
load s = record s { pending = s.pending + 1 }

abbrev pub pending_at : ℕ → List SimEntry → ℕ
pending_at i sims = elim (entry_at i sims) [ none ↦ 0 | some s ↦ s.pending ]

abbrev pub ssz_at : ℕ → List SimEntry → Bool
ssz_at i sims = elim (entry_at i sims) [ none ↦ false | some s ↦ s.has_ssz_url ]

abbrev pub in_flight_telemetry : ℕ → LocalTelemetry → LocalTelemetry
in_flight_telemetry pending t = record t { max_in_flight = max t.max_in_flight pending }

-- The event of a request whose fork the client has no method for.
abbrev pub unsupported : ℕ → ValidationRequest → SimulatorsEvent
unsupported id req =
    task_done id none
      (validated id (record {
        result = record {
          is_optimistic = req.is_optimistic;
          outcome = some (unsupported_fork (fork_name req.submission));
          bid = none;
        };
        submission_id = req.submission_id;
        block_hash = block_hash req.submission;
        retried = false;
      }))
      none

unfoldable pub spawn_sim : ℕ → ValidationRequest → Simulators → List SimStarted × Simulators
spawn_sim id req p =
    let hash = block_hash req.submission in
    let sims = update_at id load p.simulators in
    let p' = record p { seen_blocks = mark_seen hash p.seen_blocks; simulators = sims } in
    (
      sim_started req.submission_id hash false req.is_top_bid,
      if supports (ssz_at id p.simulators) (fork_name req.submission)
          then record p' {
            local_telemetry = in_flight_telemetry (pending_at id sims) p.local_telemetry;
            tasks = p.tasks ++ validating id req ∷ [];
          }
          else record p' { rx = p.rx ++ unsupported id req ∷ [] },
    )

unfoldable pub spawn_merge_sim :
    ℕ → MergedValidationRequest → BlockMergeResponse → Simulators → List SimStarted × Simulators
spawn_merge_sim id req response p =
    let sims = update_at id load p.simulators in
    (
      sim_started req.submission_id response.execution_payload.block_hash true false,
      record p {
        simulators = sims;
        local_telemetry = in_flight_telemetry (pending_at id sims) p.local_telemetry;
        tasks = p.tasks ++ merging id req response ∷ [];
      },
    )

-- The node's answer, the second one if the first was a cache miss over SSZ; whether it was retried.
abbrev pub retried_answer :
    Bool → Option BlockSimError → Option BlockSimError → Option BlockSimError × Bool
retried_answer has_ssz (some hydration_miss) second =
    if has_ssz then (second, true) else (some rpc_error, false)
retried_answer has_ssz first second = (first, false)

module _ (x : Externals) where
  -- The builder's transactions root is compared with that of the payload.
  abbrev pub check_tx_root :
      Option ℕ → SignedBidSubmission → Option BlockSimError → Option BlockSimError
  check_tx_root (some got) (fulu_submission s) outcome =
      let expected = x.transactions_root s.execution_payload.transactions in
      if expected == got then outcome else some (invalid_tx_root got expected)
  check_tx_root _ _ outcome = outcome

  unfoldable pub task_report :
      List SimEntry → Option BlockSimError → Option BlockSimError → ℕ → Task → SimulatorsEvent
  task_report sims first second elapsed (validating id req) =
      let (answer, retried) = retried_answer (ssz_at id sims) first second in
      let outcome = check_tx_root req.tx_root req.submission answer in
      task_done id outcome
        (validated id (record {
          result = record {
            is_optimistic = req.is_optimistic;
            outcome = outcome;
            bid = some (new_bid req.version req.submission req.parent_beacon_block_root);
          };
          submission_id = req.submission_id;
          block_hash = block_hash req.submission;
          retried = retried;
        }))
        (some elapsed)
  task_report sims first second elapsed (merging id req response) =
      task_done id first
        (validated_merged id (record {
          outcome = first;
          submission_id = req.submission_id;
          block_hash = response.execution_payload.block_hash;
        }))
        (some elapsed)

-- The task at the index, and the others.
unfoldable pub take_task : ℕ → List Task → Option (Task × List Task)
take_task n [] = none
take_task zero (t ∷ ts) = some (t, ts)
take_task (suc n) (t ∷ ts) = elim (take_task n ts) [ none ↦ none | some (u, us) ↦ some (u, t ∷ us) ]

-- Any task may end next.
unfoldable pub finish_task :
    Externals → ℕ → Option BlockSimError → Option BlockSimError → ℕ → Simulators → Simulators
finish_task x n first second elapsed p = elim (take_task n p.tasks) [
  | none ↦ p
  | some (t, ts) ↦ record p {
    tasks = ts;
    rx = p.rx ++ task_report x p.simulators first second elapsed t ∷ [];
  }
]
