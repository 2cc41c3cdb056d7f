-- ===== src/Simulator/Dispatch.antt =====
-- crates/relay/src/simulator/mod.rs, `dispatch`: requests that come in. The debug assertion on the slot of
-- a request is left out.
use helix.Base.{
  ℕ, ◌+◌, ◌%◌, ◌^◌, Bool, true, false, ◌&&◌, ◌||◌, Option, none, some, List, [], ◌∷◌, ◌++◌, ◌==◌,
  ltb, length, if◌then◌else◌, ℕ_discrete,
}
use helix.Base.Map.{Map, get, insert}
use helix.Auctioneer.BlockMerger.{BlockMergeResponse}
use helix.Simulator.Request.{
  SimPriority, previous_slot, low, sample, ValidationRequest, MergedValidationRequest, trace_of,
  block_hash,
}
use helix.Simulator.Queue.{QueueKey, LocalTelemetry, store_request, store_merge}
use helix.Simulator.Pool.{
  in_flight, simulated, SampleState, SimStarted, Simulators, answer_dropped, answer_cached,
}
use helix.Simulator.Spawn.{next_client, select_simulator, spawn_sim, spawn_merge_sim}

abbrev pub sample_floor : ℕ
sample_floor = 3

abbrev pub sample_every : ℕ
sample_every = 64

abbrev pub superseded_capacity : ℕ
superseded_capacity = 5000

abbrev pub sample_of : ℕ → Map ℕ SampleState → SampleState
sample_of builder m = elim (get ℕ_discrete builder m) [
  | none ↦ record { seen = 0; sampled = 0 }
  | some s ↦ s
]

-- Whether the builder's bid is sampled. The counters are of 32 bits.
unfoldable pub take_sample : ℕ → Map ℕ SampleState → Bool × Map ℕ SampleState
take_sample builder m =
    let s = sample_of builder m in
    let seen = (s.seen + 1) % 2 ^ 32 in
    if ltb s.sampled sample_floor || seen % sample_every == 0
    then (
      true,
      insert ℕ_discrete builder (record { seen = seen; sampled = (s.sampled + 1) % 2 ^ 32 }) m,
    )
    else (false, insert ℕ_discrete builder (record { seen = seen; sampled = s.sampled }) m)

abbrev pub is_sample : SimPriority → Bool
is_sample sample = true
is_sample _ = false

abbrev pub is_previous_slot : SimPriority → Bool
is_previous_slot previous_slot = true
is_previous_slot _ = false

abbrev pub builder_of : ValidationRequest → ℕ
builder_of req = (trace_of req.submission).builder_pubkey

-- The request as it runs: a sampled one that is not drawn runs at the lowest priority of the slot.
unfoldable pub sample_request : ValidationRequest → Simulators → ValidationRequest × Simulators
sample_request req p =
    if is_sample req.priority
    then (let (drawn, m) = take_sample (builder_of req) p.sample_state in
        if drawn then (req, record p { sample_state = m }) else (
          record req { priority = low },
          record p {
            sample_state = m;
            local_telemetry = record p.local_telemetry {
              sample_skipped = p.local_telemetry.sample_skipped + 1;
            };
          },
        ))
    else (req, p)

-- What becomes of a request that the queue gave up.
unfoldable pub handle_dropped : Option ValidationRequest → Simulators → Simulators
handle_dropped none p = p
handle_dropped (some d) p =
    if d.is_optimistic && ltb (length p.superseded) superseded_capacity
    then record p {
      local_telemetry = record p.local_telemetry { superseded = p.local_telemetry.superseded + 1 };
      superseded = record d { priority = low } ∷ p.superseded;
    }
    else record p { answered = answer_dropped d p.answered }

unfoldable pub enqueue : ValidationRequest → Bool → Simulators → Simulators
enqueue req fast_track p =
    let t = trace_of req.submission in
    let key : QueueKey = record {
      parent_hash = t.parent_hash;
      builder_pubkey = t.builder_pubkey;
    } in
    let tel = record p.local_telemetry { queued = p.local_telemetry.queued + 1 } in
    if fast_track
    then (let (q, dropped) = store_request req key req.version (p.priority_requests, tel) in
        handle_dropped dropped (record p { priority_requests = q.0; local_telemetry = q.1 }))
    else (let (q, dropped) = store_request req key req.version (p.requests, tel) in
        handle_dropped dropped (record p { requests = q.0; local_telemetry = q.1 }))

-- A request for a block that no node has seen in the slot.
unfoldable pub run_or_queue :
    ℕ → Bool → ValidationRequest × Simulators → List SimStarted × Simulators
run_or_queue now fast_track (req, p) = elim (select_simulator now p.simulators) [
  | some id ↦ spawn_sim id req (record p {
    local_telemetry = record p.local_telemetry {
      sims_sent_immediately = p.local_telemetry.sims_sent_immediately + 1;
    };
  })
  | none ↦ ([], enqueue req fast_track p)
]

abbrev pub count_duplicate : LocalTelemetry → LocalTelemetry
count_duplicate t = record t { duplicate_skipped = t.duplicate_skipped + 1 }

abbrev pub count_request : LocalTelemetry → LocalTelemetry
count_request t = record t { sims_reqs = t.sims_reqs + 1 }

unfoldable pub dispatch : ℕ → ValidationRequest → Bool → Simulators → List SimStarted × Simulators
dispatch now req fast_track p =
    let hash = block_hash req.submission in
    let p' = record p { local_telemetry = count_request p.local_telemetry } in
    let skipped = record p { local_telemetry = count_duplicate p'.local_telemetry } in
    elim (get ℕ_discrete hash p.seen_blocks) [
      | some (in_flight waiting) ↦ (
        [],
        if req.is_optimistic then skipped else record skipped {
          seen_blocks = insert ℕ_discrete hash (in_flight (waiting ++ req ∷ [])) p.seen_blocks;
        },
      )
      | some (simulated outcome) ↦
          ([], record skipped { answered = answer_cached req outcome p.answered })
      | none ↦ run_or_queue now fast_track (sample_request req p')
    ]

unfoldable pub dispatch_merged :
    ℕ → MergedValidationRequest → BlockMergeResponse → Simulators → List SimStarted × Simulators
dispatch_merged now req response p =
    let t = count_request p.local_telemetry in
    elim (next_client now p.simulators) [
      | some id ↦ spawn_merge_sim id req response (record p {
        local_telemetry = record t { sims_sent_immediately = t.sims_sent_immediately + 1 };
      })
      | none ↦ (
        [],
        record p {
          local_telemetry = record t { queued = t.queued + 1 };
          merge_requests = store_merge req response p.merge_requests;
        },
      )
    ]
