-- ===== src/Simulator/Counters.antt =====
-- `LocalTelemetry`: the slot's counters of requests.
use helix.Base.{
  ℕ, ◌+◌, ◌≡◌, inl, inr, Bool, true, false, Option, none, some, List, [], ◌∷◌, ◌++◌, arith,
  Option-cases, ℕ_discrete,
}
use helix.Base.Map.{get}
use helix.Types.Payload.{Externals}
use helix.Types.SubmissionVersion.{SubmissionVersion}
use helix.Auctioneer.BlockMerger.{BlockMergeResponse}
use helix.Simulator.Error.{BlockSimError}
use helix.Simulator.Request.{ValidationRequest, MergedValidationRequest, trace_of, block_hash}
use helix.Simulator.Entry.{SimEntry}
use helix.Simulator.Queue.{QueueKey, LocalTelemetry, Waiting, store_request}
use helix.Simulator.Pool.{
  SimResult, validated, validated_merged, SimulatorsEvent, task_done, sync_status, in_flight,
  simulated, Simulators, new_pool,
}
use helix.Simulator.Spawn.{
  update_at, spawn_sim, spawn_merge_sim, finish_task, select_simulator, next_client,
}
use helix.Simulator.Dispatch.{
  count_request, sample_request, handle_dropped, enqueue, run_or_queue, dispatch, dispatch_merged,
}
use helix.Simulator.Reports.{
  refresh_accept_optimistic, handle_sync_status, settle, run_superseded, run_merged, run_waiting,
  run_next, on_task_response, on_block_simulated, on_result, drain, next_done, report_sync,
}
use helix.Simulator.Slots.{on_new_slot}
use helix.Simulator.Conserved.History.{
  PoolCall, dispatches, dispatches_merged, finishes, reports_sync, takes_done, starts_slot, act,
  history,
}

-- Each request of the slot was sent at once, queued or skipped as a duplicate, and `due` more are to be.
abbrev pub IsCounted : ℕ → Simulators → Type 0
IsCounted due p =
    let t = p.local_telemetry in
    t.sims_reqs ≡ t.sims_sent_immediately + t.queued + t.duplicate_skipped + due

store_request-IsCounted :
    (req : ValidationRequest) (key : QueueKey) (version : SubmissionVersion) (reqs : List Waiting)
    (t : LocalTelemetry)
    → let u = (store_request req key version (reqs, t)).0.1 in
      (u.sims_reqs ≡ t.sims_reqs)
      × (u.sims_sent_immediately ≡ t.sims_sent_immediately)
      × (u.queued ≡ t.queued)
      × (u.duplicate_skipped ≡ t.duplicate_skipped)
unfolding store_request
store_request-IsCounted req key version reqs t = ground arith

module _ (due : ℕ) where
  spawn_sim-IsCounted :
      (i : ℕ) (req : ValidationRequest) (p : Simulators)
      → IsCounted due p
      → IsCounted due (spawn_sim i req p).1
  unfolding spawn_sim
  spawn_sim-IsCounted i req p h = ground arith

  handle_dropped-IsCounted :
      (dropped : Option ValidationRequest) (p : Simulators)
      → IsCounted due p
      → IsCounted due (handle_dropped dropped p)
  unfolding handle_dropped
  handle_dropped-IsCounted none p h = h
  handle_dropped-IsCounted (some d) p h = ground arith

  sample_request-IsCounted :
      (req : ValidationRequest) (p : Simulators)
      → IsCounted due p
      → IsCounted due (sample_request req p).1
  unfolding sample_request
  sample_request-IsCounted req p h = ground arith

  run_superseded-IsCounted :
      (i : ℕ) (p : Simulators) → IsCounted due p → IsCounted due (run_superseded i p).1
  unfolding run_superseded spawn_sim
  run_superseded-IsCounted i p h = ground arith

  run_next-IsCounted : (i : ℕ) (p : Simulators) → IsCounted due p → IsCounted due (run_next i p).1
  unfolding run_next run_waiting run_merged spawn_sim spawn_merge_sim
  run_next-IsCounted i p h = ground (arith, run_superseded-IsCounted i p h)

  on_result-IsCounted :
      (result : SimResult) (p : Simulators) → IsCounted due p → IsCounted due (on_result result p)
  unfolding on_block_simulated
  on_result-IsCounted (validated _ inner) p h = h
  on_result-IsCounted (validated_merged _ _) p h = h

  on_task_response-IsCounted :
      (now i : ℕ) (error : Option BlockSimError) (elapsed : Option ℕ) (p : Simulators)
      → IsCounted due p
      → IsCounted due (on_task_response now i error elapsed p).1
  unfolding on_task_response refresh_accept_optimistic
  on_task_response-IsCounted now i error elapsed p h =
      let p' =
        refresh_accept_optimistic now
          (record p { simulators = update_at i (settle now error elapsed) p.simulators }) in
      elim (Option-cases (next_client now p'.simulators)) [
        | inl nothing ↦ rw (nothing, on_task_response) h
        | inr (next, found) ↦ rw (found, on_task_response) (run_next-IsCounted next p' h)
      ]

  drain-IsCounted :
      (now : ℕ) (events : List SimulatorsEvent) (p : Simulators)
      → IsCounted due p
      → let (_, _, p') = drain now events p in IsCounted due p'
  unfolding drain handle_sync_status refresh_accept_optimistic
  drain-IsCounted now [] p h = ground arith
  drain-IsCounted now (task_done i error result elapsed ∷ events) p h =
      let q = record p { rx = events ++ p.rx } in
      on_result-IsCounted result (on_task_response now i error elapsed q).1
        (on_task_response-IsCounted now i error elapsed q h)
  drain-IsCounted now (sync_status i result ∷ events) p h =
      drain-IsCounted now events (handle_sync_status now i result p) h

enqueue-IsCounted :
    (req : ValidationRequest) (fast_track : Bool) (p : Simulators)
    → IsCounted 1 p
    → IsCounted 0 (enqueue req fast_track p)
unfolding enqueue
enqueue-IsCounted req true p h =
    let t = trace_of req.submission in
    let key : QueueKey = record {
      parent_hash = t.parent_hash;
      builder_pubkey = t.builder_pubkey;
    } in
    let tel = record p.local_telemetry { queued = p.local_telemetry.queued + 1 } in
    let stored = store_request req key req.version (p.priority_requests, tel) in
    handle_dropped-IsCounted 0 stored.1
      (record p { priority_requests = stored.0.0; local_telemetry = stored.0.1 })
      (omega (arith, store_request-IsCounted req key req.version p.priority_requests tel))
enqueue-IsCounted req false p h =
    let t = trace_of req.submission in
    let key : QueueKey = record {
      parent_hash = t.parent_hash;
      builder_pubkey = t.builder_pubkey;
    } in
    let tel = record p.local_telemetry { queued = p.local_telemetry.queued + 1 } in
    let stored = store_request req key req.version (p.requests, tel) in
    handle_dropped-IsCounted 0 stored.1
      (record p { requests = stored.0.0; local_telemetry = stored.0.1 })
      (omega (arith, store_request-IsCounted req key req.version p.requests tel))

run_or_queue-IsCounted :
    (now : ℕ) (fast_track : Bool) (req : ValidationRequest) (p : Simulators)
    → IsCounted 1 p
    → IsCounted 0 (run_or_queue now fast_track (req, p)).1
unfolding run_or_queue
run_or_queue-IsCounted now fast_track req p h =
    elim (Option-cases (select_simulator now p.simulators)) [
      | inl nothing ↦ rw (nothing, run_or_queue) (enqueue-IsCounted req fast_track p h)
      | inr (i, found) ↦ rw (found, run_or_queue) (spawn_sim-IsCounted 0 i req _ (omega arith))
    ]

dispatch-IsCounted :
    (now : ℕ) (req : ValidationRequest) (fast_track : Bool) (p : Simulators)
    → IsCounted 0 p
    → IsCounted 0 (dispatch now req fast_track p).1
unfolding dispatch
dispatch-IsCounted now req fast_track p h =
    let counted = record p { local_telemetry = count_request p.local_telemetry } in
    let (req', p') = sample_request req counted in
    elim (Option-cases (get ℕ_discrete (block_hash req.submission) p.seen_blocks)) [
      | inl fresh ↦
          rw (fresh, dispatch)
            (run_or_queue-IsCounted now fast_track req' p'
              (sample_request-IsCounted 1 req counted (omega arith)))
      | inr (in_flight waiting, known) ↦ ground (arith, known)
      | inr (simulated outcome, known) ↦ ground (arith, known)
    ]

dispatch_merged-IsCounted :
    (now : ℕ) (req : MergedValidationRequest) (response : BlockMergeResponse) (p : Simulators)
    → IsCounted 0 p
    → IsCounted 0 (dispatch_merged now req response p).1
unfolding dispatch_merged spawn_merge_sim
dispatch_merged-IsCounted now req response p h = ground arith

module _ (x : Externals) where
  act-IsCounted : (e : PoolCall) (p : Simulators) → IsCounted 0 p → IsCounted 0 (act x e p).1
  unfolding act finish_task report_sync on_new_slot next_done
  act-IsCounted (dispatches now req fast_track) p h = dispatch-IsCounted now req fast_track p h
  act-IsCounted (dispatches_merged now req response) p h =
      dispatch_merged-IsCounted now req response p h
  act-IsCounted (finishes n first second elapsed) p h = ground arith
  act-IsCounted (reports_sync i synced) p h = h
  act-IsCounted (takes_done now) p h = drain-IsCounted 0 now p.rx (record p { rx = [] }) h
  act-IsCounted (starts_slot slot) p h = ground arith

  history_from-IsCounted :
      (es : List PoolCall) (p : Simulators) → IsCounted 0 p → IsCounted 0 (history x es p).1
  unfolding history
  history_from-IsCounted [] p h = h
  history_from-IsCounted (e ∷ es) p h =
      history_from-IsCounted es (act x e p).1 (act-IsCounted e p h)

  -- At any moment of any history of the pool, the requests counted since the counters were last reset, for
  -- validation and for merged blocks, are those that were sent to a node at once, those that were queued
  -- and those that were skipped as duplicates, together.
  pub history-IsCounted :
      (sims : List SimEntry) (es : List PoolCall)
      → let (_, p) = history x es (new_pool sims) in IsCounted 0 p
  unfolding new_pool
  history-IsCounted sims es = history_from-IsCounted es (new_pool sims) (omega arith)
