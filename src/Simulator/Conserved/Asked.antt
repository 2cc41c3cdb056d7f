-- ===== src/Simulator/Conserved/Asked.antt =====
-- `dispatch` and `on_new_slot`: requests that come in, and those that a new slot drops.
use helix.Base.{
  ℕ, ◌+◌, ◌≡◌, inl, inr, Bool, true, false, Option, none, some, [], ◌∷◌, ◌++◌, total, total_option,
  total-append, arith, Option-cases, ℕ_discrete,
}
use helix.Base.Map.{get, total_values-insert, insert-Distinct}
use helix.Auctioneer.BlockMerger.{BlockMergeResponse}
use helix.Simulator.Request.{ValidationRequest, MergedValidationRequest, trace_of, block_hash}
use helix.Simulator.Queue.{QueueKey, store_request}
use helix.Simulator.Queue.Order.{total-store_request}
use helix.Simulator.Pool.{in_flight, simulated, Simulators}
use helix.Simulator.Spawn.{next_client, select_simulator}
use helix.Simulator.Dispatch.{
  count_request, sample_request, handle_dropped, enqueue, run_or_queue, dispatch, dispatch_merged,
}
use helix.Simulator.Slots.{answer_queue, retain_requests, on_new_slot}
use helix.Simulator.Conserved.{waits, answers, reported, running, seen_waits, owed, Owes}
use helix.Simulator.Conserved.Answers.{
  total-answer_dropped, total-answer_cached, total-answer_queue, total-answer_seen,
  total-retain_requests, total-retain_superseded,
}
use helix.Simulator.Conserved.Running.{spawn_sim-Owes, spawn_merge_sim-Owes}

module _ (id asked delivered : ℕ) where
  handle_dropped-Owes :
      (dropped : Option ValidationRequest) (p : Simulators)
      → Owes id asked (delivered + total_option (waits id) dropped) p
      → Owes id asked delivered (handle_dropped dropped p)
  unfolding handle_dropped
  handle_dropped-Owes none p h = ground (arith, h)
  handle_dropped-Owes (some d) p h = ground (arith, h, total-answer_dropped id d p.answered)

  enqueue-Owes :
      (req : ValidationRequest) (fast_track : Bool) (p : Simulators)
      → Owes id asked (delivered + waits id req) p
      → Owes id asked delivered (enqueue req fast_track p)
  unfolding enqueue
  enqueue-Owes req true p h =
      let t = trace_of req.submission in
      let key : QueueKey = record {
        parent_hash = t.parent_hash;
        builder_pubkey = t.builder_pubkey;
      } in
      let tel = record p.local_telemetry { queued = p.local_telemetry.queued + 1 } in
      let stored = store_request req key req.version (p.priority_requests, tel) in
      handle_dropped-Owes stored.1
        (record p { priority_requests = stored.0.0; local_telemetry = stored.0.1 })
        (record {
          balance = omega (
            arith,
            h.balance,
            total-store_request (waits id) req key req.version p.priority_requests tel,
          );
          settled = h.settled;
          distinct = h.distinct;
        })
  enqueue-Owes req false p h =
      let t = trace_of req.submission in
      let key : QueueKey = record {
        parent_hash = t.parent_hash;
        builder_pubkey = t.builder_pubkey;
      } in
      let tel = record p.local_telemetry { queued = p.local_telemetry.queued + 1 } in
      let stored = store_request req key req.version (p.requests, tel) in
      handle_dropped-Owes stored.1
        (record p { requests = stored.0.0; local_telemetry = stored.0.1 })
        (record {
          balance =
              omega (
                arith,
                h.balance,
                total-store_request (waits id) req key req.version p.requests tel,
              );
          settled = h.settled;
          distinct = h.distinct;
        })

  run_or_queue-Owes :
      (now : ℕ) (fast_track : Bool) (req : ValidationRequest) (p : Simulators)
      → Owes id asked (delivered + waits id req) p
      → Owes id asked delivered (run_or_queue now fast_track (req, p)).1
  unfolding run_or_queue
  run_or_queue-Owes now fast_track req p h =
      elim (Option-cases (select_simulator now p.simulators)) [
        | inl nothing ↦ rw (nothing, run_or_queue) (enqueue-Owes req fast_track p h)
        | inr (i, found) ↦
            rw (found, run_or_queue)
              (spawn_sim-Owes id asked delivered i req _
                (record { balance = h.balance; settled = h.settled; distinct = h.distinct }))
      ]

  sample_request-Owes :
      (req : ValidationRequest) (p : Simulators)
      → Owes id asked (delivered + waits id req) p
      → let (req', p') = sample_request req p in Owes id asked (delivered + waits id req') p'
  unfolding sample_request
  sample_request-Owes req p h = ground (arith, h)

  pub dispatch_merged-Owes :
      (now : ℕ) (req : MergedValidationRequest) (response : BlockMergeResponse) (p : Simulators)
      → Owes id asked delivered p
      → Owes id asked delivered (dispatch_merged now req response p).1
  unfolding dispatch_merged
  dispatch_merged-Owes now req response p h = elim (Option-cases (next_client now p.simulators)) [
    | inl nothing ↦
        rw (nothing, dispatch_merged)
          (record { balance = h.balance; settled = h.settled; distinct = h.distinct })
    | inr (i, found) ↦
        rw (found, dispatch_merged)
          (spawn_merge_sim-Owes id asked delivered i req response _
            (record { balance = h.balance; settled = h.settled; distinct = h.distinct }))
  ]

  pub on_new_slot-Owes :
      (slot : ℕ) (p : Simulators)
      → Owes id asked delivered p
      → Owes id asked delivered (on_new_slot slot p)
  unfolding on_new_slot
  on_new_slot-Owes slot p h =
      let answered = answer_queue p.priority_requests p.answered in
      let answered' = (retain_requests p.requests answered).1 in
      let retained = total-retain_requests id p.requests answered in
      record {
        balance = omega (
          arith,
          h.balance,
          retained.0,
          retained.1,
          total-answer_queue id p.priority_requests p.answered,
          total-answer_seen id p.seen_blocks answered',
        );
        settled = total-retain_superseded id p.superseded h.settled;
        distinct = tt;
      }

pub dispatch-Owes :
    (id asked delivered now : ℕ) (req : ValidationRequest) (fast_track : Bool) (p : Simulators)
    → Owes id asked delivered p
    → Owes id (asked + waits id req) delivered (dispatch now req fast_track p).1
unfolding dispatch
dispatch-Owes id asked delivered now req fast_track p h =
    elim (Option-cases (get ℕ_discrete (block_hash req.submission) p.seen_blocks)) [
      | inl fresh ↦
          let counted = record p { local_telemetry = count_request p.local_telemetry } in
          let (req', p') = sample_request req counted in
          rw (fresh, dispatch)
            (run_or_queue-Owes id (asked + waits id req) delivered now fast_track req' p' (
              sample_request-Owes id (asked + waits id req) delivered req counted (record {
                balance = omega (arith, h.balance);
                settled = h.settled;
                distinct = h.distinct;
              })))
      | inr (in_flight waiting, known) ↦ ground (
        arith,
        known,
        h,
        total-append (waits id) waiting (req ∷ []),
        total_values-insert ℕ_discrete (seen_waits id) (block_hash req.submission)
            (in_flight (waiting ++ req ∷ [])) p.seen_blocks,
        insert-Distinct ℕ_discrete (block_hash req.submission) (in_flight (waiting ++ req ∷ []))
            p.seen_blocks h.distinct,
      )
      | inr (simulated outcome, known) ↦
          ground (arith, known, h, total-answer_cached id req outcome p.answered)
    ]

-- No queue and no block holds a request back over a new slot.
pub owed-on_new_slot :
    (id slot : ℕ) (p : Simulators)
    → let q = on_new_slot slot p in
      owed id q
      ≡ total (answers id) q.answered + total (reported id) q.rx + total (running id) q.tasks
unfolding on_new_slot
owed-on_new_slot id slot p =
    let answered = answer_queue p.priority_requests p.answered in
    omega (arith, (total-retain_requests id p.requests answered).0)
