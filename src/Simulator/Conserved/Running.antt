-- ===== src/Simulator/Conserved/Running.antt =====
-- Tasks that start and end: a request that runs is owed as before.
use helix.Base.{
  ℕ, zero, suc, ◌+◌, ◌≡◌, inl, inr, Option, some, List, [], ◌∷◌, total, total_option, total-append,
  arith, Option-cases,
}
use helix.Base.Map.{Map}
use helix.Types.Payload.{Externals}
use helix.Auctioneer.BlockMerger.{BlockMergeResponse}
use helix.Simulator.Error.{BlockSimError}
use helix.Simulator.Request.{ValidationRequest, MergedValidationRequest, block_hash}
use helix.Simulator.Entry.{SimEntry}
use helix.Simulator.Queue.{next_req, next_merge}
use helix.Simulator.Queue.Order.{total-next_req}
use helix.Simulator.Pool.{Task, validating, merging, SeenBlock, Simulators}
use helix.Simulator.Spawn.{
  unsupported, spawn_sim, spawn_merge_sim, task_report, take_task, finish_task,
}
use helix.Simulator.Reports.{
  from_queue, pop_superseded, run_superseded, run_merged, run_waiting, run_next,
}
use helix.Simulator.Conserved.{waits, reported, running, Owes}
use helix.Simulator.Conserved.Answers.{total_values-mark_seen, mark_seen-Distinct}

module _ (id asked delivered : ℕ) where
  -- The request that starts was taken out of its queue before.
  pub spawn_sim-Owes :
      (i : ℕ) (req : ValidationRequest) (p : Simulators)
      → Owes id asked (delivered + waits id req) p
      → Owes id asked delivered (spawn_sim i req p).1
  unfolding spawn_sim
  spawn_sim-Owes i req p h = ground (
    arith,
    h,
    total_values-mark_seen id (block_hash req.submission) p.seen_blocks,
    mark_seen-Distinct (block_hash req.submission) p.seen_blocks h.distinct,
    total-append (running id) p.tasks (validating i req ∷ []),
    total-append (reported id) p.rx (unsupported i req ∷ []),
  )

  pub spawn_merge_sim-Owes :
      (i : ℕ) (req : MergedValidationRequest) (response : BlockMergeResponse) (p : Simulators)
      → Owes id asked delivered p
      → Owes id asked delivered (spawn_merge_sim i req response p).1
  unfolding spawn_merge_sim
  spawn_merge_sim-Owes i req response p h =
      ground (arith, h, total-append (running id) p.tasks (merging i req response ∷ []))

  total-take_task :
      (n : ℕ) (ts : List Task) (t : Task) (us : List Task)
      → take_task n ts ≡ some (t, us)
      → total (running id) us + running id t ≡ total (running id) ts
  unfolding take_task
  total-take_task n [] t us e = cc
  total-take_task zero (s ∷ ts) t us e = ground (arith, e)
  total-take_task (suc n) (s ∷ ts) t us e = elim (Option-cases (take_task n ts)) [
    | inl absent ↦ absurd (ground (arith, e, absent))
    | inr ((u, vs), found) ↦ ground (arith, e, found, total-take_task n ts u vs found)
  ]

  reported-task_report :
      (x : Externals) (sims : List SimEntry) (first second : Option BlockSimError) (elapsed : ℕ)
      (t : Task)
      → reported id (task_report x sims first second elapsed t) ≡ running id t
  unfolding task_report
  reported-task_report x sims first second elapsed (validating i req) = omega arith
  reported-task_report x sims first second elapsed (merging i req response) = omega arith

  pub finish_task-Owes :
      (x : Externals) (n : ℕ) (first second : Option BlockSimError) (elapsed : ℕ) (p : Simulators)
      → Owes id asked delivered p
      → Owes id asked delivered (finish_task x n first second elapsed p)
  unfolding finish_task
  finish_task-Owes x n first second elapsed p h = elim (Option-cases (take_task n p.tasks)) [
    | inl absent ↦ rw (absent, finish_task) h
    | inr ((t, ts), found) ↦
        let report = task_report x p.simulators first second elapsed t in
        rw (found, finish_task)
          (record {
            balance = omega (
              arith,
              h.balance,
              total-take_task n p.tasks t ts found,
              reported-task_report x p.simulators first second elapsed t,
              total-append (reported id) p.rx (report ∷ []),
            );
            settled = h.settled;
            distinct = h.distinct;
          })
  ]

  total-pop_superseded :
      (seen : Map ℕ SeenBlock) (rs : List ValidationRequest)
      → total (waits id) rs ≡ 0
      → let (left, next) = pop_superseded seen rs in
        (total (waits id) left ≡ 0) × (total_option (waits id) next ≡ 0)
  unfolding pop_superseded
  total-pop_superseded seen [] h = ground arith
  total-pop_superseded seen (r ∷ rs) h = ground (arith, total-pop_superseded seen rs)

  run_superseded-Owes :
      (i : ℕ) (p : Simulators)
      → Owes id asked delivered p
      → Owes id asked delivered (run_superseded i p).1
  unfolding run_superseded
  run_superseded-Owes i p h =
      let popped = total-pop_superseded p.seen_blocks p.superseded h.settled in
      elim (Option-cases (pop_superseded p.seen_blocks p.superseded).1) [
        | inl nothing ↦
            rw (nothing, run_superseded)
              (record { balance = h.balance; settled = popped.0; distinct = h.distinct })
        | inr (req, found) ↦
            rw (found, run_superseded)
              (spawn_sim-Owes i req
                (record p {
                  superseded = (pop_superseded p.seen_blocks p.superseded).0;
                  local_telemetry = record p.local_telemetry {
                    superseded_sent = p.local_telemetry.superseded_sent + 1;
                  };
                })
                (record {
                  balance = ground (arith, h.balance, popped.1, found);
                  settled = popped.0;
                  distinct = h.distinct;
                }))
      ]

  run_merged-Owes :
      (i : ℕ) (p : Simulators)
      → Owes id asked delivered p
      → Owes id asked delivered (run_merged i p).1
  unfolding run_merged
  run_merged-Owes i p h = elim (Option-cases (next_merge p.merge_requests).1) [
    | inl nothing ↦ rw (nothing, run_merged) (run_superseded-Owes i p h)
    | inr ((req, response), found) ↦
        rw (found, run_merged)
          (spawn_merge_sim-Owes i req response
            (record p { merge_requests = (next_merge p.merge_requests).0 })
            (record { balance = h.balance; settled = h.settled; distinct = h.distinct }))
  ]

  run_waiting-Owes :
      (i : ℕ) (p : Simulators)
      → Owes id asked delivered p
      → Owes id asked delivered (run_waiting i p).1
  unfolding run_waiting
  run_waiting-Owes i p h = elim (Option-cases (next_req p.requests).1) [
    | inl nothing ↦ rw (nothing, run_waiting) (run_merged-Owes i p h)
    | inr (req, found) ↦
        rw (found, run_waiting)
          (spawn_sim-Owes i req
            (record p {
              requests = (next_req p.requests).0;
              local_telemetry = from_queue p.local_telemetry;
            })
            (record {
              balance = ground (arith, h.balance, found, total-next_req (waits id) p.requests);
              settled = h.settled;
              distinct = h.distinct;
            }))
  ]

  pub run_next-Owes :
      (i : ℕ) (p : Simulators)
      → Owes id asked delivered p
      → Owes id asked delivered (run_next i p).1
  unfolding run_next
  run_next-Owes i p h = elim (Option-cases (next_req p.priority_requests).1) [
    | inl nothing ↦ rw (nothing, run_next) (run_waiting-Owes i p h)
    | inr (req, found) ↦
        rw (found, run_next)
          (spawn_sim-Owes i req
            (record p {
              priority_requests = (next_req p.priority_requests).0;
              local_telemetry = from_queue p.local_telemetry;
            })
            (record {
              balance =
                  ground (arith, h.balance, found, total-next_req (waits id) p.priority_requests);
              settled = h.settled;
              distinct = h.distinct;
            }))
  ]
