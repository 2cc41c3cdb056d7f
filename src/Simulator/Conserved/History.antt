-- ===== src/Simulator/Conserved/History.antt =====
-- `Simulators`: every history of requests, reports, results and slots. Tasks end in any order, with any
-- answer of their node.
use helix.Base.{ℕ, ◌+◌, ◌≡◌, Bool, Option, none, some, List, [], ◌∷◌, total, arith}
use helix.Types.Payload.{Externals}
use helix.Auctioneer.BlockMerger.{BlockMergeResponse}
use helix.Simulator.Error.{BlockSimError}
use helix.Simulator.Request.{ValidationRequest, MergedValidationRequest}
use helix.Simulator.Entry.{SimEntry}
use helix.Simulator.Pool.{SimDone, Simulators, new_pool}
use helix.Simulator.Spawn.{finish_task}
use helix.Simulator.Dispatch.{dispatch, dispatch_merged}
use helix.Simulator.Reports.{next_done, report_sync}
use helix.Simulator.Slots.{on_new_slot}
use helix.Simulator.Conserved.{waits, answers, owed, Owes}
use helix.Simulator.Conserved.Running.{finish_task-Owes}
use helix.Simulator.Conserved.Asked.{
  dispatch-Owes, dispatch_merged-Owes, on_new_slot-Owes, owed-on_new_slot,
}
use helix.Simulator.Conserved.Progress.{delivers, next_done-Owes, report_sync-Owes}

-- The calls that act on the pool, with the time where they read the clock.
pub data PoolCall : Type 0 where
  dispatches : ℕ → ValidationRequest → Bool → PoolCall
  dispatches_merged : ℕ → MergedValidationRequest → BlockMergeResponse → PoolCall
  finishes : ℕ → Option BlockSimError → Option BlockSimError → ℕ → PoolCall
  reports_sync : ℕ → Option Bool → PoolCall
  takes_done : ℕ → PoolCall
  starts_slot : ℕ → PoolCall

abbrev pub add_done : Option SimDone → List SimDone → List SimDone
add_done none done = done
add_done (some d) done = d ∷ done

-- How often a result for the submission is asked for.
abbrev pub asks : ℕ → PoolCall → ℕ
asks id (dispatches _ req _) = waits id req
asks id _ = 0

total-add_done :
    (id : ℕ) (d : Option SimDone) (done : List SimDone)
    → total (answers id) (add_done d done) ≡ delivers id d + total (answers id) done
total-add_done id none done = omega arith
total-add_done id (some d) done = omega arith

start-Owes : (sims : List SimEntry) (id : ℕ) → Owes id 0 0 (new_pool sims)
unfolding new_pool
start-Owes sims id = record { balance = omega arith; settled = omega arith; distinct = tt }

module _ (x : Externals) where
  -- The result that the call returns, and the pool after it.
  unfoldable pub act : PoolCall → Simulators → Option SimDone × Simulators
  act (dispatches now req fast_track) p = (none, (dispatch now req fast_track p).1)
  act (dispatches_merged now req response) p = (none, (dispatch_merged now req response p).1)
  act (finishes n first second elapsed) p = (none, finish_task x n first second elapsed p)
  act (reports_sync i synced) p = (none, report_sync i synced p)
  act (takes_done now) p = (let (_, done, p') = next_done now p in (done, p'))
  act (starts_slot slot) p = (none, on_new_slot slot p)

  -- The results returned, oldest first, and the pool after the history, whose events stand oldest first.
  unfoldable pub history : List PoolCall → Simulators → List SimDone × Simulators
  history [] p = ([], p)
  history (e ∷ es) p =
      let (done, p') = act e p in let (rest, q) = history es p' in (add_done done rest, q)

  act-Owes :
      (id asked delivered : ℕ) (e : PoolCall) (p : Simulators)
      → Owes id asked delivered p
      → let (done, p') = act e p in Owes id (asked + asks id e) (delivered + delivers id done) p'
  unfolding act
  act-Owes id asked delivered (dispatches now req fast_track) p h =
      let k = dispatch-Owes id asked delivered now req fast_track p h in ground (arith, k)
  act-Owes id asked delivered (dispatches_merged now req response) p h =
      let k = dispatch_merged-Owes id asked delivered now req response p h in ground (arith, k)
  act-Owes id asked delivered (finishes n first second elapsed) p h =
      let k = finish_task-Owes id asked delivered x n first second elapsed p h in ground (arith, k)
  act-Owes id asked delivered (reports_sync i synced) p h =
      let k = report_sync-Owes id asked delivered i synced p h in ground (arith, k)
  act-Owes id asked delivered (takes_done now) p h =
      let k = next_done-Owes id asked delivered now p h in ground (arith, k)
  act-Owes id asked delivered (starts_slot slot) p h =
      let k = on_new_slot-Owes id asked delivered slot p h in ground (arith, k)

  history-Owes :
      (id asked delivered : ℕ) (es : List PoolCall) (p : Simulators)
      → Owes id asked delivered p
      → let (done, q) = history es p in
        Owes id (asked + total (asks id) es) (delivered + total (answers id) done) q
  unfolding history
  history-Owes id asked delivered [] p h = ground (arith, h)
  history-Owes id asked delivered (e ∷ es) p h =
      let (done, p') = act e p in
      let k =
        history-Owes id (asked + asks id e) (delivered + delivers id done) es p'
          (act-Owes id asked delivered e p h) in
      record {
        balance = omega (arith, k.balance, total-add_done id done (history es p').0);
        settled = k.settled;
        distinct = k.distinct;
      }

  -- After any history of the pool, for every submission: the results returned to the caller and those that
  -- the pool still owes (a request that waits in a queue or for its block, a task on a node, a report or an
  -- answer that is not taken yet) are together as many as the requests for it that are not optimistic. So
  -- no result is lost and none is given twice, whatever nodes answer, and though duplicates are joined,
  -- queued requests are replaced and a new slot drops those that are left.
  pub history-owed :
      (sims : List SimEntry) (es : List PoolCall) (id : ℕ)
      → let (done, p) = history es (new_pool sims) in
        owed id p + total (answers id) done ≡ total (asks id) es
  history-owed sims es id =
      omega (arith, (history-Owes id 0 0 es (new_pool sims) (start-Owes sims id)).balance)

  -- If a slot starts after any history, and then no task runs, no report and no answer is left, then each
  -- submission was answered exactly as often as it was dispatched with someone waiting: no queue and no
  -- block holds anyone back.
  pub history-on_new_slot :
      (sims : List SimEntry) (es : List PoolCall) (slot id : ℕ)
      → let (done, p) = history es (new_pool sims) in
        let q = on_new_slot slot p in
        q.tasks ≡ [] → q.rx ≡ [] → q.answered ≡ [] → total (answers id) done ≡ total (asks id) es
  history-on_new_slot sims es slot id idle quiet taken =
      let (done, p) = history es (new_pool sims) in
      let k = history-Owes id 0 0 es (new_pool sims) (start-Owes sims id) in
      let h = on_new_slot-Owes id (total (asks id) es) (total (answers id) done) slot p (record {
        balance = history-owed sims es id;
        settled = k.settled;
        distinct = k.distinct;
      }) in
      ground (arith, h.balance, owed-on_new_slot id slot p, idle, quiet, taken)
