-- ===== src/Simulator/Conserved/Answers.antt =====
-- The answers that the pool gives without a simulation.
use helix.Base.{ℕ, ◌+◌, ◌≡◌, Option, List, [], ◌∷◌, total, arith, ℕ_discrete}
use helix.Base.Map.{Map, total_values, total_values-insert, Distinct, insert-Distinct}
use helix.Simulator.Error.{BlockSimError}
use helix.Simulator.Request.{ValidationRequest}
use helix.Simulator.Queue.{Waiting}
use helix.Simulator.Queue.Order.{of_request}
use helix.Simulator.Pool.{
  SimDone, SeenBlock, in_flight, simulated, answer_dropped, answer_cached, answer_all_dropped,
  answer_all_cached,
}
use helix.Simulator.Spawn.{mark_seen}
use helix.Simulator.Slots.{retain_requests, retain_superseded, answer_queue, answer_seen}
use helix.Simulator.Conserved.{waits, answers, seen_waits}

module _ (id : ℕ) where
  pub total-answer_dropped :
      (r : ValidationRequest) (done : List SimDone)
      → total (answers id) (answer_dropped r done) ≡ total (answers id) done + waits id r
  unfolding answer_dropped
  total-answer_dropped r done = ground arith

  pub total-answer_cached :
      (r : ValidationRequest) (outcome : Option BlockSimError) (done : List SimDone)
      → total (answers id) (answer_cached r outcome done) ≡ total (answers id) done + waits id r
  unfolding answer_cached
  total-answer_cached r outcome done = ground arith

  pub total-answer_all_dropped :
      (rs : List ValidationRequest) (done : List SimDone)
      → total (answers id) (answer_all_dropped rs done)
        ≡ total (answers id) done + total (waits id) rs
  unfolding answer_all_dropped
  total-answer_all_dropped [] done = omega arith
  total-answer_all_dropped (r ∷ rs) done =
      omega
        (arith, total-answer_all_dropped rs (answer_dropped r done), total-answer_dropped r done)

  pub total-answer_all_cached :
      (rs : List ValidationRequest) (outcome : Option BlockSimError) (done : List SimDone)
      → total (answers id) (answer_all_cached rs outcome done)
        ≡ total (answers id) done + total (waits id) rs
  unfolding answer_all_cached
  total-answer_all_cached [] outcome done = omega arith
  total-answer_all_cached (r ∷ rs) outcome done = omega (
    arith,
    total-answer_all_cached rs outcome (answer_cached r outcome done),
    total-answer_cached r outcome done,
  )

  pub total-answer_queue :
      (reqs : List Waiting) (done : List SimDone)
      → total (answers id) (answer_queue reqs done)
        ≡ total (answers id) done + total (of_request (waits id)) reqs
  unfolding answer_queue
  total-answer_queue [] done = omega arith
  total-answer_queue ((r, k, v) ∷ reqs) done =
      omega (arith, total-answer_queue reqs (answer_dropped r done), total-answer_dropped r done)

  pub total-answer_seen :
      (seen : Map ℕ SeenBlock) (done : List SimDone)
      → total (answers id) (answer_seen seen done)
        ≡ total (answers id) done + total_values (seen_waits id) seen
  unfolding answer_seen
  total-answer_seen [] done = omega arith
  total-answer_seen ((_, in_flight waiting) ∷ seen) done = omega (
    arith,
    total-answer_seen seen (answer_all_dropped waiting done),
    total-answer_all_dropped waiting done,
  )
  total-answer_seen ((_, simulated _) ∷ seen) done = omega (arith, total-answer_seen seen done)

  -- Nobody waits for a request that stays for a slot more.
  pub total-retain_requests :
      (reqs : List Waiting) (done : List SimDone)
      → let (kept, done') = retain_requests reqs done in
        (total (of_request (waits id)) kept ≡ 0)
        × (total (answers id) done' ≡ total (answers id) done + total (of_request (waits id)) reqs)
  unfolding retain_requests
  total-retain_requests [] done = ground arith
  total-retain_requests ((r, k, v) ∷ reqs) done = ground (
    arith,
    total-retain_requests reqs done,
    total-retain_requests reqs (answer_dropped r done),
    total-answer_dropped r done,
  )

  pub total-retain_superseded :
      (rs : List ValidationRequest)
      → total (waits id) rs ≡ 0
      → total (waits id) (retain_superseded rs) ≡ 0
  unfolding retain_superseded
  total-retain_superseded [] h = h
  total-retain_superseded (r ∷ rs) h = ground (arith, total-retain_superseded rs)

  pub total_values-mark_seen :
      (hash : ℕ) (seen : Map ℕ SeenBlock)
      → total_values (seen_waits id) (mark_seen hash seen) ≡ total_values (seen_waits id) seen
  unfolding mark_seen
  total_values-mark_seen hash seen =
      ground (arith, total_values-insert ℕ_discrete (seen_waits id) hash (in_flight []) seen)

pub mark_seen-Distinct :
    (hash : ℕ) (seen : Map ℕ SeenBlock)
    → Distinct ℕ_discrete seen
    → Distinct ℕ_discrete (mark_seen hash seen)
unfolding mark_seen
mark_seen-Distinct hash seen d =
    ground (arith, insert-Distinct ℕ_discrete hash (in_flight []) seen d)
