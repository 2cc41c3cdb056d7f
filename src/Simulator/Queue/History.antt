-- ===== src/Simulator/Queue/History.antt =====
-- `PendingRequests`: every history of stored and taken requests.
use helix.Base.{
  total, ℕ, ◌+◌, ◌≡◌, inl, inr, Option, none, some, List, [], ◌∷◌, Option-cases, arith,
}
use helix.Types.SubmissionVersion.{SubmissionVersion}
use helix.Simulator.Request.{ValidationRequest}
use helix.Simulator.Queue.{QueueKey, LocalTelemetry, Waiting, store_request, greatest, next_req}
use helix.Simulator.Queue.Order.{
  of_request, IsUnique, IsMostUrgent, greatest-none, greatest-IsMostUrgent, total-greatest,
  store_request-IsUnique, next_req-IsUnique,
}

pub data Call : Type 0 where
  stores : ValidationRequest → QueueKey → SubmissionVersion → Call
  takes : Call

unfoldable pub call : Call → List Waiting × LocalTelemetry → List Waiting × LocalTelemetry
call (stores req key version) q = (store_request req key version q).0
call takes (reqs, t) = ((next_req reqs).0, t)

-- The calls of a history stand oldest first.
unfoldable pub run : List Call → List Waiting × LocalTelemetry → List Waiting × LocalTelemetry
run [] q = q
run (c ∷ cs) q = run cs (call c q)

-- What `next_req` takes out of the queue.
abbrev pub Next : List Waiting → List Waiting → Option ValidationRequest → Type 0
Next reqs left none = reqs ≡ []
Next reqs left (some r) =
    IsMostUrgent r reqs
    × ((f : ValidationRequest → ℕ) → total (of_request f) left + f r ≡ total (of_request f) reqs)

call-IsUnique :
    (c : Call) (q : List Waiting × LocalTelemetry) → IsUnique q.0 → IsUnique (call c q).0
unfolding call
call-IsUnique (stores req key version) (reqs, t) u = store_request-IsUnique req key version reqs t u
call-IsUnique takes (reqs, t) u = next_req-IsUnique reqs u

run_from-IsUnique :
    (cs : List Call) (q : List Waiting × LocalTelemetry) → IsUnique q.0 → IsUnique (run cs q).0
unfolding run
run_from-IsUnique [] q u = u
run_from-IsUnique (c ∷ cs) q u = run_from-IsUnique cs (call c q) (call-IsUnique c q u)

next_req-Next : (reqs : List Waiting) → Next reqs (next_req reqs).0 (next_req reqs).1
unfolding next_req
next_req-Next reqs = elim (Option-cases (greatest reqs)) [
  | inl nothing ↦ rw (nothing, next_req) (greatest-none reqs nothing)
  | inr ((i, w), found) ↦
      rw (found, next_req)
        (greatest-IsMostUrgent reqs i w found, λ f. total-greatest (of_request f) reqs i w found)
]

-- After any history of stored and taken requests, at most one request waits for each builder on each
-- fork. The next request to run is one whose sort key no waiting request exceeds; it leaves the queue,
-- and every other request stays as often as it was; there is none only if the queue is empty.
pub run-Next :
    (cs : List Call) (t : LocalTelemetry)
    → let (reqs, _) = run cs ([], t) in
      IsUnique reqs × Next reqs (next_req reqs).0 (next_req reqs).1
run-Next cs t = (run_from-IsUnique cs ([], t) (λ k. omega arith), next_req-Next (run cs ([], t)).0)
