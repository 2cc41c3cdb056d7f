-- ===== src/Simulator/Slots.antt =====
-- crates/relay/src/simulator/mod.rs, `on_new_slot`. The report of the slot's counters and the counts of what
-- is dropped are left out.
use helix.Base.{ℕ, not, ◌&&◌, List, [], ◌∷◌, ltb, if◌then◌else◌}
use helix.Base.Map.{Map}
use helix.Simulator.Request.{previous_slot, ValidationRequest}
use helix.Simulator.Queue.{Waiting}
use helix.Simulator.Pool.{
  SimDone, SeenBlock, in_flight, simulated, Simulators, no_telemetry, answer_dropped,
  answer_all_dropped,
}
use helix.Simulator.Dispatch.{is_previous_slot}

-- The requests that stay for one slot more, and the answers to those that do not.
unfoldable pub retain_requests : List Waiting → List SimDone → List Waiting × List SimDone
retain_requests [] answered = ([], answered)
retain_requests ((r, k, v) ∷ reqs) answered =
    let stays = r.is_optimistic && not (is_previous_slot r.priority) in
    let (kept, answered') =
      retain_requests reqs (if stays then answered else answer_dropped r answered) in
    (if stays then (record r { priority = previous_slot }, k, v) ∷ kept else kept, answered')

unfoldable pub retain_superseded : List ValidationRequest → List ValidationRequest
retain_superseded [] = []
retain_superseded (r ∷ rs) =
    let rest = retain_superseded rs in
    if is_previous_slot r.priority then rest else record r { priority = previous_slot } ∷ rest

unfoldable pub answer_queue : List Waiting → List SimDone → List SimDone
answer_queue [] answered = answered
answer_queue ((r, _, _) ∷ reqs) answered = answer_queue reqs (answer_dropped r answered)

unfoldable pub answer_seen : Map ℕ SeenBlock → List SimDone → List SimDone
answer_seen [] answered = answered
answer_seen ((_, in_flight waiting) ∷ seen) answered =
    answer_seen seen (answer_all_dropped waiting answered)
answer_seen ((_, simulated _) ∷ seen) answered = answer_seen seen answered

-- The counters start anew if there was a slot before.
unfoldable pub on_new_slot : ℕ → Simulators → Simulators
on_new_slot bid_slot p =
    let answered = answer_queue p.priority_requests p.answered in
    let (kept, answered') = retain_requests p.requests answered in
    record p {
      local_telemetry = if ltb 0 p.last_bid_slot then no_telemetry else p.local_telemetry;
      previous_bid_slot = p.last_bid_slot;
      last_bid_slot = bid_slot;
      priority_requests = [];
      requests = kept;
      superseded = retain_superseded p.superseded;
      merge_requests = [];
      sample_state = [];
      seen_blocks = [];
      answered = answer_seen p.seen_blocks answered';
    }
