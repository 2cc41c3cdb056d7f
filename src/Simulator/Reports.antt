-- ===== src/Simulator/Reports.antt =====
-- crates/relay/src/simulator/mod.rs, `next_done`: nodes that report, and what runs next on them.
use helix.Base.{
  ℕ, ◌+◌, ◌-◌, Bool, false, not, Option, none, some, List, [], ◌∷◌, ◌++◌, any, if◌then◌else◌,
  ℕ_discrete,
}
use helix.Base.Map.{Map, get, insert, remove}
use helix.Simulator.Error.{BlockSimError, is_demotable}
use helix.Simulator.Request.{ValidationRequest, block_hash}
use helix.Simulator.Entry.{
  SimEntry, can_simulate_light, record_success, record_failure, record_sync,
}
use helix.Simulator.Queue.{LocalTelemetry, next_req, next_merge}
use helix.Simulator.Pool.{
  SimResult, validated, validated_merged, SimDone, SimulatorsEvent, task_done, sync_status,
  SeenBlock, in_flight, simulated, SimStarted, Simulators, answer_all_cached,
}
use helix.Simulator.Spawn.{next_client, update_at, spawn_sim, spawn_merge_sim}

unfoldable pub refresh_accept_optimistic : ℕ → Simulators → Simulators
refresh_accept_optimistic now p = record p {
  accept_optimistic = any (can_simulate_light now) p.simulators;
}

unfoldable pub handle_sync_status : ℕ → ℕ → Option Bool → Simulators → Simulators
unfolding refresh_accept_optimistic
handle_sync_status now id reported p =
    refresh_accept_optimistic now
      (record p { simulators = update_at id (record_sync reported) p.simulators })

-- `pop` until one is found whose block was not sent to a node since.
unfoldable pub pop_superseded :
    Map ℕ SeenBlock → List ValidationRequest → List ValidationRequest × Option ValidationRequest
pop_superseded seen [] = ([], none)
pop_superseded seen (r ∷ rs) = elim (get ℕ_discrete (block_hash r.submission) seen) [
  | none ↦ (rs, some r)
  | some _ ↦ pop_superseded seen rs
]

abbrev pub from_queue : LocalTelemetry → LocalTelemetry
from_queue t = record t { sims_sent_from_queue = t.sims_sent_from_queue + 1 }

unfoldable pub run_superseded : ℕ → Simulators → List SimStarted × Simulators
run_superseded id p =
    let (left, next) = pop_superseded p.seen_blocks p.superseded in
    elim next [
      | none ↦ ([], record p { superseded = left })
      | some req ↦ spawn_sim id req (record p {
        superseded = left;
        local_telemetry = record p.local_telemetry {
          superseded_sent = p.local_telemetry.superseded_sent + 1;
        };
      })
    ]

unfoldable pub run_merged : ℕ → Simulators → List SimStarted × Simulators
run_merged id p =
    let (left, next) = next_merge p.merge_requests in
    elim next [
      | none ↦ run_superseded id p
      | some (req, response) ↦ spawn_merge_sim id req response (record p { merge_requests = left })
    ]

unfoldable pub run_waiting : ℕ → Simulators → List SimStarted × Simulators
run_waiting id p =
    let (left, next) = next_req p.requests in
    elim next [
      | none ↦ run_merged id p
      | some req ↦
          spawn_sim id req
            (record p { requests = left; local_telemetry = from_queue p.local_telemetry })
    ]

-- The most urgent thing that waits runs on the node.
unfoldable pub run_next : ℕ → Simulators → List SimStarted × Simulators
run_next id p =
    let (left, next) = next_req p.priority_requests in
    elim next [
      | none ↦ run_waiting id p
      | some req ↦
          spawn_sim id req
            (record p { priority_requests = left; local_telemetry = from_queue p.local_telemetry })
    ]

-- The node has one task less, and what it answered moves its limit.
abbrev pub settle : ℕ → Option BlockSimError → Option ℕ → SimEntry → SimEntry
settle now (some e) elapsed s = record_failure e now (record s { pending = s.pending - 1 })
settle now none (some elapsed) s = record_success elapsed now (record s { pending = s.pending - 1 })
settle now none none s = record s { pending = s.pending - 1 }

unfoldable pub on_task_response :
    ℕ → ℕ → Option BlockSimError → Option ℕ → Simulators → List SimStarted × Simulators
unfolding refresh_accept_optimistic
on_task_response now id error elapsed p =
    let p' =
      refresh_accept_optimistic now
        (record p { simulators = update_at id (settle now error elapsed) p.simulators }) in
    elim (next_client now p'.simulators) [ none ↦ ([], p') | some next ↦ run_next next p' ]

-- Those who waited for the block are answered; `prev` is what was known of it.
abbrev pub answer_waiting : Option SeenBlock → Option BlockSimError → List SimDone → List SimDone
answer_waiting (some (in_flight waiting)) outcome answered =
    answer_all_cached waiting outcome answered
answer_waiting _ outcome answered = answered

abbrev pub says_nothing : Option BlockSimError → Bool
says_nothing none = false
says_nothing (some e) = not (is_demotable e)

unfoldable pub on_block_simulated : ℕ → Option BlockSimError → Simulators → Simulators
on_block_simulated hash outcome p = record p {
  seen_blocks =
      if says_nothing outcome
      then remove ℕ_discrete hash p.seen_blocks
      else insert ℕ_discrete hash (simulated outcome) p.seen_blocks;
  answered = answer_waiting (get ℕ_discrete hash p.seen_blocks) outcome p.answered;
}

abbrev pub on_result : SimResult → Simulators → Simulators
on_result (validated _ inner) p = on_block_simulated inner.block_hash inner.result.outcome p
on_result (validated_merged _ _) p = p

abbrev pub or_zero_time : Option ℕ → ℕ
or_zero_time none = 0
or_zero_time (some t) = t

abbrev pub Progress : Type 0
Progress = List SimStarted × Option SimDone × Simulators

-- The events of the channel up to the first that ends a simulation, else the last answer given without
-- one. The channel is `events`; the pool's own holds what is sent to it meanwhile.
unfoldable pub drain : ℕ → List SimulatorsEvent → Simulators → Progress
drain now [] p = elim p.answered [
  | [] ↦ ([], none, p)
  | done ∷ answered ↦ ([], some done, record p { answered = answered })
]
drain now (task_done id error result elapsed ∷ events) p =
    let (started, p') = on_task_response now id error elapsed (record p { rx = events ++ p.rx }) in
    (
      started,
      some (record { result = result; elapsed = or_zero_time elapsed }),
      on_result result p',
    )
drain now (sync_status id reported ∷ events) p =
    drain now events (handle_sync_status now id reported p)

unfoldable pub next_done : ℕ → Simulators → Progress
next_done now p = drain now p.rx (record p { rx = [] })

-- A node reported whether it is synced.
unfoldable pub report_sync : ℕ → Option Bool → Simulators → Simulators
report_sync id reported p = record p { rx = p.rx ++ sync_status id reported ∷ [] }
