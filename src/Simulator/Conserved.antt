-- ===== src/Simulator/Conserved.antt =====
-- `Simulators`: what the pool owes to those who wait for a result. A request waits for a result if it is
-- not optimistic.
use helix.Base.{
  ℕ, ◌+◌, ◌≡◌, Bool, true, false, List, [], ◌∷◌, ◌==◌, if◌then◌else◌, total, ℕ_discrete,
}
use helix.Base.Map.{total_values, Distinct}
use helix.Simulator.Request.{ValidationRequest}
use helix.Simulator.Queue.Order.{of_request}
use helix.Simulator.Pool.{
  SimResult, validated, validated_merged, SimDone, SimulatorsEvent, task_done, sync_status,
  SeenBlock, in_flight, simulated, Task, validating, merging, Simulators,
}
pub mod Answers
pub mod Running
pub mod Asked
pub mod Progress
pub mod History

-- Whether a result for the submission is waited for.
abbrev pub awaits : ℕ → Bool → ℕ → ℕ
awaits id is_optimistic submission_id =
    if is_optimistic then 0 else if submission_id == id then 1 else 0

abbrev pub waits : ℕ → ValidationRequest → ℕ
waits id r = awaits id r.is_optimistic r.submission_id

abbrev pub answers_result : ℕ → SimResult → ℕ
answers_result id (validated _ inner) = awaits id inner.result.is_optimistic inner.submission_id
answers_result id (validated_merged _ _) = 0

abbrev pub answers : ℕ → SimDone → ℕ
answers id d = answers_result id d.result

abbrev pub reported : ℕ → SimulatorsEvent → ℕ
reported id (task_done _ _ result _) = answers_result id result
reported id (sync_status _ _) = 0

abbrev pub running : ℕ → Task → ℕ
running id (validating _ r) = waits id r
running id (merging _ _ _) = 0

abbrev pub seen_waits : ℕ → SeenBlock → ℕ
seen_waits id (in_flight waiting) = total (waits id) waiting
seen_waits id (simulated _) = 0

-- The results for the submission that are still to come, wherever the pool holds them.
abbrev pub owed : ℕ → Simulators → ℕ
owed id p =
    total (of_request (waits id)) p.requests
    + total (of_request (waits id)) p.priority_requests
    + total_values (seen_waits id) p.seen_blocks
    + total (answers id) p.answered
    + total (reported id) p.rx
    + total (running id) p.tasks

-- Of the results asked for, those delivered and those owed are all; nobody waits for a superseded request.
pub record Owes (id asked delivered : ℕ) (p : Simulators) : Type 0 where
  pub balance : owed id p + delivered ≡ asked
  pub settled : total (waits id) p.superseded ≡ 0
  pub distinct : Distinct ℕ_discrete p.seen_blocks
