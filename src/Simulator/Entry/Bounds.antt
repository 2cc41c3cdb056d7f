-- ===== src/Simulator/Entry/Bounds.antt =====
-- `SimEntry`: the bounds that its limit and its breaker keep, and that a node is tried again.
use helix.Base.{
  ℕ, ◌+◌, ◌-◌, ◌≤◌, ◌≡◌, subst, Bool, true, Option, none, some, if◌then◌else◌, List, [], ◌∷◌, arith,
}
use helix.Simulator.Error.{BlockSimError}
use helix.Simulator.Entry.{
  sim_faults_to_open, breaker_backoff_start, breaker_backoff_max, Breaker, closed, opened, SimEntry,
  ceiling, floor, new_entry, decrease, can_simulate_at, record_success, record_failure, record_sync,
}

-- What a breaker promises at the time of the last call: it opened after at least three faults in a row,
-- its backoff lies between the two bounds, and it is over at most a backoff later.
abbrev pub IsOpenable : Breaker → ℕ → ℕ → Type 0
IsOpenable closed faults now = Unit
IsOpenable (opened until backoff) faults now =
    (sim_faults_to_open ≤ faults)
    × (breaker_backoff_start ≤ backoff)
    × (backoff ≤ breaker_backoff_max)
    × (until ≤ now + backoff)

pub record IsBounded (now : ℕ) (s : SimEntry) : Type 0 where
  pub above : floor s ≤ s.limit
  pub below : s.limit ≤ ceiling s
  pub breaker_bounds : IsOpenable s.breaker s.faults now
  pub loaded : s.pending ≤ ceiling s

floor-le : (s : SimEntry) → (1 ≤ floor s) × (floor s ≤ ceiling s)
unfolding floor
floor-le s = ground arith

new_entry-IsBounded : (tasks : ℕ) (ssz : Bool) → IsBounded 0 (new_entry tasks ssz)
unfolding new_entry floor
new_entry-IsBounded tasks ssz = ground arith

decrease-IsBounded : (now : ℕ) (s : SimEntry) → IsBounded now s → IsBounded now (decrease now s)
unfolding decrease ceiling
decrease-IsBounded now s h = ground arith

record_success-IsBounded :
    (elapsed now : ℕ) (s : SimEntry)
    → IsBounded now s
    → IsBounded now (record_success elapsed now s)
unfolding record_success floor
record_success-IsBounded elapsed now s h = ground arith

record_failure-IsBounded :
    (e : BlockSimError) (now : ℕ) (s : SimEntry)
    → IsBounded now s
    → IsBounded now (record_failure e now s)
unfolding record_failure ceiling
record_failure-IsBounded e now s h = ground arith

record_sync-IsBounded :
    (r : Option Bool) (now : ℕ) (s : SimEntry) → IsBounded now s → IsBounded now (record_sync r s)
unfolding record_sync floor
record_sync-IsBounded none now s h = ground arith
record_sync-IsBounded (some b) now s h = ground arith

pub data Call : Type 0 where
  succeeds : ℕ → Call
  fails : BlockSimError → Call
  syncs : Option Bool → Call
  starts : Call
  finishes : Call

-- A task is started only on a node that can take it (`select_simulator`, `next_client`).
unfoldable pub call : Call → ℕ → SimEntry → SimEntry
call (succeeds elapsed) now s = record_success elapsed now s
call (fails e) now s = record_failure e now s
call (syncs r) now s = record_sync r s
call starts now s = if can_simulate_at now s then record s { pending = s.pending + 1 } else s
call finishes now s = record s { pending = s.pending - 1 }

-- The calls of a history stand oldest first, each with the time since the one before it.
unfoldable pub run : List (ℕ × Call) → ℕ × SimEntry → ℕ × SimEntry
run [] s = s
run ((wait, c) ∷ cs) (now, s) = run cs (now + wait, call c (now + wait) s)

IsOpenable-wait :
    (wait now faults : ℕ) (b : Breaker) → IsOpenable b faults now → IsOpenable b faults (now + wait)
IsOpenable-wait wait now faults closed k = tt
IsOpenable-wait wait now faults (opened until backoff) k = omega arith

wait-IsBounded : (wait now : ℕ) (s : SimEntry) → IsBounded now s → IsBounded (now + wait) s
wait-IsBounded wait now s h = record {
  above = h.above;
  below = h.below;
  breaker_bounds = IsOpenable-wait wait now s.faults s.breaker h.breaker_bounds;
  loaded = h.loaded;
}

pub call-IsBounded :
    (c : Call) (now : ℕ) (s : SimEntry) → IsBounded now s → IsBounded now (call c now s)
unfolding call can_simulate_at floor
call-IsBounded (succeeds elapsed) now s h = record_success-IsBounded elapsed now s h
call-IsBounded (fails e) now s h = record_failure-IsBounded e now s h
call-IsBounded (syncs r) now s h = record_sync-IsBounded r now s h
call-IsBounded starts now s h = ground (arith, floor-le s)
call-IsBounded finishes now s h = ground arith

run_from-IsBounded :
    (cs : List (ℕ × Call)) (now : ℕ) (s : SimEntry)
    → IsBounded now s
    → let (end, t) = run cs (now, s) in IsBounded end t
unfolding run
run_from-IsBounded [] now s h = h
run_from-IsBounded ((wait, c) ∷ cs) now s h =
    run_from-IsBounded cs (now + wait) (call c (now + wait) s)
      (call-IsBounded c (now + wait) s (wait-IsBounded wait now s h))

-- After any history of answers, failures, sync polls, started and finished tasks, the limit of a node
-- is at least its floor of one to four tasks and at most the configured number, of which at least one;
-- the node holds no more tasks than that number; and if its breaker is open, then it had at least three
-- faults in a row, its backoff lies between 12 and 60 seconds, and it is over at most one backoff later.
pub run-IsBounded :
    (cs : List (ℕ × Call)) (tasks : ℕ) (ssz : Bool)
    → let (now, s) = run cs (0, new_entry tasks ssz) in IsBounded now s × (1 ≤ floor s)
run-IsBounded cs tasks ssz =
    let (now, s) = run cs (0, new_entry tasks ssz) in
    (run_from-IsBounded cs 0 (new_entry tasks ssz) (new_entry-IsBounded tasks ssz), (floor-le s).0)

recovers :
    (now later : ℕ) (s : SimEntry)
    → IsBounded now s
    → s.is_synced ≡ true
    → s.pending ≡ 0
    → now + breaker_backoff_max ≤ later
    → can_simulate_at later s ≡ true
unfolding can_simulate_at
recovers now later s h synced idle late = ground (arith, floor-le s)

-- After any such history, a node that reports that it is synced and holds no task can take one again at
-- the latest 60 seconds on, whatever its breaker did.
pub run-can_simulate :
    (cs : List (ℕ × Call)) (tasks : ℕ) (ssz : Bool) (now later : ℕ) (s : SimEntry)
    → run cs (0, new_entry tasks ssz) ≡ (now, s)
    → s.is_synced ≡ true
    → s.pending ≡ 0
    → now + breaker_backoff_max ≤ later
    → can_simulate_at later s ≡ true
run-can_simulate cs tasks ssz now later s ran synced idle late =
    recovers now later s
      (subst (λ (t : ℕ × SimEntry). IsBounded t.0 t.1) ran (run-IsBounded cs tasks ssz).0) synced
      idle late
