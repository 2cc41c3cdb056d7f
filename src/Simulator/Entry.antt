-- ===== src/Simulator/Entry.antt =====
-- crates/relay/src/simulator/mod.rs, `SimEntry`: one node, how many simulations it may hold, and when
-- it is left alone. Times are in nanoseconds.
use helix.Base.{
  ℕ, suc, ◌+◌, ◌-◌, ◌*◌, ◌/◌, ◌^◌, Bool, true, false, not, ◌&&◌, ◌||◌, Option, none, some, ltb, leb,
  ◌==◌, if◌then◌else◌,
}
use helix.Simulator.Error.{BlockSimError, is_sim_fault}
pub mod Bounds

abbrev pub min : ℕ → ℕ → ℕ
min a b = if leb a b then a else b

abbrev pub max : ℕ → ℕ → ℕ
max a b = if leb a b then b else a

abbrev pub second : ℕ
second = 1000000000

abbrev pub latency_target : ℕ
latency_target = 500000000

abbrev pub min_limit : ℕ
min_limit = 1

abbrev pub decrease_floor : ℕ
decrease_floor = 4

abbrev pub decrease_window : ℕ
decrease_window = 250000000

abbrev pub utilization_scale : ℕ
utilization_scale = 1000

abbrev pub sim_faults_to_open : ℕ
sim_faults_to_open = 3

abbrev pub optimistic_grace : ℕ
optimistic_grace = 30 * second

abbrev pub breaker_backoff_start : ℕ
breaker_backoff_start = 12 * second

abbrev pub breaker_backoff_max : ℕ
breaker_backoff_max = 60 * second

abbrev pub sync_failures_to_unsync : ℕ
sync_failures_to_unsync = 3

-- An opened breaker holds the time until which it stays so, and its backoff.
pub data Breaker : Type 0 where
  closed : Breaker
  opened : ℕ → ℕ → Breaker

pub data SimHealth : Type 0 where
  healthy probe unavailable unsynced : SimHealth

-- Of the client: the configured number of tasks, and whether the node has an SSZ endpoint.
pub record SimEntry : Type 0 where
  pub max_concurrent_tasks : ℕ
  pub has_ssz_url : Bool
  pub is_synced : Bool
  pub breaker : Breaker
  pub last_success : Option ℕ
  pub limit : ℕ
  pub faults : ℕ
  pub sync_failures : ℕ
  pub last_decrease : Option ℕ
  pub pending : ℕ

unfoldable pub ceiling : SimEntry → ℕ
ceiling s = max s.max_concurrent_tasks min_limit

unfoldable pub floor : SimEntry → ℕ
unfolding ceiling
floor s = min decrease_floor (ceiling s)

unfoldable pub new_entry : ℕ → Bool → SimEntry
new_entry tasks has_ssz_url = record {
  max_concurrent_tasks = tasks;
  has_ssz_url = has_ssz_url;
  is_synced = false;
  breaker = closed;
  last_success = none;
  limit = max tasks min_limit;
  faults = 0;
  sync_failures = 0;
  last_decrease = none;
  pending = 0;
}

-- Whether the time lies less than `window` before `now`.
abbrev pub within : ℕ → ℕ → Option ℕ → Bool
within window now none = false
within window now (some at_ns) = ltb (now - at_ns) window

unfoldable pub decrease : ℕ → SimEntry → SimEntry
unfolding floor
decrease now s = if within decrease_window now s.last_decrease then s else record s {
  last_decrease = some now;
  limit = max (min (s.limit * 4 / 5) (s.limit - 1)) (floor s);
}

abbrev pub limit_of : Breaker → ℕ → ℕ → ℕ
limit_of closed limit now = limit
limit_of (opened until backoff) limit now = if ltb now until then 0 else 1

unfoldable pub effective_limit : ℕ → SimEntry → ℕ
effective_limit now s = limit_of s.breaker s.limit now

abbrev pub is_closed : Breaker → Bool
is_closed closed = true
is_closed (opened _ _) = false

unfoldable pub answered_recently : ℕ → SimEntry → Bool
answered_recently now s = within optimistic_grace now s.last_success

unfoldable pub can_simulate_light : ℕ → SimEntry → Bool
unfolding answered_recently
can_simulate_light now s = s.is_synced && (is_closed s.breaker || answered_recently now s)

unfoldable pub can_simulate_at : ℕ → SimEntry → Bool
unfolding effective_limit
can_simulate_at now s = s.is_synced && ltb s.pending (effective_limit now s)

unfoldable pub health : ℕ → SimEntry → SimHealth
unfolding effective_limit
health now s =
    if not s.is_synced
    then unsynced
    else if effective_limit now s == 0
    then unavailable
    else if effective_limit now s == 1 && not (is_closed s.breaker)
    then probe
    else healthy

-- `usize::MAX` for a node that may hold nothing.
unfoldable pub utilization : ℕ → SimEntry → ℕ
unfolding effective_limit
utilization now s =
    let limit = effective_limit now s in
    if limit == 0 then 2 ^ 64 - 1 else s.pending * utilization_scale / limit

unfoldable pub record_success : ℕ → ℕ → SimEntry → SimEntry
unfolding ceiling decrease
record_success elapsed now s =
    let s' = record s { faults = 0; breaker = closed; last_success = some now } in
    if leb elapsed latency_target
    then record s' { limit = min (s'.limit + 1) (ceiling s') }
    else decrease now s'

abbrev pub next_breaker : Breaker → ℕ → ℕ → Breaker
next_breaker (opened until backoff) faults now =
    let next = min (backoff * 2) breaker_backoff_max in opened (now + next) next
next_breaker closed faults now =
    if leb sim_faults_to_open faults
    then opened (now + breaker_backoff_start) breaker_backoff_start
    else closed

unfoldable pub record_failure : BlockSimError → ℕ → SimEntry → SimEntry
unfolding decrease
record_failure e now s =
    if not (is_sim_fault e)
    then s
    else (let s' = decrease now (record s { faults = s.faults + 1 }) in
        record s' { breaker = next_breaker s'.breaker s'.faults now })

unfoldable pub record_sync : Option Bool → SimEntry → SimEntry
record_sync (some synced) s = record s { sync_failures = 0; is_synced = synced }
record_sync none s =
    let failures = s.sync_failures + 1 in
    if leb sync_failures_to_unsync failures
    then record s { sync_failures = failures; is_synced = false }
    else record s { sync_failures = failures }
