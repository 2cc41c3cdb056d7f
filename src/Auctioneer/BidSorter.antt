-- ===== src/Auctioneer/BidSorter.antt =====
-- crates/relay/src/auctioneer/bid_sorter.rs: the best bid of each fork of the current slot. The clock
-- (`utcnow_ns`, `Instant`) is an argument, the messages that go out on the spine are a list, newest
-- first, and a failed assertion is `none`. Metrics and log lines are left out.
use helix.Base.{
  ℕ, ◌+◌, ◌%◌, ◌^◌, Bool, true, false, Option, none, some, List, [], ◌∷◌, ite, ltb, ◌==◌,
  if◌then◌else◌, ℕ_discrete, ap,
}
use helix.Base.Map.{Map, get, insert, remove}
use helix.Types.SubmissionVersion.{SubmissionVersion, ge}
pub mod BestBid
pub mod Invariant
pub mod History
pub mod Verdict
pub mod Demotion
pub mod Accounting
mod Tests

pub record Bid : Type 0 where
  pub version : SubmissionVersion
  pub value : ℕ
  pub slot : ℕ
  pub block_hash : ℕ
  pub builder_pubkey : ℕ
  pub block_number : ℕ
  pub parent_hash : ℕ
  pub parent_root : ℕ
  pub fee_recipient : ℕ

-- crates/common/src/slot_info.rs, `ForkKey`.
pub record ForkKey : Type 0 where
  pub parent_hash : ℕ
  pub parent_root : ℕ

unfoldable pub fork_key_discrete : Discrete ForkKey
unfolding ℕ_discrete
fork_key_discrete a b = elim (ℕ_discrete a.parent_hash b.parent_hash) [
  | yes p ↦ elim (ℕ_discrete a.parent_root b.parent_root) [
    | yes q ↦ yes (λ i. record { parent_hash = p i; parent_root = q i })
    | no q ↦ no (λ e. q (ap (λ (k : ForkKey). k.parent_root) e))
  ]
  | no p ↦ no (λ e. p (ap (λ (k : ForkKey). k.parent_hash) e))
]

pub record TopBidUpdate : Type 0 where
  pub timestamp : ℕ
  pub slot : ℕ
  pub block_number : ℕ
  pub block_hash : ℕ
  pub parent_hash : ℕ
  pub builder_pubkey : ℕ
  pub fee_recipient : ℕ
  pub value : ℕ

pub record ForkState : Type 0 where
  pub bids : Map ℕ Bid
  pub curr_bid : Option Bid
  pub subs : ℕ
  pub top_bids : ℕ

pub record Telemetry : Type 0 where
  pub subs : ℕ
  pub subs_process_time : ℕ
  pub stale_subs : ℕ

pub record BidSorter : Type 0 where
  pub curr_bid_slot : ℕ
  pub forks : Map ForkKey ForkState
  pub demotions : Map ℕ (Unit {0})
  pub local_telemetry : Telemetry

-- The counters are u32, and wrap in a release build.
abbrev pub incr_u32 : ℕ → ℕ
incr_u32 n = (n + 1) % 2 ^ 32

abbrev pub empty_fork : ForkState
empty_fork = record { bids = []; curr_bid = none; subs = 0; top_bids = 0 }

abbrev pub empty_telemetry : Telemetry
empty_telemetry = record { subs = 0; subs_process_time = 0; stale_subs = 0 }

abbrev pub fork_of : Bid → ForkKey
fork_of b = record { parent_hash = b.parent_hash; parent_root = b.parent_root }

-- The closure of the `reduce` in `best_bid`.
abbrev pub better : Bid → Bid → Bid
better best bid = if ltb best.value bid.value then bid else best

unfoldable pub best_from : Bid → Map ℕ Bid → Bid
best_from best [] = best
best_from best ((k, b) ∷ m) = best_from (better best b) m

unfoldable pub best_bid : Map ℕ Bid → Option Bid
unfolding best_from
best_bid [] = none
best_bid ((k, b) ∷ m) = some (best_from b m)

abbrev pub top_bid_update : ℕ → Bid → TopBidUpdate
top_bid_update now_ns b = record {
  timestamp = now_ns;
  slot = b.slot;
  block_number = b.block_number;
  block_hash = b.block_hash;
  parent_hash = b.parent_hash;
  builder_pubkey = b.builder_pubkey;
  fee_recipient = b.fee_recipient;
  value = b.value;
}

abbrev pub Producers : Type 0
Producers = List TopBidUpdate

unfoldable pub update_top_bid : ℕ → Bid → ForkState × Producers → ForkState × Producers
update_top_bid now_ns bid (s, out) = (
  record s { curr_bid = some bid; top_bids = incr_u32 s.top_bids },
  top_bid_update now_ns bid ∷ out,
)

unfoldable pub traverse_update_top_bid : ℕ → ForkState × Producers → ForkState × Producers
unfolding update_top_bid
traverse_update_top_bid now_ns (s, out) = elim (best_bid s.bids) [
  | some best ↦ update_top_bid now_ns best (s, out)
  | none ↦ (record s { curr_bid = none }, out)
]

-- `state.curr_bid.is_some_and(|b| b.block_hash == new_bid.block_hash)`.
abbrev pub is_served : ForkState → Bid → Bool
is_served s bid = elim s.curr_bid [ none ↦ false | some b ↦ b.block_hash == bid.block_hash ]

-- The second half of `process_bid`, once the bid is stored: the new state, the messages, and whether
-- the bid became the top bid.
unfoldable pub compare_with_top : ℕ → Bid → ForkState × Producers → ForkState × Producers × Bool
unfolding update_top_bid
compare_with_top now_ns bid (s, out) = elim s.curr_bid [
  | some curr ↦
      if ltb curr.value bid.value
      then (let r = update_top_bid now_ns bid (s, out) in (r.0, r.1, true))
      else if bid.builder_pubkey == curr.builder_pubkey
      then (let r = traverse_update_top_bid now_ns (s, out) in (r.0, r.1, is_served r.0 bid))
      else (s, out, false)
  | none ↦ let r = update_top_bid now_ns bid (s, out) in (r.0, r.1, true)
]

abbrev pub store_bid : Bid → ForkState → ForkState
store_bid bid s = record s {
  bids = insert ℕ_discrete bid.builder_pubkey bid s.bids;
  subs = incr_u32 s.subs;
}

-- The fork's half of `process_bid`: `none` if the builder already has a version that is as new.
unfoldable pub place_bid : ℕ → Bid → ForkState × Producers → Option (ForkState × Producers × Bool)
place_bid now_ns bid (s, out) = elim (get ℕ_discrete bid.builder_pubkey s.bids) [
  | some entry ↦
      if ge entry.version bid.version
      then none
      else some (compare_with_top now_ns bid (store_bid bid s, out))
  | none ↦ some (compare_with_top now_ns bid (store_bid bid s, out))
]

-- `self.forks.entry(fork).or_default()`.
unfoldable pub fork_or_default : ForkKey → Map ForkKey ForkState → ForkState
fork_or_default k m = elim (get fork_key_discrete k m) [ some s ↦ s | none ↦ empty_fork ]

abbrev pub set_fork : ForkKey → ForkState → BidSorter → BidSorter
set_fork k s b = record b { forks = insert fork_key_discrete k s b.forks }

unfoldable pub process_bid : ℕ → Bid → BidSorter × Producers → BidSorter × Producers × Bool
process_bid now_ns bid (b, out) =
    let s = fork_or_default (fork_of bid) b.forks in
    elim (place_bid now_ns bid (s, out)) [
      | some (s', out', top) ↦ (set_fork (fork_of bid) s' b, out', top)
      | none ↦ (
        record (set_fork (fork_of bid) s b) {
          local_telemetry = record b.local_telemetry {
            stale_subs = incr_u32 b.local_telemetry.stale_subs;
          };
        },
        out,
        false,
      )
    ]

abbrev pub count_sub : ℕ → BidSorter → BidSorter
count_sub latency b =
    let tel = b.local_telemetry in
    record b {
      local_telemetry = record tel {
        subs = incr_u32 tel.subs;
        subs_process_time = tel.subs_process_time + latency;
      };
    }

-- `none` is the panic of `assert_eq!`. `latency` is the time that `process_bid` took.
unfoldable pub sort : ℕ → ℕ → Bid → BidSorter × Producers → Option (BidSorter × Producers × Bool)
sort now_ns latency bid (b, out) =
    let r = process_bid now_ns bid (b, out) in
    if bid.slot == b.curr_bid_slot then some (count_sub latency r.0, r.1, r.2) else none

-- The body of the loop of `process_demotion`.
unfoldable pub demote_fork : ℕ → ℕ → ForkState × Producers → ForkState × Producers
demote_fork now_ns demoted (s, out) = elim (get ℕ_discrete demoted s.bids) [
  | none ↦ (s, out)
  | some _ ↦
      let s' = record s { bids = remove ℕ_discrete demoted s.bids } in
      elim s.curr_bid [
        | none ↦ (s', out)
        | some curr ↦
            if curr.builder_pubkey == demoted
            then traverse_update_top_bid now_ns (s', out)
            else (s', out)
      ]
]

unfoldable pub process_demotion :
    ℕ → ℕ → Map ForkKey ForkState × Producers → Map ForkKey ForkState × Producers
process_demotion now_ns demoted ([], out) = ([], out)
process_demotion now_ns demoted ((k, s) ∷ m, out) =
    let (s', out') = demote_fork now_ns demoted (s, out) in
    let (m', out'') = process_demotion now_ns demoted (m, out') in ((k, s') ∷ m', out'')

unfoldable pub demote : ℕ → ℕ → BidSorter × Producers → BidSorter × Producers
demote now_ns demoted (b, out) = elim (get ℕ_discrete demoted b.demotions) [
  | some _ ↦ (b, out)
  | none ↦
      let (forks, out') = process_demotion now_ns demoted (b.forks, out) in
      (record b { demotions = insert ℕ_discrete demoted tt b.demotions; forks = forks }, out')
]

abbrev pub value_of : Option Bid → Option ℕ
value_of none = none
value_of (some b) = some b.value

abbrev pub hash_of : Option Bid → Option ℕ
hash_of none = none
hash_of (some b) = some b.block_hash

unfoldable pub top_bid_value : BidSorter → ForkKey → Option ℕ
top_bid_value b k = elim (get fork_key_discrete k b.forks) [
  | none ↦ none
  | some s ↦ value_of s.curr_bid
]

unfoldable pub get_header : BidSorter → ForkKey → Option ℕ
get_header b k = elim (get fork_key_discrete k b.forks) [
  | none ↦ none
  | some s ↦ hash_of s.curr_bid
]

-- `report` only logs, but for the telemetry that it takes.
unfoldable pub process_slot : ℕ → BidSorter → BidSorter
process_slot bid_slot b =
    let tel = if ltb 0 b.curr_bid_slot then empty_telemetry else b.local_telemetry in
    record { curr_bid_slot = bid_slot; forks = []; demotions = []; local_telemetry = tel }

abbrev pub new : BidSorter
new = record { curr_bid_slot = 0; forks = []; demotions = []; local_telemetry = empty_telemetry }
