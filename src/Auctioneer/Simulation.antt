-- ===== src/Auctioneer/Simulation.antt =====
-- crates/relay/src/auctioneer: what a simulation's result does to the auction (submit_block.rs,
-- `sort_simulation_result`), to the builder (context.rs, `handle_simulation_result`; local_cache.rs,
-- `demote_builder`), and to who waits for it. The repository's bid adjustor adjusts no payload, so none
-- is adjusted here. Alerts and the database's copy of a demotion are left out.
use helix.Base.{
  ℕ, ◌≤◌, ◌≡◌, refl, ap, sym, ◌∙◌, ◌⊎◌, inl, inr, Bool, true, false, not, ◌&&◌, Option, none, some,
  List, [], ◌∷◌, ◌++◌, ◌==◌, length, if◌then◌else◌, arith, ℕ_discrete, Option-cases, Bool-cases,
}
use helix.Base.Map.{Map, get, insert, get-insert_self}
use helix.Auctioneer.BidSorter.{Bid, BidSorter, Producers, sort, demote, process_bid, count_sub}
use helix.Auctioneer.Validation.{BuilderInfo}
use helix.Simulator.Error.{BlockSimError, is_demotable}
pub mod Optimism
pub mod Answers
pub mod Sorted

-- `outcome` is the error, if there is one.
pub record SimulationResult : Type 0 where
  pub is_optimistic : Bool
  pub outcome : Option BlockSimError
  pub bid : Option Bid

pub data SimulationAnswer : Type 0 where
  live : SimulationAnswer
  block_simulation : BlockSimError → SimulationAnswer
  internal_error : SimulationAnswer
  sim_on_next_slot : SimulationAnswer

-- What the two handlers change, and the answers they send.
pub record Simulated : Type 0 where
  pub sorter : BidSorter
  pub producers : Producers
  pub builders : Map ℕ BuilderInfo
  pub answers : List SimulationAnswer

unfoldable pub demote_builder : ℕ → Map ℕ BuilderInfo → Map ℕ BuilderInfo
demote_builder pubkey m = elim (get ℕ_discrete pubkey m) [
  | none ↦ m
  | some info ↦
      if info.is_optimistic
      then insert ℕ_discrete pubkey (record info { is_optimistic = false }) m
      else m
]

abbrev pub answer_unless : Bool → SimulationAnswer → List SimulationAnswer → List SimulationAnswer
answer_unless true a answers = answers
answer_unless false a answers = a ∷ answers

-- `none` is a panic: of `expect`, or of the assertion of `sort`.
unfoldable pub sort_simulation_result : ℕ → ℕ → SimulationResult → Simulated → Option Simulated
sort_simulation_result now_ns latency r s = elim r.outcome [
  | some e ↦
      if is_demotable e
      then elim r.bid [
        | none ↦
            some
              (record s { answers = answer_unless r.is_optimistic (block_simulation e) s.answers })
        | some bid ↦
            let d = demote now_ns bid.builder_pubkey (s.sorter, s.producers) in
            some (record s {
              sorter = d.0;
              producers = d.1;
              answers = answer_unless r.is_optimistic (block_simulation e) s.answers;
            })
      ]
      else some (record s { answers = answer_unless r.is_optimistic internal_error s.answers })
  | none ↦ elim r.bid [
    | none ↦ none
    | some bid ↦ elim (sort now_ns latency bid (s.sorter, s.producers)) [
      | none ↦ none
      | some (sorter, producers, _) ↦ some (record s {
        sorter = sorter;
        producers = producers;
        answers = answer_unless r.is_optimistic live s.answers;
      })
    ]
  ]
]

-- The builder whose bid an error demotes.
abbrev pub demoted : SimulationResult → Option ℕ
demoted r = elim r.bid [
  | none ↦ none
  | some bid ↦ elim r.outcome [
    | none ↦ none
    | some e ↦ if is_demotable e then some bid.builder_pubkey else none
  ]
]

unfoldable pub demote_all : Option ℕ → Map ℕ BuilderInfo → Map ℕ BuilderInfo
demote_all none m = m
demote_all (some pubkey) m = demote_builder pubkey m

unfoldable pub handle_simulation_result : SimulationResult → Bool → Simulated → Simulated
handle_simulation_result r already_sent s = record s {
  builders = demote_all (demoted r) s.builders;
  answers =
      if already_sent then s.answers else answer_unless r.is_optimistic sim_on_next_slot s.answers;
}

-- `r.bid.as_ref().is_some_and(|b| b.slot == slot_data.bid_slot)`.
abbrev pub is_for_slot : ℕ → SimulationResult → Bool
is_for_slot slot r = elim r.bid [ none ↦ false | some bid ↦ bid.slot == slot ]

-- `Event::SimResult` while the state sorts the slot; a request that was dropped has no result.
unfoldable pub on_sim_result : ℕ → ℕ → ℕ → Option SimulationResult → Simulated → Option Simulated
on_sim_result now_ns latency slot none s = some s
on_sim_result now_ns latency slot (some r) s =
    if is_for_slot slot r
    then elim (sort_simulation_result now_ns latency r s) [
      | none ↦ none
      | some s' ↦ some (handle_simulation_result r (not r.is_optimistic) s')
    ]
    else some (handle_simulation_result r false s)
