-- ===== src/Auctioneer/Simulation/Answers.antt =====
-- submit_block.rs and context.rs: whom a simulation's result answers, and what it does to the auction
-- and the builder.
use helix.Base.{
  ℕ, ◌≢◌, subst, List, ◌≡◌, refl, sym, ◌∙◌, ◌⊎◌, inl, inr, Bool, true, false, not, Option, none,
  some, ◌==◌, arith, Bool-cases,
}
use helix.Auctioneer.BidSorter.{Bid, BidSorter, Producers, sort, demote, process_bid, count_sub}
use helix.Simulator.Error.{BlockSimError, is_demotable}
use helix.Auctioneer.Simulation.{
  SimulationResult, SimulationAnswer, live, block_simulation, internal_error, sim_on_next_slot,
  Simulated, answer_unless, sort_simulation_result, demoted, demote_all, handle_simulation_result,
  is_for_slot, on_sim_result,
}
use helix.Auctioneer.Simulation.Optimism.{result, Optimism, demote_all-Optimism}

-- The result is not for the slot: it has no bid, or its bid is for another slot.
abbrev pub IsElsewhere : ℕ → SimulationResult → Type 0
IsElsewhere slot r = (r.bid ≡ none) ⊎ (bid : Bid) × (r.bid ≡ some bid) × (bid.slot ≢ slot)

-- What becomes of the auction and what is answered, told from the result: that of another slot changes
-- nothing, a bid that was simulated well for this slot is sorted, a builder whose bid for this slot is to
-- blame is demoted, and an error that it is not to blame for changes nothing.
abbrev pub Auction :
    ℕ
    → ℕ
    → ℕ
    → SimulationResult
    → Simulated
    → BidSorter
    → Producers
    → List SimulationAnswer
    → Type 0
Auction now latency slot r s sorter producers answers =
    (IsElsewhere slot r
      × (sorter ≡ s.sorter)
      × (producers ≡ s.producers)
      × (answers ≡ answer_unless r.is_optimistic sim_on_next_slot s.answers))
    ⊎ ((bid : Bid) × (r.bid ≡ some bid)
        × (bid.slot ≡ slot)
        × (((r.outcome ≡ none)
              × ((top : Bool) × (sort now latency bid (s.sorter, s.producers)
                    ≡ some (sorter, producers, top)))
              × (answers ≡ answer_unless r.is_optimistic live s.answers))
            ⊎ ((e : BlockSimError) × (r.outcome ≡ some e)
                × (((is_demotable e ≡ true)
                      × ((sorter, producers)
                          ≡ demote now bid.builder_pubkey (s.sorter, s.producers))
                      × (answers ≡ answer_unless r.is_optimistic (block_simulation e) s.answers))
                    ⊎ ((is_demotable e ≡ false)
                        × (sorter ≡ s.sorter)
                        × (producers ≡ s.producers)
                        × (answers ≡ answer_unless r.is_optimistic internal_error s.answers))))))

abbrev pub Outcome : ℕ → ℕ → ℕ → SimulationResult → Simulated → Simulated → Type 0
Outcome now latency slot r s t =
    Auction now latency slot r s t.sorter t.producers t.answers × Optimism r s.builders t.builders

sort-some :
    (now latency : ℕ) (bid : Bid) (b : BidSorter) (out : Producers)
    → bid.slot ≡ b.curr_bid_slot
    → (r : BidSorter × Producers × Bool) × (sort now latency bid (b, out) ≡ some r)
unfolding sort
sort-some now latency bid b out e =
    let p = process_bid now bid (b, out) in ((count_sub latency p.0, p.1, p.2), ground arith)

-- A result for another slot, or without a bid.
elsewhere :
    (now latency slot : ℕ) (r : SimulationResult) (s : Simulated)
    → is_for_slot slot r ≡ false
    → IsElsewhere slot r
    → (t : Simulated) × (on_sim_result now latency slot (some r) s ≡ some t)
      × Outcome now latency slot r s t
unfolding on_sim_result handle_simulation_result
elsewhere now latency slot r s other why = (
  handle_simulation_result r false s,
  rw (other, on_sim_result) refl,
  (inl (why, refl, refl, refl), demote_all-Optimism r.is_optimistic r.outcome r.bid s.builders),
)

-- What sorting the result does, before the builder is seen to.
abbrev Sorted : ℕ → ℕ → ℕ → SimulationResult → Simulated → Simulated → Type 0
Sorted now latency slot r s t =
    Auction now latency slot r s t.sorter t.producers t.answers × (t.builders ≡ s.builders)

sort_simulation_result-Auction :
    (now latency slot : ℕ) (o : Bool) (e : Option BlockSimError) (bid : Bid) (s : Simulated)
    → s.sorter.curr_bid_slot ≡ slot
    → bid.slot ≡ slot
    → (t : Simulated) × (sort_simulation_result now latency (result o e (some bid)) s ≡ some t)
      × Sorted now latency slot (result o e (some bid)) s t
unfolding sort_simulation_result
sort_simulation_result-Auction now latency slot o none bid s agree same =
    let (r, sorted) = sort-some now latency bid s.sorter s.producers (same ∙ sym agree) in
    (
      record s { sorter = r.0; producers = r.1; answers = answer_unless o live s.answers },
      rw (sorted, sort_simulation_result) refl,
      (inr (bid, refl, same, inl (refl, (r.2, sorted), refl)), refl),
    )
sort_simulation_result-Auction now latency slot o (some e) bid s agree same =
    elim (Bool-cases (is_demotable e)) [
      | inl blame ↦ (
        record s {
          sorter = (demote now bid.builder_pubkey (s.sorter, s.producers)).0;
          producers = (demote now bid.builder_pubkey (s.sorter, s.producers)).1;
          answers = answer_unless o (block_simulation e) s.answers;
        },
        rw (blame, sort_simulation_result) refl,
        (inr (bid, refl, same, inr (e, refl, inl (blame, refl, refl))), refl),
      )
      | inr by_other ↦ (
        record s { answers = answer_unless o internal_error s.answers },
        rw (by_other, sort_simulation_result) refl,
        (inr (bid, refl, same, inr (e, refl, inr (by_other, refl, refl, refl))), refl),
      )
    ]

-- A result that was sorted is not answered again.
handle_simulation_result-answers :
    (o : Bool) (e : Option BlockSimError) (b : Option Bid) (t : Simulated)
    → t.answers ≡ (handle_simulation_result (result o e b) (not o) t).answers
unfolding handle_simulation_result
handle_simulation_result-answers true e b t = refl
handle_simulation_result-answers false e b t = refl

handle_simulation_result-Outcome :
    (now latency slot : ℕ) (o : Bool) (e : Option BlockSimError) (b : Option Bid) (s t : Simulated)
    → Sorted now latency slot (result o e b) s t
    → Outcome now latency slot (result o e b) s (handle_simulation_result (result o e b) (not o) t)
unfolding handle_simulation_result
handle_simulation_result-Outcome now latency slot o e b s t (a, same) = (
  subst (Auction now latency slot (result o e b) s t.sorter t.producers)
      (handle_simulation_result-answers o e b t) a,
  subst (λ m. Optimism (result o e b) m (demote_all (demoted (result o e b)) t.builders)) same
      (demote_all-Optimism o e b t.builders),
)

-- A result for this slot.
here :
    (now latency slot : ℕ) (o : Bool) (e : Option BlockSimError) (bid : Bid) (s : Simulated)
    → s.sorter.curr_bid_slot ≡ slot
    → bid.slot ≡ slot
    → (t : Simulated) × (on_sim_result now latency slot (some (result o e (some bid))) s ≡ some t)
      × Outcome now latency slot (result o e (some bid)) s t
unfolding on_sim_result
here now latency slot o e bid s agree same =
    let (t, sorted, done) = sort_simulation_result-Auction now latency slot o e bid s agree same in
    let for_slot : is_for_slot slot (result o e (some bid)) ≡ true = ground arith in
    (
      handle_simulation_result (result o e (some bid)) (not o) t,
      rw (for_slot, on_sim_result) (rw (sorted, on_sim_result) refl),
      handle_simulation_result-Outcome now latency slot o e (some bid) s t done,
    )

anywhere :
    (now latency slot : ℕ) (o : Bool) (e : Option BlockSimError) (b : Option Bid) (s : Simulated)
    → s.sorter.curr_bid_slot ≡ slot
    → (t : Simulated) × (on_sim_result now latency slot (some (result o e b)) s ≡ some t)
      × Outcome now latency slot (result o e b) s t
anywhere now latency slot o e none s agree =
    elsewhere now latency slot (result o e none) s refl (inl refl)
anywhere now latency slot o e (some bid) s agree = elim (Bool-cases (bid.slot == slot)) [
  | inl same ↦ here now latency slot o e bid s agree (ground arith)
  | inr other ↦
      elsewhere now latency slot (result o e (some bid)) s other
        (inr (bid, refl, λ q. ground (arith, other, q)))
]

-- A simulation's result, when it comes while its slot is sorted, does not panic. A result without a bid, or
-- with a bid for another slot, leaves the auction as it was, and its submission is told that. One for the
-- slot that went well sorts its bid, and the submission is told that it is live; an error that is to blame
-- on the builder takes it out of the slot's auction, and the submission is told the error; any other error
-- leaves the auction as it was, and the submission is told of an internal error. Each submission is told
-- once if it was not optimistic, and else not at all. A builder loses its optimism exactly if the result has
-- a bid of it and an error that is to blame on it, whatever the slot; of the builders nothing else changes.
pub on_sim_result-Outcome :
    (now latency slot : ℕ) (r : SimulationResult) (s : Simulated)
    → s.sorter.curr_bid_slot ≡ slot
    → (t : Simulated) × (on_sim_result now latency slot (some r) s ≡ some t)
      × Outcome now latency slot r s t
on_sim_result-Outcome now latency slot r s agree =
    anywhere now latency slot r.is_optimistic r.outcome r.bid s agree
