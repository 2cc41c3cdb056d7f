-- ===== src/Auctioneer/Simulation/Sorted.antt =====
-- submit_block.rs, mod.rs: a simulation's result keeps the bid sorter's invariant.
use helix.Base.{ℕ, ◌≡◌, sym, subst, ◌⊎◌, inl, inr, Option, none, some, arith, Option-cases}
use helix.Auctioneer.BidSorter.{sort, demote}
use helix.Auctioneer.BidSorter.History.{Inv, sort-Inv, demote-Inv}
use helix.Auctioneer.Simulation.{
  SimulationResult, Simulated, sort_simulation_result, handle_simulation_result, on_sim_result,
}

module _ (now latency : ℕ) (r : SimulationResult) (s : Simulated) where
  sort_simulation_result-Inv :
      (t : Simulated)
      → Inv s.sorter
      → sort_simulation_result now latency r s ≡ some t
      → Inv t.sorter
  unfolding sort_simulation_result
  sort_simulation_result-Inv t i e = elim (Option-cases r.bid) [
    | inl none_bid ↦
        let same : t.sorter ≡ s.sorter = ground (arith, e, none_bid) in subst Inv (sym same) i
    | inr (bid, some_bid) ↦
        let d = (demote now bid.builder_pubkey (s.sorter, s.producers)).0 in
        elim (Option-cases (sort now latency bid (s.sorter, s.producers))) [
          | inl panic ↦
              let which : (t.sorter ≡ s.sorter) ⊎ (t.sorter ≡ d) =
                ground (arith, e, some_bid, panic) in
              elim which [
                | inl same ↦ subst Inv (sym same) i
                | inr same ↦
                    subst Inv (sym same) (demote-Inv now bid.builder_pubkey s.sorter s.producers i)
              ]
          | inr (q, sorted) ↦
              let which : (t.sorter ≡ s.sorter) ⊎ (t.sorter ≡ d) ⊎ (t.sorter ≡ q.0) =
                ground (arith, e, some_bid, sorted) in
              elim which [
                | inl same ↦ subst Inv (sym same) i
                | inr (inl same) ↦
                    subst Inv (sym same) (demote-Inv now bid.builder_pubkey s.sorter s.producers i)
                | inr (inr same) ↦
                    subst Inv (sym same) (sort-Inv now latency bid s.sorter s.producers q i sorted)
              ]
        ]
  ]

pub on_sim_result-Inv :
    (now latency slot : ℕ) (r : Option SimulationResult) (s t : Simulated)
    → Inv s.sorter
    → on_sim_result now latency slot r s ≡ some t
    → Inv t.sorter
unfolding on_sim_result handle_simulation_result
on_sim_result-Inv now latency slot none s t i e =
    let same : t.sorter ≡ s.sorter = ground (arith, e) in subst Inv (sym same) i
on_sim_result-Inv now latency slot (some r) s t i e =
    elim (Option-cases (sort_simulation_result now latency r s)) [
      | inl panic ↦
          let same : t.sorter ≡ s.sorter = ground (arith, e, panic) in subst Inv (sym same) i
      | inr (q, sorted) ↦
          let which : (t.sorter ≡ s.sorter) ⊎ (t.sorter ≡ q.sorter) = ground (arith, e, sorted) in
          elim which [
            | inl same ↦ subst Inv (sym same) i
            | inr same ↦
                subst Inv (sym same) (sort_simulation_result-Inv now latency r s q i sorted)
          ]
    ]
