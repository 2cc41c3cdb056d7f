-- ===== src/Simulator/Conserved/Progress.antt =====
-- `next_done`: what it returns is delivered, and the rest is owed as before.
use helix.Base.{
  ℕ, ◌+◌, ◌≡◌, refl, ◌⊎◌, inl, inr, Bool, Option, List, [], ◌∷◌, ◌++◌, total_option, total-append,
  arith, Option-cases, ℕ_discrete,
}
use helix.Base.Map.{get, total_values-insert, total_values-remove, insert-Distinct, remove-Distinct}
use helix.Simulator.Error.{BlockSimError}
use helix.Simulator.Pool.{
  SimResult, validated, validated_merged, SimDone, SimulatorsEvent, task_done, sync_status,
  in_flight, simulated, Simulators,
}
use helix.Simulator.Spawn.{next_client, update_at}
use helix.Simulator.Reports.{
  refresh_accept_optimistic, handle_sync_status, settle, on_task_response, on_block_simulated,
  on_result, drain, next_done, report_sync,
}
use helix.Simulator.Conserved.{answers, answers_result, reported, seen_waits, Owes}
use helix.Simulator.Conserved.Answers.{total-answer_all_cached}
use helix.Simulator.Conserved.Running.{run_next-Owes}

module _ (id asked delivered : ℕ) where
  on_task_response-Owes :
      (now i : ℕ) (error : Option BlockSimError) (elapsed : Option ℕ) (p : Simulators)
      → Owes id asked delivered p
      → Owes id asked delivered (on_task_response now i error elapsed p).1
  unfolding on_task_response refresh_accept_optimistic
  on_task_response-Owes now i error elapsed p h =
      let p' =
        refresh_accept_optimistic now
          (record p { simulators = update_at i (settle now error elapsed) p.simulators }) in
      let h' : Owes id asked delivered p' = record {
        balance = h.balance;
        settled = h.settled;
        distinct = h.distinct;
      } in
      elim (Option-cases (next_client now p'.simulators)) [
        | inl nothing ↦ rw (nothing, on_task_response) h'
        | inr (next, found) ↦
            rw (found, on_task_response) (run_next-Owes id asked delivered next p' h')
      ]

  on_block_simulated-Owes :
      (hash : ℕ) (outcome : Option BlockSimError) (p : Simulators)
      → Owes id asked delivered p
      → Owes id asked delivered (on_block_simulated hash outcome p)
  unfolding on_block_simulated
  on_block_simulated-Owes hash outcome p h =
      elim (Option-cases (get ℕ_discrete hash p.seen_blocks)) [
        | inl fresh ↦ ground (
          arith,
          h,
          fresh,
          total_values-insert ℕ_discrete (seen_waits id) hash (simulated outcome) p.seen_blocks,
          total_values-remove ℕ_discrete (seen_waits id) hash p.seen_blocks h.distinct,
          insert-Distinct ℕ_discrete hash (simulated outcome) p.seen_blocks h.distinct,
          remove-Distinct ℕ_discrete hash p.seen_blocks h.distinct,
        )
        | inr (in_flight waiting, known) ↦ ground (
          arith,
          h,
          known,
          total-answer_all_cached id waiting outcome p.answered,
          total_values-insert ℕ_discrete (seen_waits id) hash (simulated outcome) p.seen_blocks,
          total_values-remove ℕ_discrete (seen_waits id) hash p.seen_blocks h.distinct,
          insert-Distinct ℕ_discrete hash (simulated outcome) p.seen_blocks h.distinct,
          remove-Distinct ℕ_discrete hash p.seen_blocks h.distinct,
        )
        | inr (simulated outcome', known) ↦ ground (
          arith,
          h,
          known,
          total_values-insert ℕ_discrete (seen_waits id) hash (simulated outcome) p.seen_blocks,
          total_values-remove ℕ_discrete (seen_waits id) hash p.seen_blocks h.distinct,
          insert-Distinct ℕ_discrete hash (simulated outcome) p.seen_blocks h.distinct,
          remove-Distinct ℕ_discrete hash p.seen_blocks h.distinct,
        )
      ]

  on_result-Owes :
      (result : SimResult) (p : Simulators)
      → Owes id asked delivered p
      → Owes id asked delivered (on_result result p)
  on_result-Owes (validated _ inner) p h =
      on_block_simulated-Owes inner.block_hash inner.result.outcome p h
  on_result-Owes (validated_merged _ _) p h = h

-- What the caller of `next_done` gets.
abbrev pub delivers : ℕ → Option SimDone → ℕ
delivers id done = total_option (answers id) done

List-cases : {A : Type 0} (xs : List A) → (xs ≡ []) ⊎ ((p : A × List A) × (xs ≡ p.0 ∷ p.1))
List-cases [] = inl refl
List-cases (x ∷ xs) = inr ((x, xs), refl)

drain-Owes :
    (id asked delivered now : ℕ) (events : List SimulatorsEvent) (p : Simulators)
    → Owes id asked delivered (record p { rx = events ++ p.rx })
    → let (_, done, p') = drain now events p in Owes id asked (delivered + delivers id done) p'
unfolding drain handle_sync_status refresh_accept_optimistic
drain-Owes id asked delivered now [] p h = elim (List-cases p.answered) [
  | inl nothing ↦
      rw (nothing, drain)
        (record { balance = omega (arith, h.balance); settled = h.settled; distinct = h.distinct })
  | inr ((done, answered), first) ↦
      rw (first, drain)
        (record {
          balance = ground (arith, h.balance, first);
          settled = h.settled;
          distinct = h.distinct;
        })
]
drain-Owes id asked delivered now (task_done i error result elapsed ∷ events) p h =
    let q = record p { rx = events ++ p.rx } in
    let paid = delivered + answers_result id result in
    on_result-Owes id asked paid result (on_task_response now i error elapsed q).1 (
      on_task_response-Owes id asked paid now i error elapsed q
        (record { balance = omega (arith, h.balance); settled = h.settled; distinct = h.distinct }))
drain-Owes id asked delivered now (sync_status i result ∷ events) p h =
    drain-Owes id asked delivered now events (handle_sync_status now i result p)
      (record { balance = omega (arith, h.balance); settled = h.settled; distinct = h.distinct })

pub next_done-Owes :
    (id asked delivered now : ℕ) (p : Simulators)
    → Owes id asked delivered p
    → let (_, done, p') = next_done now p in Owes id asked (delivered + delivers id done) p'
unfolding next_done
next_done-Owes id asked delivered now p h =
    drain-Owes id asked delivered now p.rx (record p { rx = [] })
      (record {
        balance = omega (arith, h.balance, total-append (reported id) p.rx []);
        settled = h.settled;
        distinct = h.distinct;
      })

pub report_sync-Owes :
    (id asked delivered i : ℕ) (reported : Option Bool) (p : Simulators)
    → Owes id asked delivered p
    → Owes id asked delivered (report_sync i reported p)
unfolding report_sync
report_sync-Owes id asked delivered i r p h =
    ground (arith, h, total-append (reported id) p.rx (sync_status i r ∷ []))
