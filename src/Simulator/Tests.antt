-- ===== src/Simulator/Tests.antt =====
-- crates/relay/src/simulator: the definitions and the theorems at concrete values.
use helix.Base.{
  ℕ, ◌≡◌, ◌≤◌, ◌+◌, refl, true, false, none, some, List, [], ◌∷◌, arith, total, length,
}
use helix.Types.Samples.{externals}
use helix.Auctioneer.Slot.{SignedBidSubmission, fulu_submission}
use helix.Types.Samples.{payload, dehydrated}
use helix.Simulator.Error.{
  block_validation_failed, timeout, bytes, is_sim_fault, is_demotable, is_merge_builder_fault,
  is_sim_fault-not_demotable,
}
use helix.Simulator.Request.{ValidationRequest, top}
use helix.Simulator.Entry.{new_entry, floor, can_simulate_at}
use helix.Simulator.Entry.Bounds.{IsBounded, run-IsBounded, run-can_simulate}
use helix.Simulator.Entry.Bounds
use helix.Simulator.Queue.{QueueKey, next_req}
use helix.Simulator.Queue.Order.{IsUnique}
use helix.Simulator.Queue.History
use helix.Simulator.Pool.{no_telemetry, new_pool}
use helix.Simulator.Slots.{on_new_slot}
use helix.Simulator.Spawn.{select_simulator}
use helix.Simulator.Conserved.{answers, owed}
use helix.Simulator.Conserved.History.{
  PoolCall, dispatches, finishes, reports_sync, takes_done, starts_slot, history, asks,
  history-owed, history-on_new_slot,
}
use helix.Simulator.Selection.{IsChoice, select_simulator-IsChoice}
use helix.Simulator.Counters.{IsCounted, history-IsCounted}
use helix.Base.{ℕ_discrete}
use helix.Base.Map.{get, insert}
use helix.Simulator.Conserved.History.{act}
use helix.Simulator.Dispatch.{dispatch, run_or_queue, sample_request}
use helix.Simulator.Entry.{record_failure, record_success, record_sync}
use helix.Simulator.Error.{starts_with_ignore_ascii_case, to_ascii_lowercase}
use helix.Simulator.Pool.{answer_all_cached, answer_cached}
use helix.Simulator.Queue.{greatest, newest, next_merge}
use helix.Simulator.Reports.{
  drain, handle_sync_status, next_done, on_block_simulated, on_task_response, pop_superseded,
  report_sync, run_merged, run_next, run_superseded, run_waiting,
}
use helix.Simulator.Request.{block_hash, fork_name}
use helix.Simulator.Slots.{answer_queue, answer_seen, retain_requests, retain_superseded}
use helix.Simulator.Spawn.{finish_task, mark_seen, spawn_sim, take_task, task_report, update_at}

abbrev block : SignedBidSubmission
block = fulu_submission (record {
  message = dehydrated.message;
  execution_payload = payload;
  blobs_bundle = record { commitments = []; proofs = []; blobs = [] };
  execution_requests = [];
  signature = [];
})

abbrev request : ℕ → ℕ → ValidationRequest
request submission_id receive_ns = record {
  priority = top;
  is_top_bid = true;
  is_optimistic = false;
  apply_blacklist = false;
  parent_beacon_block_root = 4;
  submission = block;
  tx_root = none;
  version = record { on_receive_ns = receive_ns; sequence = none };
  receive_ns = receive_ns;
  submission_id = submission_id;
}

is_sim_fault-not_demotable_example :
    (is_demotable (block_validation_failed (bytes "Missing trie node 7")) ≡ false)
    × (is_merge_builder_fault (block_validation_failed (bytes "Missing trie node 7")) ≡ false)
unfolding is_sim_fault starts_with_ignore_ascii_case to_ascii_lowercase
is_sim_fault-not_demotable_example =
    is_sim_fault-not_demotable (block_validation_failed (bytes "Missing trie node 7")) refl

-- Three faults in a row open the breaker; one task is running.
abbrev three_faults : List (ℕ × Bounds.Call)
three_faults =
    (1, Bounds.syncs (some true))
    ∷ (1, Bounds.starts)
    ∷ (1, Bounds.fails timeout)
    ∷ (1, Bounds.fails timeout)
    ∷ (1, Bounds.fails timeout)
    ∷ (1, Bounds.finishes)
    ∷ []

run-IsBounded_example :
    let (now, s) = Bounds.run three_faults (0, new_entry 8 true) in IsBounded now s × (1 ≤ floor s)
run-IsBounded_example = run-IsBounded three_faults 8 true

run-can_simulate_example :
    can_simulate_at 60000000006 (Bounds.run three_faults (0, new_entry 8 true)).1 ≡ true
unfolding Bounds.run Bounds.call record_failure is_sim_fault can_simulate_at record_sync new_entry
run-can_simulate_example =
    run-can_simulate three_faults 8 true 6 60000000006
      (Bounds.run three_faults (0, new_entry 8 true)).1 refl refl refl (omega arith)

abbrev queue_key : QueueKey
queue_key = record { parent_hash = 1; builder_pubkey = 8 }

abbrev stored_twice : List History.Call
stored_twice =
    History.stores (request 41 10) queue_key (record { on_receive_ns = 10; sequence = none })
    ∷ History.stores (request 42 20) queue_key (record { on_receive_ns = 20; sequence = none })
    ∷ []

run-Next_example :
    let (reqs, _) = History.run stored_twice ([], no_telemetry) in
    IsUnique reqs × History.Next reqs (next_req reqs).0 (next_req reqs).1
run-Next_example = History.run-Next stored_twice no_telemetry

-- Two builders' bids for one block: the second waits for the simulation of the first.
abbrev joined : List PoolCall
joined =
    starts_slot 5
    ∷ reports_sync 0 (some true)
    ∷ takes_done 1
    ∷ dispatches 2 (request 41 10) false
    ∷ dispatches 3 (request 42 20) false
    ∷ finishes 0 none none 7
    ∷ takes_done 10
    ∷ takes_done 11
    ∷ []

joined_all_answered : length (history externals joined (new_pool (new_entry 8 true ∷ []))).0 ≡ 2
unfolding on_new_slot history act next_done drain finish_task take_task dispatch get report_sync
    new_pool handle_sync_status answer_seen retain_requests answer_queue run_or_queue
    select_simulator sample_request update_at record_sync new_entry can_simulate_at spawn_sim
    fork_name mark_seen insert ℕ_discrete block_hash task_report on_block_simulated on_task_response
    record_success run_next next_req greatest run_waiting run_merged next_merge newest
    run_superseded pop_superseded retain_superseded answer_all_cached answer_cached
joined_all_answered = refl

history-owed_example :
    let (done, p) = history externals joined (new_pool (new_entry 8 true ∷ [])) in
    owed 42 p + total (answers 42) done ≡ total (asks 42) joined
history-owed_example = history-owed externals (new_entry 8 true ∷ []) joined 42

history-on_new_slot_example :
    total (answers 42) (history externals joined (new_pool (new_entry 8 true ∷ []))).0
    ≡ total (asks 42) joined
unfolding on_new_slot history act next_done drain finish_task take_task dispatch get report_sync
    new_pool handle_sync_status answer_seen retain_requests answer_queue run_or_queue
    select_simulator sample_request update_at record_sync new_entry can_simulate_at spawn_sim
    fork_name mark_seen insert ℕ_discrete block_hash task_report on_block_simulated on_task_response
    record_success run_next next_req greatest run_waiting run_merged next_merge newest
    run_superseded pop_superseded retain_superseded answer_all_cached answer_cached
history-on_new_slot_example =
    history-on_new_slot externals (new_entry 8 true ∷ []) joined 6 42 refl refl refl

select_simulator-IsChoice_example :
    IsChoice 3
      (new_entry 8 true ∷ new_entry 8 false ∷ [])
      (select_simulator 3 (new_entry 8 true ∷ new_entry 8 false ∷ []))
select_simulator-IsChoice_example =
    select_simulator-IsChoice 3 (new_entry 8 true ∷ new_entry 8 false ∷ [])

history-IsCounted_example :
    IsCounted 0 (history externals joined (new_pool (new_entry 8 true ∷ []))).1
history-IsCounted_example = history-IsCounted externals (new_entry 8 true ∷ []) joined
