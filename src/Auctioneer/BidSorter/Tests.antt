-- ===== src/Auctioneer/BidSorter/Tests.antt =====
-- bid_sorter.rs: a slot with two builders in one fork, and the theorems on it.
use helix.Base.{ℕ, ◌≡◌, ◌≢◌, refl, ◌⊎◌, false, none, some, List, [], ◌∷◌, arith, ℕ_discrete}
use helix.Base.Map.{get, insert, remove}
use helix.Types.SubmissionVersion.{ge, cmp}
use helix.Auctioneer.BidSorter.{
  Bid, ForkKey, BidSorter, Producers, fork_key_discrete, fork_or_default, place_bid,
  compare_with_top, update_top_bid, traverse_update_top_bid, best_bid, best_from, process_bid, sort,
  demote_fork, process_demotion, demote, process_slot, get_header, top_bid_update, new,
}
use helix.Auctioneer.BidSorter.History.{
  Call, sorts, starts, call, run, Inv, bids_of, ServesBest, run-get_header,
}
use helix.Auctioneer.BidSorter.Verdict.{Verdict, sort-Verdict}
use helix.Auctioneer.BidSorter.Demotion.{demote-Purged}
use helix.Auctioneer.BidSorter.Accounting.{Balanced, run-Balanced}

-- A bid of builder `builder` that arrived at time `ns`.
abbrev bid_by : ℕ → ℕ → ℕ → ℕ → Bid
bid_by builder ns value hash = record {
  version = record { on_receive_ns = ns; sequence = none };
  value = value;
  slot = 5;
  block_hash = hash;
  builder_pubkey = builder;
  block_number = 77;
  parent_hash = 3;
  parent_root = 4;
  fee_recipient = 9;
}

abbrev key : ForkKey
key = record { parent_hash = 3; parent_root = 4 }

abbrev low : Bid
low = bid_by 1 10 100 201

abbrev high : Bid
high = bid_by 2 20 150 202

-- The second builder cancels its bid for a smaller one.
abbrev cancel : Bid
cancel = bid_by 2 30 50 203

abbrev two_bids : BidSorter
two_bids = record {
  curr_bid_slot = 5;
  forks =
      (
        key,
        record { bids = (1, low) ∷ (2, high) ∷ []; curr_bid = some high; subs = 2; top_bids = 2 },
      )
      ∷ [];
  demotions = [];
  local_telemetry = record { subs = 2; subs_process_time = 7; stale_subs = 0 };
}

abbrev two_updates : Producers
two_updates = top_bid_update 21 high ∷ top_bid_update 11 low ∷ []

abbrev two_calls : List Call
two_calls = starts 5 ∷ sorts 11 3 low ∷ sorts 21 4 high ∷ []

-- The cancellation brings the first builder's bid back to the top.
abbrev cancelled : BidSorter
cancelled = record two_bids {
  forks =
      (
        key,
        record { bids = (1, low) ∷ (2, cancel) ∷ []; curr_bid = some low; subs = 3; top_bids = 3 },
      )
      ∷ [];
  local_telemetry = record { subs = 3; subs_process_time = 8; stale_subs = 0 };
}

abbrev cancelled_updates : Producers
cancelled_updates = top_bid_update 31 low ∷ two_updates

run-two_bids : run two_calls (new, []) ≡ some (two_bids, two_updates)
unfolding run call sort process_bid process_slot place_bid compare_with_top update_top_bid
    traverse_update_top_bid best_bid best_from fork_or_default get insert ℕ_discrete
    fork_key_discrete ge cmp
run-two_bids = refl

sort-cancel : sort 31 1 cancel (two_bids, two_updates) ≡ some (cancelled, cancelled_updates, false)
unfolding sort process_bid place_bid compare_with_top update_top_bid traverse_update_top_bid
    best_bid best_from fork_or_default get insert ℕ_discrete fork_key_discrete ge cmp
sort-cancel = refl

-- The top builder is demoted, and the other's bid is served.
demoted_header : get_header (demote 40 2 (two_bids, [])).0 key ≡ some 201
unfolding demote process_demotion demote_fork traverse_update_top_bid update_top_bid best_bid
    best_from get insert remove get_header ℕ_discrete fork_key_discrete
demoted_header = refl

two_bids-Inv : Inv two_bids
unfolding get ℕ_discrete
two_bids-Inv = (
  record {
    belongs = ((refl, refl, refl, refl), ((refl, refl, refl, refl), tt));
    distinct = (refl, (refl, tt));
    top = (refl, (omega arith, (omega arith, tt)));
  },
  tt,
)

run-get_header_example : ServesBest (get_header two_bids key) (bids_of two_bids key)
run-get_header_example = run-get_header two_calls two_bids two_updates key run-two_bids

sort-Verdict_example : Verdict cancel two_bids (cancelled, cancelled_updates, false)
sort-Verdict_example =
    sort-Verdict 31 1 cancel two_bids two_updates (cancelled, cancelled_updates, false) two_bids-Inv
      sort-cancel

demote-Purged_example :
    let b' = (demote 40 2 (two_bids, [])).0 in
    ((get ℕ_discrete 2 two_bids.demotions ≡ none)
      × (get ℕ_discrete 2 (bids_of b' key) ≡ none)
      × ((j : ℕ)
          → j ≢ 2
          → get ℕ_discrete j (bids_of b' key) ≡ get ℕ_discrete j (bids_of two_bids key))
      × ServesBest (get_header b' key) (bids_of b' key))
    ⊎ ((get ℕ_discrete 2 two_bids.demotions ≡ some tt)
        × (demote 40 2 (two_bids, []) ≡ (two_bids, [])))
demote-Purged_example = demote-Purged 40 2 two_bids [] key two_bids-Inv

run-Balanced_example : Balanced two_bids
run-Balanced_example =
    run-Balanced 5 (sorts 11 3 low ∷ sorts 21 4 high ∷ []) two_bids two_updates (omega arith) tt
      run-two_bids
