-- ===== src/Auctioneer/BidSorter/Verdict.antt =====
-- bid_sorter.rs, `sort`: what its answer says of the auction.
use helix.Base.{
  ℕ, ◌≤◌, ◌≡◌, refl, ap, sym, subst, ◌∙◌, ◌⊎◌, inl, inr, Bool, true, false, Option, none, some,
  arith, ℕ_discrete, Bool-cases, Option-cases,
}
use helix.Base.Map.{Map, get, get-insert_self, get-nil}
use helix.Types.SubmissionVersion.{ge}
use helix.Auctioneer.BidSorter.{
  Bid, ForkKey, ForkState, BidSorter, Producers, fork_of, fork_key_discrete, set_fork, place_bid,
  fork_or_default, process_bid, sort, get_header, hash_of, value_of, top_bid_value,
  compare_with_top, store_bid,
}
use helix.Auctioneer.BidSorter.Invariant.{
  IsTop, ForkInv, place_bid-ForkInv, place_bid-eq-some, compare-bids,
}
use helix.Auctioneer.BidSorter.History.{
  Inv, bids_of, fork_or_default-ForkInv, sort-eq-some, AtMost-get,
}

compare-served :
    (now : ℕ) (bid : Bid) (s : ForkState) (out : Producers)
    → (compare_with_top now bid (s, out)).2 ≡ true
    → hash_of (compare_with_top now bid (s, out)).0.curr_bid ≡ some bid.block_hash
unfolding compare_with_top
compare-served now bid s out h = ground arith

fork_or_default-set_fork :
    (k : ForkKey) (s : ForkState) (b : BidSorter) → fork_or_default k (set_fork k s b).forks ≡ s
unfolding fork_or_default
fork_or_default-set_fork k s b = rw (get-insert_self fork_key_discrete k s b.forks, fork_or_default)

get_header_of_fork :
    (k : ForkKey) (b : BidSorter) → get_header b k ≡ hash_of (fork_or_default k b.forks).curr_bid
unfolding get_header fork_or_default
get_header_of_fork k b = ground arith

top_bid_value_of_fork :
    (k : ForkKey) (b : BidSorter)
    → top_bid_value b k ≡ value_of (fork_or_default k b.forks).curr_bid
unfolding top_bid_value fork_or_default
top_bid_value_of_fork k b = ground arith

-- A bid on record is worth no more than the top bid.
value-le-top :
    (o : Option Bid) (m : Map ℕ Bid) (k : ℕ) (bid : Bid)
    → IsTop o m
    → get ℕ_discrete k m ≡ some bid
    → (v : ℕ) × (value_of o ≡ some v) × (bid.value ≤ v)
value-le-top none m k bid t g = cc (ap (get ℕ_discrete k) t, get-nil {K = ℕ} {V = Bid} ℕ_discrete k)
value-le-top (some c) m k bid t g = (c.value, refl, AtMost-get c.value k bid m t.1 g)

-- The builder's bid on record is at least as new: nothing changes but the count of stale bids.
abbrev pub IsStale : Bid → BidSorter → BidSorter × Producers × Bool → Type 0
IsStale bid b r =
    let k = fork_of bid in
    (r.2 ≡ false)
    × ((old : Bid) × (get ℕ_discrete bid.builder_pubkey (bids_of b k) ≡ some old)
        × (ge old.version bid.version ≡ true))
    × (bids_of r.0 k ≡ bids_of b k)
    × (get_header r.0 k ≡ get_header b k)

-- The bid is on record, and it is the one that `get_header` answers.
abbrev pub IsServed : Bid → BidSorter × Producers × Bool → Type 0
IsServed bid r =
    let k = fork_of bid in
    (r.2 ≡ true)
    × (get ℕ_discrete bid.builder_pubkey (bids_of r.0 k) ≡ some bid)
    × (get_header r.0 k ≡ some bid.block_hash)

-- The bid is on record, and it is worth no more than the top bid.
abbrev pub IsBeaten : Bid → BidSorter × Producers × Bool → Type 0
IsBeaten bid r =
    let k = fork_of bid in
    (r.2 ≡ false)
    × (get ℕ_discrete bid.builder_pubkey (bids_of r.0 k) ≡ some bid)
    × ((v : ℕ) × (top_bid_value r.0 k ≡ some v) × (bid.value ≤ v))

abbrev pub Verdict : Bid → BidSorter → BidSorter × Producers × Bool → Type 0
Verdict bid b r = IsStale bid b r ⊎ IsServed bid r ⊎ IsBeaten bid r

module _ (now : ℕ) (bid : Bid) (b : BidSorter) (out : Producers) where
  abbrev fork : ForkState
  fork = fork_or_default (fork_of bid) b.forks

  process_bid_stale :
      place_bid now bid (fork, out) ≡ none
      → ((process_bid now bid (b, out)).0.forks ≡ (set_fork (fork_of bid) fork b).forks)
        × ((process_bid now bid (b, out)).2 ≡ false)
  unfolding process_bid
  process_bid_stale e = (rw (e, process_bid) refl, rw (e, process_bid) refl)

  process_bid_placed :
      (q : ForkState × Producers × Bool)
      → place_bid now bid (fork, out) ≡ some q
      → process_bid now bid (b, out) ≡ (set_fork (fork_of bid) q.0 b, q.1, q.2)
  unfolding process_bid
  process_bid_placed q e = rw (e, process_bid) refl

  place_bid-eq-none :
      place_bid now bid (fork, out) ≡ none
      → (old : Bid) × (get ℕ_discrete bid.builder_pubkey fork.bids ≡ some old)
        × (ge old.version bid.version ≡ true)
  unfolding place_bid
  place_bid-eq-none e = ground arith

  place_bid-recorded :
      (q : ForkState × Producers × Bool)
      → place_bid now bid (fork, out) ≡ some q
      → get ℕ_discrete bid.builder_pubkey q.0.bids ≡ some bid
  place_bid-recorded q e =
      subst
        (λ (p : ForkState × Producers × Bool).
          get ℕ_discrete bid.builder_pubkey p.0.bids ≡ some bid)
        (place_bid-eq-some 0 (fork_of bid) now bid fork out q e)
        (rw (compare-bids now bid (store_bid bid fork) out)
          (get-insert_self ℕ_discrete bid.builder_pubkey bid fork.bids))

  IsServed-or_IsBeaten :
      (q : ForkState × Producers × Bool) (r : BidSorter × Producers × Bool)
      → place_bid now bid (fork, out) ≡ some q
      → fork_or_default (fork_of bid) r.0.forks ≡ q.0
      → r.2 ≡ q.2
      → ForkInv b.curr_bid_slot (fork_of bid) q.0
      → IsServed bid r ⊎ IsBeaten bid r
  IsServed-or_IsBeaten q r placed same verdict v = elim (Bool-cases q.2) [
    | inl top ↦ inl (
      verdict ∙ top,
      recorded,
      get_header_of_fork (fork_of bid) r.0
          ∙ ap (λ (s : ForkState). hash_of s.curr_bid) same
          ∙ served top,
    )
    | inr low ↦
        let (w, e, h) =
          value-le-top q.0.curr_bid q.0.bids _ bid v.top (place_bid-recorded q placed) in
        inr (
          verdict ∙ low,
          recorded,
          (
            w,
            top_bid_value_of_fork (fork_of bid) r.0
                ∙ ap (λ (s : ForkState). value_of s.curr_bid) same
                ∙ e,
            h,
          ),
        )
  ]
    where
      recorded : get ℕ_discrete bid.builder_pubkey (bids_of r.0 (fork_of bid)) ≡ some bid
      recorded =
          ap (λ (s : ForkState). get ℕ_discrete bid.builder_pubkey s.bids) same
          ∙ place_bid-recorded q placed

      served : q.2 ≡ true → hash_of q.0.curr_bid ≡ some bid.block_hash
      served =
          subst
            (λ (p : ForkState × Producers × Bool).
              p.2 ≡ true → hash_of p.0.curr_bid ≡ some bid.block_hash)
            (place_bid-eq-some 0 (fork_of bid) now bid fork out q placed)
            (compare-served now bid (store_bid bid fork) out)

  process_bid-Verdict :
      bid.slot ≡ b.curr_bid_slot → Inv b → Verdict bid b (process_bid now bid (b, out))
  process_bid-Verdict e a = elim (Option-cases (place_bid now bid (fork, out))) [
    | inl stale ↦
        let (forks, low) = process_bid_stale stale in
        let same : fork_or_default (fork_of bid) (process_bid now bid (b, out)).0.forks ≡ fork =
          ap (fork_or_default (fork_of bid)) forks
          ∙ fork_or_default-set_fork (fork_of bid) fork b in
        inl (
          low,
          place_bid-eq-none stale,
          ap (λ (s : ForkState). s.bids) same,
          get_header_of_fork (fork_of bid) (process_bid now bid (b, out)).0
              ∙ ap (λ (s : ForkState). hash_of s.curr_bid) same
              ∙ sym (get_header_of_fork (fork_of bid) b),
        )
    | inr (q, placed) ↦
        let done = process_bid_placed q placed in
        inr (
          IsServed-or_IsBeaten q (process_bid now bid (b, out)) placed
            (rw done (fork_or_default-set_fork (fork_of bid) q.0 b)) (rw done refl)
            (place_bid-ForkInv b.curr_bid_slot (fork_of bid) now bid fork out q
              (refl, e, refl, refl)
              (fork_or_default-ForkInv b.curr_bid_slot (fork_of bid) b.forks a) placed))
  ]

-- In a sorter that satisfies its invariant, `sort` either finds the bid stale, and then the builder
-- has a version on record that is as new, the fork's bids and header stay, and the answer is false; or
-- it records the bid and answers true, and then `get_header` answers the bid's block; or it records the
-- bid and answers false, and then the top bid of the fork is worth at least as much.
pub sort-Verdict :
    (now latency : ℕ) (bid : Bid) (b : BidSorter) (out : Producers)
    (r : BidSorter × Producers × Bool)
    → Inv b
    → sort now latency bid (b, out) ≡ some r
    → Verdict bid b r
unfolding get_header top_bid_value
sort-Verdict now latency bid b out r a e =
    let (same, q) = sort-eq-some now latency bid b out r e in
    subst (Verdict bid b) (sym q) (process_bid-Verdict now bid b out same a)
