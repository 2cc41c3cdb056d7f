-- ===== src/Auctioneer/BidSorter/Accounting.antt =====
-- bid_sorter.rs, `BidSorterTelemetry`: the counters of a slot add up, as the comment on `stale_subs`
-- says.
use helix.Base.{
  ℕ, ◌+◌, ◌%◌, ◌^◌, ◌<◌, ◌≡◌, refl, sym, subst, some, inl, inr, List, [], >>=-eq-some, ◌∷◌, arith,
  ℕ_discrete, Option-cases, Bool,
}
use mathlib.Core.Option.{some-injective}
use helix.Base.Map.{Map, get, insert, remove}
use helix.Auctioneer.BidSorter.{
  Bid, ForkKey, ForkState, BidSorter, Producers, fork_of, fork_key_discrete, fork_or_default,
  place_bid, process_bid, process_demotion, demote_fork, demote, sort, process_slot, new, store_bid,
  compare_with_top, traverse_update_top_bid,
}
use helix.Auctioneer.BidSorter.Invariant.{place_bid-eq-some}
use helix.Auctioneer.BidSorter.History.{sort-eq-some, Call, sorts, demotes, starts, call, run}

-- The sum of `report`, over the forks, in u32.
abbrev pub accepted_subs : Map ForkKey ForkState → ℕ
accepted_subs [] = 0
accepted_subs ((k, s) ∷ m) = (s.subs + accepted_subs m) % 2 ^ 32

-- `subs == stale_subs + sum(fork.subs)`.
abbrev pub Balanced : BidSorter → Type 0
Balanced b =
    b.local_telemetry.subs ≡ (b.local_telemetry.stale_subs + accepted_subs b.forks) % 2 ^ 32

-- Storing a fork whose count went up by one counts one more.
accepted_subs-insert :
    (k : ForkKey) (t : ForkState) (m : Map ForkKey ForkState) (d : ℕ)
    → t.subs ≡ ((fork_or_default k m).subs + d) % 2 ^ 32
    → accepted_subs (insert fork_key_discrete k t m) ≡ (accepted_subs m + d) % 2 ^ 32
unfolding insert fork_or_default get
accepted_subs-insert k t [] d e = omega arith
accepted_subs-insert k t ((j, s) ∷ m) d e = ground (arith, accepted_subs-insert k t m d)

accepted_subs-touch :
    (k : ForkKey) (m : Map ForkKey ForkState)
    → accepted_subs (insert fork_key_discrete k (fork_or_default k m) m) ≡ accepted_subs m
unfolding insert fork_or_default get
accepted_subs-touch k [] = refl
accepted_subs-touch k ((j, s) ∷ m) = ground (arith, accepted_subs-touch k m)

traverse-subs :
    (now : ℕ) (s : ForkState) (out : Producers)
    → (traverse_update_top_bid now (s, out)).0.subs ≡ s.subs
unfolding traverse_update_top_bid
traverse-subs now s out = ground arith

compare-subs :
    (now : ℕ) (bid : Bid) (s : ForkState) (out : Producers)
    → (compare_with_top now bid (s, out)).0.subs ≡ s.subs
unfolding compare_with_top
compare-subs now bid s out = ground (arith, traverse-subs now s out)

demote_fork-subs :
    (now demoted : ℕ) (s : ForkState) (out : Producers)
    → (demote_fork now demoted (s, out)).0.subs ≡ s.subs
unfolding demote_fork
demote_fork-subs now demoted s out =
    ground (arith, traverse-subs now (record s { bids = remove ℕ_discrete demoted s.bids }) out)

accepted_subs-process_demotion :
    (now demoted : ℕ) (m : Map ForkKey ForkState) (out : Producers)
    → accepted_subs (process_demotion now demoted (m, out)).0 ≡ accepted_subs m
unfolding process_demotion
accepted_subs-process_demotion now demoted [] out = refl
accepted_subs-process_demotion now demoted ((k, s) ∷ m) out = omega (
  arith,
  demote_fork-subs now demoted s out,
  accepted_subs-process_demotion now demoted m (demote_fork now demoted (s, out)).1,
)

place_bid-subs :
    (now : ℕ) (bid : Bid) (s : ForkState) (out : Producers) (q : ForkState × Producers × Bool)
    → place_bid now bid (s, out) ≡ some q
    → q.0.subs ≡ (s.subs + 1) % 2 ^ 32
place_bid-subs now bid s out q e =
    subst (λ (p : ForkState × Producers × Bool). p.0.subs ≡ (s.subs + 1) % 2 ^ 32)
      (place_bid-eq-some 0 (fork_of bid) now bid s out q e)
      (compare-subs now bid (store_bid bid s) out)

-- A bid is counted once, among the stale ones or in its fork.
process_bid-count :
    (now : ℕ) (bid : Bid) (b : BidSorter) (out : Producers)
    → let r = (process_bid now bid (b, out)).0 in
      (r.local_telemetry.subs ≡ b.local_telemetry.subs)
      × ((r.local_telemetry.stale_subs + accepted_subs r.forks) % 2 ^ 32
          ≡ (b.local_telemetry.stale_subs + accepted_subs b.forks + 1) % 2 ^ 32)
unfolding process_bid
process_bid-count now bid b out =
    let s = fork_or_default (fork_of bid) b.forks in
    elim (Option-cases (place_bid now bid (s, out))) [
      | inl stale ↦
          rw (stale, process_bid) (refl, omega (arith, accepted_subs-touch (fork_of bid) b.forks))
      | inr (q, placed) ↦
          rw (placed, process_bid)
            (
              refl,
              omega (
                arith,
                accepted_subs-insert (fork_of bid) q.0 b.forks 1
                    (place_bid-subs now bid s out q placed),
              ),
            )
    ]

-- The counters agree, and a slot has begun.
abbrev pub Counting : BidSorter × Producers → Type 0
Counting s = (0 < s.0.curr_bid_slot) × Balanced s.0

process_bid-slot :
    (now : ℕ) (bid : Bid) (b : BidSorter) (out : Producers)
    → (process_bid now bid (b, out)).0.curr_bid_slot ≡ b.curr_bid_slot
unfolding process_bid
process_bid-slot now bid b out = ground arith

sort-Counting :
    (now latency : ℕ) (bid : Bid) (b : BidSorter) (out : Producers)
    (r : BidSorter × Producers × Bool)
    → Counting (b, out)
    → sort now latency bid (b, out) ≡ some r
    → Counting (r.0, r.1)
sort-Counting now latency bid b out r (p, e) h =
    subst (λ (q : BidSorter × Producers × Bool). Counting (q.0, q.1))
      (sym (sort-eq-some now latency bid b out r h).1)
      (
        omega (arith, process_bid-slot now bid b out),
        omega (arith, process_bid-count now bid b out),
      )

demote-Counting :
    (now demoted : ℕ) (b : BidSorter) (out : Producers)
    → Counting (b, out)
    → Counting (demote now demoted (b, out))
unfolding demote
demote-Counting now demoted b out (p, e) =
    ground (arith, accepted_subs-process_demotion now demoted b.forks out)

process_slot-Counting :
    (slot : ℕ) (b : BidSorter) (out : Producers)
    → 0 < slot
    → Counting (b, out)
    → Counting (process_slot slot b, out)
unfolding process_slot
process_slot-Counting slot b out h (p, e) = ground arith

-- No call starts slot 0.
abbrev pub StartsLater : List Call → Type 0
StartsLater [] = Unit
StartsLater (sorts now latency bid ∷ cs) = StartsLater cs
StartsLater (demotes now pubkey ∷ cs) = StartsLater cs
StartsLater (starts slot ∷ cs) = (0 < slot) × StartsLater cs

run-Counting :
    (cs : List Call) (s t : BidSorter × Producers)
    → StartsLater cs
    → Counting s
    → run cs s ≡ some t
    → Counting t
unfolding run call
run-Counting [] s t l e h = subst Counting (some-injective _ _ h) e
run-Counting (sorts now latency bid ∷ cs) (b, out) t l e h =
    let (s', called, rest) = >>=-eq-some (call (sorts now latency bid) (b, out)) _ h in
    let (r, sorted, done) = >>=-eq-some (sort now latency bid (b, out)) _ called in
    run-Counting cs s' t l
      (subst Counting (some-injective _ _ done) (sort-Counting now latency bid b out r e sorted))
      rest
run-Counting (demotes now pubkey ∷ cs) (b, out) t l e h =
    run-Counting cs (demote now pubkey (b, out)) t l (demote-Counting now pubkey b out e) h
run-Counting (starts slot ∷ cs) (b, out) t l e h =
    run-Counting cs (process_slot slot b, out) t l.1 (process_slot-Counting slot b out l.0 e) h

-- From the first slot on, and if no later slot is slot 0, the slot's count of submissions is the count
-- of the stale ones and the counts of the forks together, in u32, after any history of bids, demotions
-- and new slots that does not panic.
pub run-Balanced :
    (slot : ℕ) (cs : List Call) (b : BidSorter) (out : Producers)
    → 0 < slot
    → StartsLater cs
    → run (starts slot ∷ cs) (new, []) ≡ some (b, out)
    → Balanced b
unfolding run call process_slot
run-Balanced slot cs b out p l h =
    (run-Counting cs (process_slot slot new, []) (b, out) l (p, refl) h).1
