-- ===== src/Auctioneer/BidSorter/History.antt =====
-- bid_sorter.rs: the sorter as a whole, and every history of its calls.
use helix.Base.{
  ℕ, ◌≤◌, ◌≡◌, ap, refl, sym, subst, inl, inr, Bool, Option, none, some, List, [], ◌∷◌, arith,
  ℕ_discrete, Option-cases, ◌>>=◌, >>=-eq-some,
}
use mathlib.Core.Option.{some-injective}
use helix.Base.Map.{Map, AllEntries, get, AllEntries-insert, AllEntries-get}
use helix.Auctioneer.BidSorter.{
  Bid, ForkKey, ForkState, BidSorter, Producers, fork_of, fork_key_discrete, empty_fork, set_fork,
  place_bid, fork_or_default, process_bid, sort, process_demotion, demote_fork, demote,
  process_slot, get_header, hash_of, new, count_sub,
}
use helix.Auctioneer.BidSorter.BestBid.{AtMost}
use helix.Auctioneer.BidSorter.Invariant.{IsTop, ForkInv, place_bid-ForkInv, demote_fork-ForkInv}

abbrev pub Inv : BidSorter → Type 0
Inv b = AllEntries (ForkInv b.curr_bid_slot) b.forks

empty_fork-ForkInv : (slot : ℕ) (k : ForkKey) → ForkInv slot k empty_fork
empty_fork-ForkInv slot k = record { belongs = tt; distinct = tt; top = refl }

pub fork_or_default-ForkInv :
    (slot : ℕ) (k : ForkKey) (m : Map ForkKey ForkState)
    → AllEntries (ForkInv slot) m
    → ForkInv slot k (fork_or_default k m)
unfolding fork_or_default
fork_or_default-ForkInv slot k m a = elim (Option-cases (get fork_key_discrete k m)) [
  | inl e ↦ rw (e, fork_or_default) (empty_fork-ForkInv slot k)
  | inr (s, e) ↦ rw (e, fork_or_default) (AllEntries-get fork_key_discrete (ForkInv slot) k m a e)
]

set_fork-Inv :
    (k : ForkKey) (s : ForkState) (b : BidSorter)
    → ForkInv b.curr_bid_slot k s
    → Inv b
    → Inv (set_fork k s b)
set_fork-Inv k s b v a =
    AllEntries-insert fork_key_discrete (ForkInv b.curr_bid_slot) k s b.forks v a

process_bid-Inv :
    (now : ℕ) (bid : Bid) (b : BidSorter) (out : Producers)
    → bid.slot ≡ b.curr_bid_slot
    → Inv b
    → Inv (process_bid now bid (b, out)).0
unfolding process_bid
process_bid-Inv now bid b out e a =
    let s = fork_or_default (fork_of bid) b.forks in
    let v : ForkInv b.curr_bid_slot (fork_of bid) s =
      fork_or_default-ForkInv b.curr_bid_slot (fork_of bid) b.forks a in
    elim (Option-cases (place_bid now bid (s, out))) [
      | inl stale ↦ rw (stale, process_bid) (set_fork-Inv (fork_of bid) s b v a)
      | inr (r, placed) ↦
          rw (placed, process_bid)
            (set_fork-Inv (fork_of bid) r.0 b
              (place_bid-ForkInv b.curr_bid_slot (fork_of bid) now bid s out r (refl, e, refl, refl)
                v placed)
              a)
    ]

pub sort-eq-some :
    (now latency : ℕ) (bid : Bid) (b : BidSorter) (out : Producers)
    (r : BidSorter × Producers × Bool)
    → sort now latency bid (b, out) ≡ some r
    → let p = process_bid now bid (b, out) in
      (bid.slot ≡ b.curr_bid_slot) × (r ≡ (count_sub latency p.0, p.1, p.2))
unfolding sort
sort-eq-some now latency bid b out r e = ground arith

pub sort-Inv :
    (now latency : ℕ) (bid : Bid) (b : BidSorter) (out : Producers)
    (r : BidSorter × Producers × Bool)
    → Inv b
    → sort now latency bid (b, out) ≡ some r
    → Inv r.0
sort-Inv now latency bid b out r a e =
    let (same, p) = sort-eq-some now latency bid b out r e in
    subst (λ (q : BidSorter × Producers × Bool). Inv q.0) (sym p)
      (process_bid-Inv now bid b out same a)

pub process_demotion-Inv :
    (slot now demoted : ℕ) (m : Map ForkKey ForkState) (out : Producers)
    → AllEntries (ForkInv slot) m
    → AllEntries (ForkInv slot) (process_demotion now demoted (m, out)).0
unfolding process_demotion
process_demotion-Inv slot now demoted [] out a = tt
process_demotion-Inv slot now demoted ((k, s) ∷ m) out a = (
  demote_fork-ForkInv slot k now demoted s out a.0,
  process_demotion-Inv slot now demoted m (demote_fork now demoted (s, out)).1 a.1,
)

pub demote-Inv :
    (now demoted : ℕ) (b : BidSorter) (out : Producers)
    → Inv b
    → Inv (demote now demoted (b, out)).0
unfolding demote
demote-Inv now demoted b out a = elim (Option-cases (get ℕ_discrete demoted b.demotions)) [
  | inl e ↦ rw (e, demote) (process_demotion-Inv b.curr_bid_slot now demoted b.forks out a)
  | inr (_, e) ↦ rw (e, demote) a
]

process_slot-Inv : (slot : ℕ) (b : BidSorter) → Inv (process_slot slot b)
unfolding process_slot
process_slot-Inv slot b = tt

pub data Call : Type 0 where
  sorts : ℕ → ℕ → Bid → Call
  demotes : ℕ → ℕ → Call
  starts : ℕ → Call

-- `none` if the call panics.
unfoldable pub call : Call → BidSorter × Producers → Option (BidSorter × Producers)
call (sorts now latency bid) s = do r ← sort now latency bid s; some (r.0, r.1)
call (demotes now pubkey) s = some (demote now pubkey s)
call (starts slot) s = some (process_slot slot s.0, s.1)

unfoldable pub run : List Call → BidSorter × Producers → Option (BidSorter × Producers)
run [] s = some s
run (c ∷ cs) s = do s' ← call c s; run cs s'

abbrev SInv : BidSorter × Producers → Type 0
SInv s = Inv s.0

call-Inv : (c : Call) (s s' : BidSorter × Producers) → SInv s → call c s ≡ some s' → SInv s'
unfolding call
call-Inv (sorts now latency bid) (b, out) s' a e =
    let (r, sorted, done) = >>=-eq-some (sort now latency bid (b, out)) _ e in
    subst SInv (some-injective _ _ done) (sort-Inv now latency bid b out r a sorted)
call-Inv (demotes now pubkey) (b, out) s' a e =
    subst SInv (some-injective _ _ e) (demote-Inv now pubkey b out a)
call-Inv (starts slot) s s' a e = subst SInv (some-injective _ _ e) (process_slot-Inv slot s.0)

run-Inv : (cs : List Call) (s s' : BidSorter × Producers) → SInv s → run cs s ≡ some s' → SInv s'
unfolding run
run-Inv [] s s' a e = subst SInv (some-injective _ _ e) a
run-Inv (c ∷ cs) s s' a e =
    let (t, called, rest) = >>=-eq-some (call c s) _ e in
    run-Inv cs t s' (call-Inv c s t a called) rest

-- The bids on record for a fork.
abbrev pub bids_of : BidSorter → ForkKey → Map ℕ Bid
bids_of b k = (fork_or_default k b.forks).bids

pub AtMost-get :
    (v k : ℕ) (c : Bid) (m : Map ℕ Bid) → AtMost v m → get ℕ_discrete k m ≡ some c → c.value ≤ v
AtMost-get v k c m a g = AllEntries-get ℕ_discrete (λ _ b. b.value ≤ v) k m a g

-- What `get_header` answers for the fork, told from the bids on record.
abbrev pub ServesBest : Option ℕ → Map ℕ Bid → Type 0
ServesBest none m = m ≡ []
ServesBest (some hash) m =
    (bid : Bid) × (bid.block_hash ≡ hash)
    × (get ℕ_discrete bid.builder_pubkey m ≡ some bid)
    × ((k : ℕ) (c : Bid) → get ℕ_discrete k m ≡ some c → c.value ≤ bid.value)

IsTop-ServesBest : (o : Option Bid) (m : Map ℕ Bid) → IsTop o m → ServesBest (hash_of o) m
IsTop-ServesBest none m t = t
IsTop-ServesBest (some c) m t = (c, refl, t.0, λ k d. AtMost-get c.value k d m t.1)

pub fork_or_default_absent :
    (k : ForkKey) (m : Map ForkKey ForkState)
    → get fork_key_discrete k m ≡ none
    → fork_or_default k m ≡ empty_fork
unfolding fork_or_default
fork_or_default_absent k m e = rw (e, fork_or_default)

pub fork_or_default_present :
    (k : ForkKey) (m : Map ForkKey ForkState) (s : ForkState)
    → get fork_key_discrete k m ≡ some s
    → fork_or_default k m ≡ s
unfolding fork_or_default
fork_or_default_present k m s e = rw (e, fork_or_default)

pub get_header-ServesBest :
    (b : BidSorter) (k : ForkKey) → Inv b → ServesBest (get_header b k) (bids_of b k)
unfolding get_header
get_header-ServesBest b k a = elim (Option-cases (get fork_key_discrete k b.forks)) [
  | inl e ↦ rw (e, get_header) (ap (λ (s : ForkState). s.bids) (fork_or_default_absent k b.forks e))
  | inr (s, e) ↦
      rw (e, get_header)
        (subst (λ (t : ForkState). ServesBest (hash_of s.curr_bid) t.bids)
          (sym (fork_or_default_present k b.forks s e))
          (IsTop-ServesBest s.curr_bid s.bids
            (AllEntries-get fork_key_discrete (ForkInv b.curr_bid_slot) k b.forks a e).top))
]

-- After any history of bids, demotions and new slots that does not panic, and for any fork,
-- `get_header` answers the block hash of a bid that is on record for its builder in that fork, and no
-- bid on record there is worth more; it answers nothing only if the fork has no bids on record.
pub run-get_header :
    (cs : List Call) (b : BidSorter) (out : Producers) (k : ForkKey)
    → run cs (new, []) ≡ some (b, out)
    → ServesBest (get_header b k) (bids_of b k)
run-get_header cs b out k e = get_header-ServesBest b k (run-Inv cs (new, []) (b, out) tt e)
