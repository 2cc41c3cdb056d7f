-- ===== src/Auctioneer/BidSorter/Demotion.antt =====
-- bid_sorter.rs, `demote`: a demoted builder is out of every fork of the slot.
use helix.Base.{
  ℕ, ◌≡◌, refl, sym, ◌≢◌, ◌⊎◌, inl, inr, none, some, [], ◌∷◌, arith, ℕ_discrete, Option-cases, ite,
}
use mathlib.Core.Path.{subst₂}
use helix.Base.Map.{Map, get, get-insert_self, get-remove, remove}
use helix.Auctioneer.BidSorter.{
  Bid, ForkKey, ForkState, BidSorter, Producers, fork_key_discrete, fork_or_default,
  process_demotion, demote_fork, demote, get_header,
}
use helix.Auctioneer.BidSorter.Invariant.{traverse-bids}
use helix.Auctioneer.BidSorter.History.{Inv, bids_of, ServesBest, demote-Inv, get_header-ServesBest}

-- The fork keeps the bids of all builders but the demoted one.
abbrev pub Purged : ℕ → ForkState → ForkState → Type 0
Purged demoted s t =
    (get ℕ_discrete demoted t.bids ≡ none)
    × ((k : ℕ) → k ≢ demoted → get ℕ_discrete k t.bids ≡ get ℕ_discrete k s.bids)

demote_fork-Purged :
    (now demoted : ℕ) (s : ForkState) (out : Producers)
    → Purged demoted s (demote_fork now demoted (s, out)).0
unfolding demote_fork
demote_fork-Purged now demoted s out = (
  ground (
    arith,
    get-remove {V = Bid} ℕ_discrete demoted demoted s.bids,
    traverse-bids now (record s { bids = remove ℕ_discrete demoted s.bids }) out,
  ),
  λ k h. ground (
    arith,
    get-remove {V = Bid} ℕ_discrete k demoted s.bids,
    traverse-bids now (record s { bids = remove ℕ_discrete demoted s.bids }) out,
  ),
)

fork_or_default-cons :
    (k j : ForkKey) (s : ForkState) (m : Map ForkKey ForkState)
    → fork_or_default k ((j, s) ∷ m) ≡ ite (fork_key_discrete j k) s (fork_or_default k m)
unfolding fork_or_default get
fork_or_default-cons k j s m = ground arith

Purged-ite :
    {P : Type 0} (demoted : ℕ) (d : Dec P) (s s' t t' : ForkState)
    → Purged demoted s s'
    → Purged demoted t t'
    → Purged demoted (ite d s t) (ite d s' t')
Purged-ite demoted (yes _) s s' t t' p q = p
Purged-ite demoted (no _) s s' t t' p q = q

Purged-nil :
    (demoted : ℕ) (k : ForkKey) → Purged demoted (fork_or_default k []) (fork_or_default k [])
unfolding fork_or_default get
Purged-nil demoted k = (refl, λ j h. refl)

process_demotion-Purged :
    (now demoted : ℕ) (k : ForkKey) (m : Map ForkKey ForkState) (out : Producers)
    → Purged demoted
        (fork_or_default k m)
        (fork_or_default k (process_demotion now demoted (m, out)).0)
unfolding process_demotion
process_demotion-Purged now demoted k [] out = Purged-nil demoted k
process_demotion-Purged now demoted k ((j, s) ∷ m) out =
    let s' = demote_fork now demoted (s, out) in
    let m' = process_demotion now demoted (m, s'.1) in
    subst₂ (Purged demoted) (sym (fork_or_default-cons k j s m))
      (sym (fork_or_default-cons k j s'.0 m'.0))
      (Purged-ite demoted (fork_key_discrete j k) s s'.0 (fork_or_default k m)
        (fork_or_default k m'.0) (demote_fork-Purged now demoted s out)
        (process_demotion-Purged now demoted k m s'.1))

-- The first demotion of a builder in a slot takes its bid out of every fork and leaves the bids of
-- all others, and `get_header` then answers with a best bid of those that are left. A builder that
-- the slot has demoted already changes nothing.
pub demote-Purged :
    (now demoted : ℕ) (b : BidSorter) (out : Producers) (k : ForkKey)
    → Inv b
    → let b' = (demote now demoted (b, out)).0 in
      ((get ℕ_discrete demoted b.demotions ≡ none)
        × (get ℕ_discrete demoted (bids_of b' k) ≡ none)
        × ((j : ℕ) → j ≢ demoted → get ℕ_discrete j (bids_of b' k) ≡ get ℕ_discrete j (bids_of b k))
        × ServesBest (get_header b' k) (bids_of b' k))
      ⊎ ((get ℕ_discrete demoted b.demotions ≡ some tt) × (demote now demoted (b, out) ≡ (b, out)))
unfolding demote
demote-Purged now demoted b out k a = elim (Option-cases (get ℕ_discrete demoted b.demotions)) [
  | inl first ↦
      let (gone, kept) = process_demotion-Purged now demoted k b.forks out in
      inl (
        first,
        rw (first, demote) gone,
        rw (first, demote) kept,
        get_header-ServesBest _ k (demote-Inv now demoted b out a),
      )
  | inr (tt, again) ↦ inr (again, rw (again, demote) refl)
]

-- A demotion is done once in a slot: the same call again changes nothing.
demote_twice :
    (now later demoted : ℕ) (s : BidSorter × Producers)
    → demote later demoted (demote now demoted s) ≡ demote now demoted s
unfolding demote
demote_twice now later demoted (b, out) =
    ground (arith, get-insert_self {V = Unit {0}} ℕ_discrete demoted tt b.demotions)
