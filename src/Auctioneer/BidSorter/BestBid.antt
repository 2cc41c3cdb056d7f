-- ===== src/Auctioneer/BidSorter/BestBid.antt =====
-- bid_sorter.rs, `ForkState::best_bid`: the traversal finds a bid of the highest value.
use helix.Base.{
  ℕ, ◌≤◌, ◌≡◌, refl, subst, ◌⊎◌, inl, inr, none, some, [], ◌∷◌, arith, Bool-cases, ltb,
}
use helix.Base.Map.{Map, AllEntries, AllEntries-map, HasEntry}
use mathlib.Core.Option.{some-injective}
use helix.Auctioneer.BidSorter.{Bid, better, best_from, best_bid}

-- No entry is worth more.
abbrev pub AtMost : ℕ → Map ℕ Bid → Type 0
AtMost v = AllEntries (λ _ b. b.value ≤ v)

pub AtMost-mono : {v w : ℕ} (m : Map ℕ Bid) → v ≤ w → AtMost v m → AtMost w m
AtMost-mono m h a = AllEntries-map m (λ k b l. omega arith) a

-- Each entry stands under its own builder's key.
abbrev pub Keyed : Map ℕ Bid → Type 0
Keyed = AllEntries (λ k b. b.builder_pubkey ≡ k)

-- `r` wins over the list and `best`.
abbrev Wins : Bid → Map ℕ Bid → Bid → Type 0
Wins best m r =
    (best.value ≤ r.value) × AtMost r.value m × ((r ≡ best) ⊎ HasEntry r.builder_pubkey r m)

better_cases :
    (best b : Bid)
    → ((better best b ≡ best) × (b.value ≤ best.value))
      ⊎ ((better best b ≡ b) × (best.value ≤ b.value))
better_cases best b = elim (Bool-cases (ltb best.value b.value)) [
  | inl e ↦ inr (rw e, ground arith)
  | inr e ↦ inl (rw e, ground arith)
]

Wins-cons :
    (best b c r : Bid) (k : ℕ) (m : Map ℕ Bid)
    → ((c ≡ best) × (b.value ≤ best.value)) ⊎ ((c ≡ b) × (best.value ≤ b.value))
    → b.builder_pubkey ≡ k
    → Wins c m r
    → Wins best ((k, b) ∷ m) r
Wins-cons best b c r k m s e w = ground arith

best_from-Wins : (best : Bid) (m : Map ℕ Bid) → Keyed m → Wins best m (best_from best m)
unfolding best_from
best_from-Wins best [] a = (omega arith, tt, inl refl)
best_from-Wins best ((k, b) ∷ m) a =
    Wins-cons best b (better best b) _ k m (better_cases best b) a.0
      (best_from-Wins (better best b) m a.1)

best_bid_cons :
    (b r : Bid) (k : ℕ) (m : Map ℕ Bid)
    → b.builder_pubkey ≡ k
    → Wins b m r
    → AtMost r.value ((k, b) ∷ m) × HasEntry r.builder_pubkey r ((k, b) ∷ m)
best_bid_cons b r k m e w = ground arith

-- The best bid is an entry of the map, and no entry is worth more.
pub best_bid_lem :
    (m : Map ℕ Bid) (b : Bid)
    → Keyed m
    → best_bid m ≡ some b
    → AtMost b.value m × HasEntry b.builder_pubkey b m
unfolding best_bid
best_bid_lem [] b a e = cc
best_bid_lem ((k, c) ∷ m) b a e =
    subst (λ r. AtMost r.value ((k, c) ∷ m) × HasEntry r.builder_pubkey r ((k, c) ∷ m))
      (some-injective _ _ e) (best_bid_cons c _ k m a.0 (best_from-Wins c m a.1))

pub best_bid-eq-none : (m : Map ℕ Bid) → best_bid m ≡ none → m ≡ []
unfolding best_bid
best_bid-eq-none [] e = refl
best_bid-eq-none ((k, c) ∷ m) e = cc
