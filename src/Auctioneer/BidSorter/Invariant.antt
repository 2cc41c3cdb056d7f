-- ===== src/Auctioneer/BidSorter/Invariant.antt =====
-- bid_sorter.rs: what stays true of each fork of the sorter.
use helix.Base.{
  ℕ, ◌≤◌, ◌≡◌, refl, ap, subst, ◌∙◌, inl, inr, Option, none, some, [], ◌∷◌, arith, ℕ_discrete,
  Bool-cases, Option-cases, ltb, ◌==◌, Bool, false,
}
use helix.Base.Map.{
  Map, AllEntries, get, get-nil, insert, remove, Distinct, get_of_HasEntry, get-remove,
  get-insert_self, get-insert_ne, AllEntries-insert, AllEntries-remove, insert-Distinct,
  remove-Distinct,
}
use helix.Auctioneer.BidSorter.{
  Bid, ForkKey, ForkState, Producers, best_bid, update_top_bid, traverse_update_top_bid,
  compare_with_top, store_bid, place_bid, demote_fork,
}
use helix.Auctioneer.BidSorter.BestBid.{AtMost, AtMost-mono, Keyed, best_bid_lem, best_bid-eq-none}

-- The entry under a builder's key is that builder's bid for this slot and this fork.
abbrev pub Belongs : ℕ → ForkKey → ℕ → Bid → Type 0
Belongs slot fork k b =
    (b.builder_pubkey ≡ k)
    × (b.slot ≡ slot)
    × (b.parent_hash ≡ fork.parent_hash)
    × (b.parent_root ≡ fork.parent_root)

-- The current bid is the one on record for its builder, and no bid on record is worth more. There is
-- none only if there are no bids.
abbrev pub IsTop : Option Bid → Map ℕ Bid → Type 0
IsTop none m = m ≡ []
IsTop (some c) m = (get ℕ_discrete c.builder_pubkey m ≡ some c) × AtMost c.value m

pub record ForkInv (slot : ℕ) (fork : ForkKey) (s : ForkState) : Type 0 where
  pub belongs : AllEntries (Belongs slot fork) s.bids
  pub distinct : Distinct ℕ_discrete s.bids
  pub top : IsTop s.curr_bid s.bids

Keyed-of_Belongs :
    (slot : ℕ) (fork : ForkKey) (m : Map ℕ Bid) → AllEntries (Belongs slot fork) m → Keyed m
Keyed-of_Belongs slot fork [] a = tt
Keyed-of_Belongs slot fork ((k, b) ∷ m) a = (a.0.0, Keyed-of_Belongs slot fork m a.1)

-- The traversal finds the top bid whatever the current bid was.
traverse-IsTop :
    (now : ℕ) (s : ForkState) (out : Producers)
    → Keyed s.bids
    → Distinct ℕ_discrete s.bids
    → IsTop (traverse_update_top_bid now (s, out)).0.curr_bid s.bids
unfolding traverse_update_top_bid update_top_bid
traverse-IsTop now s out k d = elim (Option-cases (best_bid s.bids)) [
  | inl e ↦ rw (e, traverse_update_top_bid) (best_bid-eq-none s.bids e)
  | inr (b, e) ↦
      rw (e, traverse_update_top_bid)
        (let (a, h) = best_bid_lem s.bids b k e in
          (get_of_HasEntry ℕ_discrete b.builder_pubkey b s.bids d h, a))
]

pub traverse-bids :
    (now : ℕ) (s : ForkState) (out : Producers)
    → (traverse_update_top_bid now (s, out)).0.bids ≡ s.bids
unfolding traverse_update_top_bid update_top_bid
traverse-bids now s out = ground arith

AtMost-insert :
    (v : ℕ) (b : Bid) (m : Map ℕ Bid)
    → b.value ≤ v
    → AtMost v m
    → AtMost v (insert ℕ_discrete b.builder_pubkey b m)
AtMost-insert v b m h a = AllEntries-insert ℕ_discrete (λ _ c. c.value ≤ v) _ b m h a

pub compare-bids :
    (now : ℕ) (bid : Bid) (s : ForkState) (out : Producers)
    → (compare_with_top now bid (s, out)).0.bids ≡ s.bids
unfolding compare_with_top
compare-bids now bid s out = ground (arith, traverse-bids now s out)

module _ (slot : ℕ) (fork : ForkKey) (now : ℕ) (bid : Bid) (s : ForkState) (out : Producers) where
  store-Belongs :
      Belongs slot fork bid.builder_pubkey bid
      → ForkInv slot fork s
      → AllEntries (Belongs slot fork) (store_bid bid s).bids
  store-Belongs b v =
      AllEntries-insert ℕ_discrete (Belongs slot fork) bid.builder_pubkey bid s.bids b v.belongs

  store-Distinct : ForkInv slot fork s → Distinct ℕ_discrete (store_bid bid s).bids
  store-Distinct v = insert-Distinct ℕ_discrete bid.builder_pubkey bid s.bids v.distinct

  -- The new bid is on top if nothing on record was worth more.
  IsTop-store : AtMost bid.value s.bids → IsTop (some bid) (store_bid bid s).bids
  IsTop-store a = (
    get-insert_self ℕ_discrete bid.builder_pubkey bid s.bids,
    AtMost-insert bid.value bid s.bids (omega arith) a,
  )

  -- Another builder's bid that is worth no more leaves the current bid on top.
  IsTop-keep :
      (c : Bid)
      → (bid.builder_pubkey == c.builder_pubkey) ≡ false
      → ltb c.value bid.value ≡ false
      → IsTop (some c) s.bids
      → IsTop (some c) (store_bid bid s).bids
  IsTop-keep c n l t = (
    get-insert_ne ℕ_discrete c.builder_pubkey bid.builder_pubkey bid s.bids (ground arith) ∙ t.0,
    AtMost-insert c.value bid s.bids (ground arith) t.1,
  )

  compare-IsTop :
      (o : Option Bid)
      → s.curr_bid ≡ o
      → Belongs slot fork bid.builder_pubkey bid
      → ForkInv slot fork s
      → IsTop o s.bids
      → IsTop (compare_with_top now bid (store_bid bid s, out)).0.curr_bid (store_bid bid s).bids
  unfolding compare_with_top
  compare-IsTop none e b v t = rw (e, compare_with_top) (IsTop-store (rw t tt))
  compare-IsTop (some c) e b v t = elim (Bool-cases (ltb c.value bid.value)) [
    | inl more ↦
        rw (e, compare_with_top, more) (IsTop-store (AtMost-mono s.bids (ground arith) t.1))
    | inr less ↦ elim (Bool-cases (bid.builder_pubkey == c.builder_pubkey)) [
      | inl same ↦
          rw (e, compare_with_top, less, same)
            (traverse-IsTop now (store_bid bid s) out
              (Keyed-of_Belongs slot fork _ (store-Belongs b v)) (store-Distinct v))
      | inr other ↦ rw (e, compare_with_top, less, other, e) (IsTop-keep c other less t)
    ]
  ]

  compare-ForkInv :
      Belongs slot fork bid.builder_pubkey bid
      → ForkInv slot fork s
      → ForkInv slot fork (compare_with_top now bid (store_bid bid s, out)).0
  compare-ForkInv b v = record {
    belongs = rw (compare-bids now bid (store_bid bid s) out) (store-Belongs b v);
    distinct = rw (compare-bids now bid (store_bid bid s) out) (store-Distinct v);
    top = rw (compare-bids now bid (store_bid bid s) out) (compare-IsTop s.curr_bid refl b v v.top);
  }

  pub place_bid-eq-some :
      (r : ForkState × Producers × Bool)
      → place_bid now bid (s, out) ≡ some r
      → compare_with_top now bid (store_bid bid s, out) ≡ r
  unfolding place_bid
  place_bid-eq-some r e = ground arith

  -- A bid that is accepted keeps the invariant of its fork.
  pub place_bid-ForkInv :
      (r : ForkState × Producers × Bool)
      → Belongs slot fork bid.builder_pubkey bid
      → ForkInv slot fork s
      → place_bid now bid (s, out) ≡ some r
      → ForkInv slot fork r.0
  place_bid-ForkInv r b v e =
      subst (λ (q : ForkState × Producers × Bool). ForkInv slot fork q.0) (place_bid-eq-some r e)
        (compare-ForkInv b v)

-- What a demotion removes is gone from the fork, and the best of the other bids is on top.
module _ (slot : ℕ) (fork : ForkKey) (now demoted : ℕ) (s : ForkState) (out : Producers) where
  abbrev without : ForkState
  without = record s { bids = remove ℕ_discrete demoted s.bids }

  without-Belongs : ForkInv slot fork s → AllEntries (Belongs slot fork) without.bids
  without-Belongs v = AllEntries-remove ℕ_discrete (Belongs slot fork) demoted s.bids v.belongs

  without-Distinct : ForkInv slot fork s → Distinct ℕ_discrete without.bids
  without-Distinct v = remove-Distinct ℕ_discrete demoted s.bids v.distinct

  IsTop-without :
      (c : Bid)
      → (c.builder_pubkey == demoted) ≡ false
      → IsTop (some c) s.bids
      → IsTop (some c) without.bids
  IsTop-without c n t = (
    ground (arith, get-remove ℕ_discrete c.builder_pubkey demoted s.bids, t.0),
    AllEntries-remove ℕ_discrete (λ _ b. b.value ≤ c.value) demoted s.bids t.1,
  )

  without-ForkInv : ForkInv slot fork s → IsTop s.curr_bid without.bids → ForkInv slot fork without
  without-ForkInv v t = record {
    belongs = without-Belongs v;
    distinct = without-Distinct v;
    top = t;
  }

  traverse-without :
      ForkInv slot fork s → ForkInv slot fork (traverse_update_top_bid now (without, out)).0
  traverse-without v = record {
    belongs = rw (traverse-bids now without out) (without-Belongs v);
    distinct = rw (traverse-bids now without out) (without-Distinct v);
    top = rw (traverse-bids now without out) (
        traverse-IsTop now without out (Keyed-of_Belongs slot fork _ (without-Belongs v))
          (without-Distinct v));
  }

  demote_fork-removed :
      (o : Option Bid) (old : Bid)
      → s.curr_bid ≡ o
      → get ℕ_discrete demoted s.bids ≡ some old
      → ForkInv slot fork s
      → IsTop o s.bids
      → ForkInv slot fork (demote_fork now demoted (s, out)).0
  unfolding demote_fork
  demote_fork-removed none old e g v t =
      cc (ap (get ℕ_discrete demoted) t, get-nil {K = ℕ} {V = Bid} ℕ_discrete demoted)
  demote_fork-removed (some c) old e g v t = elim (Bool-cases (c.builder_pubkey == demoted)) [
    | inl same ↦ rw (g, demote_fork, e, same) (traverse-without v)
    | inr other ↦ rw (g, demote_fork, e, other) (without-ForkInv v (rw e (IsTop-without c other t)))
  ]

  -- A demotion keeps the invariant of each fork.
  pub demote_fork-ForkInv :
      ForkInv slot fork s → ForkInv slot fork (demote_fork now demoted (s, out)).0
  unfolding demote_fork
  demote_fork-ForkInv v = elim (Option-cases (get ℕ_discrete demoted s.bids)) [
    | inl absent ↦ rw (absent, demote_fork) v
    | inr (old, g) ↦ demote_fork-removed s.curr_bid old refl g v v.top
  ]
