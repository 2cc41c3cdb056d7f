-- ===== src/Auctioneer/Header/Merged.antt =====
-- block_merger.rs: when a merged block is served in place of a bid.
use helix.Base.{
  ℕ, ◌-◌, ◌/◌, ◌≤◌, ◌<◌, ◌≡◌, ◌≢◌, subst, ◌⊎◌, inl, inr, Bool, true, some, arith, ℕ_discrete,
  Option-cases,
}
use helix.Base.Map.{get}
use helix.Auctioneer.BlockMerger.{
  BlockMergingConfig, BestMergedBlock, BlockMerger, contains, merged_bid_higher, serve_merged,
  get_merged_header,
}
use helix.Auctioneer.Slot.{PayloadEntry, receive_ns, value, builder_pubkey, execution_payload}

-- The block is the merger's for the original's fee recipient, worth more, on the same parent, with a
-- state root, its base not too old against the original, and it may be served.
abbrev pub IsMerged : BlockMergingConfig → Bool → PayloadEntry → BlockMerger → PayloadEntry → Type 0
IsMerged config enabled original m e =
    (b : BestMergedBlock) × (ns : ℕ) × (get ℕ_discrete (execution_payload original).fee_recipient
        m.best_merged_blocks
      ≡ some b)
    × (b.bid ≡ e)
    × (value original < value e)
    × ((execution_payload e).parent_hash ≡ (execution_payload original).parent_hash)
    × ((execution_payload e).state_root ≢ 0)
    × (receive_ns original ≡ some ns)
    × ((ns - b.base_block_receive_ns) / 1000000 ≤ b.max_merged_bid_age_ms)
    × ((contains (builder_pubkey e) config.serve_merged_headers_allowlist ≡ true)
        ⊎ (enabled ≡ true))

serve_merged-eq-some :
    (config : BlockMergingConfig) (enabled : Bool) (bid e : PayloadEntry)
    → serve_merged config enabled bid ≡ some e
    → (bid ≡ e)
      × ((execution_payload e).state_root ≢ 0)
      × ((contains (builder_pubkey e) config.serve_merged_headers_allowlist ≡ true)
          ⊎ (enabled ≡ true))
unfolding serve_merged
serve_merged-eq-some config enabled bid e h = ground arith

merged_bid_higher_lem :
    (merged original : PayloadEntry) (base_ns ns age : ℕ)
    → merged_bid_higher merged original base_ns ns age ≡ true
    → (value original < value merged) × ((ns - base_ns) / 1000000 ≤ age)
unfolding merged_bid_higher
merged_bid_higher_lem merged original base_ns ns age h = ground arith

get_merged_header-eq-some :
    (config : BlockMergingConfig) (enabled : Bool) (original : PayloadEntry) (m : BlockMerger)
    (e : PayloadEntry)
    → (get_merged_header config enabled original m).0 ≡ some e
    → (b : BestMergedBlock) × (ns : ℕ) × (get ℕ_discrete
          (execution_payload original).fee_recipient
          m.best_merged_blocks
        ≡ some b)
      × (receive_ns original ≡ some ns)
      × (merged_bid_higher b.bid original b.base_block_receive_ns ns b.max_merged_bid_age_ms ≡ true)
      × ((execution_payload b.bid).parent_hash ≡ (execution_payload original).parent_hash)
      × (serve_merged config enabled b.bid ≡ some e)
unfolding get_merged_header
get_merged_header-eq-some config enabled original m e h =
    elim (Option-cases
      (get ℕ_discrete (execution_payload original).fee_recipient m.best_merged_blocks)) [
        | inl absent ↦ absurd (ground (arith, h, absent))
        | inr (b, found) ↦ elim (Option-cases (receive_ns original)) [
          | inl untimed ↦ absurd (ground (arith, h, found, untimed))
          | inr (ns, timed) ↦ (
            b,
            ns,
            found,
            timed,
            ground (arith, h, found, timed),
            ground (arith, h, found, timed),
            ground (arith, h, found, timed),
          )
        ]
      ]

pub get_merged_header-IsMerged :
    (config : BlockMergingConfig) (enabled : Bool) (original : PayloadEntry) (m : BlockMerger)
    (e : PayloadEntry)
    → (get_merged_header config enabled original m).0 ≡ some e
    → IsMerged config enabled original m e
get_merged_header-IsMerged config enabled original m e h =
    let (b, ns, found, received, higher, parent, served) =
      get_merged_header-eq-some config enabled original m e h in
    let (same, root, switch) = serve_merged-eq-some config enabled b.bid e served in
    let (worth, young) =
      merged_bid_higher_lem b.bid original b.base_block_receive_ns ns b.max_merged_bid_age_ms
        higher in
    (
      b,
      ns,
      found,
      same,
      subst (λ f. value original < value f) same worth,
      subst (λ f. (execution_payload f).parent_hash ≡ (execution_payload original).parent_hash) same
          parent,
      root,
      received,
      young,
      switch,
    )
