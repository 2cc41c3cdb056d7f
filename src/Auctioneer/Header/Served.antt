-- ===== src/Auctioneer/Header/Served.antt =====
-- get_header.rs: which header a proposer is served, and why it may get none.
use helix.Base.{
  ℕ, ◌≡◌, ◌≢◌, refl, subst, ◌⊎◌, inl, inr, Bool, true, none, some, [], ◌==◌, arith, ℕ_discrete,
  Option-cases, Bool-cases,
}
use helix.Base.Map.{get}
use helix.Auctioneer.BidSorter.{ForkKey, get_header}
use helix.Auctioneer.BidSorter.History.{Inv, bids_of, ServesBest, get_header-ServesBest}
use helix.Auctioneer.BlockMerger.{BlockMergingConfig, get_merged_header}
use helix.Auctioneer.Slot.{SlotData, fork_for_parent_hash, PayloadEntry}
use helix.Auctioneer.Context.{Context}
use helix.Auctioneer.Header.{
  GetHeaderParams, request_wrong_slot, no_bid_prepared, HeaderResult, best_block_hash, serve_header,
  get_header_result, handle_get_header, on_get_header,
}
use helix.Auctioneer.Header.Merged.{IsMerged, get_merged_header-IsMerged}

-- The bid that is served, or the merged block in its place.
abbrev pub IsServed :
    BlockMergingConfig → Bool → GetHeaderParams → SlotData → Context → PayloadEntry → Type 0
IsServed config enabled p d c e =
    (p.slot ≡ d.bid_slot)
    × (p.pubkey ≡ d.registration_data.pubkey)
    × ((k : ForkKey) × (hash : ℕ) × (original : PayloadEntry) × (fork_for_parent_hash d
            p.parent_hash
          ≡ some k)
        × ServesBest (some hash) (bids_of c.bid_sorter k)
        × (get ℕ_discrete hash c.validator.payloads ≡ some original)
        × ((e ≡ original) ⊎ IsMerged config enabled original c.block_merger e))

-- Why there is no bid for the request.
abbrev pub Unprepared : GetHeaderParams → SlotData → Context → Type 0
Unprepared p d c =
    (fork_for_parent_hash d p.parent_hash ≡ none)
    ⊎ (d.registration_data.pubkey ≢ p.pubkey)
    ⊎ ((k : ForkKey) × (fork_for_parent_hash d p.parent_hash ≡ some k)
        × (bids_of c.bid_sorter k ≡ []))
    ⊎ ((k : ForkKey) × (hash : ℕ) × (fork_for_parent_hash d p.parent_hash ≡ some k)
        × ServesBest (some hash) (bids_of c.bid_sorter k)
        × (get ℕ_discrete hash c.validator.payloads ≡ none))

abbrev pub Outcome :
    BlockMergingConfig → Bool → GetHeaderParams → SlotData → Context → HeaderResult → Type 0
Outcome config enabled p d c r =
    ((r ≡ inl (request_wrong_slot p.slot d.bid_slot)) × (d.bid_slot ≢ p.slot))
    ⊎ ((r ≡ inl no_bid_prepared) × Unprepared p d c)
    ⊎ ((e : PayloadEntry) × (r ≡ inr e) × IsServed config enabled p d c e)

-- Of the auction and the payloads, a request changes nothing.
abbrev pub Unchanged : Context → Context → Type 0
Unchanged c c' = (c'.bid_sorter ≡ c.bid_sorter) × (c'.validator ≡ c.validator)

module _ (config : BlockMergingConfig) (enabled : Bool) where
  serve_header-cases :
      (original : PayloadEntry) (c : Context)
      → let (r, c') = serve_header config enabled original c in
        ((e : PayloadEntry) × (r ≡ inr e)
          × ((e ≡ original) ⊎ IsMerged config enabled original c.block_merger e))
        × Unchanged c c'
  unfolding serve_header
  serve_header-cases original c =
      elim (Option-cases (get_merged_header config enabled original c.block_merger).0) [
        | inl e ↦ rw (e, serve_header) ((original, refl, inl refl), (refl, refl))
        | inr (bid, e) ↦
            rw (e, serve_header)
              (
                (
                  bid,
                  refl,
                  inr (get_merged_header-IsMerged config enabled original c.block_merger bid e),
                ),
                (refl, refl),
              )
      ]

  header_result :
      (p : GetHeaderParams) (d : SlotData) (c : Context) (k : ForkKey)
      → Inv c.bid_sorter
      → p.slot ≡ d.bid_slot
      → p.pubkey ≡ d.registration_data.pubkey
      → fork_for_parent_hash d p.parent_hash ≡ some k
      → let (r, c') = get_header_result config enabled p.parent_hash d c in
        Outcome config enabled p d c r × Unchanged c c'
  unfolding get_header_result best_block_hash
  header_result p d c k i slot key known =
      let best = get_header-ServesBest c.bid_sorter k i in
      elim (Option-cases (get_header c.bid_sorter k)) [
        | inl e ↦
            rw (known, get_header_result)
              (rw (e, get_header_result)
                (
                  inr (
                      inl (
                        refl,
                        inr (
                            inr (
                              inl (
                                k,
                                refl,
                                subst (λ h. ServesBest h (bids_of c.bid_sorter k)) e best,
                              ))),
                      )),
                  (refl, refl),
                ))
        | inr (hash, e) ↦
            let best' = subst (λ h. ServesBest h (bids_of c.bid_sorter k)) e best in
            elim (Option-cases (get ℕ_discrete hash c.validator.payloads)) [
              | inl missing ↦
                  rw (known, get_header_result)
                    (rw (e, get_header_result)
                      (rw (missing, get_header_result)
                        (
                          inr (inl (refl, inr (inr (inr (k, hash, refl, best', missing))))),
                          (refl, refl),
                        )))
              | inr (original, held) ↦
                  let ((b, served, which), same) = serve_header-cases original c in
                  rw (known, get_header_result)
                    (rw (e, get_header_result)
                      (rw (held, get_header_result)
                        (
                          inr (
                              inr (
                                b,
                                served,
                                (slot, key, (k, hash, original, refl, best', held, which)),
                              )),
                          same,
                        )))
            ]
      ]

  -- If the bid sorter satisfies its invariant and the slot's data is for the context's slot, a request
  -- for a header does not panic and changes neither the auction nor the stored payloads. It is refused
  -- if it is for another slot; it gets no bid if its fork is unknown, its proposer is not the registered
  -- one, its fork has no bid, or the best bid's payload is missing; and else it gets the payload of a best
  -- bid on its fork, or a merged block in place of it: one for the same fee recipient, worth more, on the
  -- same parent, with a state root, whose base is not too old, if such headers are enabled or the builder
  -- is on the allowlist.
  pub on_get_header-Outcome :
      (p : GetHeaderParams) (d : SlotData) (c : Context)
      → Inv c.bid_sorter
      → d.bid_slot ≡ c.validator.bid_slot
      → (r : HeaderResult) × (c' : Context) × (on_get_header config enabled p d c ≡ some (r, c'))
        × Outcome config enabled p d c r
        × Unchanged c c'
  unfolding on_get_header handle_get_header
  on_get_header-Outcome p d c i agree = elim (Bool-cases (d.bid_slot == p.slot)) [
    | inr other ↦
        rw (other, on_get_header) (_, c, refl, inl (refl, ground (arith, other)), (refl, refl))
    | inl slot ↦ elim (Option-cases (fork_for_parent_hash d p.parent_hash)) [
      | inl unknown ↦
          rw (slot, on_get_header)
            (rw (unknown, on_get_header) (_, c, refl, inr (inl (refl, inl refl)), (refl, refl)))
      | inr (k, known) ↦ elim (Bool-cases (d.registration_data.pubkey == p.pubkey)) [
        | inr stranger ↦ (
          _,
          c,
          rw (slot, on_get_header) (rw (known, on_get_header) (rw (stranger, on_get_header) refl)),
          inr (inl (refl, inr (inl (ground (arith, stranger))))),
          (refl, refl),
        )
        | inl key ↦
            let (outcome, same) =
              header_result p d c k i (ground (arith, slot)) (ground (arith, key)) known in
            let here : (p.slot == c.validator.bid_slot) ≡ true = ground (arith, slot, agree) in
            (
              (get_header_result config enabled p.parent_hash d c).0,
              (get_header_result config enabled p.parent_hash d c).1,
              rw (slot, on_get_header)
                  (rw (known, on_get_header)
                    (rw (key, on_get_header) (rw (here, on_get_header) refl))),
              outcome,
              same,
            )
      ]
    ]
  ]
