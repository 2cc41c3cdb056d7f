-- ===== src/Auctioneer/Header/Requests.antt =====
-- get_header.rs: a request for a header keeps every payload at hand, and its own is at hand.
use helix.Base.{
  ℕ, ◌≡◌, refl, sym, subst, ◌⊎◌, inl, inr, Bool, some, arith, ℕ_discrete, Option-cases,
}
use helix.Base.Map.{get, AllEntries-get, AllEntries}
use helix.Auctioneer.BidSorter.History.{Inv}
use helix.Auctioneer.BlockMerger.{BlockMergingConfig, BlockMerger, get_merged_header}
use helix.Auctioneer.Slot.{SlotData, PayloadEntry, execution_payload}
use helix.Auctioneer.Validation.{Validator}
use helix.Auctioneer.Context.{Context}
use helix.Auctioneer.Header.{
  GetHeaderParams, HeaderResult, best_block_hash, serve_header, get_header_result,
  handle_get_header, on_get_header,
}
use helix.Auctioneer.Header.Held.{IsHeld, Held, block_hash}
use helix.Auctioneer.Header.Served.{IsServed}
use helix.Auctioneer.Header.Ready.{Ready}

module _ (config : BlockMergingConfig) (enabled : Bool) where
  -- A request leaves the auction, the payloads and the merged blocks as they are.
  abbrev Same : Context → Context → Type 0
  Same c c' =
      (c'.bid_sorter ≡ c.bid_sorter)
      × (c'.validator ≡ c.validator)
      × (c'.block_merger.best_merged_blocks ≡ c.block_merger.best_merged_blocks)

  get_merged_header-best :
      (original : PayloadEntry) (m : BlockMerger)
      → (get_merged_header config enabled original m).1.best_merged_blocks ≡ m.best_merged_blocks
  unfolding get_merged_header
  get_merged_header-best original m = ground arith

  get_header_result-Same :
      (parent_hash : ℕ) (d : SlotData) (c : Context)
      → Same c (get_header_result config enabled parent_hash d c).1
  unfolding get_header_result serve_header
  get_header_result-Same parent_hash d c = elim (Option-cases (best_block_hash parent_hash d c)) [
    | inl e ↦ rw (e, get_header_result) (refl, refl, refl)
    | inr (hash, e) ↦ elim (Option-cases (get ℕ_discrete hash c.validator.payloads)) [
      | inl e' ↦ rw (e, get_header_result) (rw (e', get_header_result) (refl, refl, refl))
      | inr (original, e') ↦
          rw (e, get_header_result)
            (rw (e', get_header_result)
              (refl, refl, get_merged_header-best original c.block_merger))
    ]
  ]

  on_get_header-Same :
      (p : GetHeaderParams) (d : SlotData) (c : Context) (r : HeaderResult × Context)
      → on_get_header config enabled p d c ≡ some r
      → (r.1 ≡ c) ⊎ (r.1 ≡ (get_header_result config enabled p.parent_hash d c).1)
  unfolding on_get_header handle_get_header
  on_get_header-Same p d c r e = ground arith

  pub on_get_header-Ready :
      (p : GetHeaderParams) (d : SlotData) (c : Context) (r : HeaderResult × Context)
      → Ready c
      → on_get_header config enabled p d c ≡ some r
      → Ready r.1
  on_get_header-Ready p d c r (i, h) e =
      let t = (get_header_result config enabled p.parent_hash d c).1 in
      let (sorter, validator, best) = get_header_result-Same p.parent_hash d c in
      elim (on_get_header-Same p d c r e) [
        | inl same ↦ subst Ready (sym same) (i, h)
        | inr same ↦ subst Ready (sym same) (
          subst Inv (sym sorter) i,
          record {
            keyed =
                subst (λ (v : Validator). AllEntries (λ k e. block_hash e ≡ k) v.payloads)
                  (sym validator) h.keyed;
            merged =
                subst (λ m. AllEntries (λ _ b. IsHeld t.validator.payloads b.bid) m) (sym best)
                  (subst
                    (λ (v : Validator).
                      AllEntries (λ _ b. IsHeld v.payloads b.bid) c.block_merger.best_merged_blocks)
                    (sym validator) h.merged);
          },
        )
      ]

-- A header that is served from a ready context.
pub served-IsHeld :
    (config : BlockMergingConfig) (enabled : Bool) (p : GetHeaderParams) (d : SlotData)
    (c : Context) (e : PayloadEntry)
    → Held c.validator.payloads c.block_merger
    → IsServed config enabled p d c e
    → IsHeld c.validator.payloads e
served-IsHeld config enabled p d c e h (_, _, (k, hash, original, _, _, found, inl same)) =
    let keyed =
      AllEntries-get ℕ_discrete (λ k e. block_hash e ≡ k) hash c.validator.payloads h.keyed found in
    subst (IsHeld c.validator.payloads) (sym same) (
      original,
      subst (λ k. get ℕ_discrete k c.validator.payloads ≡ some original) (sym keyed) found,
      refl,
    )
served-IsHeld config enabled p d c e h
      (_, _, (k, hash, original, _, _, found, inr (b, ns, best, same, _, _, _, _, _, _))) =
    subst (IsHeld c.validator.payloads) same (
      AllEntries-get ℕ_discrete (λ _ b. IsHeld c.validator.payloads b.bid)
        (execution_payload original).fee_recipient c.block_merger.best_merged_blocks h.merged best)
