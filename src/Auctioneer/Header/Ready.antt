-- ===== src/Auctioneer/Header/Ready.antt =====
-- submit_block.rs, context.rs: the handlers that keep every payload at hand.
use helix.Base.{
  ℕ, ◌≡◌, refl, sym, subst, ◌∙◌, ◌⊎◌, inl, inr, not, ◌||◌, Bool, none, some, [], ◌==◌, arith,
  ℕ_discrete, Option-cases, Bool-cases,
}
use helix.Base.Map.{get, is_empty}
use helix.Types.Payload.{Externals}
use helix.Auctioneer.BidSorter.{BidSorter, Producers, sort}
use helix.Auctioneer.BidSorter.History.{Inv, sort-Inv}
use helix.Auctioneer.Payloads.{is_empty_store}
use helix.Auctioneer.BlockMerger.{BlockMerger, reset_merger}
use helix.Auctioneer.Slot.{
  SlotData, PayloadAttributesUpdate, parent_root, SubmissionData, SignedBidSubmission,
  fulu_submission, gloas_submission, execution_payload, gossip_entry, submission_entry,
}
use helix.Auctioneer.Validation.{Chain, BuilderInfo, Validator, validate_submission}
use helix.Auctioneer.Context.{
  Context, BroadcastPayloadParams, start_payloads, start_slot, handle_gossip_payload, add_payload,
}
use mathlib.Core.Option.{some-injective}
use helix.Auctioneer.Submit.{
  Gate, Submitted, bid_from_submission_data, set_hydration, feed_rejected, bid_validation,
  sort_submission, store_submission, hydrate_submission, finish_submission, handle_submission,
}
use helix.Auctioneer.Submit.Safety.{validated-cases}
use helix.Auctioneer.Header.Held.{Held, insert-Held}

-- What the auction and the payloads keep to.
abbrev pub Ready : Context → Type 0
Ready c = Inv c.bid_sorter × Held c.validator.payloads c.block_merger

validate_submission-payloads :
    (x : Externals) (chain : Chain) (sub : SubmissionData) (info : BuilderInfo) (d : SlotData)
    (v : Validator)
    → (validate_submission x chain sub info d v).0.payloads ≡ v.payloads
unfolding validate_submission helix.Auctioneer.Validation.validate_version
validate_submission-payloads x chain sub info d v = ground arith

pub start_slot-Ready : (slot : ℕ) (c : Context) → Ready c → Ready (start_slot slot (c, [])).0
unfolding start_slot start_payloads reset_merger helix.Auctioneer.BidSorter.process_slot
start_slot-Ready slot c (i, h) =
    elim (Bool-cases
      (not (is_empty c.validator.payloads) || not (is_empty_store c.validator.gloas_payloads))) [
        | inl e ↦ rw (e, start_payloads) (tt, record { keyed = tt; merged = tt })
        | inr e ↦ rw (e, start_payloads) (tt, record { keyed = h.keyed; merged = tt })
      ]

pub handle_gossip_payload-Ready :
    (g : BroadcastPayloadParams) (d : SlotData) (c : Context)
    → Ready c
    → Ready (handle_gossip_payload g d c)
unfolding handle_gossip_payload execution_payload
handle_gossip_payload-Ready g d c (i, h) =
    let k = g.execution_payload.execution_payload.block_hash in
    elim (Bool-cases (c.validator.bid_slot == g.slot)) [
      | inr e ↦ rw (e, handle_gossip_payload) (i, h)
      | inl e ↦ elim (Bool-cases (d.registration_data.pubkey == g.proposer_pub_key)) [
        | inr e' ↦ rw (e, handle_gossip_payload) (rw (e', handle_gossip_payload) (i, h))
        | inl e' ↦ elim (Option-cases (get ℕ_discrete k c.validator.payloads)) [
          | inr (_, e'') ↦
              rw (e, handle_gossip_payload)
                (rw (e', handle_gossip_payload) (rw (e'', add_payload) (i, h)))
          | inl e'' ↦
              rw (e, handle_gossip_payload)
                (rw (e', handle_gossip_payload)
                  (rw (e'', add_payload)
                    (
                      i,
                      insert-Held k (gossip_entry g.execution_payload g.bid_data)
                          c.validator.payloads c.block_merger refl h,
                    )))
        ]
      ]
    ]

module _ (x : Externals) (chain : Chain) where
  store_submission-Held :
      (receive_ns : ℕ) (s : SignedBidSubmission) (v : Validator) (m : BlockMerger)
      → Held v.payloads m
      → Held (store_submission x chain receive_ns s v).payloads m
  unfolding store_submission execution_payload
  store_submission-Held receive_ns (fulu_submission s) v m h =
      insert-Held s.execution_payload.block_hash (submission_entry s receive_ns) v.payloads m refl h
  store_submission-Held receive_ns (gloas_submission s) v m h = h

  finish_submission-Ready :
      (sub : SubmissionData) (d : SlotData) (a : PayloadAttributesUpdate) (opt is_top : Bool)
      (c : Context)
      → Ready c
      → Ready (finish_submission x chain sub d a opt is_top c).0
  unfolding finish_submission
  finish_submission-Ready sub d a opt is_top c (i, h) =
      elim (Option-cases
        (hydrate_submission x chain sub.submission c.validator.hydration_cache).1) [
          | inl e ↦ rw (e, finish_submission) (i, h)
          | inr ((s, root), e) ↦
              rw (e, finish_submission)
                (i, store_submission-Held sub.receive_ns s _ c.block_merger h)
        ]

  sort_submission-Inv :
      (now latency : ℕ) (gate : Gate) (sub : SubmissionData) (info : BuilderInfo) (d : SlotData)
      (a : PayloadAttributesUpdate) (b : BidSorter) (out : Producers)
      (r : BidSorter × Producers × Bool × Bool)
      → Inv b
      → sort_submission x chain now latency gate sub info d a (b, out) ≡ some r
      → Inv r.0
  unfolding sort_submission
  sort_submission-Inv now latency gate sub info d a b out r i e =
      let bid = bid_from_submission_data sub (parent_root a) in
      elim (Option-cases (sort now latency bid (b, out))) [
        | inl panic ↦ let same : r.0 ≡ b = ground (arith, e, panic) in subst Inv (sym same) i
        | inr (t, sorted) ↦
            let which : (r.0 ≡ b) ⊎ (r.0 ≡ t.0) = ground (arith, e, sorted) in
            elim which [
              | inl same ↦ subst Inv (sym same) i
              | inr moved ↦ subst Inv (sym moved) (sort-Inv now latency bid b out t i sorted)
            ]
      ]

  pub handle_submission-Ready :
      (now latency : ℕ) (gate : Gate) (sub : SubmissionData) (info : BuilderInfo) (d : SlotData)
      (c : Context) (out : Producers) (r : (Context × Producers) × Submitted)
      → Ready c
      → handle_submission x chain now latency gate sub info d (c, out) ≡ some r
      → Ready r.0.0
  unfolding handle_submission
  handle_submission-Ready now latency gate sub info d c out r (i, h) e =
      let v = (validate_submission x chain sub info d c.validator).0 in
      let h' =
        subst (λ p. Held p c.block_merger)
          (sym (validate_submission-payloads x chain sub info d c.validator)) h in
      elim (validated-cases (validate_submission x chain sub info d c.validator).1) [
        | inl (err, rejected) ↦
            let q : handle_submission x chain now latency gate sub info d (c, out)
                ≡ some (
                  (
                    record c {
                      validator =
                          set_hydration x chain
                            (feed_rejected x chain sub.submission v.hydration_cache) v;
                    },
                    out,
                  ),
                  record { answer = some (bid_validation err); request = none },
                ) =
              rw (rejected, handle_submission) refl in
            subst (λ (t : (Context × Producers) × Submitted). Ready t.0.0)
              (some-injective _ _ (sym q ∙ e)) (i, h')
        | inr (a, valid) ↦
            elim (Option-cases
              (sort_submission x chain now latency gate sub info d a (c.bid_sorter, out))) [
                | inl panic ↦ absurd (ground (arith, e, valid, panic))
                | inr (t, sorted) ↦
                    let c1 = record c { validator = v; bid_sorter = t.0 } in
                    let f = finish_submission x chain sub d a t.2 t.3 c1 in
                    let q : handle_submission x chain now latency gate sub info d (c, out)
                        ≡ some ((f.0, t.1), f.1) =
                      rw (valid, handle_submission) (rw (sorted, handle_submission) refl) in
                    subst (λ (t : (Context × Producers) × Submitted). Ready t.0.0)
                      (some-injective _ _ (sym q ∙ e))
                      (finish_submission-Ready sub d a t.2 t.3 c1 (
                        sort_submission-Inv now latency gate sub info d a c.bid_sorter out t i
                            sorted,
                        h',
                      ))
              ]
      ]
