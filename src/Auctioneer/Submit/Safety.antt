-- ===== src/Auctioneer/Submit/Safety.antt =====
-- submit_block.rs: a submission never panics, and a bid goes live before it is simulated only if its
-- builder covers it.
use helix.Base.{
  ℕ, ◌≤◌, ◌≡◌, refl, sym, ◌∙◌, ◌⊎◌, inl, inr, Bool, true, false, Option, none, some, if◌then◌else◌,
  arith, ℕ_discrete, Option-cases,
}
use helix.Base.Map.{get, get-insert_self}
use helix.Types.Payload.{Externals, BlockValidationError}
use helix.Auctioneer.BidSorter.{Bid, BidSorter, Producers, process_bid, count_sub, sort}
use helix.Auctioneer.Payloads.{get_payload, get_payload-insert}
use helix.Auctioneer.Slot.{
  PayloadAttributesUpdate, parent_root, SlotData, SignedBidSubmission, fulu_submission,
  gloas_submission, bid_trace, SubmissionData, submission_entry,
}
use helix.Auctioneer.Validation.{Chain, BuilderInfo, Validator, validate_submission}
use helix.Auctioneer.Validation.Soundness.{validate_submission-eq-inr}
use helix.Auctioneer.Context.{Context}
use helix.Simulator.Request.{ValidationRequest}
use helix.Auctioneer.Submit.{
  SubmissionResult, accepted, bid_validation, internal_error, Submitted, Gate,
  bid_from_submission_data, should_process_optimistically, hydrate_submission, sort_submission,
  store_submission, finish_submission, handle_submission,
}

-- The relay takes optimistic bids now, this one is not asked to be simulated first, and the builder's
-- collateral covers it in a slot where the proposer allows it.
abbrev pub Covered : Gate → SubmissionData → BuilderInfo → SlotData → Type 0
Covered gate sub info d =
    (gate.accept_optimistic ≡ true)
    × (gate.failsafe_triggered ≡ false)
    × (sub.is_pessimistic ≡ false)
    × (d.registration_data.preferences.disable_optimistic ≡ false)
    × (info.is_optimistic ≡ true)
    × ((bid_trace sub.submission).value ≤ info.collateral)
    × ((d.registration_data.preferences.is_regional ≡ false)
        ⊎ (info.is_optimistic_for_regional_filtering ≡ true))

-- The payload of the submission can be found by its block hash.
abbrev pub IsStored : ℕ → SignedBidSubmission → Validator → Type 0
IsStored receive_ns (fulu_submission s) v =
    get ℕ_discrete s.execution_payload.block_hash v.payloads ≡ some (submission_entry s receive_ns)
IsStored receive_ns (gloas_submission s) v =
    get_payload s.trace.block_hash v.gloas_payloads ≡ some s

-- The submission that is sent to the simulators is stored, and it is answered before the simulation
-- exactly if it is optimistic.
abbrev pub IsRequested : ℕ → ValidationRequest → Validator → Option SubmissionResult → Type 0
IsRequested receive_ns r v answer =
    IsStored receive_ns r.submission v
    × (answer ≡ (if r.is_optimistic then some accepted else none))

abbrev pub Answered : ℕ → Submitted → Validator → Type 0
Answered receive_ns s v =
    ((s.request ≡ none) × (e : BlockValidationError) × (s.answer ≡ some (bid_validation e)))
    ⊎ ((s.request ≡ none) × (s.answer ≡ some internal_error))
    ⊎ ((r : ValidationRequest) × (s.request ≡ some r) × IsRequested receive_ns r v s.answer)

module _ (x : Externals) (chain : Chain) where
  sort-some :
      (now latency : ℕ) (bid : Bid) (s : BidSorter × Producers)
      → bid.slot ≡ s.0.curr_bid_slot
      → (r : BidSorter × Producers × Bool) × (sort now latency bid s ≡ some r)
  unfolding sort
  sort-some now latency bid (b, out) e =
      let p = process_bid now bid (b, out) in ((count_sub latency p.0, p.1, p.2), ground arith)

  store_submission-IsStored :
      (receive_ns : ℕ) (s : SignedBidSubmission) (v : Validator)
      → IsStored receive_ns s (store_submission x chain receive_ns s v)
  unfolding store_submission
  store_submission-IsStored receive_ns (fulu_submission s) v =
      get-insert_self ℕ_discrete s.execution_payload.block_hash (submission_entry s receive_ns)
        v.payloads
  store_submission-IsStored receive_ns (gloas_submission s) v =
      ground (arith, get_payload-insert s.trace.block_hash s.trace.block_hash s v.gloas_payloads)

  sort_submission-Covered :
      (now latency : ℕ) (gate : Gate) (sub : SubmissionData) (info : BuilderInfo) (d : SlotData)
      (a : PayloadAttributesUpdate) (b : BidSorter) (out : Producers)
      (r : BidSorter × Producers × Bool × Bool)
      → sort_submission x chain now latency gate sub info d a (b, out) ≡ some r
      → ((r.0 ≡ b) × (r.1 ≡ out) × (r.2 ≡ false)) ⊎ (Covered gate sub info d × (r.2 ≡ true))
  unfolding sort_submission should_process_optimistically bid_from_submission_data
  sort_submission-Covered now latency gate sub info d a b out r e = ground arith

  finish_submission-Answered :
      (sub : SubmissionData) (d : SlotData) (a : PayloadAttributesUpdate) (opt is_top : Bool)
      (c : Context)
      → let (c', s) = finish_submission x chain sub d a opt is_top c in
        Answered sub.receive_ns s c'.validator × (c'.bid_sorter ≡ c.bid_sorter)
  unfolding finish_submission
  finish_submission-Answered sub d a opt is_top c =
      elim (Option-cases
        (hydrate_submission x chain sub.submission c.validator.hydration_cache).1) [
          | inl e ↦ rw (e, finish_submission) (inr (inl (refl, refl)), refl)
          | inr ((s, root), e) ↦
              rw (e, finish_submission)
                (inr (inr (_, refl, (store_submission-IsStored sub.receive_ns s _, refl))), refl)
        ]

pub validated-cases : {A B : Type 0} (r : A ⊎ B) → ((a : A) × (r ≡ inl a)) ⊎ ((b : B) × (r ≡ inr b))
validated-cases (inl a) = inl (a, refl)
validated-cases (inr b) = inr (b, refl)

-- Whether the submission touched the auction.
abbrev pub IsLive :
    Gate
    → SubmissionData
    → BuilderInfo
    → SlotData
    → Context × Producers
    → Context × Producers
    → Type 0
IsLive gate sub info d before after =
    ((after.0.bid_sorter ≡ before.0.bid_sorter) × (after.1 ≡ before.1)) ⊎ Covered gate sub info d

module _ (x : Externals) (chain : Chain) where
  sorted_submission :
      (now latency : ℕ) (gate : Gate) (sub : SubmissionData) (info : BuilderInfo) (d : SlotData)
      (a : PayloadAttributesUpdate) (s : BidSorter × Producers)
      → (bid_trace sub.submission).slot ≡ s.0.curr_bid_slot
      → (r : BidSorter × Producers × Bool × Bool) × (sort_submission x chain now latency gate sub
            info d a s
          ≡ some r)
  unfolding sort_submission bid_from_submission_data
  sorted_submission now latency gate sub info d a (b, out) e =
      let (r, sorted) =
        sort-some x chain now latency (bid_from_submission_data sub (parent_root a)) (b, out) e in
      elim (Option-cases (sort_submission x chain now latency gate sub info d a (b, out))) [
        | inl panic ↦ absurd (ground (arith, sorted, panic))
        | inr done ↦ done
      ]

  live :
      {C : Type 0} {b b' : BidSorter} {out : Producers} (r : BidSorter × Producers × Bool × Bool)
      → b' ≡ r.0
      → ((r.0 ≡ b) × (r.1 ≡ out) × (r.2 ≡ false)) ⊎ (C × (r.2 ≡ true))
      → ((b' ≡ b) × (r.1 ≡ out)) ⊎ C
  live r e (inl (p, q, _)) = inl (e ∙ p, q)
  live r e (inr (covered, _)) = inr covered

  -- If the bid sorter is at the context's slot, a submission does not panic. It is answered with a
  -- validation error, or with an internal error, or its payload is stored under its block hash and sent
  -- to the simulators, and then it is accepted at once exactly if it is optimistic. The auction and its
  -- top bid updates stay what they were, unless the bid is covered: the relay takes optimistic bids, the
  -- submission allows it, and the builder is optimistic with a collateral not below the bid's value, in
  -- a slot whose proposer allows it.
  pub handle_submission-IsLive :
      (now latency : ℕ) (gate : Gate) (sub : SubmissionData) (info : BuilderInfo) (d : SlotData)
      (c : Context) (out : Producers)
      → c.bid_sorter.curr_bid_slot ≡ c.validator.bid_slot
      → (after : Context × Producers) × (s : Submitted) × (handle_submission x chain now latency
            gate sub info d
            (c, out)
          ≡ some (after, s))
        × Answered sub.receive_ns s after.0.validator
        × IsLive gate sub info d (c, out) after
  unfolding handle_submission
  handle_submission-IsLive now latency gate sub info d c out agree =
      elim (validated-cases (validate_submission x chain sub info d c.validator).1) [
        | inl (e, rejected) ↦
            rw (rejected, handle_submission) (_, _, refl, inl (refl, e, refl), inl (refl, refl))
        | inr (a, valid) ↦
            let taken =
              validate_submission-eq-inr x chain sub info d c.validator
                (validate_submission x chain sub info d c.validator).0 a
                (λ i. ((validate_submission x chain sub info d c.validator).0, valid i)) in
            let (r, sorted) =
              sorted_submission now latency gate sub info d a (c.bid_sorter, out)
                (taken.0 ∙ sym agree) in
            let c1 = record c {
              validator = (validate_submission x chain sub info d c.validator).0;
              bid_sorter = r.0;
            } in
            let (answered, same) = finish_submission-Answered x chain sub d a r.2 r.3 c1 in
            rw (valid, handle_submission)
              (rw (sorted, handle_submission)
                (
                  _,
                  _,
                  refl,
                  answered,
                  live r same (
                      sort_submission-Covered x chain now latency gate sub info d a c.bid_sorter out
                        r sorted),
                ))
      ]
