-- ===== src/Auctioneer/Validation/Meaning.antt =====
-- validation.rs: what the checks of a submission say of it, apart from how the code makes them.
use helix.Base.{
  ℕ, ◌≡◌, ◌≢◌, refl, sym, subst, ap, ◌∙◌, ◌⊎◌, inl, inr, Bool, true, false, Option, none, some,
  List, [], ◌∷◌, ◌==◌, any, length, arith, ℕ_discrete, Option-cases, Bool-cases,
}
use helix.Base.Map.{get}
use helix.Types.Payload.{
  Externals, BidTrace, bid_trace_eq, ExecutionPayload, validate_trace, validate_blobs_lengths,
}
use helix.Types.Hydration.{HydratedData, DehydratedBidSubmission, ok}
use helix.Types.Hydration.Builders.{
  builder_of, cache_of, can_hydrate, hydrate, cached_withdrawals_root,
}
use helix.Types.Hydration.Learning.{can_hydrate_of_cache}
use helix.Types.Hydration.Precheck.{can_hydrate-hydrate}
use helix.Auctioneer.Payloads.{get_for_reveal}
use helix.Auctioneer.Slot.{
  SlotData, GloasBidSubmission, fulu_submission, gloas_submission, Submission, full, dehydrated,
  bid_trace, PayloadEntry, submission_entry, gossip_entry, has_bid_trace, SubmissionData,
}
use helix.Auctioneer.Validation.{
  Chain, BuilderInfo, Validator, list_or_nil, builder_id_list, check_if_trusted_builder, validate,
  validate_gloas, trace_mismatch, hydration_check,
}

-- The bid trace says of the payload what the payload says of itself, and the bid is worth something.
abbrev pub Describes : BidTrace → ExecutionPayload → Type 0
Describes m p =
    (m.parent_hash ≡ p.parent_hash)
    × (m.block_hash ≡ p.block_hash)
    × (m.gas_limit ≡ p.gas_limit)
    × (m.gas_used ≡ p.gas_used)
    × (m.value ≢ 0)

abbrev pub IsConsistent : Submission → Type 0
IsConsistent (full (fulu_submission s)) = Describes s.message s.execution_payload
IsConsistent (dehydrated s) = Describes s.message s.execution_payload
IsConsistent (full (gloas_submission s)) =
    (s.trace.parent_hash ≡ s.parent_hash)
    × (s.trace.block_hash ≡ s.block_hash)
    × (s.trace.gas_limit ≡ s.gas_limit)
    × (s.trace.gas_used ≡ s.gas_used)
    × (s.trace.slot ≡ s.slot_number)
    × (s.trace.value ≢ 0)

validate_trace-Describes :
    (m : BidTrace) (p : ExecutionPayload) → validate_trace m p ≡ none → Describes m p
unfolding validate_trace
validate_trace-Describes m p e = ground arith

validate_gloas-IsConsistent :
    (s : GloasBidSubmission) → validate_gloas s ≡ none → IsConsistent (full (gloas_submission s))
unfolding validate_gloas
validate_gloas-IsConsistent s e = ground arith

pub validate-IsConsistent : (s : Submission) → validate s ≡ none → IsConsistent s
unfolding validate
validate-IsConsistent (full (fulu_submission s)) e =
    validate_trace-Describes s.message s.execution_payload e
validate-IsConsistent (full (gloas_submission s)) e = validate_gloas-IsConsistent s e
validate-IsConsistent (dehydrated s) e = validate_trace-Describes s.message s.execution_payload e

abbrev pub IsAmong : ℕ → List ℕ → Type 0
IsAmong id [] = ⊥
IsAmong id (j ∷ js) = (j ≡ id) ⊎ IsAmong id js

-- The identifier is one of the builder's.
abbrev pub Names : BuilderInfo → ℕ → Type 0
Names info id =
    (info.builder_id ≡ some id) ⊎ ((ids : List ℕ) × (info.builder_ids ≡ some ids) × IsAmong id ids)

-- The proposer names no builders, or one of the builder's identifiers.
abbrev pub IsTrusted : BuilderInfo → SlotData → Type 0
IsTrusted info d =
    (d.registration_data.preferences.trusted_builders ≡ none)
    ⊎ (d.registration_data.preferences.trusted_builders ≡ some [])
    ⊎ ((ts : List ℕ) × (id : ℕ) × (d.registration_data.preferences.trusted_builders ≡ some ts)
        × IsAmong id ts
        × Names info id)

any-IsAmong :
    (p : ℕ → Bool) (js : List ℕ) → any p js ≡ true → (id : ℕ) × IsAmong id js × (p id ≡ true)
any-IsAmong p [] e = absurd (ground (arith, e))
any-IsAmong p (j ∷ js) e = elim (Bool-cases (p j)) [
  | inl here ↦ (j, inl refl, here)
  | inr later ↦
      let (id, among, holds) = any-IsAmong p js (ground (arith, e, later)) in (id, inr among, holds)
]

is_among_lem : (id : ℕ) (ts : List ℕ) → any (λ t. t == id) ts ≡ true → IsAmong id ts
is_among_lem id [] e = absurd (ground (arith, e))
is_among_lem id (t ∷ ts) e = elim (Bool-cases (t == id)) [
  | inl here ↦ inl (ground (arith, here))
  | inr later ↦ inr (is_among_lem id ts (ground (arith, e, later)))
]

list_or_nil-IsAmong :
    (o : Option (List ℕ)) (id : ℕ)
    → IsAmong id (list_or_nil o)
    → (ids : List ℕ) × (o ≡ some ids) × IsAmong id ids
list_or_nil-IsAmong none id a = absurd a
list_or_nil-IsAmong (some ids) id a = (ids, refl, a)

builder_id_list-Names :
    (info : BuilderInfo) (id : ℕ) → IsAmong id (builder_id_list info) → Names info id
unfolding builder_id_list
builder_id_list-Names info id a =
    let ids = list_or_nil info.builder_ids in
    let listed : Option ℕ → List ℕ = λ o. elim o [ none ↦ ids | some j ↦ j ∷ ids ] in
    elim (Option-cases info.builder_id) [
      | inl absent ↦
          inr
            (list_or_nil-IsAmong info.builder_ids id (subst (λ o. IsAmong id (listed o)) absent a))
      | inr (j, own) ↦ elim (subst (λ o. IsAmong id (listed o)) own a) [
        | inl same ↦ inl (own ∙ ap some same)
        | inr other ↦ inr (list_or_nil-IsAmong info.builder_ids id other)
      ]
    ]

pub check_if_trusted_builder-IsTrusted :
    (info : BuilderInfo) (d : SlotData) → check_if_trusted_builder info d ≡ none → IsTrusted info d
unfolding check_if_trusted_builder
check_if_trusted_builder-IsTrusted info d e =
    elim (Option-cases d.registration_data.preferences.trusted_builders) [
      | inl nobody ↦ inl nobody
      | inr ([], empty) ↦ inr (inl empty)
      | inr (t ∷ ts, named) ↦
          let (id, ours, theirs) =
            any-IsAmong (λ id. any (λ trusted. trusted == id) (t ∷ ts)) (builder_id_list info)
              (ground (arith, e, named)) in
          inr (
            inr (
              t ∷ ts,
              id,
              named,
              is_among_lem id (t ∷ ts) theirs,
              builder_id_list-Names info id ours,
            ))
    ]

-- A payload that is stored under the block's hash is one of the bid: of the same bid trace, or if it was
-- gossiped, of the same value and builder.
abbrev pub IsOfBid : BidTrace → PayloadEntry → Type 0
IsOfBid t (submission_entry s ns) = s.message ≡ t
IsOfBid t (gossip_entry p d) = (d.value ≡ t.value) × (d.builder_pubkey ≡ t.builder_pubkey)

abbrev pub IsKnownOrNew : Submission → Validator → Type 0
IsKnownOrNew (full (gloas_submission s)) v =
    (get_for_reveal s.trace.block_hash v.gloas_payloads ≡ none)
    ⊎ ((stored : GloasBidSubmission) × (get_for_reveal s.trace.block_hash v.gloas_payloads
          ≡ some stored)
        × (stored.trace ≡ s.trace))
IsKnownOrNew s v =
    (get ℕ_discrete (bid_trace s).block_hash v.payloads ≡ none)
    ⊎ ((stored : PayloadEntry) × (get ℕ_discrete (bid_trace s).block_hash v.payloads ≡ some stored)
        × IsOfBid (bid_trace s) stored)

bid_trace_eq_lem : (a b : BidTrace) → bid_trace_eq a b ≡ true → a ≡ b
unfolding bid_trace_eq
bid_trace_eq_lem a b e = ground arith

has_bid_trace-IsOfBid :
    (t : BidTrace) (stored : PayloadEntry) → has_bid_trace t stored ≡ true → IsOfBid t stored
unfolding has_bid_trace
has_bid_trace-IsOfBid t (submission_entry s ns) e = bid_trace_eq_lem s.message t e
has_bid_trace-IsOfBid t (gossip_entry p d) e = (ground (arith, e), ground (arith, e))

pub trace_mismatch-IsKnownOrNew :
    (s : Submission) (v : Validator) → trace_mismatch s v ≡ false → IsKnownOrNew s v
unfolding trace_mismatch bid_trace
trace_mismatch-IsKnownOrNew (full (gloas_submission s)) v e =
    elim (Option-cases (get_for_reveal s.trace.block_hash v.gloas_payloads)) [
      | inl new ↦ inl new
      | inr (stored, known) ↦
          inr (stored, known, bid_trace_eq_lem stored.trace s.trace (ground (arith, e, known)))
    ]
trace_mismatch-IsKnownOrNew (full (fulu_submission s)) v e =
    elim (Option-cases (get ℕ_discrete s.message.block_hash v.payloads)) [
      | inl new ↦ inl new
      | inr (stored, known) ↦
          inr (stored, known, has_bid_trace-IsOfBid s.message stored (ground (arith, e, known)))
    ]
trace_mismatch-IsKnownOrNew (dehydrated s) v e =
    elim (Option-cases (get ℕ_discrete s.message.block_hash v.payloads)) [
      | inl new ↦ inl new
      | inr (stored, known) ↦
          inr (stored, known, has_bid_trace-IsOfBid s.message stored (ground (arith, e, known)))
    ]

module _ (x : Externals) (chain : Chain) where
  -- A dehydrated submission is hydrated without error, with one transaction for each of its refs and a blob
  -- bundle of lengths that agree.
  abbrev pub Hydrates : Submission → Validator → Type 0
  Hydrates (full _) v = Unit
  Hydrates (dehydrated s) v =
      (d : HydratedData) × ((hydrate x s v.hydration_cache chain.max_blobs_per_block).1 ≡ ok d)
      × (length d.submission.execution_payload.transactions ≡ length s.tx_refs)
      × (validate_blobs_lengths x chain.max_blobs_per_block d.submission.blobs_bundle ≡ none)

  -- The root is the one that came with the submission, or for a dehydrated one that has none, that of its
  -- builder's cache.
  abbrev pub HasWithdrawals : SubmissionData → Submission → Validator → ℕ → Type 0
  HasWithdrawals sub (full _) v root = sub.withdrawals_root ≡ some root
  HasWithdrawals sub (dehydrated s) v root =
      (sub.withdrawals_root ≡ some root)
      ⊎ ((sub.withdrawals_root ≡ none) × (cached_withdrawals_root s v.hydration_cache ≡ some root))

  can_hydrate-Hydrates :
      (s : DehydratedBidSubmission) (v : Validator)
      → can_hydrate x s v.hydration_cache chain.max_blobs_per_block ≡ true
      → Hydrates (dehydrated s) v
  unfolding hydrate
  can_hydrate-Hydrates s v e =
      can_hydrate-hydrate x s (cache_of (builder_of s) v.hydration_cache) chain.max_blobs_per_block
        (sym (can_hydrate_of_cache x s v.hydration_cache chain.max_blobs_per_block) ∙ e)

  pub hydration_check-Hydrates :
      (sub : SubmissionData) (s : Submission) (v : Validator)
      → sub.submission ≡ s
      → (hydration_check x chain sub v).0 ≡ true
      → Hydrates s v
  unfolding hydration_check
  hydration_check-Hydrates sub (full _) v same e = tt
  hydration_check-Hydrates sub (dehydrated s) v same e =
      can_hydrate-Hydrates s v (ground (arith, e, same))

  pub hydration_check-HasWithdrawals :
      (sub : SubmissionData) (s : Submission) (v : Validator) (root : ℕ)
      → sub.submission ≡ s
      → (hydration_check x chain sub v).1 ≡ some root
      → HasWithdrawals sub s v root
  unfolding hydration_check
  hydration_check-HasWithdrawals sub (full _) v root same e = ground (arith, e, same)
  hydration_check-HasWithdrawals sub (dehydrated s) v root same e =
      elim (Option-cases sub.withdrawals_root) [
        | inl absent ↦ inr (absent, ground (arith, e, same, absent))
        | inr (r, given) ↦ inl (ground (arith, e, same, given))
      ]
