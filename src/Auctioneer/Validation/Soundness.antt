-- ===== src/Auctioneer/Validation/Soundness.antt =====
-- validation.rs: what a submission satisfies that was validated.
use helix.Base.{
  ℕ, ◌≡◌, refl, sym, ◌∙◌, subst, ◌⊎◌, inl, inr, true, false, Option, none, some, List, [], ◌∷◌,
  arith, ℕ_discrete,
}
use helix.Base.Map.{Map, AllEntries, get, insert, get-insert_self}
use helix.Types.SubmissionVersion.{SubmissionVersion, ge, ge_refl}
use helix.Types.Payload.{Externals, out_of_sequence}
use helix.Auctioneer.BidSorter.{ForkKey}
use helix.Auctioneer.Slot.{
  PayloadAttributesUpdate, SlotData, fulu_submission, gloas_submission, full, dehydrated, bid_trace,
  timestamp, prev_randao, fork, SubmissionData,
}
use helix.Auctioneer.Validation.{
  Chain, BuilderInfo, Validator, check_submission_version, fork_eq, check_if_trusted_builder,
  validate, trace_mismatch, payload_attributes, validate_submission_data, hydration_check,
  validate_version, validate_submission,
}
use helix.Auctioneer.Validation.Meaning.{
  IsConsistent, IsTrusted, IsKnownOrNew, Hydrates, HasWithdrawals,
}

-- The payload attributes of a slot are stored under their own fork.
abbrev pub KeyedByFork : Map ForkKey PayloadAttributesUpdate → Type 0
KeyedByFork m = AllEntries (λ k a. k ≡ fork a) m

abbrev HasParent : ℕ → List PayloadAttributesUpdate → Type 0
HasParent p [] = Unit
HasParent p (a ∷ rest) = (a.parent_hash ≡ p) × HasParent p rest

-- What a validated submission satisfies, with the attributes that it builds on.
pub record IsValid (x : Externals) (chain : Chain) (sub : SubmissionData) (info : BuilderInfo)
    (d : SlotData) (v : Validator) (a : PayloadAttributesUpdate) : Type 0 where
  pub slot : (bid_trace sub.submission).slot ≡ v.bid_slot
  pub parent : a.parent_hash ≡ (bid_trace sub.submission).parent_hash
  pub time : a.timestamp ≡ timestamp sub.submission
  pub randao : prev_randao sub.submission ≡ a.prev_randao
  pub decoded : sub.decoded_fork ≡ d.current_fork
  pub consistent : IsConsistent sub.submission
  pub recipient :
      (chain.is_local_dev ≡ true)
      ⊎ (d.registration_data.fee_recipient ≡ (bid_trace sub.submission).proposer_fee_recipient)
  pub proposer : d.registration_data.pubkey ≡ (bid_trace sub.submission).proposer_pubkey
  pub withdrawals : HasWithdrawals x chain sub sub.submission v a.withdrawals_root
  pub hydrates : Hydrates x chain sub.submission v
  pub trusted : IsTrusted info d
  pub stored : IsKnownOrNew sub.submission v
  pub newer :
      (seen : SubmissionVersion)
      → get ℕ_discrete (bid_trace sub.submission).builder_pubkey v.submission_versions
        ≡ some (v.bid_slot, seen)
      → ge seen sub.version ≡ false

-- The versions after a submission got as far as the version check.
abbrev pub recorded : SubmissionData → Validator → Validator
recorded sub v = record v {
  submission_versions =
      insert ℕ_discrete (bid_trace sub.submission).builder_pubkey (v.bid_slot, sub.version)
        v.submission_versions;
}

module _ (x : Externals) (chain : Chain) (sub : SubmissionData) (info : BuilderInfo)
    (d : SlotData) where
  abbrev DataChecks : PayloadAttributesUpdate → Option ℕ → Type 0
  DataChecks a root =
      (a.timestamp ≡ timestamp sub.submission)
      × (prev_randao sub.submission ≡ a.prev_randao)
      × (fork_eq sub.decoded_fork d.current_fork ≡ true)
      × (validate sub.submission ≡ none)
      × ((chain.is_local_dev ≡ true)
          ⊎ (d.registration_data.fee_recipient ≡ (bid_trace sub.submission).proposer_fee_recipient))
      × (d.registration_data.pubkey ≡ (bid_trace sub.submission).proposer_pubkey)
      × (root ≡ some a.withdrawals_root)

  -- The branches that a validated submission took.
  pub validate_submission-eq-inr :
      (v v' : Validator) (a : PayloadAttributesUpdate)
      → validate_submission x chain sub info d v ≡ (v', inr a)
      → ((bid_trace sub.submission).slot ≡ v.bid_slot)
        × (trace_mismatch sub.submission v ≡ false)
        × (payload_attributes sub.submission d ≡ some a)
        × ((hydration_check x chain sub v).0 ≡ true)
        × (check_submission_version v.submission_versions
              (bid_trace sub.submission).builder_pubkey
              v.bid_slot
              sub.version
            ≡ none)
        × (validate_submission_data x chain sub.submission sub.decoded_fork
              (hydration_check x chain sub v).1
              d
              a
            ≡ none)
        × (check_if_trusted_builder info d ≡ none)
        × (v' ≡ recorded sub v)
  unfolding validate_submission validate_version
  validate_submission-eq-inr v v' a e = ground arith

check_submission_version-again :
    (builder slot : ℕ) (this : SubmissionVersion) (versions : Map ℕ (ℕ × SubmissionVersion))
    → check_submission_version (insert ℕ_discrete builder (slot, this) versions) builder slot this
      ≡ some (out_of_sequence this this)
unfolding check_submission_version
check_submission_version-again builder slot this versions =
    ground (arith, get-insert_self ℕ_discrete builder (slot, this) versions, ge_refl this)

trace_mismatch-recorded :
    (sub : SubmissionData) (v : Validator)
    → trace_mismatch sub.submission (recorded sub v) ≡ trace_mismatch sub.submission v
unfolding trace_mismatch
trace_mismatch-recorded sub v =
    elim sub.submission as (λ s. trace_mismatch s (recorded sub v) ≡ trace_mismatch s v) [
      | full (fulu_submission s) ↦ refl
      | full (gloas_submission s) ↦ refl
      | dehydrated s ↦ refl
    ]

validate_recorded :
    (x : Externals) (chain : Chain) (sub : SubmissionData) (info : BuilderInfo) (d : SlotData)
    (v : Validator) (a : PayloadAttributesUpdate)
    → (bid_trace sub.submission).slot ≡ v.bid_slot
    → trace_mismatch sub.submission (recorded sub v) ≡ false
    → payload_attributes sub.submission d ≡ some a
    → (hydration_check x chain sub v).0 ≡ true
    → validate_submission x chain sub info d (recorded sub v)
      ≡ (recorded sub v, inl (out_of_sequence sub.version sub.version))
unfolding validate_submission validate_version hydration_check
validate_recorded x chain sub info d v a slot stored attrs hydrates = ground (
  arith,
  check_submission_version-again (bid_trace sub.submission).builder_pubkey v.bid_slot sub.version
      v.submission_versions,
)

-- A submission that was validated is not validated again: the same submission, in the state after it,
-- is out of sequence, and changes nothing.
pub validate_submission_twice :
    (x : Externals) (chain : Chain) (sub : SubmissionData) (info : BuilderInfo) (d : SlotData)
    (v v' : Validator) (a : PayloadAttributesUpdate)
    → validate_submission x chain sub info d v ≡ (v', inr a)
    → validate_submission x chain sub info d v'
      ≡ (v', inl (out_of_sequence sub.version sub.version))
validate_submission_twice x chain sub info d v v' a e =
    let (slot, stored, attrs, hydrates, version, checks, trusted, after) =
      validate_submission-eq-inr x chain sub info d v v' a e in
    subst
      (λ w.
        validate_submission x chain sub info d w
        ≡ (w, inl (out_of_sequence sub.version sub.version)))
      (sym after)
      (validate_recorded x chain sub info d v a slot (trace_mismatch-recorded sub v ∙ stored) attrs
        hydrates)
