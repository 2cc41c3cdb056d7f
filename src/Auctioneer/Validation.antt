-- ===== src/Auctioneer/Validation.antt =====
-- crates/relay/src/auctioneer/validation.rs, and `check_submission_version` of
-- crates/common/src/local_cache.rs: what a submission has to satisfy before its bid is sorted.
use helix.Base.{
  ℕ, Bool, true, false, not, ◌&&◌, ◌||◌, Option, none, some, List, [], ◌∷◌, ◌⊎◌, inl, inr, ◌==◌,
  any, map, if◌then◌else◌, ℕ_discrete,
}
use helix.Base.Map.{Map, get, insert}
use helix.Types.SubmissionVersion.{SubmissionVersion, ge}
use helix.Types.Payload.{
  Externals, BidTrace, ForkName, BlockValidationError, submission_for_wrong_slot,
  fee_recipient_mismatch, proposer_public_key_mismatch, withdrawals_root_mismatch,
  prev_randao_mismatch, unknown_parent_hash, invalid_payload_type, incorrect_timestamp,
  out_of_sequence, builder_not_in_proposers_trusted_list, cannot_hydrate, bid_trace_mismatch,
  parent_hash_mismatch, block_hash_mismatch, gas_limit_mismatch, gas_used_mismatch, slot_mismatch,
  zero_value_block, Check, ◌and_then◌, ensure, validate_trace, bid_trace_eq,
}
use helix.Types.Hydration.Builders.{HydrationCache, can_hydrate, cached_withdrawals_root}
use helix.Auctioneer.BidSorter.{ForkKey, fork_key_discrete}
use helix.Auctioneer.Payloads.{PayloadStore, get_for_reveal}
use helix.Auctioneer.Slot.{
  PayloadAttributesUpdate, SlotData, SlotDuty, GloasBidSubmission, SignedBidSubmission,
  fulu_submission, gloas_submission, Submission, full, dehydrated, bid_trace, timestamp,
  prev_randao, SubmissionData, PayloadEntry, has_bid_trace, attrs_for_submission,
}
pub mod Meaning
pub mod Soundness

-- What the environment and the chain's constants say.
pub record Chain : Type 0 where
  pub is_local_dev : Bool
  pub max_blobs_per_block : ℕ
  pub fork_at_slot : ℕ → ForkName

pub record BuilderInfo : Type 0 where
  pub collateral : ℕ
  pub is_optimistic : Bool
  pub is_optimistic_for_regional_filtering : Bool
  pub builder_id : Option ℕ
  pub builder_ids : Option (List ℕ)

-- The part of the auctioneer's state that validation reads, with the versions that it changes.
pub record Validator : Type 0 where
  pub bid_slot : ℕ
  pub payloads : Map ℕ PayloadEntry
  pub gloas_payloads : PayloadStore GloasBidSubmission
  pub hydration_cache : HydrationCache
  pub submission_versions : Map ℕ (ℕ × SubmissionVersion)

-- `Result<&PayloadAttributesUpdate, BlockValidationError>`.
abbrev pub Validated : Type 0
Validated = BlockValidationError ⊎ PayloadAttributesUpdate

unfoldable pub check_submission_version :
    Map ℕ (ℕ × SubmissionVersion) → ℕ → ℕ → SubmissionVersion → Check
check_submission_version versions builder slot this = elim (get ℕ_discrete builder versions) [
  | none ↦ none
  | some (seen_slot, seen) ↦
      if seen_slot == slot && ge seen this then some (out_of_sequence seen this) else none
]

unfoldable pub fork_eq : ForkName → ForkName → Bool
fork_eq ForkName.base ForkName.base = true
fork_eq ForkName.altair ForkName.altair = true
fork_eq ForkName.bellatrix ForkName.bellatrix = true
fork_eq ForkName.capella ForkName.capella = true
fork_eq ForkName.deneb ForkName.deneb = true
fork_eq ForkName.electra ForkName.electra = true
fork_eq ForkName.fulu ForkName.fulu = true
fork_eq ForkName.gloas ForkName.gloas = true
fork_eq ForkName.heze ForkName.heze = true
fork_eq _ _ = false

unfoldable pub check_submission_fork : ForkName → ForkName → Check
check_submission_fork decoded slot_fork =
    ensure (fork_eq decoded slot_fork) (invalid_payload_type slot_fork)

abbrev pub list_or_nil : Option (List ℕ) → List ℕ
list_or_nil none = []
list_or_nil (some ids) = ids

unfoldable pub builder_id_list : BuilderInfo → List ℕ
builder_id_list info = elim info.builder_id [
  | none ↦ list_or_nil info.builder_ids
  | some id ↦ id ∷ list_or_nil info.builder_ids
]

unfoldable pub check_if_trusted_builder : BuilderInfo → SlotData → Check
check_if_trusted_builder info d = elim d.registration_data.preferences.trusted_builders [
  | none ↦ none
  | some [] ↦ none
  | some (t ∷ ts) ↦
      ensure (any (λ id. any (λ trusted. trusted == id) (t ∷ ts)) (builder_id_list info))
        (builder_not_in_proposers_trusted_list (t ∷ ts))
]

-- `GloasBidSubmission::validate`.
unfoldable pub validate_gloas : GloasBidSubmission → Check
validate_gloas s =
    let t = s.trace in
    ensure (t.parent_hash == s.parent_hash) (parent_hash_mismatch t.parent_hash s.parent_hash)
    and_then ensure (t.block_hash == s.block_hash) (block_hash_mismatch t.block_hash s.block_hash)
    and_then ensure (t.gas_limit == s.gas_limit) (gas_limit_mismatch t.gas_limit s.gas_limit)
    and_then ensure (t.gas_used == s.gas_used) (gas_used_mismatch t.gas_used s.gas_used)
    and_then ensure (t.slot == s.slot_number) (slot_mismatch s.slot_number t.slot)
    and_then ensure (not (t.value == 0)) zero_value_block

-- `Submission::validate`.
unfoldable pub validate : Submission → Check
validate (full (fulu_submission s)) = validate_trace s.message s.execution_payload
validate (full (gloas_submission s)) = validate_gloas s
validate (dehydrated s) = validate_trace s.message s.execution_payload

abbrev pub some_eq : Option ℕ → ℕ → Bool
some_eq none b = false
some_eq (some a) b = a == b

abbrev pub or_zero : Option ℕ → ℕ
or_zero none = 0
or_zero (some a) = a

unfoldable pub trace_mismatch : Submission → Validator → Bool
trace_mismatch (full (gloas_submission s)) v =
    elim (get_for_reveal s.trace.block_hash v.gloas_payloads) [
      | none ↦ false
      | some stored ↦ not (bid_trace_eq stored.trace s.trace)
    ]
trace_mismatch s v = elim (get ℕ_discrete (bid_trace s).block_hash v.payloads) [
  | none ↦ false
  | some stored ↦ not (has_bid_trace (bid_trace s) stored)
]

unfoldable pub payload_attributes : Submission → SlotData → Option PayloadAttributesUpdate
payload_attributes (full (gloas_submission s)) d =
    get fork_key_discrete
      (record { parent_hash = s.trace.parent_hash; parent_root = s.parent_block_root })
      d.payload_attributes_map
payload_attributes s d = attrs_for_submission d (bid_trace s).parent_hash (prev_randao s)

unfoldable pub known_parents : Map ForkKey PayloadAttributesUpdate → List ℕ
known_parents [] = []
known_parents ((k, a) ∷ m) = k.parent_hash ∷ known_parents m

module _ (x : Externals) (chain : Chain) where
  unfoldable pub validate_submission_data :
      Submission → ForkName → Option ℕ → SlotData → PayloadAttributesUpdate → Check
  validate_submission_data s decoded withdrawals_root d a =
      let reg = d.registration_data in
      let t = bid_trace s in
      check_submission_fork decoded d.current_fork
      and_then validate s
      and_then ensure (a.timestamp == timestamp s) (incorrect_timestamp (timestamp s) a.timestamp)
      and_then ensure (chain.is_local_dev || reg.fee_recipient == t.proposer_fee_recipient)
          (fee_recipient_mismatch t.proposer_fee_recipient reg.fee_recipient)
      and_then ensure (reg.pubkey == t.proposer_pubkey)
          (proposer_public_key_mismatch t.proposer_pubkey reg.pubkey)
      and_then ensure (prev_randao s == a.prev_randao)
          (prev_randao_mismatch (prev_randao s) a.prev_randao)
      and_then ensure (some_eq withdrawals_root a.withdrawals_root)
          (withdrawals_root_mismatch (or_zero withdrawals_root) a.withdrawals_root)

  -- The block for a dehydrated submission: whether it can be hydrated, and the withdrawals' root.
  unfoldable pub hydration_check : SubmissionData → Validator → Bool × Option ℕ
  hydration_check sub v = elim sub.submission [
    | full _ ↦ (true, sub.withdrawals_root)
    | dehydrated s ↦ (
      can_hydrate x s v.hydration_cache chain.max_blobs_per_block,
      elim sub.withdrawals_root [
        | some root ↦ some root
        | none ↦ cached_withdrawals_root s v.hydration_cache
      ],
    )
  ]

  -- From the version check on, once the attributes and the withdrawals' root are found.
  unfoldable pub validate_version :
      SubmissionData
      → BuilderInfo
      → SlotData
      → PayloadAttributesUpdate
      → Option ℕ
      → Validator
      → Validator × Validated
  validate_version sub info d a withdrawals_root v =
      let builder = (bid_trace sub.submission).builder_pubkey in
      elim (check_submission_version v.submission_versions builder v.bid_slot sub.version) [
        | some e ↦ (v, inl e)
        | none ↦ (
          record v {
            submission_versions =
                insert ℕ_discrete builder (v.bid_slot, sub.version) v.submission_versions;
          },
          elim (validate_submission_data sub.submission sub.decoded_fork withdrawals_root d a
              and_then check_if_trusted_builder info d) [ some e ↦ inl e | none ↦ inr a ],
        )
      ]

  unfoldable pub validate_submission :
      SubmissionData → BuilderInfo → SlotData → Validator → Validator × Validated
  validate_submission sub info d v =
      let t = bid_trace sub.submission in
      if not (t.slot == v.bid_slot)
      then (v, inl (submission_for_wrong_slot v.bid_slot t.slot))
      else if trace_mismatch sub.submission v
      then (v, inl (bid_trace_mismatch t.block_hash))
      else elim (payload_attributes sub.submission d) [
        | none ↦
            (v, inl (unknown_parent_hash t.parent_hash (known_parents d.payload_attributes_map)))
        | some a ↦
            let h = hydration_check sub v in
            if h.0 then validate_version sub info d a h.1 v else (v, inl cannot_hydrate)
      ]
