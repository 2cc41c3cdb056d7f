-- ===== src/Types/Payload.antt =====
-- crates/types/src/bid_submission.rs, execution_payload.rs and blobs.rs: a bid and the block behind it.
-- Byte strings whose content the code reads are lists of bytes; a list behind SSZ (execution requests,
-- the signature) is its bytes.
use helix.Base.{
  ℕ, ◌*◌, Bool, true, false, not, ◌&&◌, Option, none, some, List, [], ◌∷◌, leb, ◌==◌, length,
}
use helix.Types.SubmissionVersion.{SubmissionVersion}

pub record BidTrace : Type 0 where
  pub slot : ℕ
  pub parent_hash : ℕ
  pub block_hash : ℕ
  pub builder_pubkey : ℕ
  pub proposer_pubkey : ℕ
  pub proposer_fee_recipient : ℕ
  pub gas_limit : ℕ
  pub gas_used : ℕ
  pub value : ℕ

-- The derived `PartialEq`.
unfoldable pub bid_trace_eq : BidTrace → BidTrace → Bool
bid_trace_eq a b =
    a.slot == b.slot
    && a.parent_hash == b.parent_hash
    && a.block_hash == b.block_hash
    && a.builder_pubkey == b.builder_pubkey
    && a.proposer_pubkey == b.proposer_pubkey
    && a.proposer_fee_recipient == b.proposer_fee_recipient
    && a.gas_limit == b.gas_limit
    && a.gas_used == b.gas_used
    && a.value == b.value

pub record Withdrawal : Type 0 where
  pub index : ℕ
  pub validator_index : ℕ
  pub address : List ℕ
  pub amount : ℕ

abbrev pub Transaction : Type 0
Transaction = List ℕ

pub record ExecutionPayload : Type 0 where
  pub parent_hash : ℕ
  pub fee_recipient : ℕ
  pub state_root : ℕ
  pub receipts_root : ℕ
  pub logs_bloom : ℕ
  pub prev_randao : ℕ
  pub block_number : ℕ
  pub gas_limit : ℕ
  pub gas_used : ℕ
  pub timestamp : ℕ
  pub extra_data : List ℕ
  pub base_fee_per_gas : ℕ
  pub block_hash : ℕ
  pub transactions : List Transaction
  pub withdrawals : List Withdrawal
  pub blob_gas_used : ℕ
  pub excess_blob_gas : ℕ

pub record BlobsBundle : Type 0 where
  pub commitments : List (List ℕ)
  pub proofs : List ℕ
  pub blobs : List ℕ

pub record SignedBidSubmissionFulu : Type 0 where
  pub message : BidTrace
  pub execution_payload : ExecutionPayload
  pub blobs_bundle : BlobsBundle
  pub execution_requests : List ℕ
  pub signature : List ℕ

-- What the code takes from other packages: the limits of `MainnetEthSpec`, the number of proofs of a
-- blob (`CELLS_PER_EXT_BLOB`), `FxHasher` and the tree hash roots of a list of withdrawals and of a list
-- of transactions, which the code computes itself over the tree hash library.
pub record Externals : Type 0 where
  pub max_extra_data_bytes : ℕ
  pub max_bytes_per_transaction : ℕ
  pub max_transactions_per_payload : ℕ
  pub cells_per_ext_blob : ℕ
  pub hasher_default : ℕ
  pub hasher_write_u64 : ℕ → ℕ → ℕ
  pub hasher_write : ℕ → List ℕ → ℕ
  pub hasher_finish : ℕ → ℕ
  pub withdrawals_root : List Withdrawal → ℕ
  pub transactions_root : List Transaction → ℕ

-- Of the consensus client's types.
pub data ForkName : Type 0 where
  base altair bellatrix capella deneb electra fulu gloas heze : ForkName

pub data BlockValidationError : Type 0 where
  submission_for_wrong_slot : ℕ → ℕ → BlockValidationError
  fee_recipient_mismatch : ℕ → ℕ → BlockValidationError
  proposer_public_key_mismatch : ℕ → ℕ → BlockValidationError
  slot_mismatch : ℕ → ℕ → BlockValidationError
  block_hash_mismatch : ℕ → ℕ → BlockValidationError
  parent_hash_mismatch : ℕ → ℕ → BlockValidationError
  gas_limit_mismatch : ℕ → ℕ → BlockValidationError
  gas_used_mismatch : ℕ → ℕ → BlockValidationError
  withdrawals_root_mismatch : ℕ → ℕ → BlockValidationError
  transactions_root_mismatch : ℕ → ℕ → BlockValidationError
  prev_randao_mismatch : ℕ → ℕ → BlockValidationError
  unknown_parent_hash : ℕ → List ℕ → BlockValidationError
  invalid_payload_type : ForkName → BlockValidationError
  incorrect_timestamp : ℕ → ℕ → BlockValidationError
  already_processing_newer_payload : BlockValidationError
  out_of_sequence : SubmissionVersion → SubmissionVersion → BlockValidationError
  zero_value_block : BlockValidationError
  builder_not_in_proposers_trusted_list : List ℕ → BlockValidationError
  cannot_hydrate : BlockValidationError
  bid_trace_mismatch : ℕ → BlockValidationError
  ssz_error : ℕ → ℕ → BlockValidationError
  blobs_bundle_mismatch : ℕ → ℕ → ℕ → BlockValidationError
  blobs_bundle_too_large : ℕ → ℕ → BlockValidationError

-- `Result<(), BlockValidationError>`: `none` is `Ok(())`.
abbrev pub Check : Type 0
Check = Option BlockValidationError

-- `check?; rest`.
infixr 5 ◌and_then◌
abbrev pub ◌and_then◌ : Check → Check → Check
none and_then k = k
some e and_then k = some e

abbrev pub ensure : Bool → BlockValidationError → Check
ensure true e = none
ensure false e = some e

-- The loop over the transactions in `validate_ssz_lengths`.
unfoldable pub check_tx_lengths : ℕ → List Transaction → Check
check_tx_lengths limit [] = none
check_tx_lengths limit (tx ∷ txs) =
    ensure (leb (length tx) limit) (ssz_error (length tx) limit) and_then check_tx_lengths limit txs

-- `ExecutionPayload::validate_ssz_lengths`.
unfoldable pub validate_ssz_lengths : Externals → ExecutionPayload → Check
unfolding check_tx_lengths
validate_ssz_lengths x p =
    ensure (leb (length p.extra_data) x.max_extra_data_bytes)
      (ssz_error (length p.extra_data) x.max_extra_data_bytes)
    and_then check_tx_lengths x.max_bytes_per_transaction p.transactions
    and_then ensure (leb (length p.transactions) x.max_transactions_per_payload)
        (ssz_error (length p.transactions) x.max_transactions_per_payload)

-- `BlobsBundle::validate_ssz_lengths`.
unfoldable pub validate_blobs_lengths : Externals → ℕ → BlobsBundle → Check
validate_blobs_lengths x max b =
    ensure
      (length b.commitments == length b.blobs
        && length b.proofs == length b.blobs * x.cells_per_ext_blob)
      (blobs_bundle_mismatch (length b.proofs) (length b.commitments) (length b.blobs))
    and_then ensure (leb (length b.commitments) max)
        (blobs_bundle_too_large (length b.commitments) max)

-- `SignedBidSubmissionFulu::validate_payload_ssz_lengths`.
unfoldable pub validate_payload_ssz_lengths : Externals → ℕ → SignedBidSubmissionFulu → Check
unfolding validate_ssz_lengths validate_blobs_lengths
validate_payload_ssz_lengths x max s =
    validate_ssz_lengths x s.execution_payload and_then validate_blobs_lengths x max s.blobs_bundle

-- `validate` of `SignedBidSubmissionFulu` and of a dehydrated submission: the bid trace says of the
-- payload what the payload says of itself, and the bid is worth something.
unfoldable pub validate_trace : BidTrace → ExecutionPayload → Check
validate_trace m p =
    ensure (m.parent_hash == p.parent_hash) (parent_hash_mismatch m.parent_hash p.parent_hash)
    and_then ensure (m.block_hash == p.block_hash) (block_hash_mismatch m.block_hash p.block_hash)
    and_then ensure (m.gas_limit == p.gas_limit) (gas_limit_mismatch m.gas_limit p.gas_limit)
    and_then ensure (m.gas_used == p.gas_used) (gas_used_mismatch m.gas_used p.gas_used)
    and_then ensure (not (m.value == 0)) zero_value_block
