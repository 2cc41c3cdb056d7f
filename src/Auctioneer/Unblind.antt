-- ===== src/Auctioneer/Unblind.antt =====
-- crates/relay/src/auctioneer/get_payload.rs, `get_payload` and `unblind`: from the block that the
-- proposer signed blind to the block with its payload. The blinded block is what the code reads of it;
-- the rest is copied from the one block to the other. Its signature is verified before it comes here, in
-- crates/relay/src/api/proposer/get_payload.rs, and is not modelled.
use helix.Base.{
  ℕ, ◌≡◌, refl, Bool, true, false, not, ◌&&◌, Option, none, some, List, [], ◌∷◌, ◌⊎◌, inl, inr, leb,
  ◌==◌, length, if◌then◌else◌, arith,
}
use helix.Types.Payload.{Externals, ExecutionPayload, ForkName, check_tx_lengths}
use helix.Types.Hydration.{is_ok}
use helix.Auctioneer.Slot.{SlotData, PayloadAndBlobs}
use helix.Auctioneer.Validation.{fork_eq}

pub record ExecutionPayloadHeader : Type 0 where
  pub parent_hash : ℕ
  pub fee_recipient : ℕ
  pub state_root : ℕ
  pub receipts_root : ℕ
  pub logs_bloom : ℕ
  pub prev_randao : ℕ
  pub block_number : ℕ
  pub gas_limit : ℕ
  pub gas_used : ℕ
  pub timestamp : ℕ
  pub extra_data : List ℕ
  pub base_fee_per_gas : ℕ
  pub block_hash : ℕ
  pub transactions_root : ℕ
  pub withdrawals_root : ℕ
  pub blob_gas_used : ℕ
  pub excess_blob_gas : ℕ

pub record BlindedBlock : Type 0 where
  pub fork_name : ForkName
  pub slot : ℕ
  pub proposer_index : ℕ
  pub header : ExecutionPayloadHeader
  pub blob_kzg_commitments : List (List ℕ)

-- The block to publish, with its blobs.
pub record Unblinded : Type 0 where
  pub slot : ℕ
  pub proposer_index : ℕ
  pub payload : ExecutionPayload
  pub commitments : List (List ℕ)
  pub kzg_proofs : List ℕ
  pub blobs : List ℕ

-- The errors of the auctioneer's answers; an SSZ error is without its content.
pub data ProposerApiError : Type 0 where
  request_for_past_slot : ℕ → ℕ → ProposerApiError
  proposer_not_registered : ProposerApiError
  delivering_payload : ProposerApiError
  get_payload_already_received : ProposerApiError
  no_execution_payload_found : ProposerApiError
  unexpected_proposer_index : ℕ → ℕ → ProposerApiError
  internal_slot_mismatches_with_slot_duty : ℕ → ℕ → ProposerApiError
  invalid_blinded_block_slot : ℕ → ℕ → ProposerApiError
  unsupported_beacon_chain_version : ProposerApiError
  ssz_error : ProposerApiError
  blinded_block_and_payload_header_mismatch : ProposerApiError
  blob_kzg_commitments_mismatch : ProposerApiError
  blinded_blobs_bundle_length_mismatch : ProposerApiError

unfoldable pub bytes_eq : List ℕ → List ℕ → Bool
bytes_eq [] [] = true
bytes_eq (a ∷ as1) (b ∷ bs) = a == b && bytes_eq as1 bs
bytes_eq _ _ = false

unfoldable pub commitments_eq : List (List ℕ) → List (List ℕ) → Bool
commitments_eq [] [] = true
commitments_eq (a ∷ as1) (b ∷ bs) = bytes_eq a b && commitments_eq as1 bs
commitments_eq _ _ = false

-- The derived `PartialEq`.
unfoldable pub header_eq : ExecutionPayloadHeader → ExecutionPayloadHeader → Bool
header_eq a b =
    a.parent_hash == b.parent_hash
    && a.fee_recipient == b.fee_recipient
    && a.state_root == b.state_root
    && a.receipts_root == b.receipts_root
    && a.logs_bloom == b.logs_bloom
    && a.prev_randao == b.prev_randao
    && a.block_number == b.block_number
    && a.gas_limit == b.gas_limit
    && a.gas_used == b.gas_used
    && a.timestamp == b.timestamp
    && bytes_eq a.extra_data b.extra_data
    && a.base_fee_per_gas == b.base_fee_per_gas
    && a.block_hash == b.block_hash
    && a.transactions_root == b.transactions_root
    && a.withdrawals_root == b.withdrawals_root
    && a.blob_gas_used == b.blob_gas_used
    && a.excess_blob_gas == b.excess_blob_gas

unfoldable pub is_fulu : ForkName → Bool
is_fulu ForkName.fulu = true
is_fulu _ = false

module _ (x : Externals) where
  -- `to_header(None, None)`.
  unfoldable pub to_header : ExecutionPayload → ExecutionPayloadHeader
  to_header p = record {
    parent_hash = p.parent_hash;
    fee_recipient = p.fee_recipient;
    state_root = p.state_root;
    receipts_root = p.receipts_root;
    logs_bloom = p.logs_bloom;
    prev_randao = p.prev_randao;
    block_number = p.block_number;
    gas_limit = p.gas_limit;
    gas_used = p.gas_used;
    timestamp = p.timestamp;
    extra_data = p.extra_data;
    base_fee_per_gas = p.base_fee_per_gas;
    block_hash = p.block_hash;
    transactions_root = x.transactions_root p.transactions;
    withdrawals_root = x.withdrawals_root p.withdrawals;
    blob_gas_used = p.blob_gas_used;
    excess_blob_gas = p.excess_blob_gas;
  }

  -- Whether `to_lighthouse_fulu_header`, and `to_lighthouse_fulu_payload`, find the lists in bounds.
  abbrev pub header_fits : ExecutionPayload → Bool
  header_fits p = leb (length p.extra_data) x.max_extra_data_bytes

  abbrev pub payload_fits : ExecutionPayload → Bool
  payload_fits p =
      header_fits p
      && is_ok x (check_tx_lengths x.max_bytes_per_transaction p.transactions)
      && leb (length p.transactions) x.max_transactions_per_payload

  unfoldable pub unblind : BlindedBlock → PayloadAndBlobs → ProposerApiError ⊎ Unblinded
  unblind block local =
      let p = local.execution_payload in
      let b = local.blobs_bundle in
      if not (is_fulu block.fork_name)
      then inl unsupported_beacon_chain_version
      else if not (header_fits p)
      then inl ssz_error
      else if not (header_eq (to_header p) block.header)
      then inl blinded_block_and_payload_header_mismatch
      else if not (commitments_eq b.commitments block.blob_kzg_commitments)
      then inl blob_kzg_commitments_mismatch
      else if not (length block.blob_kzg_commitments == length b.blobs)
      then inl blinded_blobs_bundle_length_mismatch
      else if not (payload_fits p)
      then inl ssz_error
      else inr (record {
        slot = block.slot;
        proposer_index = block.proposer_index;
        payload = p;
        commitments = block.blob_kzg_commitments;
        kzg_proofs = b.proofs;
        blobs = b.blobs;
      })

  unfoldable pub validate_proposal_coordinate :
      ℕ → BlindedBlock → SlotData → Option ProposerApiError
  validate_proposal_coordinate bid_slot block d =
      let duty = d.registration_data in
      if not (duty.validator_index == block.proposer_index)
      then some (unexpected_proposer_index duty.validator_index block.proposer_index)
      else if not (bid_slot == duty.slot)
      then some (internal_slot_mismatches_with_slot_duty bid_slot duty.slot)
      else if not (duty.slot == block.slot)
      then some (invalid_blinded_block_slot duty.slot block.slot)
      else none

  -- `Context::get_payload`; `bid_slot` is the context's.
  unfoldable pub get_unblinded :
      ℕ → BlindedBlock → PayloadAndBlobs → SlotData → ProposerApiError ⊎ Unblinded
  get_unblinded bid_slot block local d = elim (validate_proposal_coordinate bid_slot block d) [
    | some e ↦ inl e
    | none ↦
        if not (fork_eq block.fork_name d.current_fork)
        then inl unsupported_beacon_chain_version
        else unblind block local
  ]

  bytes_eq_lem : (as1 bs : List ℕ) → bytes_eq as1 bs ≡ true → as1 ≡ bs
  unfolding bytes_eq
  bytes_eq_lem [] [] e = refl
  bytes_eq_lem [] (b ∷ bs) e = cc
  bytes_eq_lem (a ∷ as1) [] e = cc
  bytes_eq_lem (a ∷ as1) (b ∷ bs) e = ground (arith, bytes_eq_lem as1 bs)

  commitments_eq_lem : (as1 bs : List (List ℕ)) → commitments_eq as1 bs ≡ true → as1 ≡ bs
  unfolding commitments_eq
  commitments_eq_lem [] [] e = refl
  commitments_eq_lem [] (b ∷ bs) e = cc
  commitments_eq_lem (a ∷ as1) [] e = cc
  commitments_eq_lem (a ∷ as1) (b ∷ bs) e =
      ground (arith, bytes_eq_lem a b, commitments_eq_lem as1 bs)

  header_eq_lem : (a b : ExecutionPayloadHeader) → header_eq a b ≡ true → a ≡ b
  unfolding header_eq
  header_eq_lem a b e = ground (arith, bytes_eq_lem a.extra_data b.extra_data)

  -- A payload is given out only for a block for the auction's slot that names the slot's proposer: the
  -- header and the blob commitments of the block are those of the payload and the bundle, the bundle has a
  -- blob for each commitment, and what is published is that payload in that block.
  pub get_unblinded-Matches :
      (bid_slot : ℕ) (block : BlindedBlock) (local : PayloadAndBlobs) (d : SlotData) (u : Unblinded)
      → get_unblinded bid_slot block local d ≡ inr u
      → (block.slot ≡ bid_slot)
        × (u.slot ≡ bid_slot)
        × (u.proposer_index ≡ d.registration_data.validator_index)
        × (block.fork_name ≡ ForkName.fulu)
        × (to_header u.payload ≡ block.header)
        × (u.payload ≡ local.execution_payload)
        × (local.blobs_bundle.commitments ≡ block.blob_kzg_commitments)
        × (u.commitments ≡ block.blob_kzg_commitments)
        × (length u.commitments ≡ length u.blobs)
  unfolding get_unblinded validate_proposal_coordinate unblind is_fulu
  get_unblinded-Matches bid_slot block local d u e = ground (
    arith,
    header_eq_lem (to_header local.execution_payload) block.header,
    commitments_eq_lem local.blobs_bundle.commitments block.blob_kzg_commitments,
  )
