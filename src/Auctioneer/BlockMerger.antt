-- ===== src/Auctioneer/BlockMerger.antt =====
-- crates/relay/src/auctioneer/block_merger.rs and context.rs (`handle_merge_response`): the merged blocks
-- that may be served in place of a builder's own block. What the cache and the database keep about a
-- merge for later analysis is left out.
use helix.Base.{
  ℕ, ◌-◌, ◌/◌, Bool, false, not, ◌&&◌, ◌||◌, Option, none, some, List, [], ◌∷◌, ◌==◌, leb, ltb,
  if◌then◌else◌, ℕ_discrete,
}
use helix.Base.Map.{Map, get, insert}
use helix.Types.Payload.{Externals, Transaction, ExecutionPayload, BlobsBundle}
use helix.Auctioneer.Slot.{
  PayloadEntry, PayloadAndBlobs, gossip_entry, receive_ns, value, builder_pubkey, execution_payload,
  payload_and_blobs,
}
use helix.Auctioneer.Validation.{BuilderInfo}
use helix.Auctioneer.Unblind.{bytes_eq}

-- The settings that serving reads.
pub record BlockMergingConfig : Type 0 where
  pub max_merged_bid_age_ms : ℕ
  pub max_merged_bid_age_ms_by_builder : Map ℕ ℕ
  pub serve_merged_headers_allowlist : List ℕ

pub record BestMergedBlock : Type 0 where
  pub base_block_receive_ns : ℕ
  pub max_merged_bid_age_ms : ℕ
  pub bid : PayloadEntry

-- The best blocks by the fee recipient of their base, and the set of flagged blocks.
pub record BlockMerger : Type 0 where
  pub curr_bid_slot : ℕ
  pub best_merged_blocks : Map ℕ BestMergedBlock
  pub flagged_payment_tx_only_blocks : List ℕ

-- What of the merge builder's response is stored.
pub record BlockMergeResponse : Type 0 where
  pub base_block_hash : ℕ
  pub execution_payload : ExecutionPayload
  pub execution_requests : List ℕ
  pub blobs_bundle : BlobsBundle
  pub proposer_value : ℕ

abbrev pub empty_merger : ℕ → BlockMerger
empty_merger slot = record {
  curr_bid_slot = slot;
  best_merged_blocks = [];
  flagged_payment_tx_only_blocks = [];
}

unfoldable pub reset_merger : ℕ → BlockMerger → BlockMerger
reset_merger bid_slot m = empty_merger bid_slot

unfoldable pub contains : ℕ → List ℕ → Bool
contains a [] = false
contains a (b ∷ bs) = a == b || contains a bs

-- `remove` of a set.
unfoldable pub unflag : ℕ → List ℕ → List ℕ
unflag a [] = []
unflag a (b ∷ bs) = let rest = unflag a bs in if a == b then rest else b ∷ rest

unfoldable pub max_merged_bid_age_ms_for : BlockMergingConfig → Option ℕ → ℕ
max_merged_bid_age_ms_for c none = c.max_merged_bid_age_ms
max_merged_bid_age_ms_for c (some id) =
    elim (get ℕ_discrete id c.max_merged_bid_age_ms_by_builder) [
      | none ↦ c.max_merged_bid_age_ms
      | some age ↦ age
    ]

-- The original transactions but the last are a prefix of the merged ones, and the next one differs.
unfoldable pub only_payment_tx_changed : List Transaction → List Transaction → Bool
only_payment_tx_changed [] merged = false
only_payment_tx_changed (t ∷ ts) [] = false
only_payment_tx_changed (t ∷ []) (u ∷ us) = not (bytes_eq t u)
only_payment_tx_changed (t ∷ t' ∷ ts) (u ∷ us) =
    let rest = only_payment_tx_changed (t' ∷ ts) us in bytes_eq t u && rest

unfoldable pub merged_bid_higher : PayloadEntry → PayloadEntry → ℕ → ℕ → ℕ → Bool
merged_bid_higher merged original base_ns original_ns max_age =
    let base_lag_ms = (original_ns - base_ns) / 1000000 in
    if leb (value merged) (value original) then false else not (ltb max_age base_lag_ms)

-- The last checks before a merged block is served: the switch, and the state root.
unfoldable pub serve_merged : BlockMergingConfig → Bool → PayloadEntry → Option PayloadEntry
serve_merged c enabled bid =
    if not (contains (builder_pubkey bid) c.serve_merged_headers_allowlist) && not enabled
    then none
    else if (execution_payload bid).state_root == 0
    then none
    else some bid

abbrev pub flag_block : PayloadEntry → PayloadEntry → BlockMerger → BlockMerger
flag_block merged original m =
    if only_payment_tx_changed (execution_payload original).transactions
      (execution_payload merged).transactions
    then record m {
      flagged_payment_tx_only_blocks =
          (execution_payload original).block_hash ∷ m.flagged_payment_tx_only_blocks;
    }
    else m

unfoldable pub get_merged_header :
    BlockMergingConfig → Bool → PayloadEntry → BlockMerger → Option PayloadEntry × BlockMerger
get_merged_header c enabled original m =
    elim (get ℕ_discrete (execution_payload original).fee_recipient m.best_merged_blocks) [
      | none ↦ (none, m)
      | some e ↦ elim (receive_ns original) [
        | none ↦ (none, m)
        | some ns ↦
            if not
              (merged_bid_higher e.bid original e.base_block_receive_ns ns e.max_merged_bid_age_ms)
            then (none, flag_block e.bid original m)
            else if not
                ((execution_payload e.bid).parent_hash == (execution_payload original).parent_hash)
            then (none, m)
            else (serve_merged c enabled e.bid, m)
      ]
    ]

module _ (x : Externals) (config : BlockMergingConfig) where
  abbrev pub merged_entry : BlockMergeResponse → ℕ → PayloadEntry
  merged_entry r pubkey =
      gossip_entry
        (record { execution_payload = r.execution_payload; blobs_bundle = r.blobs_bundle })
        (record {
          withdrawals_root = x.withdrawals_root r.execution_payload.withdrawals;
          tx_root = none;
          execution_requests = r.execution_requests;
          value = r.proposer_value;
          builder_pubkey = pubkey;
        })

  abbrev pub builder_id_of : ℕ → Map ℕ BuilderInfo → Option ℕ
  builder_id_of pubkey builders = elim (get ℕ_discrete pubkey builders) [
    | none ↦ none
    | some info ↦ info.builder_id
  ]

  -- `none` is `MergedPayloadNotValuable`.
  unfoldable pub prepare_merged_payload_for_storage :
      Map ℕ BuilderInfo
      → BlockMergeResponse
      → PayloadAndBlobs
      → ℕ
      → ℕ
      → ℕ
      → BlockMerger
      → Option (PayloadEntry × BlockMerger)
  prepare_merged_payload_for_storage builders r original original_value pubkey base_ns m =
      if leb r.proposer_value original_value
      then none
      else some (
        merged_entry r pubkey,
        record m {
          flagged_payment_tx_only_blocks =
              unflag original.execution_payload.block_hash m.flagged_payment_tx_only_blocks;
          best_merged_blocks =
              insert ℕ_discrete original.execution_payload.fee_recipient
                (record {
                  base_block_receive_ns = base_ns;
                  max_merged_bid_age_ms =
                      max_merged_bid_age_ms_for config (builder_id_of pubkey builders);
                  bid = merged_entry r pubkey;
                })
                m.best_merged_blocks;
        },
      )

  -- On the stored payloads and the merger.
  unfoldable pub handle_merge_response :
      Map ℕ BuilderInfo
      → BlockMergeResponse
      → Map ℕ PayloadEntry × BlockMerger
      → Map ℕ PayloadEntry × BlockMerger
  handle_merge_response builders r (payloads, m) =
      elim (get ℕ_discrete r.base_block_hash payloads) [
        | none ↦ (payloads, m)
        | some original ↦ elim (receive_ns original) [
          | none ↦ (payloads, m)
          | some base_ns ↦
              elim (prepare_merged_payload_for_storage builders r (payload_and_blobs original)
                (value original) (builder_pubkey original) base_ns m) [
                  | none ↦ (payloads, m)
                  | some (bid, m') ↦
                      (insert ℕ_discrete r.execution_payload.block_hash bid payloads, m')
                ]
        ]
      ]
