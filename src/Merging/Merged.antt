-- ===== src/Merging/Merged.antt =====
-- crates/relay/src/block_merging: a merged block that the merge builder sent, in mod.rs
-- (`merged_block_to_response`, `resolve_blobs_bundle`) and tile.rs (`handle_merged_block`). The conversions
-- of the wire's payload and requests are not modelled: the block has what they return. Contributions, revenues, the
-- trace and latencies are left out.
use helix.Base.{
  ℕ, ◌+◌, ◌-◌, Bool, true, false, not, ◌&&◌, ◌||◌, Option, none, some, List, [], ◌∷◌, ◌++◌, ◌==◌,
  ltb, any, length, map, if◌then◌else◌, ℕ_discrete,
}
use helix.Base.Map.{Map, get, insert}
use helix.Types.Payload.{
  Externals, Transaction, ExecutionPayload, BlobsBundle, validate_blobs_lengths,
}
use helix.Auctioneer.BlockMerger.{BlockMergeResponse}
use helix.Merging.Unbundling.{OrderTxs, find_unbundled_txs}
use helix.Merging.Tile.{SlotState}
use helix.Merging.Forward.{is_member, extend_set}
pub mod Blobs
pub mod Accepted

pub record BlobWithMetadata : Type 0 where
  pub commitment : List ℕ
  pub proofs : List ℕ
  pub blob : ℕ

-- Of a `BuilderInclusion` the coinbase and the transactions.
pub record MergedBlockV1 : Type 0 where
  pub slot : ℕ
  pub base_block_hash : ℕ
  pub execution_payload : Option ExecutionPayload
  pub execution_requests : Option (List ℕ)
  pub proposer_value : ℕ
  pub builder_inclusions : List (ℕ × List ℕ)
  pub unmerged_txs : List ℕ

-- `BlockMergeResponse`, with what only the tile reads.
pub record MergeResponse : Type 0 where
  pub response : BlockMergeResponse
  pub builder_inclusions : Map ℕ (List ℕ)
  pub base_payment_tx_index : ℕ
  pub unmerged_txs : List ℕ
  pub tx_builders : List (ℕ × ℕ)

-- Of other packages: the hash of a transaction, and the versioned hashes of its blobs, if it decodes.
pub record TxExternals : Type 0 where
  pub limits : Externals
  pub keccak : Transaction → ℕ
  pub blob_hashes : Transaction → Option (List ℕ)
  pub max_blobs_per_block : ℕ

-- The inclusions by their coinbase; of two with the same one the later stays.
unfoldable pub collect_inclusions : List (ℕ × List ℕ) → Map ℕ (List ℕ) → Map ℕ (List ℕ)
collect_inclusions [] m = m
collect_inclusions ((coinbase, txs) ∷ is) m =
    collect_inclusions is (insert ℕ_discrete coinbase txs m)

unfoldable pub push_sidecar : BlobWithMetadata → BlobsBundle → BlobsBundle
push_sidecar b bundle = record {
  commitments = bundle.commitments ++ b.commitment ∷ [];
  proofs = bundle.proofs ++ b.proofs;
  blobs = bundle.blobs ++ b.blob ∷ [];
}

-- The blobs of one transaction; `none` if the sidecar of one is not known.
unfoldable pub push_blobs : Map ℕ BlobWithMetadata → List ℕ → BlobsBundle → Option BlobsBundle
unfolding push_sidecar
push_blobs sidecars [] bundle = some bundle
push_blobs sidecars (h ∷ hs) bundle = elim (get ℕ_discrete h sidecars) [
  | none ↦ none
  | some b ↦ push_blobs sidecars hs (push_sidecar b bundle)
]

-- The set of the transactions of merged orders, over all builders.
unfoldable pub appended_tx_hashes : Map ℕ (List ℕ) → List ℕ
unfolding extend_set
appended_tx_hashes [] = []
appended_tx_hashes ((_, txs) ∷ m) = extend_set txs (appended_tx_hashes m)

-- The transactions of the block that are in the set, in the order of the block.
unfoldable pub only_members : List ℕ → List ℕ → List ℕ
only_members set [] = []
only_members set (h ∷ hs) =
    let rest = only_members set hs in if is_member h set then h ∷ rest else rest

-- Each of the hashes with each builder that sent the transaction.
unfoldable pub with_builders : Map ℕ (List ℕ) → List ℕ → List (ℕ × ℕ)
with_builders builders [] = []
with_builders builders (h ∷ hs) = elim (get ℕ_discrete h builders) [
  | none ↦ with_builders builders hs
  | some keys ↦ map (λ k. (h, k)) keys ++ with_builders builders hs
]

unfoldable pub all_txs : Map ℕ (List ℕ) → List ℕ
all_txs [] = []
all_txs ((_, txs) ∷ m) = txs ++ all_txs m

module _ (x : TxExternals) where
  -- The loop of `resolve_blobs_bundle` over the transactions.
  unfoldable pub resolve_txs :
      Map ℕ BlobWithMetadata → List Transaction → BlobsBundle → Option BlobsBundle
  unfolding push_blobs
  resolve_txs sidecars [] bundle = some bundle
  resolve_txs sidecars (tx ∷ txs) bundle = elim (x.blob_hashes tx) [
    | none ↦ none
    | some hashes ↦ elim (push_blobs sidecars hashes bundle) [
      | none ↦ none
      | some bundle' ↦ resolve_txs sidecars txs bundle'
    ]
  ]

  unfoldable pub resolve_blobs_bundle :
      ExecutionPayload → Map ℕ BlobWithMetadata → Option BlobsBundle
  unfolding resolve_txs
  resolve_blobs_bundle payload sidecars =
      elim (resolve_txs sidecars payload.transactions
        (record { commitments = []; proofs = []; blobs = [] })) [
          | none ↦ none
          | some bundle ↦ elim (validate_blobs_lengths x.limits x.max_blobs_per_block bundle) [
            | none ↦ some bundle
            | some _ ↦ none
          ]
        ]

  -- The conversion once the payload and its blobs are there.
  unfoldable pub build_response :
      MergedBlockV1 → ExecutionPayload → BlobsBundle → Option MergeResponse
  build_response m payload bundle =
      let inclusions = collect_inclusions m.builder_inclusions [] in
      let appended = length (appended_tx_hashes inclusions) in
      if ltb (length payload.transactions) (appended + 2) then none else elim m.execution_requests [
        | none ↦ none
        | some requests ↦ some (record {
          response = record {
            base_block_hash = m.base_block_hash;
            execution_payload = payload;
            execution_requests = requests;
            blobs_bundle = bundle;
            proposer_value = m.proposer_value;
          };
          builder_inclusions = inclusions;
          base_payment_tx_index = length payload.transactions - (appended + 2);
          unmerged_txs = m.unmerged_txs;
          tx_builders = [];
        })
      ]

  unfoldable pub merged_block_to_response :
      MergedBlockV1 → Map ℕ BlobWithMetadata → Option MergeResponse
  unfolding resolve_blobs_bundle build_response
  merged_block_to_response m sidecars = elim m.execution_payload [
    | none ↦ none
    | some payload ↦ elim (resolve_blobs_bundle payload sidecars) [
      | none ↦ none
      | some bundle ↦ build_response m payload bundle
    ]
  ]

  -- The transactions of merged orders in the block, in the order of the block.
  abbrev pub appended_txs : MergeResponse → List ℕ
  appended_txs r =
      only_members (appended_tx_hashes r.builder_inclusions)
        (map x.keccak r.response.execution_payload.transactions)

  abbrev pub is_empty_list : List ℕ → Bool
  is_empty_list [] = true
  is_empty_list (h ∷ hs) = false

  unfoldable pub check_unbundled : SlotState → MergeResponse → Option MergeResponse
  check_unbundled slot r =
      if is_empty_list (find_unbundled_txs (appended_txs r) slot.order_txs)
      then some (record r {
        tx_builders =
            with_builders slot.tx_builders (all_txs r.builder_inclusions ++ r.unmerged_txs);
      })
      else none

  unfoldable pub handle_merged_block :
      Bool → MergedBlockV1 → Map ℕ BlobWithMetadata → SlotState → Option MergeResponse
  unfolding check_unbundled
  handle_merged_block enabled m sidecars slot =
      if not enabled
        || not (m.slot == slot.bid_slot)
        || not (is_member m.base_block_hash slot.appendable)
      then none
      else elim (merged_block_to_response m sidecars) [
        | none ↦ none
        | some r ↦ check_unbundled slot r
      ]
