-- ===== src/Merging/Merged/Accepted.antt =====
-- `handle_merged_block`: what holds of a merged block that goes on to the auctioneer.
use helix.Base.{
  ℕ, suc, ◌+◌, ◌≤◌, ◌≡◌, refl, ◌⊎◌, inl, inr, Bool, true, false, not, ◌||◌, none, some, List, [],
  ◌∷◌, ◌++◌, ◌==◌, length, ltb, subst, ◌-◌, arith, Option-cases, Bool-cases,
}
use helix.Base.Map.{Map}
use helix.Types.Payload.{ExecutionPayload, BlobsBundle, validate_blobs_lengths}
use helix.Merging.Unbundling.{OrderTxs, positions_of, find_unbundled_txs}
use helix.Merging.Unbundling.Flags.{touches}
use helix.Merging.Unbundling.Reference.{is_bundled}
use helix.Merging.Unbundling.Segments.{IsIn, IsHonoured, find_unbundled_txs-IsHonoured}
use helix.Merging.Tile.{SlotState}
use helix.Merging.Forward.{is_member}
use helix.Merging.Merged.{
  resolve_txs, with_builders, all_txs, BlobWithMetadata, MergedBlockV1, MergeResponse, TxExternals,
  collect_inclusions, appended_tx_hashes, resolve_blobs_bundle, build_response,
  merged_block_to_response, appended_txs, is_empty_list, check_unbundled, handle_merged_block,
}
use helix.Merging.Merged.Blobs.{HasBlobs, no_blobs, resolve_txs-HasBlobs}

module _ (x : TxExternals) where
  -- The transaction at the position is named by no forwarded order, or belongs to one that was honoured.
  abbrev pub IsExplained : SlotState → List ℕ → ℕ → Type 0
  IsExplained slot txs i =
      (is_bundled (positions_of txs) slot.order_txs i ≡ false)
      ⊎ (o : OrderTxs) × IsIn o slot.order_txs
        × (touches (positions_of txs) i o.hashes ≡ true)
        × IsHonoured txs o

  abbrev pub ExplainedFrom : SlotState → List ℕ → ℕ → List ℕ → Type 0
  ExplainedFrom slot txs i [] = Unit
  ExplainedFrom slot txs i (h ∷ hs) = IsExplained slot txs i × ExplainedFrom slot txs (suc i) hs

  -- All the appended transactions of the block are.
  abbrev pub IsAtomic : SlotState → MergeResponse → Type 0
  IsAtomic slot r = ExplainedFrom slot (appended_txs x r) 0 (appended_txs x r)

  find_unbundled_txs-ExplainedFrom :
      (slot : SlotState) (txs : List ℕ) (i : ℕ) (hs : List ℕ)
      → find_unbundled_txs txs slot.order_txs ≡ []
      → i + length hs ≤ length txs
      → ExplainedFrom slot txs i hs
  find_unbundled_txs-ExplainedFrom slot txs i [] clean inside = tt
  find_unbundled_txs-ExplainedFrom slot txs i (h ∷ hs) clean inside = (
    elim (Bool-cases (is_bundled (positions_of txs) slot.order_txs i)) [
      | inl bundled ↦
          inr (find_unbundled_txs-IsHonoured txs slot.order_txs i clean (omega arith) bundled)
      | inr free ↦ inl free
    ],
    find_unbundled_txs-ExplainedFrom slot txs (suc i) hs clean (omega arith),
  )

  is_empty_list-nil : (hs : List ℕ) → is_empty_list x hs ≡ true → hs ≡ []
  is_empty_list-nil [] e = refl
  is_empty_list-nil (h ∷ hs) e = absurd (ground arith)

  -- Blobs and payment transaction of the block are in place.
  abbrev pub IsComplete : Map ℕ BlobWithMetadata → MergeResponse → Type 0
  IsComplete sidecars r =
      HasBlobs x sidecars r.response.execution_payload.transactions r.response.blobs_bundle
      × (validate_blobs_lengths x.limits x.max_blobs_per_block r.response.blobs_bundle ≡ none)
      × (r.base_payment_tx_index + length (appended_tx_hashes r.builder_inclusions) + 2
          ≡ length r.response.execution_payload.transactions)

  -- A bundle with the blobs of the payload, of lengths that agree.
  abbrev IsResolved : Map ℕ BlobWithMetadata → ExecutionPayload → BlobsBundle → Type 0
  IsResolved sidecars payload bundle =
      HasBlobs x sidecars payload.transactions bundle
      × (validate_blobs_lengths x.limits x.max_blobs_per_block bundle ≡ none)

  resolve_blobs_bundle-IsResolved :
      (payload : ExecutionPayload) (sidecars : Map ℕ BlobWithMetadata) (bundle : BlobsBundle)
      → resolve_blobs_bundle x payload sidecars ≡ some bundle
      → IsResolved sidecars payload bundle
  unfolding resolve_blobs_bundle
  resolve_blobs_bundle-IsResolved payload sidecars bundle e =
      elim (Option-cases (resolve_txs x sidecars payload.transactions no_blobs)) [
        | inl lost ↦ absurd (ground (arith, e, lost))
        | inr (found, resolved) ↦
            elim (Option-cases (validate_blobs_lengths x.limits x.max_blobs_per_block found)) [
              | inl valid ↦
                  let same : found ≡ bundle = ground (arith, e, resolved, valid) in
                  subst (IsResolved sidecars payload) same
                    (resolve_txs-HasBlobs x sidecars payload.transactions found resolved, valid)
              | inr (bad, invalid) ↦ absurd (ground (arith, e, resolved, invalid))
            ]
      ]

  build_response-IsComplete :
      (sidecars : Map ℕ BlobWithMetadata) (m : MergedBlockV1) (payload : ExecutionPayload)
      (bundle : BlobsBundle) (r : MergeResponse)
      → IsResolved sidecars payload bundle
      → build_response x m payload bundle ≡ some r
      → IsComplete sidecars r × (r.response.base_block_hash ≡ m.base_block_hash)
  unfolding build_response
  build_response-IsComplete sidecars m payload bundle r valid e =
      elim (Option-cases m.execution_requests) [
        | inl missing ↦ absurd (ground (arith, e, missing))
        | inr (requests, found) ↦
            elim (Bool-cases (
              ltb (length payload.transactions)
                (length (appended_tx_hashes (collect_inclusions m.builder_inclusions [])) + 2))) [
                  | inl short ↦ absurd (ground (arith, e, short))
                  | inr long ↦
                      let same : built requests ≡ r = ground (arith, e, found, long) in
                      subst
                        (λ (b : MergeResponse).
                          IsComplete sidecars b × (b.response.base_block_hash ≡ m.base_block_hash))
                        same ((valid.0, valid.1, ground (arith, long)), refl)
                ]
      ]
    where
      built : List ℕ → MergeResponse
      built requests = record {
        response = record {
          base_block_hash = m.base_block_hash;
          execution_payload = payload;
          execution_requests = requests;
          blobs_bundle = bundle;
          proposer_value = m.proposer_value;
        };
        builder_inclusions = collect_inclusions m.builder_inclusions [];
        base_payment_tx_index =
            length payload.transactions
            - (length (appended_tx_hashes (collect_inclusions m.builder_inclusions [])) + 2);
        unmerged_txs = m.unmerged_txs;
        tx_builders = [];
      }

  merged_block_to_response-IsComplete :
      (m : MergedBlockV1) (sidecars : Map ℕ BlobWithMetadata) (r : MergeResponse)
      → merged_block_to_response x m sidecars ≡ some r
      → IsComplete sidecars r × (r.response.base_block_hash ≡ m.base_block_hash)
  unfolding merged_block_to_response
  merged_block_to_response-IsComplete m sidecars r e = elim (Option-cases m.execution_payload) [
    | inl missing ↦ absurd (ground (arith, e, missing))
    | inr (payload, found) ↦ elim (Option-cases (resolve_blobs_bundle x payload sidecars)) [
      | inl lost ↦ absurd (ground (arith, e, found, lost))
      | inr (bundle, resolved) ↦
          build_response-IsComplete sidecars m payload bundle r
            (resolve_blobs_bundle-IsResolved payload sidecars bundle resolved)
            (ground (arith, e, found, resolved))
    ]
  ]

  check_unbundled-IsAtomic :
      (slot : SlotState) (r r' : MergeResponse)
      → check_unbundled x slot r ≡ some r'
      → (b : List (ℕ × ℕ)) × (record r { tx_builders = b } ≡ r') × IsAtomic slot r
  unfolding check_unbundled
  check_unbundled-IsAtomic slot r r' e =
      elim (Bool-cases (is_empty_list x (find_unbundled_txs (appended_txs x r) slot.order_txs))) [
        | inl clean ↦
            let txs = appended_txs x r in
            let nothing = is_empty_list-nil (find_unbundled_txs txs slot.order_txs) clean in
            (
              with_builders slot.tx_builders (all_txs r.builder_inclusions ++ r.unmerged_txs),
              ground (arith, e, clean),
              find_unbundled_txs-ExplainedFrom slot txs 0 txs nothing (omega arith),
            )
        | inr torn ↦ absurd (ground (arith, e, torn))
      ]

  -- A merged block goes on only if merging is enabled, and it is for the tile's slot and for a base block that
  -- the tile forwarded for it. Then its bundle has a blob, a commitment and the proofs from the tile's
  -- sidecars for each blob that its transactions name, in their order, and no others, in the right number and
  -- not too many; its base payment stands before the appended transactions and the last one, and it took
  -- no order apart: an appended transaction that a forwarded order names belongs to an order that the block
  -- has in one piece, without those transactions that the order allows to drop.
  pub handle_merged_block-IsAccepted :
      (enabled : Bool) (m : MergedBlockV1) (sidecars : Map ℕ BlobWithMetadata) (slot : SlotState)
      (r : MergeResponse)
      → handle_merged_block x enabled m sidecars slot ≡ some r
      → (enabled ≡ true)
        × (m.slot ≡ slot.bid_slot)
        × (is_member m.base_block_hash slot.appendable ≡ true)
        × ((r.response.base_block_hash ≡ m.base_block_hash)
            × IsComplete sidecars r
            × IsAtomic slot r)
  unfolding handle_merged_block
  handle_merged_block-IsAccepted enabled m sidecars slot r e =
      elim (Bool-cases (
        not enabled
        || not (m.slot == slot.bid_slot)
        || not (is_member m.base_block_hash slot.appendable))) [
          | inl refused ↦ absurd (ground (arith, e, refused))
          | inr ready ↦ elim (Option-cases (merged_block_to_response x m sidecars)) [
            | inl lost ↦ absurd (ground (arith, e, ready, lost))
            | inr (r0, found) ↦
                let (complete, base) = merged_block_to_response-IsComplete m sidecars r0 found in
                let (b, same, atomic) =
                  check_unbundled-IsAtomic slot r0 r (ground (arith, e, ready, found)) in
                (
                  ground (arith, ready),
                  ground (arith, ready),
                  ground (arith, ready),
                  subst
                      (λ (r' : MergeResponse).
                        (r'.response.base_block_hash ≡ m.base_block_hash)
                        × IsComplete sidecars r'
                        × IsAtomic slot r')
                      same (base, complete, atomic),
                )
          ]
        ]
