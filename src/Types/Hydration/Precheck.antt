-- ===== src/Types/Hydration/Precheck.antt =====
-- crates/types/src/hydration.rs: what `can_hydrate` promises of `hydrate`. The auctioneer sorts an
-- optimistic bid before it hydrates it, and relies on this.
use helix.Base.{
  ℕ, ◌+◌, ◌*◌, ◌-◌, ◌≤◌, ◌≡◌, refl, ap, ◌∙◌, inl, inr, true, false, ◌||◌, none, [], ltb, leb, ◌==◌,
  length, all, All-map, All-of_all, arith, Bool-cases,
}
use helix.Base.Map.{Map}
use helix.Types.Payload.{Externals, BlobsBundle, validate_ssz_lengths, validate_blobs_lengths}
use helix.Types.Hydration.{
  DehydratedBidSubmission, CachedBlob, Cache, HydratedData, ok, next_full_item, tx_key_size,
  has_all_cells, contains_key, hydrate_withdrawals, can_hydrate_inner, next_full_refs,
  is_cached_blob, is_new,
}
use helix.Types.Hydration.Hydrate.{
  TxLoop, BlobLoop, tx_loop, blob_loop, sidecar_loop, empty_bundle, start_txs, hydrate_inner,
  hydrated_data,
}
use helix.Types.Hydration.TxRefs.{RefKnown, Known-of_contains, tx_loop_lem}
use helix.Types.Hydration.BlobRefs.{
  WholeBlob, Learned, BlobRef, HasBlobs, Resolvable, blob_loop-Learned, sidecar_loop_lem,
}

module _ (x : Externals) where
  -- What `can_hydrate` has checked.
  record Checked (s : DehydratedBidSubmission) (c : Cache) (max : ℕ) : Type 0 where
    txs_fit : length s.tx_refs ≤ x.max_transactions_per_payload
    blobs_fit : length s.refs ≤ max
    payload_fits : validate_ssz_lengths x s.execution_payload ≡ none
    withdrawals : (s.withdrawals_ref == 0 || contains_key s.withdrawals_ref c.withdrawals) ≡ true
    txs_long : all (λ tx. leb tx_key_size (length tx)) s.execution_payload.transactions ≡ true
    enough_txs : next_full_refs x s.tx_refs ≤ length s.execution_payload.transactions
    txs_known : all (λ r. r == next_full_item || contains_key r c.transactions) s.tx_refs ≡ true
    items_whole : all (λ b. has_all_cells x b.proof) s.new_items ≡ true
    enough_items : next_full_refs x s.refs ≤ length s.new_items
    refs_known :
        all
          (λ r. r == next_full_item || is_new x s.new_items r || is_cached_blob x c.blobs_fulu r)
          s.refs
        ≡ true

  can_hydrate-Checked :
      (s : DehydratedBidSubmission) (c : Cache) (max : ℕ)
      → can_hydrate_inner x s c max ≡ true
      → Checked s c max
  unfolding can_hydrate_inner
  can_hydrate-Checked s c max h = ground arith

  withdrawals-ok :
      (s : DehydratedBidSubmission) (c : Cache)
      → (s.withdrawals_ref == 0 || contains_key s.withdrawals_ref c.withdrawals) ≡ true
      → (hydrate_withdrawals x s c.withdrawals).2 ≡ none
  unfolding hydrate_withdrawals
  withdrawals-ok s c h = ground arith

  tx_ref-known :
      (c : Cache) (r : ℕ)
      → (r == next_full_item || contains_key r c.transactions) ≡ true
      → RefKnown c.transactions r
  tx_ref-known c r h = elim (Bool-cases (r == next_full_item)) [
    | inl full ↦ inl (ground arith)
    | inr cached ↦ inr (Known-of_contains r c.transactions (ground arith))
  ]

  blob-whole : (m : Map ℕ CachedBlob) (r : ℕ) → is_cached_blob x m r ≡ true → WholeBlob x m r
  blob-whole m r h = ground arith

  BlobRef-whole :
      (s : DehydratedBidSubmission) (m : Map ℕ CachedBlob) (t u : BlobLoop) (r : ℕ)
      → t.blobs ≡ m
      → Learned x s.new_items t u
      → (r == next_full_item || is_new x s.new_items r || is_cached_blob x m r) ≡ true
      → BlobRef x u.blobs r
  BlobRef-whole s m t u r e v h = elim (Bool-cases (r == next_full_item)) [
    | inl full ↦ inl (ground arith)
    | inr other ↦ elim (Bool-cases (is_new x s.new_items r)) [
      | inl new ↦ inr (v.kept r (inr new))
      | inr old ↦ inr (v.kept r (inl (rw e (blob-whole m r (ground arith)))))
    ]
  ]

  module _ (s : DehydratedBidSubmission) (c : Cache) (max : ℕ) where
    abbrev txs_done : TxLoop
    txs_done =
        tx_loop x 0 s.tx_refs
          (start_txs x s c.transactions (hydrate_withdrawals x s c.withdrawals).2)

    abbrev blobs_start : BlobLoop
    blobs_start = record { new_keys = []; blobs = c.blobs_fulu; last_err = txs_done.last_err }

    abbrev blobs_done : BlobLoop
    blobs_done = blob_loop x 0 s.new_items blobs_start

    txs-ok :
        Checked s c max → (txs_done.last_err ≡ none) × (length txs_done.hydrated ≡ length s.tx_refs)
    txs-ok v =
        let (e, l) = tx_loop_lem x 0 s.tx_refs _ (record {
          no_err = withdrawals-ok s c v.withdrawals;
          enough = v.enough_txs;
          long =
              All-map s.execution_payload.transactions (λ tx h. ground arith)
                (All-of_all _ s.execution_payload.transactions v.txs_long);
          known =
              All-map s.tx_refs (λ r h. tx_ref-known c r h) (All-of_all _ s.tx_refs v.txs_known);
        }) in
        (e, omega arith)

    blobs-Learned : Checked s c max → Learned x s.new_items blobs_start blobs_done
    blobs-Learned v = blob_loop-Learned x 0 s.new_items blobs_start v.items_whole

    blobs-Resolvable : Checked s c max → Resolvable x s.refs blobs_done.new_keys blobs_done.blobs
    blobs-Resolvable v =
        let l = blobs-Learned v in
        record {
          enough = omega (arith, l.keys, v.enough_items);
          whole_keys = l.whole_keys tt;
          whole_refs =
              All-map s.refs (λ r h. BlobRef-whole s c.blobs_fulu blobs_start blobs_done r refl l h)
                (All-of_all _ s.refs v.refs_known);
        }

    -- The rest of `hydrate_inner`, once no step has failed.
    hydrate-ok :
        (b : BlobsBundle) (hits : ℕ)
        → ltb x.max_transactions_per_payload (length txs_done.hydrated) ≡ false
        → ltb max (length s.refs) ≡ false
        → blobs_done.last_err ≡ none
        → sidecar_loop 0 s.refs blobs_done.new_keys blobs_done.blobs (empty_bundle, 0)
          ≡ ok (b, hits)
        → (hydrate_inner x s c max).1
          ≡ ok (
              hydrated_data x s
                (hydrate_withdrawals x s c.withdrawals).0
                txs_done
                b
                (hits - length s.new_items))
    unfolding hydrate_inner
    hydrate-ok b hits few_txs few_blobs no_err e =
        rw (few_txs, hydrate_inner, few_blobs, no_err, e) refl

    -- The hydrated submission is whole: a transaction for each ref, and a bundle of the right lengths.
    abbrev Hydrates : Type 0
    Hydrates =
        (d : HydratedData) × ((hydrate_inner x s c max).1 ≡ ok d)
        × (length d.submission.execution_payload.transactions ≡ length s.tx_refs)
        × (validate_blobs_lengths x max d.submission.blobs_bundle ≡ none)

    HasBlobs-valid :
        (n : ℕ) (b : BlobsBundle) → n ≤ max → HasBlobs x n b → validate_blobs_lengths x max b ≡ none
    unfolding validate_blobs_lengths
    HasBlobs-valid n b h v =
        ground (
          arith,
          v.commitments,
          v.proofs,
          v.blobs,
          ap (λ (k : ℕ). k * x.cells_per_ext_blob) v.blobs,
        )

    Checked-Hydrates : Checked s c max → Hydrates
    Checked-Hydrates v =
        let (no_err, l) = txs-ok v in
        let (b, hits, e, h) =
          sidecar_loop_lem x 0 s.refs blobs_done.new_keys blobs_done.blobs 0 0 empty_bundle
            (blobs-Resolvable v)
            (record { commitments = refl; proofs = omega arith; blobs = refl }) in
        (
          hydrated_data x s (hydrate_withdrawals x s c.withdrawals).0 txs_done b
              (hits - length s.new_items),
          hydrate-ok b hits (ground (arith, l, v.txs_fit)) (ground (arith, v.blobs_fit))
              ((blobs-Learned v).no_err ∙ no_err) e,
          l,
          HasBlobs-valid (0 + length s.refs) b (omega (arith, v.blobs_fit)) h,
        )

-- A submission that passes the pre-check is hydrated without error, whatever is in the builder's cache:
-- the payload has one transaction for each transaction ref, and the blob bundle passes
-- `validate_ssz_lengths`.
pub can_hydrate-hydrate :
    (x : Externals) (s : DehydratedBidSubmission) (c : Cache) (max : ℕ)
    → can_hydrate_inner x s c max ≡ true
    → (d : HydratedData) × ((hydrate_inner x s c max).1 ≡ ok d)
      × (length d.submission.execution_payload.transactions ≡ length s.tx_refs)
      × (validate_blobs_lengths x max d.submission.blobs_bundle ≡ none)
can_hydrate-hydrate x s c max h = Checked-Hydrates x s c max (can_hydrate-Checked x s c max h)
