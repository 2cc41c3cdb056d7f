-- ===== src/Types/Hydration/Hydrate.antt =====
-- crates/types/src/hydration.rs, `hydrate_inner` and `feed_inner`: building the full submission, and
-- learning what a submission carries.
use helix.Base.{
  ℕ, suc, ◌+◌, ◌-◌, ◌&&◌, Option, none, some, List, [], ◌∷◌, ◌++◌, ltb, leb, ◌==◌, if◌then◌else◌,
  length, ℕ_discrete,
}
use helix.Base.Map.{Map, get, insert}
use helix.Types.Payload.{Externals, Transaction, Withdrawal, BlobsBundle}
use helix.Types.Hydration.{
  BlobItem, DehydratedBidSubmission, CachedBlob, Cache, HydrationError, unknown_tx_hash,
  invalid_tx_length, unknown_blob_hash_fulu, too_many_blobs, missing_full_tx, missing_new_blob,
  too_many_txs, invalid_blob_proofs, HydratedData, Result, ok, err, next_full_item, tx_key_size,
  tx_cache_key, blob_cache_key, has_all_cells, has_withdrawals, cache_withdrawals,
  hydrate_withdrawals,
}

-- What the loop over `tx_refs` changes; `full` is the iterator over the full transactions.
pub record TxLoop : Type 0 where
  pub full : List Transaction
  pub hydrated : List Transaction
  pub txs : Map ℕ Transaction
  pub hits : ℕ
  pub last_err : Option HydrationError

-- What the loop over the new blobs changes.
pub record BlobLoop : Type 0 where
  pub new_keys : List ℕ
  pub blobs : Map ℕ CachedBlob
  pub last_err : Option HydrationError

module _ (x : Externals) where
  -- A ref to the next full transaction.
  unfoldable pub take_full : ℕ → TxLoop → TxLoop
  take_full index s = elim s.full [
    | [] ↦ record s { last_err = some (missing_full_tx index) }
    | tx ∷ rest ↦
        if ltb (length tx) tx_key_size
        then record s {
          full = rest;
          hydrated = s.hydrated ++ tx ∷ [];
          last_err = some (invalid_tx_length (length tx) index);
        }
        else record s {
          full = rest;
          hydrated = s.hydrated ++ tx ∷ [];
          txs = insert ℕ_discrete (tx_cache_key x tx) tx s.txs;
        }
  ]

  -- A ref to a cached transaction.
  unfoldable pub take_cached : ℕ → ℕ → TxLoop → TxLoop
  take_cached index tx_ref s = elim (get ℕ_discrete tx_ref s.txs) [
    | some tx ↦ record s { hits = s.hits + 1; hydrated = s.hydrated ++ tx ∷ [] }
    | none ↦ record s { last_err = some (unknown_tx_hash index tx_ref) }
  ]

  unfoldable pub tx_round : ℕ → ℕ → TxLoop → TxLoop
  unfolding take_full take_cached
  tx_round index r s = if r == next_full_item then take_full index s else take_cached index r s

  unfoldable pub tx_loop : ℕ → List ℕ → TxLoop → TxLoop
  unfolding tx_round
  tx_loop index [] s = s
  tx_loop index (r ∷ refs) s = tx_loop (suc index) refs (tx_round index r s)

  unfoldable pub take_blob : ℕ → BlobItem → BlobLoop → BlobLoop
  take_blob index item s =
      let key = blob_cache_key x item.commitment in
      if has_all_cells x item.proof
      then record s {
        new_keys = s.new_keys ++ key ∷ [];
        blobs =
            insert ℕ_discrete key
              (record { commitment = item.commitment; proofs = item.proof; blob = item.blob })
              s.blobs;
      }
      else record s { last_err = some (invalid_blob_proofs index (length item.proof)) }

  unfoldable pub blob_loop : ℕ → List BlobItem → BlobLoop → BlobLoop
  blob_loop index [] s = s
  blob_loop index (item ∷ items) s = blob_loop (suc index) items (take_blob index item s)

abbrev pub push_blob : BlobsBundle → CachedBlob → BlobsBundle
push_blob b c = record {
  commitments = b.commitments ++ c.commitment ∷ [];
  proofs = b.proofs ++ c.proofs;
  blobs = b.blobs ++ c.blob ∷ [];
}

-- The cached blob that a ref stands for, and the new keys that are left.
unfoldable pub resolve_blob : ℕ → ℕ → List ℕ → Map ℕ CachedBlob → Result (CachedBlob × List ℕ)
resolve_blob index r new_keys blobs =
    if r == next_full_item
    then elim new_keys [
      | [] ↦ err (missing_new_blob index)
      | k ∷ ks ↦ elim (get ℕ_discrete k blobs) [
        | some b ↦ ok (b, ks)
        | none ↦ err (unknown_blob_hash_fulu k index)
      ]
    ]
    else elim (get ℕ_discrete r blobs) [
      | some b ↦ ok (b, new_keys)
      | none ↦ err (unknown_blob_hash_fulu r index)
    ]

-- The loop over the blob refs, with the hits counted.
unfoldable pub sidecar_loop :
    ℕ → List ℕ → List ℕ → Map ℕ CachedBlob → BlobsBundle × ℕ → Result (BlobsBundle × ℕ)
sidecar_loop index [] new_keys blobs s = ok s
sidecar_loop index (r ∷ refs) new_keys blobs (b, hits) =
    elim (resolve_blob index r new_keys blobs) [
      | err e ↦ err e
      | ok (c, ks) ↦ sidecar_loop (suc index) refs ks blobs (push_blob b c, hits + 1)
    ]

abbrev pub empty_bundle : BlobsBundle
empty_bundle = record { commitments = []; proofs = []; blobs = [] }

module _ (x : Externals) where
  abbrev pub start_txs :
      DehydratedBidSubmission → Map ℕ Transaction → Option HydrationError → TxLoop
  start_txs s txs last_err = record {
    full = s.execution_payload.transactions;
    hydrated = [];
    txs = txs;
    hits = 0;
    last_err = last_err;
  }

  abbrev pub hydrated_data :
      DehydratedBidSubmission → List Withdrawal → TxLoop → BlobsBundle → ℕ → HydratedData
  hydrated_data s ws t sidecar blob_cache_hits = record {
    submission = record {
      message = s.message;
      execution_payload = record s.execution_payload {
        transactions = t.hydrated;
        withdrawals = ws;
      };
      blobs_bundle = sidecar;
      execution_requests = s.execution_requests;
      signature = s.signature;
    };
    tx_cache_hits = t.hits;
    blob_cache_hits = blob_cache_hits;
    tx_root = s.tx_root;
  }

  -- `hydrate_inner`: what it returns, and the builder's cache after it.
  unfoldable pub hydrate_inner : DehydratedBidSubmission → Cache → ℕ → Cache × Result HydratedData
  hydrate_inner s c max_blobs_per_block =
      let (ws, withdrawals, err1) = hydrate_withdrawals x s c.withdrawals in
      let t = tx_loop x 0 s.tx_refs (start_txs s c.transactions err1) in
      let c1 = record c { transactions = t.txs; withdrawals = withdrawals } in
      if ltb x.max_transactions_per_payload (length t.hydrated)
      then (c1, err too_many_txs)
      else let b =
          blob_loop x 0 s.new_items
            (record { new_keys = []; blobs = c.blobs_fulu; last_err = t.last_err }) in
        let num_blobs = length s.refs in
        let c2 = record c1 { blobs_fulu = b.blobs } in
        let last_err =
          if ltb max_blobs_per_block num_blobs
          then some (too_many_blobs num_blobs max_blobs_per_block)
          else b.last_err in
        elim last_err [
          | some e ↦ (c2, err e)
          | none ↦ (
            c2,
            elim (sidecar_loop 0 s.refs b.new_keys b.blobs (empty_bundle, 0)) [
              | err e ↦ err e
              | ok (sidecar, hits) ↦ ok (hydrated_data s ws t sidecar (hits - length s.new_items))
            ],
          )
        ]

  unfoldable pub feed_txs : List Transaction → Map ℕ Transaction → Map ℕ Transaction
  feed_txs [] m = m
  feed_txs (tx ∷ txs) m =
      feed_txs txs
        (if leb tx_key_size (length tx) then insert ℕ_discrete (tx_cache_key x tx) tx m else m)

  unfoldable pub feed_blobs : List BlobItem → Map ℕ CachedBlob → Map ℕ CachedBlob
  feed_blobs [] m = m
  feed_blobs (item ∷ items) m = feed_blobs items (
      if has_all_cells x item.proof
      then insert ℕ_discrete (blob_cache_key x item.commitment)
          (record { commitment = item.commitment; proofs = item.proof; blob = item.blob }) m
      else m)

  unfoldable pub feed_inner : DehydratedBidSubmission → Cache → Cache
  feed_inner s c = record {
    transactions = feed_txs s.execution_payload.transactions c.transactions;
    blobs_fulu = feed_blobs s.new_items c.blobs_fulu;
    withdrawals =
        if s.withdrawals_ref == 0 && has_withdrawals x s
        then cache_withdrawals x s.execution_payload.withdrawals c.withdrawals
        else c.withdrawals;
  }
