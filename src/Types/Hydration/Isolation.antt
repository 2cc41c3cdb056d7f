-- ===== src/Types/Hydration/Isolation.antt =====
-- crates/types/src/hydration.rs: a builder's cache is its own, holds what the builder was fed, and is
-- forgotten when it is cleared.
use helix.Base.{
  ℕ, ◌≡◌, ◌≢◌, refl, sym, ap, ◌∙◌, if_pos, if_neg, true, none, List, [], ◌∷◌, All, leb, length,
  arith, ℕ_discrete,
}
use helix.Base.Map.{Map, get, insert, get-insert_self}
use helix.Types.Payload.{Externals, Transaction}
use helix.Types.Hydration.{
  BlobItem, DehydratedBidSubmission, CachedBlob, Cache, empty_cache, contains_key, tx_key_size,
  is_cached_blob, has_all_cells, can_hydrate_inner, tx_cache_key, blob_cache_key,
}
use helix.Types.Hydration.Hydrate.{feed_txs, feed_blobs, feed_inner}
use helix.Types.Hydration.Builders.{
  HydrationCache, builder_of, cache_of, can_hydrate, cached_withdrawals_root, hydrate, feed, clear,
  tx_count, blob_count,
}
use helix.Types.Hydration.Learning.{
  cache_of-insert, can_hydrate_of_cache, feed_txs-Keeps, feed_blobs-Keeps,
}

module _ (x : Externals) where
  -- The keys of the full transactions, and of the blobs with all their cells.
  abbrev pub KnowsTxs : Map ℕ Transaction → List Transaction → Type 0
  KnowsTxs m =
      All (λ tx. leb tx_key_size (length tx) ≡ true → contains_key (tx_cache_key x tx) m ≡ true)

  abbrev pub KnowsBlobs : Map ℕ CachedBlob → List BlobItem → Type 0
  KnowsBlobs m = All (λ (b : BlobItem).
      has_all_cells x b.proof ≡ true → is_cached_blob x m (blob_cache_key x b.commitment) ≡ true)

  feed_txs-Knows :
      (txs : List Transaction) (m : Map ℕ Transaction) → KnowsTxs (feed_txs x txs m) txs
  unfolding feed_txs
  feed_txs-Knows [] m = tt
  feed_txs-Knows (tx ∷ txs) m = (
    λ full.
        feed_txs-Keeps x txs _ (tx_cache_key x tx)
          (rw full (ground (arith, get-insert_self ℕ_discrete (tx_cache_key x tx) tx m))),
    feed_txs-Knows txs _,
  )

  feed_blobs-Knows :
      (items : List BlobItem) (m : Map ℕ CachedBlob) → KnowsBlobs (feed_blobs x items m) items
  unfolding feed_blobs
  feed_blobs-Knows [] m = tt
  feed_blobs-Knows (b ∷ items) m = (
    λ full. feed_blobs-Keeps x items _ (blob_cache_key x b.commitment) (
        rw full (
          ground (
            arith,
            full,
            get-insert_self ℕ_discrete (blob_cache_key x b.commitment)
                (record { commitment = b.commitment; proofs = b.proof; blob = b.blob }) m,
          ))),
    feed_blobs-Knows items _,
  )

cache_of-insert_self :
    (k : ℕ) (c : Cache) (h : HydrationCache) → cache_of k (insert ℕ_discrete k c h) ≡ c
cache_of-insert_self k c h = cache_of-insert k k c h ∙ if_pos (ℕ_discrete k k) refl c (cache_of k h)

cache_of-insert_ne :
    (j k : ℕ) (c : Cache) (h : HydrationCache)
    → k ≢ j
    → cache_of j (insert ℕ_discrete k c h) ≡ cache_of j h
cache_of-insert_ne j k c h ne =
    cache_of-insert j k c h ∙ if_neg (ℕ_discrete k j) ne c (cache_of j h)

cache_of-clear : (k : ℕ) (h : HydrationCache) → cache_of k (clear h) ≡ empty_cache
unfolding cache_of clear get
cache_of-clear k [] = refl
cache_of-clear k ((j, c) ∷ h) = ground (arith, cache_of-clear k h)

cached_withdrawals_root_of_cache :
    (s : DehydratedBidSubmission) (h g : HydrationCache)
    → cache_of (builder_of s) h ≡ cache_of (builder_of s) g
    → cached_withdrawals_root s h ≡ cached_withdrawals_root s g
unfolding cached_withdrawals_root cache_of get
cached_withdrawals_root_of_cache s h g e = ground arith

-- Nothing that the relay learns from one builder's submission changes what another builder's
-- submission finds: the pre-check of the other and its withdrawals root stay, whether the one was fed
-- or hydrated.
pub other_builder_unaffected :
    (x : Externals) (s t : DehydratedBidSubmission) (h : HydrationCache) (max max' : ℕ)
    → builder_of s ≢ builder_of t
    → (can_hydrate x t (feed x s h) max ≡ can_hydrate x t h max)
      × (can_hydrate x t (hydrate x s h max').0 max ≡ can_hydrate x t h max)
      × (cached_withdrawals_root t (feed x s h) ≡ cached_withdrawals_root t h)
      × (cached_withdrawals_root t (hydrate x s h max').0 ≡ cached_withdrawals_root t h)
unfolding feed hydrate
other_builder_unaffected x s t h max max' ne =
    let same : (c : Cache)
        → cache_of (builder_of t) (insert ℕ_discrete (builder_of s) c h)
          ≡ cache_of (builder_of t) h =
      λ c. cache_of-insert_ne (builder_of t) (builder_of s) c h ne in
    let checks : (c : Cache)
        → can_hydrate x t (insert ℕ_discrete (builder_of s) c h) max ≡ can_hydrate x t h max =
      λ c.
        can_hydrate_of_cache x t (insert ℕ_discrete (builder_of s) c h) max
        ∙ ap (λ d. can_hydrate_inner x t d max) (same c)
        ∙ sym (can_hydrate_of_cache x t h max) in
    (
      checks _,
      checks _,
      cached_withdrawals_root_of_cache t _ h (same _),
      cached_withdrawals_root_of_cache t _ h (same _),
    )

-- After a submission is fed, its builder's cache knows the key of each of its full transactions that
-- is long enough to have one, and the key of each of its new blobs that has all its cells.
pub feed-Knows :
    (x : Externals) (s : DehydratedBidSubmission) (h : HydrationCache)
    → let c = cache_of (builder_of s) (feed x s h) in
      KnowsTxs x c.transactions s.execution_payload.transactions
      × KnowsBlobs x c.blobs_fulu s.new_items
unfolding feed feed_inner
feed-Knows x s h =
    rw (cache_of-insert_self (builder_of s) (feed_inner x s (cache_of (builder_of s) h)) h)
      (feed_txs-Knows x s.execution_payload.transactions _, feed_blobs-Knows x s.new_items _)

clear-counts : (h : HydrationCache) → (tx_count (clear h) ≡ 0) × (blob_count (clear h) ≡ 0)
unfolding tx_count blob_count clear
clear-counts [] = (refl, refl)
clear-counts ((k, c) ∷ h) = ground (arith, clear-counts h)

-- Clearing forgets what was learnt: no transactions and no blobs are left, and a submission passes the
-- pre-check exactly if it does on a cache that has never seen a builder.
pub clear-forgets :
    (x : Externals) (t : DehydratedBidSubmission) (h : HydrationCache) (max : ℕ)
    → (tx_count (clear h) ≡ 0)
      × (blob_count (clear h) ≡ 0)
      × (can_hydrate x t (clear h) max ≡ can_hydrate x t [] max)
      × (cached_withdrawals_root t (clear h) ≡ none)
unfolding can_hydrate cached_withdrawals_root cache_of get
clear-forgets x t h max = (
  (clear-counts h).0,
  (clear-counts h).1,
  can_hydrate_of_cache x t (clear h) max
      ∙ ap (λ c. can_hydrate_inner x t c max) (cache_of-clear (builder_of t) h),
  cached_withdrawals_root_of_cache t (clear h) [] (cache_of-clear (builder_of t) h) ∙ ground arith,
)
