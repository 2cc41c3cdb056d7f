-- ===== src/Types/Hydration/Builders.antt =====
-- crates/types/src/hydration.rs, `HydrationCache`: one cache for each builder.
use helix.Base.{ℕ, Bool, Option, none, some, [], ◌∷◌, length, if◌then◌else◌, ◌==◌, ◌+◌, ℕ_discrete}
use helix.Base.Map.{Map, get, insert}
use helix.Types.Payload.{Externals}
use helix.Types.Hydration.{
  DehydratedBidSubmission, Cache, empty_cache, HydratedData, Result, can_hydrate_inner,
}
use helix.Types.Hydration.Hydrate.{hydrate_inner, feed_inner}

abbrev pub HydrationCache : Type 0
HydrationCache = Map ℕ Cache

abbrev pub builder_of : DehydratedBidSubmission → ℕ
builder_of s = s.message.builder_pubkey

-- The builder's cache, an empty one if there is none: `entry(pubkey).or_default()`.
unfoldable pub cache_of : ℕ → HydrationCache → Cache
cache_of pubkey h = elim (get ℕ_discrete pubkey h) [ some c ↦ c | none ↦ empty_cache ]

-- `cached_withdrawals_root`.
unfoldable pub cached_withdrawals_root : DehydratedBidSubmission → HydrationCache → Option ℕ
cached_withdrawals_root s h =
    if s.withdrawals_ref == 0 then none else elim (get ℕ_discrete (builder_of s) h) [
      | none ↦ none
      | some c ↦ elim (get ℕ_discrete s.withdrawals_ref c.withdrawals) [
        | none ↦ none
        | some w ↦ some w.root
      ]
    ]

-- `values_mut` with `Cache::clear`: the builders stay, and their caches are emptied.
unfoldable pub clear : HydrationCache → HydrationCache
clear [] = []
clear ((k, c) ∷ h) = (k, empty_cache) ∷ clear h

abbrev pub builder_count : HydrationCache → ℕ
builder_count h = length h

unfoldable pub tx_count : HydrationCache → ℕ
tx_count [] = 0
tx_count ((k, c) ∷ h) = length c.transactions + tx_count h

unfoldable pub blob_count : HydrationCache → ℕ
blob_count [] = 0
blob_count ((k, c) ∷ h) = length c.blobs_fulu + blob_count h

module _ (x : Externals) where
  unfoldable pub can_hydrate : DehydratedBidSubmission → HydrationCache → ℕ → Bool
  can_hydrate s h max_blobs_per_block = elim (get ℕ_discrete (builder_of s) h) [
    | some c ↦ can_hydrate_inner x s c max_blobs_per_block
    | none ↦ can_hydrate_inner x s empty_cache max_blobs_per_block
  ]

  unfoldable pub hydrate :
      DehydratedBidSubmission → HydrationCache → ℕ → HydrationCache × Result HydratedData
  hydrate s h max_blobs_per_block =
      let (c, r) = hydrate_inner x s (cache_of (builder_of s) h) max_blobs_per_block in
      (insert ℕ_discrete (builder_of s) c h, r)

  unfoldable pub feed : DehydratedBidSubmission → HydrationCache → HydrationCache
  feed s h = insert ℕ_discrete (builder_of s) (feed_inner x s (cache_of (builder_of s) h)) h
