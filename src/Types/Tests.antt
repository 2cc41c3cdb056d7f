-- ===== src/Types/Tests.antt =====
-- crates/types/src: concrete versions and a concrete dehydrated submission, and the theorems on them.
use helix.Base.{ℕ, ◌≡◌, refl, true, false, none, some, [], ◌∷◌, arith, ℕ_discrete, length}
use helix.Base.Map.{get}
use helix.Types.SubmissionVersion.{SubmissionVersion, ge, ge_cyclic}
use helix.Types.Samples.{externals, dehydrated, cache, bytes}
use helix.Types.Payload.{validate_ssz_lengths, check_tx_lengths, validate_blobs_lengths}
use helix.Types.Hydration.{
  DehydratedBidSubmission, HydratedData, ok, can_hydrate_inner, tx_cache_key, blob_cache_key,
}
use helix.Types.Hydration.Hydrate.{hydrate_inner}
use helix.Types.Hydration.Builders.{
  HydrationCache, cache_of, can_hydrate, cached_withdrawals_root, hydrate, feed, clear, tx_count,
  blob_count,
}
use helix.Types.Hydration.Learning.{can_hydrate-stable}
use helix.Types.Hydration.Isolation.{
  KnowsTxs, KnowsBlobs, other_builder_unaffected, feed-Knows, clear-forgets,
}
use helix.Types.Hydration.Precheck.{can_hydrate-hydrate}

abbrev numbered : ℕ → ℕ → SubmissionVersion
numbered ns n = record { on_receive_ns = ns; sequence = some n }

ge_cyclic_example :
    (ge (numbered 1 2) (record { on_receive_ns = 2; sequence = none }) ≡ false)
    × (ge (record { on_receive_ns = 2; sequence = none }) (numbered 3 1) ≡ false)
    × (ge (numbered 3 1) (numbered 1 2) ≡ false)
ge_cyclic_example =
    ge_cyclic (numbered 1 2) (record { on_receive_ns = 2; sequence = none }) (numbered 3 1) 2 1 refl
      refl refl (omega arith) (omega arith) (omega arith)

can_hydrate_dehydrated : can_hydrate_inner externals dehydrated cache 6 ≡ true
unfolding can_hydrate_inner validate_ssz_lengths check_tx_lengths tx_cache_key blob_cache_key get
    ℕ_discrete
can_hydrate_dehydrated = refl

can_hydrate-hydrate_example :
    (d : HydratedData) × ((hydrate_inner externals dehydrated cache 6).1 ≡ ok d)
    × (length d.submission.execution_payload.transactions ≡ 2)
    × (validate_blobs_lengths externals 6 d.submission.blobs_bundle ≡ none)
can_hydrate-hydrate_example =
    can_hydrate-hydrate externals dehydrated cache 6 can_hydrate_dehydrated

abbrev caches : HydrationCache
caches = (8, cache) ∷ []

-- The same submission, of another builder.
abbrev foreign : DehydratedBidSubmission
foreign = record dehydrated { message = record dehydrated.message { builder_pubkey = 9 } }

can_hydrate-caches : can_hydrate externals dehydrated caches 6 ≡ true
unfolding can_hydrate can_hydrate_inner validate_ssz_lengths check_tx_lengths tx_cache_key
    blob_cache_key get ℕ_discrete
can_hydrate-caches = refl

can_hydrate-stable_example :
    (can_hydrate externals dehydrated (feed externals foreign caches) 6 ≡ true)
    × (can_hydrate externals dehydrated (hydrate externals foreign caches 6).0 6 ≡ true)
can_hydrate-stable_example =
    can_hydrate-stable externals foreign dehydrated caches 6 6 can_hydrate-caches

other_builder_unaffected_example :
    (can_hydrate externals foreign (feed externals dehydrated caches) 6
      ≡ can_hydrate externals foreign caches 6)
    × (can_hydrate externals foreign (hydrate externals dehydrated caches 6).0 6
        ≡ can_hydrate externals foreign caches 6)
    × (cached_withdrawals_root foreign (feed externals dehydrated caches)
        ≡ cached_withdrawals_root foreign caches)
    × (cached_withdrawals_root foreign (hydrate externals dehydrated caches 6).0
        ≡ cached_withdrawals_root foreign caches)
other_builder_unaffected_example =
    other_builder_unaffected externals dehydrated foreign caches 6 6 (λ e. ground arith)

feed-Knows_example :
    KnowsTxs externals (cache_of 8 (feed externals dehydrated [])).transactions (bytes 3 67 ∷ [])
    × KnowsBlobs externals
        (cache_of 8 (feed externals dehydrated [])).blobs_fulu
        dehydrated.new_items
feed-Knows_example = feed-Knows externals dehydrated []

clear-forgets_example :
    (tx_count (clear caches) ≡ 0)
    × (blob_count (clear caches) ≡ 0)
    × (can_hydrate externals dehydrated (clear caches) 6 ≡ can_hydrate externals dehydrated [] 6)
    × (cached_withdrawals_root dehydrated (clear caches) ≡ none)
clear-forgets_example = clear-forgets externals dehydrated caches 6
