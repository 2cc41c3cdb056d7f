-- ===== src/Types/Hydration/Learning.antt =====
-- crates/types/src/hydration.rs: what a builder's cache knows only grows, until it is cleared.
use helix.Base.{
  ℕ, suc, ◌≡◌, refl, sym, subst, ◌∙◌, inl, inr, ite, true, ◌||◌, List, [], ◌∷◌, all, ◌==◌, arith,
  ℕ_discrete, Bool-cases,
}
use helix.Base.Map.{Map, insert, get-insert}
use helix.Types.Payload.{Externals, Transaction, Withdrawal}
use helix.Types.Hydration.{
  BlobItem, DehydratedBidSubmission, CachedBlob, CachedWithdrawals, Cache, contains_key,
  next_full_item, is_cached_blob, is_new, has_all_cells, cache_withdrawals, hydrate_withdrawals,
  can_hydrate_inner, tx_cache_key, blob_cache_key, withdrawals_key,
}
use helix.Types.Hydration.Hydrate.{
  TxLoop, BlobLoop, start_txs, tx_loop, tx_round, take_full, take_cached, take_blob, blob_loop,
  hydrate_inner, feed_txs, feed_blobs, feed_inner,
}
use helix.Types.Hydration.Builders.{
  HydrationCache, builder_of, cache_of, can_hydrate, hydrate, feed,
}

-- Every key of the first map is a key of the second.
abbrev pub Keeps : {V : Type 0} → Map ℕ V → Map ℕ V → Type 0
Keeps m n = (k : ℕ) → contains_key k m ≡ true → contains_key k n ≡ true

insert-Keeps : {V : Type 0} (k : ℕ) (v : V) (m : Map ℕ V) → Keeps m (insert ℕ_discrete k v m)
insert-Keeps k v m j h = ground (arith, get-insert ℕ_discrete j k v m)

module _ (x : Externals) where
  -- Every blob with all its cells stays one.
  abbrev pub KeepsBlobs : Map ℕ CachedBlob → Map ℕ CachedBlob → Type 0
  KeepsBlobs m n = (k : ℕ) → is_cached_blob x m k ≡ true → is_cached_blob x n k ≡ true

  pub record Grows (c d : Cache) : Type 0 where
    pub transactions : Keeps c.transactions d.transactions
    pub blobs : KeepsBlobs c.blobs_fulu d.blobs_fulu
    pub withdrawals : Keeps c.withdrawals d.withdrawals

  insert-KeepsBlobs :
      (k : ℕ) (b : CachedBlob) (m : Map ℕ CachedBlob)
      → has_all_cells x b.proofs ≡ true
      → KeepsBlobs m (insert ℕ_discrete k b m)
  insert-KeepsBlobs k b m full j h = ground (arith, get-insert ℕ_discrete j k b m)

  take_full-Keeps : (i : ℕ) (s : TxLoop) → Keeps s.txs (take_full x i s).txs
  unfolding take_full
  take_full-Keeps i s k h =
      elim s.full as (λ f. contains_key k (take_full x i (record s { full = f })).txs ≡ true) [
        | [] ↦ h
        | tx ∷ rest ↦ ground (arith, insert-Keeps (tx_cache_key x tx) tx s.txs k h)
      ]

  tx_round-Keeps : (i r : ℕ) (s : TxLoop) → Keeps s.txs (tx_round x i r s).txs
  unfolding tx_round take_cached
  tx_round-Keeps i r s k h = ground (arith, take_full-Keeps i s k h)

  tx_loop-Keeps : (i : ℕ) (refs : List ℕ) (s : TxLoop) → Keeps s.txs (tx_loop x i refs s).txs
  unfolding tx_loop
  tx_loop-Keeps i [] s k h = h
  tx_loop-Keeps i (r ∷ refs) s k h =
      tx_loop-Keeps (suc i) refs (tx_round x i r s) k (tx_round-Keeps i r s k h)

  take_blob-Keeps :
      (i : ℕ) (item : BlobItem) (s : BlobLoop) → KeepsBlobs s.blobs (take_blob x i item s).blobs
  unfolding take_blob
  take_blob-Keeps i item s k h = elim (Bool-cases (has_all_cells x item.proof)) [
    | inl full ↦
        rw (full, take_blob)
          (insert-KeepsBlobs (blob_cache_key x item.commitment)
            (record { commitment = item.commitment; proofs = item.proof; blob = item.blob }) s.blobs
            full k h)
    | inr short ↦ rw (short, take_blob) h
  ]

  blob_loop-Keeps :
      (i : ℕ) (items : List BlobItem) (s : BlobLoop)
      → KeepsBlobs s.blobs (blob_loop x i items s).blobs
  unfolding blob_loop
  blob_loop-Keeps i [] s k h = h
  blob_loop-Keeps i (item ∷ items) s k h =
      blob_loop-Keeps (suc i) items (take_blob x i item s) k (take_blob-Keeps i item s k h)

  cache_withdrawals-Keeps :
      (ws : List Withdrawal) (m : Map ℕ CachedWithdrawals) → Keeps m (cache_withdrawals x ws m)
  cache_withdrawals-Keeps ws m k h = ground (
    arith,
    insert-Keeps (withdrawals_key x ws) (record { withdrawals = ws; root = x.withdrawals_root ws })
        m k,
  )

  hydrate_withdrawals-Keeps :
      (s : DehydratedBidSubmission) (m : Map ℕ CachedWithdrawals)
      → Keeps m (hydrate_withdrawals x s m).1
  unfolding hydrate_withdrawals
  hydrate_withdrawals-Keeps s m k h =
      ground (arith, cache_withdrawals-Keeps s.execution_payload.withdrawals m k h)

  pub feed_txs-Keeps : (txs : List Transaction) (m : Map ℕ Transaction) → Keeps m (feed_txs x txs m)
  unfolding feed_txs
  feed_txs-Keeps [] m k h = h
  feed_txs-Keeps (tx ∷ txs) m k h =
      feed_txs-Keeps txs _ k (ground (arith, insert-Keeps (tx_cache_key x tx) tx m k h))

  pub feed_blobs-Keeps :
      (items : List BlobItem) (m : Map ℕ CachedBlob) → KeepsBlobs m (feed_blobs x items m)
  unfolding feed_blobs
  feed_blobs-Keeps [] m k h = h
  feed_blobs-Keeps (item ∷ items) m k h = elim (Bool-cases (has_all_cells x item.proof)) [
    | inl full ↦ feed_blobs-Keeps items _ k (
        rw full (
          insert-KeepsBlobs (blob_cache_key x item.commitment)
            (record { commitment = item.commitment; proofs = item.proof; blob = item.blob }) m full
            k h))
    | inr short ↦ feed_blobs-Keeps items _ k (rw short h)
  ]

  pub feed-Grows : (s : DehydratedBidSubmission) (c : Cache) → Grows c (feed_inner x s c)
  unfolding feed_inner
  feed-Grows s c = record {
    transactions = feed_txs-Keeps s.execution_payload.transactions c.transactions;
    blobs = feed_blobs-Keeps s.new_items c.blobs_fulu;
    withdrawals = λ k h.
        ground (arith, cache_withdrawals-Keeps s.execution_payload.withdrawals c.withdrawals k h);
  }

  pub hydrate-Grows :
      (s : DehydratedBidSubmission) (c : Cache) (max : ℕ) → Grows c (hydrate_inner x s c max).0
  unfolding hydrate_inner
  hydrate-Grows s c max =
      let w = hydrate_withdrawals x s c.withdrawals in
      let t = tx_loop x 0 s.tx_refs (start_txs x s c.transactions w.2) in
      record {
        transactions =
            λ k h. ground (arith, tx_loop-Keeps 0 s.tx_refs (start_txs x s c.transactions w.2) k h);
        blobs = λ k h. ground (
          arith,
          blob_loop-Keeps 0 s.new_items
              (record { new_keys = []; blobs = c.blobs_fulu; last_err = t.last_err }) k h,
        );
        withdrawals = λ k h. ground (arith, hydrate_withdrawals-Keeps s c.withdrawals k h);
      }

  all-Keeps :
      {V : Type 0} (m n : Map ℕ V) (refs : List ℕ)
      → Keeps m n
      → all (λ r. r == next_full_item || contains_key r m) refs ≡ true
      → all (λ r. r == next_full_item || contains_key r n) refs ≡ true
  all-Keeps m n [] f h = refl
  all-Keeps m n (r ∷ refs) f h = ground (arith, f r, all-Keeps m n refs f)

  all-KeepsBlobs :
      (m n : Map ℕ CachedBlob) (items : List BlobItem) (refs : List ℕ)
      → KeepsBlobs m n
      → all (λ r. r == next_full_item || is_new x items r || is_cached_blob x m r) refs ≡ true
      → all (λ r. r == next_full_item || is_new x items r || is_cached_blob x n r) refs ≡ true
  all-KeepsBlobs m n items [] f h = refl
  all-KeepsBlobs m n items (r ∷ refs) f h = ground (arith, f r, all-KeepsBlobs m n items refs f)

  -- A submission that passes the pre-check on a cache passes it on a cache that knows more.
  Grows-can_hydrate :
      (s : DehydratedBidSubmission) (c d : Cache) (max : ℕ)
      → Grows c d
      → can_hydrate_inner x s c max ≡ true
      → can_hydrate_inner x s d max ≡ true
  unfolding can_hydrate_inner
  Grows-can_hydrate s c d max g h = ground (
    arith,
    g.withdrawals s.withdrawals_ref,
    all-Keeps c.transactions d.transactions s.tx_refs g.transactions,
    all-KeepsBlobs c.blobs_fulu d.blobs_fulu s.new_items s.refs g.blobs,
  )

pub cache_of-insert :
    (j k : ℕ) (c : Cache) (h : HydrationCache)
    → cache_of j (insert ℕ_discrete k c h) ≡ ite (ℕ_discrete k j) c (cache_of j h)
unfolding cache_of
cache_of-insert j k c h = ground (arith, get-insert ℕ_discrete j k c h)

pub can_hydrate_of_cache :
    (x : Externals) (s : DehydratedBidSubmission) (h : HydrationCache) (max : ℕ)
    → can_hydrate x s h max ≡ can_hydrate_inner x s (cache_of (builder_of s) h) max
unfolding can_hydrate cache_of
can_hydrate_of_cache x s h max = ground arith

-- Storing a cache that knows more for one builder keeps what every builder can hydrate.
insert-can_hydrate :
    (x : Externals) (t : DehydratedBidSubmission) (k : ℕ) (c : Cache) (h : HydrationCache) (max : ℕ)
    → Grows x (cache_of k h) c
    → can_hydrate x t h max ≡ true
    → can_hydrate x t (insert ℕ_discrete k c h) max ≡ true
insert-can_hydrate x t k c h max g e =
    let before : can_hydrate_inner x t (cache_of (builder_of t) h) max ≡ true =
      sym (can_hydrate_of_cache x t h max) ∙ e in
    can_hydrate_of_cache x t (insert ℕ_discrete k c h) max
    ∙ rw (cache_of-insert (builder_of t) k c h)
        (elim (ℕ_discrete k (builder_of t))
          as (λ d. can_hydrate_inner x t (ite d c (cache_of (builder_of t) h)) max ≡ true) [
            | yes same ↦
                Grows-can_hydrate x t (cache_of k h) c max g
                  (subst (λ j. can_hydrate_inner x t (cache_of j h) max ≡ true) (sym same) before)
            | no _ ↦ before
          ])

-- A submission that can be hydrated still can be after another submission was fed to the cache, and
-- after another submission was hydrated, whether or not that succeeded, whichever builders sent the
-- two.
pub can_hydrate-stable :
    (x : Externals) (s t : DehydratedBidSubmission) (h : HydrationCache) (max max' : ℕ)
    → can_hydrate x t h max ≡ true
    → (can_hydrate x t (feed x s h) max ≡ true)
      × (can_hydrate x t (hydrate x s h max').0 max ≡ true)
unfolding feed hydrate
can_hydrate-stable x s t h max max' e = (
  insert-can_hydrate x t (builder_of s) _ h max (feed-Grows x s (cache_of (builder_of s) h)) e,
  insert-can_hydrate x t (builder_of s) _ h max (hydrate-Grows x s (cache_of (builder_of s) h) max')
      e,
)
