-- ===== src/Types/Hydration/BlobRefs.antt =====
-- crates/types/src/hydration.rs, `hydrate_inner`: the loops over the new blobs and the blobs' refs.
use helix.Base.{
  ℕ, suc, ◌+◌, ◌*◌, ◌≤◌, ◌≡◌, refl, subst, ◌⊎◌, inl, inr, true, false, some, List, [], ◌∷◌, ◌++◌,
  ◌==◌, length, all, All, All-map, All-append, length-append, arith, ℕ_discrete, Bool-cases,
}
use native.Mathlib.Nat.{add-zero}
use helix.Base.Map.{Map, get, insert, get-insert}
use helix.Types.Payload.{Externals, BlobsBundle}
use helix.Types.Hydration.{
  BlobItem, CachedBlob, ok, next_full_item, blob_cache_key, has_all_cells, next_full_refs, is_new,
}
use helix.Types.Hydration.Hydrate.{
  BlobLoop, take_blob, blob_loop, push_blob, resolve_blob, sidecar_loop,
}
use helix.Types.Hydration.TxRefs.{next_full_refs-full, next_full_refs-cached}

module _ (x : Externals) where
  -- The entry is in the map, and has the proofs of a whole blob.
  abbrev pub WholeBlob : Map ℕ CachedBlob → ℕ → Type 0
  WholeBlob m k =
      (c : CachedBlob) × (get ℕ_discrete k m ≡ some c) × (length c.proofs ≡ x.cells_per_ext_blob)

  WholeBlob-insert :
      (j k : ℕ) (c : CachedBlob) (m : Map ℕ CachedBlob)
      → length c.proofs ≡ x.cells_per_ext_blob
      → (k ≡ j) ⊎ WholeBlob m j
      → WholeBlob (insert ℕ_discrete k c m) j
  WholeBlob-insert j k c m l (inl e) = (c, ground (arith, get-insert ℕ_discrete j k c m), l)
  WholeBlob-insert j k c m l (inr (d, g, l')) = elim (ℕ_discrete k j) [
    | yes p ↦ (c, ground (arith, get-insert ℕ_discrete j k c m), l)
    | no n ↦ (d, ground (arith, get-insert ℕ_discrete j k c m), l')
  ]

  -- What the loop over the new blobs leaves: no error, a key for each, and every blob of before or of
  -- the new ones whole.
  pub record Learned (items : List BlobItem) (s t : BlobLoop) : Type 0 where
    pub no_err : t.last_err ≡ s.last_err
    pub keys : length t.new_keys ≡ length s.new_keys + length items
    pub whole_keys : All (WholeBlob s.blobs) s.new_keys → All (WholeBlob t.blobs) t.new_keys
    pub kept : (k : ℕ) → WholeBlob s.blobs k ⊎ (is_new x items k ≡ true) → WholeBlob t.blobs k

  Learned-nil : (s : BlobLoop) → Learned [] s s
  Learned-nil s = record {
    no_err = refl;
    keys = omega arith;
    whole_keys = λ a. a;
    kept = λ k w. old k w;
  }
    where
      old : (k : ℕ) → WholeBlob s.blobs k ⊎ (is_new x [] k ≡ true) → WholeBlob s.blobs k
      old k (inl w) = w
      old k (inr e) = cc

  -- The map after one new blob, which is whole.
  learned_blobs : BlobItem → Map ℕ CachedBlob → Map ℕ CachedBlob
  learned_blobs item m =
      insert ℕ_discrete (blob_cache_key x item.commitment)
        (record { commitment = item.commitment; proofs = item.proof; blob = item.blob }) m

  learned_blobs-WholeBlob :
      (item : BlobItem) (m : Map ℕ CachedBlob) (k : ℕ)
      → has_all_cells x item.proof ≡ true
      → (blob_cache_key x item.commitment ≡ k) ⊎ WholeBlob m k
      → WholeBlob (learned_blobs item m) k
  unfolding learned_blobs
  learned_blobs-WholeBlob item m k h w =
      WholeBlob-insert k (blob_cache_key x item.commitment) _ m (ground arith) w

  take_blob-whole :
      (index : ℕ) (item : BlobItem) (s : BlobLoop)
      → has_all_cells x item.proof ≡ true
      → take_blob x index item s ≡ record s {
        new_keys = s.new_keys ++ blob_cache_key x item.commitment ∷ [];
        blobs = learned_blobs item s.blobs;
      }
  unfolding take_blob learned_blobs
  take_blob-whole index item s h = rw h refl

  Learned-cons :
      (item : BlobItem) (items : List BlobItem) (s t : BlobLoop)
      → has_all_cells x item.proof ≡ true
      → Learned items
          (record s {
            new_keys = s.new_keys ++ blob_cache_key x item.commitment ∷ [];
            blobs = learned_blobs item s.blobs;
          })
          t
      → Learned (item ∷ items) s t
  Learned-cons item items s t h v = record {
    no_err = v.no_err;
    keys = omega (arith, v.keys, length-append s.new_keys (blob_cache_key x item.commitment ∷ []));
    whole_keys = λ a. v.whole_keys (
        All-append (WholeBlob (learned_blobs item s.blobs)) s.new_keys _
          (All-map s.new_keys (λ k w. learned_blobs-WholeBlob item s.blobs k h (inr w)) a)
          (learned_blobs-WholeBlob item s.blobs _ h (inl refl), tt));
    kept = λ k w. v.kept k (shift k w);
  }
    where
      shift :
          (k : ℕ)
          → WholeBlob s.blobs k ⊎ (is_new x (item ∷ items) k ≡ true)
          → WholeBlob (learned_blobs item s.blobs) k ⊎ (is_new x items k ≡ true)
      shift k (inl w) = inl (learned_blobs-WholeBlob item s.blobs k h (inr w))
      shift k (inr e) = elim (Bool-cases (blob_cache_key x item.commitment == k)) [
        | inl this ↦ inl (learned_blobs-WholeBlob item s.blobs k h (inl (ground arith)))
        | inr other ↦ inr (ground arith)
      ]

  pub blob_loop-Learned :
      (index : ℕ) (items : List BlobItem) (s : BlobLoop)
      → all (λ b. has_all_cells x b.proof) items ≡ true
      → Learned items s (blob_loop x index items s)
  unfolding blob_loop
  blob_loop-Learned index [] s h = Learned-nil s
  blob_loop-Learned index (item ∷ items) s h =
      let whole : has_all_cells x item.proof ≡ true = ground arith in
      let rest : all (λ b. has_all_cells x b.proof) items ≡ true = ground arith in
      let t = blob_loop x (suc index) items (take_blob x index item s) in
      Learned-cons item items s t whole (
        subst (λ (u : BlobLoop). Learned items u t) (take_blob-whole index item s whole)
          (blob_loop-Learned (suc index) items (take_blob x index item s) rest))

  -- A ref that the sidecar's loop can resolve.
  abbrev pub BlobRef : Map ℕ CachedBlob → ℕ → Type 0
  BlobRef m r = (r ≡ next_full_item) ⊎ WholeBlob m r

  -- The lengths that `validate_ssz_lengths` asks of a bundle of `n` blobs.
  pub record HasBlobs (n : ℕ) (b : BlobsBundle) : Type 0 where
    pub commitments : length b.commitments ≡ n
    pub proofs : length b.proofs ≡ n * x.cells_per_ext_blob
    pub blobs : length b.blobs ≡ n

  push_blob-HasBlobs :
      (n : ℕ) (b : BlobsBundle) (c : CachedBlob)
      → length c.proofs ≡ x.cells_per_ext_blob
      → HasBlobs n b
      → HasBlobs (suc n) (push_blob b c)
  push_blob-HasBlobs n b c l v = record {
    commitments = omega (arith, v.commitments, length-append b.commitments (c.commitment ∷ []));
    proofs = omega (arith, v.proofs, length-append b.proofs c.proofs);
    blobs = omega (arith, v.blobs, length-append b.blobs (c.blob ∷ []));
  }

  -- Before a round of the sidecar's loop: a key for each ref to a new blob, and every blob whole.
  pub record Resolvable (refs keys : List ℕ) (m : Map ℕ CachedBlob) : Type 0 where
    pub enough : next_full_refs x refs ≤ length keys
    pub whole_keys : All (WholeBlob m) keys
    pub whole_refs : All (BlobRef m) refs

  abbrev pub Resolves : ℕ → ℕ → List ℕ → List ℕ → Map ℕ CachedBlob → Type 0
  Resolves index r refs keys m =
      (c : CachedBlob) × (ks : List ℕ) × (resolve_blob index r keys m ≡ ok (c, ks))
      × (length c.proofs ≡ x.cells_per_ext_blob)
      × Resolvable refs ks m

  resolve_new :
      (index r : ℕ) (refs keys : List ℕ) (m : Map ℕ CachedBlob)
      → (r == next_full_item) ≡ true
      → Resolvable (r ∷ refs) keys m
      → Resolves index r refs keys m
  unfolding resolve_blob
  resolve_new index r refs [] m z v =
      absurd (omega (arith, next_full_refs-full x r refs z, v.enough))
  resolve_new index r refs (k ∷ ks) m z v =
      let (c, g, l) = v.whole_keys.0 in
      (
        c,
        ks,
        rw (z, g) refl,
        l,
        record {
          enough = omega (arith, next_full_refs-full x r refs z, v.enough);
          whole_keys = v.whole_keys.1;
          whole_refs = v.whole_refs.1;
        },
      )

  resolve_cached :
      (index r : ℕ) (refs keys : List ℕ) (m : Map ℕ CachedBlob)
      → (r == next_full_item) ≡ false
      → BlobRef m r
      → Resolvable (r ∷ refs) keys m
      → Resolves index r refs keys m
  unfolding resolve_blob
  resolve_cached index r refs keys m z (inl full) v = absurd (ground arith)
  resolve_cached index r refs keys m z (inr (c, g, l)) v = (
    c,
    keys,
    rw (z, g) refl,
    l,
    record {
      enough = omega (arith, next_full_refs-cached x r refs z, v.enough);
      whole_keys = v.whole_keys;
      whole_refs = v.whole_refs.1;
    },
  )

  resolve_blob_lem :
      (index r : ℕ) (refs keys : List ℕ) (m : Map ℕ CachedBlob)
      → Resolvable (r ∷ refs) keys m
      → Resolves index r refs keys m
  resolve_blob_lem index r refs keys m v = elim (Bool-cases (r == next_full_item)) [
    | inl full ↦ resolve_new index r refs keys m full v
    | inr cached ↦ resolve_cached index r refs keys m cached v.whole_refs.0 v
  ]

  pub sidecar_loop_lem :
      (index : ℕ) (refs keys : List ℕ) (m : Map ℕ CachedBlob) (n hits : ℕ) (b : BlobsBundle)
      → Resolvable refs keys m
      → HasBlobs n b
      → (b' : BlobsBundle) × (hits' : ℕ) × (sidecar_loop index refs keys m (b, hits)
          ≡ ok (b', hits'))
        × HasBlobs (n + length refs) b'
  unfolding sidecar_loop
  sidecar_loop_lem index [] keys m n hits b v h = (b, hits, refl, rw add-zero h)
  sidecar_loop_lem index (r ∷ refs) keys m n hits b v h =
      let (c, ks, e, l, w) = resolve_blob_lem index r refs keys m v in
      let (b', hits', f, g) =
        sidecar_loop_lem (suc index) refs ks m (suc n) (hits + 1) (push_blob b c) w
          (push_blob-HasBlobs n b c l h) in
      (b', hits', rw (e, sidecar_loop) f, subst (λ (k : ℕ). HasBlobs k b') (omega arith) g)
