-- ===== src/Merging/Merged/Blobs.antt =====
-- `resolve_blobs_bundle`: which blobs stand in the bundle of a merged block.
use helix.Base.{
  ℕ, ◌≡◌, refl, ap, sym, ◌∙◌, inl, inr, some, List, [], ◌∷◌, ◌++◌, map, arith, Option-cases,
  ℕ_discrete,
}
use mathlib.Core.List.{append-nil, append_assoc}
use mathlib.Core.Option.{some-injective}
use helix.Base.Map.{Map, get}
use helix.Types.Payload.{Transaction, BlobsBundle}
use helix.Merging.Merged.{BlobWithMetadata, TxExternals, push_sidecar, push_blobs, resolve_txs}

-- Each hash has the sidecar at its place.
abbrev pub AreSidecars : Map ℕ BlobWithMetadata → List ℕ → List BlobWithMetadata → Type 0
AreSidecars sidecars [] [] = Unit
AreSidecars sidecars [] (b ∷ bs) = ⊥
AreSidecars sidecars (h ∷ hs) [] = ⊥
AreSidecars sidecars (h ∷ hs) (b ∷ bs) =
    (get ℕ_discrete h sidecars ≡ some b) × AreSidecars sidecars hs bs

-- The hashes are those of the blobs of the transactions, in their order.
abbrev pub AreBlobsOf : TxExternals → List Transaction → List ℕ → Type 0
AreBlobsOf x [] hs = hs ≡ []
AreBlobsOf x (tx ∷ txs) hs =
    (own : List ℕ) × (rest : List ℕ) × (x.blob_hashes tx ≡ some own)
    × (hs ≡ own ++ rest)
    × AreBlobsOf x txs rest

abbrev pub no_blobs : BlobsBundle
no_blobs = record { commitments = []; proofs = []; blobs = [] }

abbrev pub all_proofs : List BlobWithMetadata → List ℕ
all_proofs [] = []
all_proofs (b ∷ bs) = b.proofs ++ all_proofs bs

-- The bundle of the sidecars.
abbrev pub bundle_of : List BlobWithMetadata → BlobsBundle
bundle_of bs = record {
  commitments = map (λ b. b.commitment) bs;
  proofs = all_proofs bs;
  blobs = map (λ b. b.blob) bs;
}

-- The bundle is that of the sidecars of the blobs of the transactions.
abbrev pub HasBlobs : TxExternals → Map ℕ BlobWithMetadata → List Transaction → BlobsBundle → Type 0
HasBlobs x sidecars txs bundle =
    (hs : List ℕ) × (bs : List BlobWithMetadata) × AreBlobsOf x txs hs
    × AreSidecars sidecars hs bs
    × (bundle ≡ bundle_of bs)

-- One bundle after the other.
abbrev joined : BlobsBundle → BlobsBundle → BlobsBundle
joined b c = record {
  commitments = b.commitments ++ c.commitments;
  proofs = b.proofs ++ c.proofs;
  blobs = b.blobs ++ c.blobs;
}

joined_assoc : (a b c : BlobsBundle) → joined (joined a b) c ≡ joined a (joined b c)
joined_assoc a b c =
    rw
      (
        append_assoc a.commitments b.commitments c.commitments,
        append_assoc a.proofs b.proofs c.proofs,
        append_assoc a.blobs b.blobs c.blobs,
      )
      refl

joined_nil : (a : BlobsBundle) → joined a no_blobs ≡ a
joined_nil a = rw (append-nil a.commitments, append-nil a.proofs, append-nil a.blobs) refl

push_sidecar-joined :
    (b : BlobWithMetadata) (bs : List BlobWithMetadata) (bundle : BlobsBundle)
    → joined (push_sidecar b bundle) (bundle_of bs) ≡ joined bundle (bundle_of (b ∷ bs))
unfolding push_sidecar
push_sidecar-joined b bs bundle =
    rw
      (
        append_assoc bundle.commitments (b.commitment ∷ []) (map (λ c. c.commitment) bs),
        append_assoc bundle.proofs b.proofs (all_proofs bs),
        append_assoc bundle.blobs (b.blob ∷ []) (map (λ c. c.blob) bs),
      )
      refl

abbrev single : BlobWithMetadata → BlobsBundle
single b = record { commitments = b.commitment ∷ []; proofs = b.proofs; blobs = b.blob ∷ [] }

bundle_of-append :
    (as1 bs : List BlobWithMetadata) → bundle_of (as1 ++ bs) ≡ joined (bundle_of as1) (bundle_of bs)
bundle_of-append [] bs = refl
bundle_of-append (a ∷ as1) bs =
    ap (joined (single a)) (bundle_of-append as1 bs)
    ∙ sym (joined_assoc (single a) (bundle_of as1) (bundle_of bs))

AreSidecars-append :
    (sidecars : Map ℕ BlobWithMetadata) (hs js : List ℕ) (as1 bs : List BlobWithMetadata)
    → AreSidecars sidecars hs as1
    → AreSidecars sidecars js bs
    → AreSidecars sidecars (hs ++ js) (as1 ++ bs)
AreSidecars-append sidecars [] js [] bs p q = q
AreSidecars-append sidecars [] js (a ∷ as1) bs p q = absurd p
AreSidecars-append sidecars (h ∷ hs) js [] bs p q = absurd p
AreSidecars-append sidecars (h ∷ hs) js (a ∷ as1) bs p q =
    (p.0, AreSidecars-append sidecars hs js as1 bs p.1 q)

push_blobs-AreSidecars :
    (sidecars : Map ℕ BlobWithMetadata) (hs : List ℕ) (bundle out : BlobsBundle)
    → push_blobs sidecars hs bundle ≡ some out
    → (bs : List BlobWithMetadata) × AreSidecars sidecars hs bs
      × (out ≡ joined bundle (bundle_of bs))
unfolding push_blobs
push_blobs-AreSidecars sidecars [] bundle out e =
    ([], tt, some-injective out bundle (sym e) ∙ sym (joined_nil bundle))
push_blobs-AreSidecars sidecars (h ∷ hs) bundle out e =
    elim (Option-cases (get ℕ_discrete h sidecars)) [
      | inl lost ↦ absurd (ground (arith, e, lost))
      | inr (b, found) ↦
          let (bs, are, same) =
            push_blobs-AreSidecars sidecars hs (push_sidecar b bundle) out
              (ground (arith, e, found)) in
          (b ∷ bs, (found, are), same ∙ push_sidecar-joined b bs bundle)
    ]

module _ (x : TxExternals) (sidecars : Map ℕ BlobWithMetadata) where
  resolve_txs-joined :
      (txs : List Transaction) (bundle out : BlobsBundle)
      → resolve_txs x sidecars txs bundle ≡ some out
      → (hs : List ℕ) × (bs : List BlobWithMetadata) × AreBlobsOf x txs hs
        × AreSidecars sidecars hs bs
        × (out ≡ joined bundle (bundle_of bs))
  unfolding resolve_txs
  resolve_txs-joined [] bundle out e =
      ([], [], refl, tt, some-injective out bundle (sym e) ∙ sym (joined_nil bundle))
  resolve_txs-joined (tx ∷ txs) bundle out e = elim (Option-cases (x.blob_hashes tx)) [
    | inl bad ↦ absurd (ground (arith, e, bad))
    | inr (own, named) ↦ elim (Option-cases (push_blobs sidecars own bundle)) [
      | inl lost ↦ absurd (ground (arith, e, named, lost))
      | inr (bundle', pushed) ↦
          let (as1, first, grown) = push_blobs-AreSidecars sidecars own bundle bundle' pushed in
          let (rest, bs, names, are, same) =
            resolve_txs-joined txs bundle' out (ground (arith, e, named, pushed)) in
          (
            own ++ rest,
            as1 ++ bs,
            (own, rest, named, refl, names),
            AreSidecars-append sidecars own rest as1 bs first are,
            same
                ∙ ap (λ b. joined b (bundle_of bs)) grown
                ∙ joined_assoc bundle (bundle_of as1) (bundle_of bs)
                ∙ ap (joined bundle) (sym (bundle_of-append as1 bs)),
          )
    ]
  ]

  pub resolve_txs-HasBlobs :
      (txs : List Transaction) (out : BlobsBundle)
      → resolve_txs x sidecars txs no_blobs ≡ some out
      → HasBlobs x sidecars txs out
  resolve_txs-HasBlobs txs out e = resolve_txs-joined txs no_blobs out e
