-- ===== src/Merging/Forward/Wire.antt =====
-- `dehydrate_txs` and `order_refs`: which transactions go whole, and how many orders go along.
use helix.Base.{
  ℕ, suc, ◌≤◌, ◌≡◌, refl, false, if◌then◌else◌, inl, inr, Bool, true, List, [], ◌∷◌, count, length,
  map, All, All-map, arith, Bool-cases,
}
use helix.Types.Payload.{Transaction}
use helix.Merging.Orders.{OrderV2, OrderTxCodes, MergeOrderRef, order_refs}
use helix.Merging.Tile.{WireTx, whole, reference}
use helix.Merging.Forward.{is_member, insert_set, extend_set, dehydrate_txs}

pub insert_set-is_member :
    (h k : ℕ) (set : List ℕ) → is_member h set ≡ true → is_member h (insert_set k set) ≡ true
unfolding insert_set
insert_set-is_member h k set e = ground (arith, e)

pub insert_set_self : (h : ℕ) (set : List ℕ) → is_member h (insert_set h set) ≡ true
unfolding insert_set
insert_set_self h set = elim (Bool-cases (is_member h set)) [
  | inl old ↦ ground (arith, old)
  | inr new ↦ ground (arith, new)
]

pub extend_set-keeps :
    (h : ℕ) (hs set : List ℕ) → is_member h set ≡ true → is_member h (extend_set hs set) ≡ true
unfolding extend_set
extend_set-keeps h [] set e = e
extend_set-keeps h (k ∷ hs) set e =
    extend_set-keeps h hs (insert_set k set) (insert_set-is_member h k set e)

-- All of the hashes are in the set.
abbrev pub AreMembers : List ℕ → List ℕ → Type 0
AreMembers set hs = All (λ h. is_member h set ≡ true) hs

pub extend_set-AreMembers : (hs set : List ℕ) → AreMembers (extend_set hs set) hs
unfolding extend_set
extend_set-AreMembers [] set = tt
extend_set-AreMembers (h ∷ hs) set = (
  extend_set-keeps h hs (insert_set h set) (insert_set_self h set),
  extend_set-AreMembers hs (insert_set h set),
)

pub set-AreMembers : (set : List ℕ) → AreMembers set set
set-AreMembers [] = tt
set-AreMembers (h ∷ hs) = (ground arith, All-map hs (λ k e. ground (arith, e)) (set-AreMembers hs))

module _ (keccak : Transaction → ℕ) where
  dehydrate_txs-keeps :
      (h : ℕ) (txs : List Transaction) (set : List ℕ)
      → is_member h set ≡ true
      → is_member h (dehydrate_txs keccak txs set).1 ≡ true
  unfolding dehydrate_txs
  dehydrate_txs-keeps h [] set e = e
  dehydrate_txs-keeps h (tx ∷ txs) set e =
      dehydrate_txs-keeps h txs (insert_set (keccak tx) set)
        (insert_set-is_member h (keccak tx) set e)

  abbrev pub AllSent : List ℕ → List Transaction → Type 0
  AllSent set txs = All (λ tx. is_member (keccak tx) set ≡ true) txs

  pub dehydrate_txs-AllSent :
      (txs : List Transaction) (set : List ℕ) → AllSent (dehydrate_txs keccak txs set).1 txs
  unfolding dehydrate_txs
  dehydrate_txs-AllSent [] set = tt
  dehydrate_txs-AllSent (tx ∷ txs) set =
      let set' = insert_set (keccak tx) set in
      (
        dehydrate_txs-keeps (keccak tx) txs set' (insert_set_self (keccak tx) set),
        dehydrate_txs-AllSent txs set',
      )

  pub dehydrate_txs-reference :
      (txs : List Transaction) (set : List ℕ)
      → AllSent set txs
      → (dehydrate_txs keccak txs set).0 ≡ map (λ tx. reference (keccak tx)) txs
  unfolding dehydrate_txs
  dehydrate_txs-reference [] set a = refl
  dehydrate_txs-reference (tx ∷ txs) set a =
      let rest =
        dehydrate_txs-reference txs (insert_set (keccak tx) set)
          (All-map txs (λ t k. insert_set-is_member (keccak t) (keccak tx) set k) a.1) in
      ground (arith, a.0, rest)

  -- The hash of a transaction on the wire.
  abbrev pub wire_hash : WireTx → ℕ
  wire_hash (whole tx) = keccak tx
  wire_hash (reference h) = h

  wire_hash_lem :
      (b : Bool) (tx : Transaction)
      → wire_hash (if b then reference (keccak tx) else whole tx) ≡ keccak tx
  wire_hash_lem true tx = refl
  wire_hash_lem false tx = refl

  pub dehydrate_txs-wire_hash :
      (txs : List Transaction) (set : List ℕ)
      → map wire_hash (dehydrate_txs keccak txs set).0 ≡ map keccak txs
  unfolding dehydrate_txs
  dehydrate_txs-wire_hash [] set = refl
  dehydrate_txs-wire_hash (tx ∷ txs) set =
      rw
        (
          wire_hash_lem (is_member (keccak tx) set) tx,
          dehydrate_txs-wire_hash txs (insert_set (keccak tx) set),
        )
        refl

pub count-length : (p : ℕ → Bool) (hs : List ℕ) → count p hs ≤ length hs
count-length p [] = omega arith
count-length p (h ∷ hs) = ground (arith, count-length p hs)

pub length-map : (f : MergeOrderRef → ℕ) (rs : List MergeOrderRef) → length (map f rs) ≡ length rs
length-map f [] = refl
length-map f (r ∷ rs) = omega (arith, length-map f rs)

pub length-order_refs :
    (codes : List OrderTxCodes) (n i : ℕ) (os : List OrderV2)
    → length (order_refs codes n i os).0 ≤ length os
unfolding order_refs
length-order_refs codes n i [] = omega arith
length-order_refs codes n i (o ∷ os) = ground (arith, length-order_refs codes n (suc i) os)
