-- ===== src/Merging/Unbundling/Segments.antt =====
-- `is_satisfied` and `find_unbundled_txs`: what it means for the merged block that nothing is unbundled.
use helix.Base.{
  ℕ, zero, suc, ◌+◌, ◌≤◌, ◌<◌, ◌≡◌, refl, sym, subst, ◌∙◌, ◌⊎◌, inl, inr, Bool, true, false, ◌&&◌,
  Option, none, some, List, [], ◌∷◌, ◌==◌, any, length, drop, arith, Option-cases, Bool-cases,
  ℕ_discrete,
}
use helix.Base.Map.{Map, get, insert, get-insert}
use helix.Merging.Unbundling.{
  OrderTxs, is_satisfied, satisfied_from, positions_from, positions_of, find_unbundled_txs,
}
use helix.Merging.Unbundling.Flags.{touches}
use helix.Merging.Unbundling.Reference.{
  is_bundled, is_covered, taken_apart, find_unbundled_txs-taken_apart,
}

abbrev pub IsIn : {A : Type 0} → A → List A → Type 0
IsIn x [] = ⊥
IsIn x (y ∷ ys) = (x ≡ y) ⊎ IsIn x ys

-- The second list begins with the first.
abbrev pub Starts : List ℕ → List ℕ → Type 0
Starts [] xs = Unit
Starts (p ∷ ps) [] = ⊥
Starts (p ∷ ps) (x ∷ xs) = (p ≡ x) × Starts ps xs

-- The hashes of an order that the block has.
abbrev pub present : Map ℕ ℕ → List ℕ → List ℕ
present positions [] = []
present positions (h ∷ hs) = elim (get ℕ_discrete h positions) [
  | some _ ↦ h ∷ present positions hs
  | none ↦ present positions hs
]

-- The hash of the index has a position, or may be dropped.
abbrev pub MayBeAbsent : List ℕ → ℕ → Option ℕ → Type 0
MayBeAbsent droppable i (some pos) = Unit
MayBeAbsent droppable i none = any (λ j. j == i) droppable ≡ true

-- Every hash from the index on that the block does not have may be dropped.
abbrev pub MayMiss : Map ℕ ℕ → List ℕ → ℕ → List ℕ → Type 0
MayMiss positions droppable i [] = Unit
MayMiss positions droppable i (h ∷ hs) =
    MayBeAbsent droppable i (get ℕ_discrete h positions) × MayMiss positions droppable (suc i) hs

-- The block has the order in one piece, in its own order, without those that may be dropped.
abbrev pub IsHonoured : List ℕ → OrderTxs → Type 0
IsHonoured final_txs o =
    let positions = positions_of final_txs in
    ((i : ℕ) × Starts (present positions o.hashes) (drop i final_txs))
    × MayMiss positions o.droppable 0 o.hashes

drop-suc : (i : ℕ) (xs : List ℕ) (y : ℕ) (ys : List ℕ) → drop i xs ≡ y ∷ ys → drop (suc i) xs ≡ ys
drop-suc zero [] y ys e = cc
drop-suc (suc i) [] y ys e = cc
drop-suc zero (x ∷ xs) y ys e = cc
drop-suc (suc i) (x ∷ xs) y ys e = drop-suc i xs y ys e

module _ (full : List ℕ) where
  abbrev Points : Map ℕ ℕ → Type 0
  Points m = (h j : ℕ) → get ℕ_discrete h m ≡ some j → drop j full ≡ h ∷ drop (suc j) full

  positions_from-Points :
      (i : ℕ) (hs : List ℕ) (m : Map ℕ ℕ)
      → drop i full ≡ hs
      → Points m
      → Points (positions_from i hs m)
  unfolding positions_from
  positions_from-Points i [] m e k = k
  positions_from-Points i (t ∷ ts) m e k =
      let next = drop-suc i full t ts e in
      positions_from-Points (suc i) ts (insert ℕ_discrete t i m) next (λ h j found.
        elim (ℕ_discrete t h) [
          | yes same ↦
              let here : j ≡ i = ground (arith, found, same, get-insert ℕ_discrete h t i m) in
              rw here (rw next (rw (sym same) e))
          | no other ↦ k h j (ground (arith, found, other, get-insert ℕ_discrete h t i m))
        ])

  positions_of-Points : Points (positions_of full)
  unfolding get
  positions_of-Points = positions_from-Points 0 full [] refl (λ h j e. cc)

  satisfied_from-Starts :
      (droppable : List ℕ) (i p : ℕ) (hs : List ℕ)
      → satisfied_from droppable (positions_of full) i (some p) hs ≡ true
      → Starts (present (positions_of full) hs) (drop (suc p) full)
  unfolding satisfied_from
  satisfied_from-Starts droppable i p [] e = tt
  satisfied_from-Starts droppable i p (h ∷ hs) e =
      elim (Option-cases (get ℕ_discrete h (positions_of full))) [
        | inl absent ↦
            rw (absent, Starts)
              (satisfied_from-Starts droppable (suc i) p hs (ground (arith, e, absent)))
        | inr (q, found) ↦
            let adjacent : q ≡ suc p = ground (arith, e, found) in
            let line : drop (suc p) full ≡ h ∷ drop (suc q) full =
              subst (λ n. drop n full ≡ h ∷ drop (suc q) full) adjacent
                (positions_of-Points h q found) in
            rw (found, line, Starts)
              (refl, satisfied_from-Starts droppable (suc i) q hs (ground (arith, e, found)))
      ]

  satisfied_from-MayMiss :
      (droppable : List ℕ) (i : ℕ) (prev : Option ℕ) (hs : List ℕ)
      → satisfied_from droppable (positions_of full) i prev hs ≡ true
      → MayMiss (positions_of full) droppable i hs
  unfolding satisfied_from
  satisfied_from-MayMiss droppable i prev [] e = tt
  satisfied_from-MayMiss droppable i prev (h ∷ hs) e =
      elim (Option-cases (get ℕ_discrete h (positions_of full))) [
        | inl absent ↦ rw absent (
          ground (arith, e, absent),
          satisfied_from-MayMiss droppable (suc i) prev hs (ground (arith, e, absent)),
        )
        | inr (q, found) ↦
            rw found
              (tt, satisfied_from-MayMiss droppable (suc i) (some q) hs (ground (arith, e, found)))
      ]

  satisfied_first-Starts :
      (droppable : List ℕ) (i : ℕ) (hs : List ℕ)
      → satisfied_from droppable (positions_of full) i none hs ≡ true
      → (n : ℕ) × Starts (present (positions_of full) hs) (drop n full)
  unfolding satisfied_from
  satisfied_first-Starts droppable i [] e = (0, tt)
  satisfied_first-Starts droppable i (h ∷ hs) e =
      elim (Option-cases (get ℕ_discrete h (positions_of full))) [
        | inl absent ↦
            rw (absent, Starts)
              (satisfied_first-Starts droppable (suc i) hs (ground (arith, e, absent)))
        | inr (q, found) ↦
            rw (found, Starts)
              (
                q,
                rw (positions_of-Points h q found)
                    (refl, satisfied_from-Starts droppable (suc i) q hs (ground (arith, e, found))),
              )
      ]

  is_satisfied-IsHonoured :
      (o : OrderTxs) → is_satisfied o (positions_of full) ≡ true → IsHonoured full o
  unfolding is_satisfied
  is_satisfied-IsHonoured o e = (
    satisfied_first-Starts o.droppable 0 o.hashes e,
    satisfied_from-MayMiss o.droppable 0 none o.hashes e,
  )

any-IsIn :
    {A : Type 0} (p : A → Bool) (xs : List A) → any p xs ≡ true → (x : A) × IsIn x xs × (p x ≡ true)
any-IsIn p [] e = cc
any-IsIn p (x ∷ xs) e = elim (Bool-cases (p x)) [
  | inl here ↦ (x, inl refl, here)
  | inr miss ↦ let (y, at, hit) = any-IsIn p xs (ground (arith, e, miss)) in (y, inr at, hit)
]

taken_apart-nil :
    (positions : Map ℕ ℕ) (orders : List OrderTxs) (i : ℕ) (hs : List ℕ) (j : ℕ)
    → taken_apart positions orders i hs ≡ []
    → i ≤ j
    → j < i + length hs
    → is_bundled positions orders j ≡ true
    → is_covered positions orders j ≡ true
taken_apart-nil positions orders i [] j e lo hi b = absurd (omega arith)
taken_apart-nil positions orders i (h ∷ hs) j e lo hi b = elim (ℕ_discrete i j) [
  | yes same ↦ elim (Bool-cases (is_covered positions orders j)) [
    | inl covered ↦ covered
    | inr not_covered ↦
        let b' : is_bundled positions orders i ≡ true = rw same b in
        let c' : is_covered positions orders i ≡ false = rw same not_covered in
        absurd (ground (arith, e, b', c'))
  ]
  | no other ↦
      taken_apart-nil positions orders (suc i) hs j (ground (arith, e)) (omega arith) (omega arith)
        b
]

-- If no transaction of a block is found unbundled, then each of its transactions that some order names
-- belongs to an order that was honoured: the block has that order's transactions in one piece and in their
-- order, and of those only such are missing that the order allows to drop.
pub find_unbundled_txs-IsHonoured :
    (final_txs : List ℕ) (orders : List OrderTxs) (i : ℕ)
    → find_unbundled_txs final_txs orders ≡ []
    → i < length final_txs
    → is_bundled (positions_of final_txs) orders i ≡ true
    → (o : OrderTxs) × IsIn o orders
      × (touches (positions_of final_txs) i o.hashes ≡ true)
      × IsHonoured final_txs o
find_unbundled_txs-IsHonoured final_txs orders i clean inside bundled =
    let positions = positions_of final_txs in
    let covered =
      taken_apart-nil positions orders 0 final_txs i
        (sym (find_unbundled_txs-taken_apart final_txs orders) ∙ clean) (omega arith) (omega arith)
        bundled in
    let (o, at, hit) =
      any-IsIn (λ (o : OrderTxs). is_satisfied o positions && touches positions i o.hashes) orders
        covered in
    (o, at, ground (arith, hit), is_satisfied-IsHonoured final_txs o (ground (arith, hit)))
