-- ===== src/Merging/Unbundling/Flags.antt =====
-- `find_unbundled_txs`: what the two vectors of flags say after the loop over the orders.
use helix.Base.{
  ℕ, zero, suc, ◌<◌, ◌≡◌, refl, inl, inr, Bool, true, false, ◌&&◌, ◌||◌, Option, none, some, List,
  [], ◌∷◌, ◌==◌, any, length, arith, Option-cases, ℕ_discrete,
}
use helix.Base.Map.{Map, get}
use helix.Merging.Unbundling.{OrderTxs, is_satisfied, set_or, flag_at, Marks, mark, mark_all}

abbrev pub stands_at : ℕ → Option ℕ → Bool
stands_at i none = false
stands_at i (some pos) = pos == i

-- Whether one of the hashes stands at the position.
abbrev pub touches : Map ℕ ℕ → ℕ → List ℕ → Bool
touches positions i hashes = any (λ h. stands_at i (get ℕ_discrete h positions)) hashes

length-set_or : (pos : ℕ) (v : Bool) (bs : List Bool) → length (set_or pos v bs) ≡ length bs
unfolding set_or
length-set_or pos v [] = refl
length-set_or zero v (b ∷ bs) = refl
length-set_or (suc pos) v (b ∷ bs) = omega (arith, length-set_or pos v bs)

flag_at-set_or :
    (i pos : ℕ) (v : Bool) (bs : List Bool)
    → i < length bs
    → flag_at i (set_or pos v bs) ≡ (flag_at i bs || (pos == i && v))
unfolding set_or flag_at
flag_at-set_or i pos v [] h = absurd (omega arith)
flag_at-set_or zero zero v (b ∷ bs) h = ground arith
flag_at-set_or (suc i) zero v (b ∷ bs) h = ground arith
flag_at-set_or zero (suc pos) v (b ∷ bs) h = ground arith
flag_at-set_or (suc i) (suc pos) v (b ∷ bs) h = ground (arith, flag_at-set_or i pos v bs)

abbrev pub IsLong : ℕ → Marks → Type 0
IsLong i marks = (i < length marks.0) × (i < length marks.1)

module _ (positions : Map ℕ ℕ) (i : ℕ) where
  flag_at-mark :
      (satisfied : Bool) (hs : List ℕ) (marks : Marks)
      → IsLong i marks
      → let after = mark positions satisfied hs marks in
        IsLong i after
        × (flag_at i after.0 ≡ (flag_at i marks.0 || touches positions i hs))
        × (flag_at i after.1 ≡ (flag_at i marks.1 || (satisfied && touches positions i hs)))
  unfolding mark
  flag_at-mark satisfied [] marks h = ground (arith, h)
  flag_at-mark satisfied (x ∷ hs) marks h = elim (Option-cases (get ℕ_discrete x positions)) [
    | inl absent ↦ ground (arith, h, absent, flag_at-mark satisfied hs marks h)
    | inr (pos, found) ↦
        let marked : Marks = (set_or pos true marks.0, set_or pos satisfied marks.1) in
        let long : IsLong i marked = (
          omega (arith, h.0, length-set_or pos true marks.0),
          omega (arith, h.1, length-set_or pos satisfied marks.1),
        ) in
        ground (
          arith,
          found,
          flag_at-mark satisfied hs marked long,
          flag_at-set_or i pos true marks.0 h.0,
          flag_at-set_or i pos satisfied marks.1 h.1,
        )
  ]

  pub flag_at-mark_all :
      (os : List OrderTxs) (marks : Marks)
      → IsLong i marks
      → let after = mark_all positions os marks in
        IsLong i after
        × (flag_at i after.0
            ≡ (flag_at i marks.0 || any (λ (o : OrderTxs). touches positions i o.hashes) os))
        × (flag_at i after.1 ≡ (
            flag_at i marks.1
            || any (λ (o : OrderTxs). is_satisfied o positions && touches positions i o.hashes) os))
  unfolding mark_all
  flag_at-mark_all [] marks h = ground (arith, h)
  flag_at-mark_all (o ∷ os) marks h =
      let marked = mark positions (is_satisfied o positions) o.hashes marks in
      let one = flag_at-mark (is_satisfied o positions) o.hashes marks h in
      ground (arith, one, flag_at-mark_all os marked one.0)
