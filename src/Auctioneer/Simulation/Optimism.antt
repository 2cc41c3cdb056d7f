-- ===== src/Auctioneer/Simulation/Optimism.antt =====
-- Which builders a simulation's result costs their optimism.
use helix.Base.{
  ℕ, ◌≢◌, subst, ◌≡◌, refl, ap, sym, ◌∙◌, inl, inr, Bool, true, false, ◌&&◌, ℕ_discrete,
  Option-cases, Option, none, some, ◌==◌, arith, Bool-cases,
}
use helix.Base.Map.{Map, get, get-insert_self, get-insert_ne}
use helix.Auctioneer.Validation.{BuilderInfo}
use helix.Auctioneer.BidSorter.{Bid}
use helix.Simulator.Error.{BlockSimError, is_demotable}
use helix.Auctioneer.Simulation.{SimulationResult, demoted, demote_builder, demote_all}

abbrev pub result : Bool → Option BlockSimError → Option Bid → SimulationResult
result o e b = record { is_optimistic = o; outcome = e; bid = b }

-- Whether the result is to blame on the builder.
abbrev pub is_blamed : SimulationResult → ℕ → Bool
is_blamed r pubkey = elim r.bid [
  | none ↦ false
  | some bid ↦ elim r.outcome [
    | none ↦ false
    | some e ↦ is_demotable e && (bid.builder_pubkey == pubkey)
  ]
]

abbrev pub without_optimism : Bool → Option BuilderInfo → Option BuilderInfo
without_optimism true (some info) = some (record info { is_optimistic = false })
without_optimism true none = none
without_optimism false o = o

-- The builders that are to blame lose their optimism, and nothing else of any builder changes.
abbrev pub Optimism : SimulationResult → Map ℕ BuilderInfo → Map ℕ BuilderInfo → Type 0
Optimism r before after =
    (k : ℕ) → get ℕ_discrete k after ≡ without_optimism (is_blamed r k) (get ℕ_discrete k before)

pessimistic_lem :
    (info : BuilderInfo) → info.is_optimistic ≡ false → info ≡ record info { is_optimistic = false }
pessimistic_lem info e = ap (λ b. record info { is_optimistic = b }) e

get-demote_builder_self :
    (k : ℕ) (m : Map ℕ BuilderInfo)
    → get ℕ_discrete k (demote_builder k m) ≡ without_optimism true (get ℕ_discrete k m)
unfolding demote_builder
get-demote_builder_self k m = elim (Option-cases (get ℕ_discrete k m)) [
  | inl unknown ↦ rw (unknown, demote_builder) (rw (unknown) refl)
  | inr (info, known) ↦ elim (Bool-cases info.is_optimistic) [
    | inl trusted ↦
        rw (known, demote_builder, trusted)
          (get-insert_self ℕ_discrete k (record info { is_optimistic = false }) m)
    | inr already ↦
        rw (known, demote_builder, already) (known ∙ ap some (pessimistic_lem info already))
  ]
]

get-demote_builder_ne :
    (k pubkey : ℕ) (m : Map ℕ BuilderInfo)
    → pubkey ≢ k
    → get ℕ_discrete k (demote_builder pubkey m) ≡ get ℕ_discrete k m
unfolding demote_builder
get-demote_builder_ne k pubkey m n = elim (Option-cases (get ℕ_discrete pubkey m)) [
  | inl unknown ↦ rw (unknown, demote_builder) refl
  | inr (info, known) ↦ elim (Bool-cases info.is_optimistic) [
    | inl trusted ↦
        rw (known, demote_builder, trusted)
          (get-insert_ne ℕ_discrete k pubkey (record info { is_optimistic = false }) m n)
    | inr already ↦ rw (known, demote_builder, already) refl
  ]
]

get-demote_builder :
    (k pubkey : ℕ) (m : Map ℕ BuilderInfo)
    → get ℕ_discrete k (demote_builder pubkey m)
      ≡ without_optimism (pubkey == k) (get ℕ_discrete k m)
get-demote_builder k pubkey m = elim (ℕ_discrete pubkey k) [
  | yes e ↦
      let own : (pubkey == k) ≡ true = ground (arith, e) in
      rw (own) (
        subst
          (λ j. get ℕ_discrete k (demote_builder j m) ≡ without_optimism true (get ℕ_discrete k m))
          (sym e) (get-demote_builder_self k m))
  | no n ↦
      let other : (pubkey == k) ≡ false = ground (arith, n) in
      rw (other) (get-demote_builder_ne k pubkey m n)
]

pub demote_all-Optimism :
    (o : Bool) (e : Option BlockSimError) (b : Option Bid) (m : Map ℕ BuilderInfo)
    → Optimism (result o e b) m (demote_all (demoted (result o e b)) m)
unfolding demote_all
demote_all-Optimism o e none m k = refl
demote_all-Optimism o none (some bid) m k = refl
demote_all-Optimism o (some e) (some bid) m k = elim (Bool-cases (is_demotable e)) [
  | inl blame ↦ rw (blame, demote_all) (get-demote_builder k bid.builder_pubkey m)
  | inr by_other ↦ rw (by_other, demote_all) refl
]
