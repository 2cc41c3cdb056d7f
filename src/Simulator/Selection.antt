-- ===== src/Simulator/Selection.antt =====
-- crates/relay/src/simulator/mod.rs, `select_simulator_at` and `next_client`: which node runs a request.
use helix.Base.{
  ℕ, ◌≤◌, ◌≡◌, refl, ◌⊎◌, inl, inr, Bool, true, false, ◌&&◌, Option, none, some, List, [], ◌∷◌, leb,
  if◌then◌else◌, All, All-map, arith, Bool-cases,
}
use helix.Simulator.Entry.{SimEntry, can_simulate_at, utilization}
use helix.Simulator.Spawn.{later, least_used, index_of, next_client, select_simulator, entry_at}

-- Whether the node comes into question and can take a request.
abbrev pub fits : (SimEntry → Bool) → ℕ → SimEntry → Bool
fits eligible now s = eligible s && can_simulate_at now s

-- No node that fits is used less.
abbrev pub IsLeastUsed : (SimEntry → Bool) → ℕ → List SimEntry → ℕ → Type 0
IsLeastUsed eligible now sims i =
    (s : SimEntry) × (entry_at i sims ≡ some s)
    × (fits eligible now s ≡ true)
    × All (λ t. (fits eligible now t ≡ false) ⊎ (utilization now s ≤ utilization now t)) sims

abbrev pub NoneFits : (SimEntry → Bool) → ℕ → List SimEntry → Type 0
NoneFits eligible now sims = All (λ t. fits eligible now t ≡ false) sims

module _ (eligible : SimEntry → Bool) (now : ℕ) where
  -- What `least_used` finds, with the utilization of the node.
  abbrev Found : List SimEntry → Option (ℕ × ℕ) → Type 0
  Found sims none = NoneFits eligible now sims
  Found sims (some (i, u)) =
      (s : SimEntry) × (entry_at i sims ≡ some s)
      × (fits eligible now s ≡ true)
      × (utilization now s ≡ u)
      × All (λ t. (fits eligible now t ≡ false) ⊎ (u ≤ utilization now t)) sims

  -- One node more in front.
  abbrev with_first : SimEntry → Option (ℕ × ℕ) → Option (ℕ × ℕ)
  with_first s rest =
      if fits eligible now s
      then elim rest [
        | none ↦ some (0, utilization now s)
        | some (j, u) ↦
            if leb (utilization now s) u then some (0, utilization now s) else some (j, u)
      ]
      else rest

  first-Found :
      (s : SimEntry) (sims : List SimEntry)
      → fits eligible now s ≡ true
      → All (λ t. (fits eligible now t ≡ false) ⊎ (utilization now s ≤ utilization now t)) sims
      → Found (s ∷ sims) (some (0, utilization now s))
  unfolding entry_at
  first-Found s sims fit least = (s, refl, fit, refl, (inr (omega arith), least))

  with_first-Found :
      (s : SimEntry) (sims : List SimEntry) (rest : Option (ℕ × ℕ))
      → Found sims rest
      → Found (s ∷ sims) (with_first s (later rest))
  unfolding entry_at
  with_first-Found s sims none h = elim (Bool-cases (fits eligible now s)) [
    | inl fit ↦ rw fit (first-Found s sims fit (All-map sims (λ t miss. inl miss) h))
    | inr miss ↦ rw miss (miss, h)
  ]
  with_first-Found s sims (some (i, u)) (t, at, fit, same, least) =
      elim (Bool-cases (fits eligible now s)) [
        | inl here ↦ elim (Bool-cases (leb (utilization now s) u)) [
          | inl less ↦
              rw (here, less)
                (first-Found s sims here (
                  All-map sims
                    (λ v k. elim k [
                      | inl miss ↦ inl miss
                      | inr more ↦ inr (ground (arith, more, less))
                    ])
                    least))
          | inr more ↦ rw (here, more) (t, at, fit, same, (inr (ground (arith, more)), least))
        ]
        | inr miss ↦ rw miss (t, at, fit, same, (inl miss, least))
      ]

  least_used-Found : (sims : List SimEntry) → Found sims (least_used eligible now sims)
  unfolding least_used
  least_used-Found [] = tt
  least_used-Found (s ∷ sims) =
      with_first-Found s sims (least_used eligible now sims) (least_used-Found sims)

-- Whether the node takes requests over SSZ, and whether it is there at all.
abbrev pub has_ssz : SimEntry → Bool
has_ssz s = s.has_ssz_url

abbrev pub any_node : SimEntry → Bool
any_node s = true

abbrev pub IsChoice : ℕ → List SimEntry → Option ℕ → Type 0
IsChoice now sims none = NoneFits any_node now sims
IsChoice now sims (some i) =
    IsLeastUsed has_ssz now sims i ⊎ (NoneFits has_ssz now sims × IsLeastUsed any_node now sims i)

Found-IsLeastUsed :
    (eligible : SimEntry → Bool) (now : ℕ) (sims : List SimEntry) (i u : ℕ)
    → Found eligible now sims (some (i, u))
    → IsLeastUsed eligible now sims i
Found-IsLeastUsed eligible now sims i u (s, at, fit, same, least) = (
  s,
  at,
  fit,
  All-map sims (λ t k. elim k [ inl miss ↦ inl miss | inr more ↦ inr (omega (arith, same, more)) ])
      least,
)

-- The first choice, or else the second.
choose-IsChoice :
    (now : ℕ) (sims : List SimEntry) (first second : Option (ℕ × ℕ))
    → Found has_ssz now sims first
    → Found any_node now sims second
    → IsChoice now sims (elim first [ some (i, _) ↦ some i | none ↦ index_of second ])
choose-IsChoice now sims none none h k = k
choose-IsChoice now sims none (some (i, u)) h k = inr (h, Found-IsLeastUsed any_node now sims i u k)
choose-IsChoice now sims (some (i, u)) second h k = inl (Found-IsLeastUsed has_ssz now sims i u h)

-- A request runs on a node that can take it: on one that speaks SSZ and, of these, is used least; if no
-- such node can take it, on the least used one of all. It waits only if no node can take it.
pub select_simulator-IsChoice :
    (now : ℕ) (sims : List SimEntry) → IsChoice now sims (select_simulator now sims)
unfolding select_simulator next_client
select_simulator-IsChoice now sims =
    choose-IsChoice now sims (least_used has_ssz now sims) (least_used any_node now sims)
      (least_used-Found has_ssz now sims) (least_used-Found any_node now sims)
