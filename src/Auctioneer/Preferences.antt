-- ===== src/Auctioneer/Preferences.antt =====
-- crates/relay/src/auctioneer/builder_preferences.rs: what a proposer allows for a slot of its own.
use helix.Base.{
  ℕ, ◌≡◌, refl, ap, Option, none, some, List, [], ◌∷◌, ltb, leb, ◌==◌, ◌&&◌, if◌then◌else◌, arith,
  ℕ_discrete,
}
use helix.Base.Map.{Map, get, insert, retain, get-insert}

-- The proposer's public key and the slot.
abbrev pub Key : Type 0
Key = ℕ × ℕ

unfoldable pub key_discrete : Discrete Key
unfolding ℕ_discrete
key_discrete a b = elim (ℕ_discrete a.0 b.0) [
  | yes p ↦ elim (ℕ_discrete a.1 b.1) [
    | yes q ↦ yes (λ i. (p i, q i))
    | no q ↦ no (λ e. q (ap (λ (k : Key). k.1) e))
  ]
  | no p ↦ no (λ e. p (ap (λ (k : Key). k.0) e))
]

abbrev pub BuilderPreferencesStore : Type 0
BuilderPreferencesStore = Map Key ℕ

unfoldable pub store : ℕ → ℕ → ℕ → BuilderPreferencesStore → BuilderPreferencesStore
store proposer_pubkey slot payment s = insert key_discrete (proposer_pubkey, slot) payment s

unfoldable pub max_execution_payment : ℕ → ℕ → BuilderPreferencesStore → Option ℕ
max_execution_payment proposer_pubkey slot s = get key_discrete (proposer_pubkey, slot) s

unfoldable pub on_new_slot : ℕ → BuilderPreferencesStore → BuilderPreferencesStore
on_new_slot bid_slot s = retain (λ (k : Key) _. leb bid_slot k.1) s

pub data Call : Type 0 where
  stores : ℕ → ℕ → ℕ → Call
  starts : ℕ → Call

unfoldable pub call : Call → BuilderPreferencesStore → BuilderPreferencesStore
call (stores pubkey slot payment) s = store pubkey slot payment s
call (starts bid_slot) s = on_new_slot bid_slot s

-- The calls of a history stand newest first.
unfoldable pub run : List Call → BuilderPreferencesStore
unfolding call
run [] = []
run (c ∷ cs) = call c (run cs)

-- The newest preference of the proposer for the slot, unless a later slot has begun since.
unfoldable pub last_stored : ℕ → ℕ → List Call → Option ℕ
last_stored pubkey slot [] = none
last_stored pubkey slot (stores p t payment ∷ cs) =
    if p == pubkey && t == slot then some payment else last_stored pubkey slot cs
last_stored pubkey slot (starts bid_slot ∷ cs) =
    if ltb slot bid_slot then none else last_stored pubkey slot cs

get-retain :
    (pubkey slot bid_slot : ℕ) (m : BuilderPreferencesStore)
    → max_execution_payment pubkey slot (on_new_slot bid_slot m)
      ≡ (if ltb slot bid_slot then none else max_execution_payment pubkey slot m)
unfolding max_execution_payment on_new_slot get retain key_discrete ℕ_discrete
get-retain pubkey slot bid_slot [] = ground arith
get-retain pubkey slot bid_slot ((j, v) ∷ m) = ground (arith, get-retain pubkey slot bid_slot m)

get-store :
    (pubkey slot p t payment : ℕ) (m : BuilderPreferencesStore)
    → max_execution_payment pubkey slot (store p t payment m)
      ≡ (if p == pubkey && t == slot then some payment else max_execution_payment pubkey slot m)
unfolding max_execution_payment store key_discrete ℕ_discrete
get-store pubkey slot p t payment m =
    ground (arith, get-insert {V = ℕ} key_discrete (pubkey, slot) (p, t) payment m)

get-empty : (pubkey slot : ℕ) → max_execution_payment pubkey slot [] ≡ none
unfolding max_execution_payment get
get-empty pubkey slot = refl

-- After any history of calls, the preference of a proposer for a slot is the newest that it stored, if
-- it stored one and no later slot has begun since.
pub run-max_execution_payment :
    (cs : List Call) (pubkey slot : ℕ)
    → max_execution_payment pubkey slot (run cs) ≡ last_stored pubkey slot cs
unfolding run call last_stored
run-max_execution_payment [] pubkey slot = get-empty pubkey slot
run-max_execution_payment (stores p t payment ∷ cs) pubkey slot =
    ground
      (arith, get-store pubkey slot p t payment (run cs), run-max_execution_payment cs pubkey slot)
run-max_execution_payment (starts bid_slot ∷ cs) pubkey slot =
    ground
      (arith, get-retain pubkey slot bid_slot (run cs), run-max_execution_payment cs pubkey slot)
