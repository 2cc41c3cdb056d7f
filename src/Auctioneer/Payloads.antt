-- ===== src/Auctioneer/Payloads.antt =====
-- crates/relay/src/auctioneer/context.rs, `PayloadStore`: the payloads of the auction and of the one
-- before it, by block hash. The capacities are left out.
use helix.Base.{
  ℕ, zero, suc, ◌≡◌, refl, ◌∙◌, Bool, ◌&&◌, Option, none, some, List, [], ◌∷◌, ◌==◌, if◌then◌else◌,
  arith, ℕ_discrete,
}
use helix.Base.Map.{Map, get, insert, is_empty, get-insert}

pub record PayloadStore (T : Type 0) : Type 0 where
  pub current : Map ℕ T
  pub previous : Map ℕ T

module _ {T : Type 0} where
  abbrev pub empty_store : PayloadStore T
  empty_store = record { current = []; previous = [] }

  unfoldable pub insert_payload : ℕ → T → PayloadStore T → PayloadStore T
  insert_payload block_hash entry s = record s {
    current = insert ℕ_discrete block_hash entry s.current;
  }

  unfoldable pub get_payload : ℕ → PayloadStore T → Option T
  get_payload block_hash s = get ℕ_discrete block_hash s.current

  unfoldable pub get_for_reveal : ℕ → PayloadStore T → Option T
  get_for_reveal block_hash s = elim (get ℕ_discrete block_hash s.current) [
    | some entry ↦ some entry
    | none ↦ get ℕ_discrete block_hash s.previous
  ]

  unfoldable pub is_empty_store : PayloadStore T → Bool
  is_empty_store s = is_empty s.current && is_empty s.previous

  -- The new store, and the generation to drop.
  unfoldable pub rotate : PayloadStore T → PayloadStore T × Map ℕ T
  rotate s = (record { current = []; previous = s.current }, s.previous)

pub data Call (T : Type 0) : Type 0 where
  inserts : ℕ → T → Call T
  rotates : Call T

module _ {T : Type 0} where
  unfoldable pub call : Call T → PayloadStore T → PayloadStore T
  call (inserts block_hash entry) s = insert_payload block_hash entry s
  call rotates s = (rotate s).0

  -- The calls of a history stand newest first.
  unfoldable pub run : List (Call T) → PayloadStore T
  unfolding call
  run [] = empty_store
  run (c ∷ cs) = call c (run cs)

  -- The newest payload of the block that came within the last `generations` auctions.
  unfoldable pub newest : ℕ → ℕ → List (Call T) → Option T
  newest zero block_hash cs = none
  newest (suc n) block_hash [] = none
  newest (suc n) block_hash (inserts h entry ∷ cs) =
      if h == block_hash then some entry else newest (suc n) block_hash cs
  newest (suc n) block_hash (rotates ∷ cs) = newest n block_hash cs

  pub get_payload-insert :
      (k h : ℕ) (entry : T) (s : PayloadStore T)
      → get_payload k (insert_payload h entry s) ≡ (if h == k then some entry else get_payload k s)
  unfolding get_payload insert_payload ℕ_discrete
  get_payload-insert k h entry s = ground (arith, get-insert ℕ_discrete k h entry s.current)

  get_for_reveal-insert :
      (k h : ℕ) (entry : T) (s : PayloadStore T)
      → get_for_reveal k (insert_payload h entry s)
        ≡ (if h == k then some entry else get_for_reveal k s)
  unfolding get_for_reveal insert_payload ℕ_discrete
  get_for_reveal-insert k h entry s = ground (arith, get-insert ℕ_discrete k h entry s.current)

  get_for_reveal-rotate :
      (k : ℕ) (s : PayloadStore T) → get_for_reveal k (rotate s).0 ≡ get_payload k s
  unfolding get_for_reveal rotate get_payload get
  get_for_reveal-rotate k s = refl

  get_payload-rotate : (k : ℕ) (s : PayloadStore T) → get_payload k (rotate s).0 ≡ none
  unfolding rotate get_payload get
  get_payload-rotate k s = refl

  get_payload-empty : (k : ℕ) → get_payload k (empty_store {T = T}) ≡ none
  unfolding get_payload get
  get_payload-empty k = refl

  get_for_reveal-empty : (k : ℕ) → get_for_reveal k (empty_store {T = T}) ≡ none
  unfolding get_for_reveal get
  get_for_reveal-empty k = refl

  run-get_payload : (cs : List (Call T)) (k : ℕ) → get_payload k (run cs) ≡ newest 1 k cs
  unfolding run call newest
  run-get_payload [] k = get_payload-empty k
  run-get_payload (inserts h entry ∷ cs) k =
      ground (arith, get_payload-insert k h entry (run cs), run-get_payload cs k)
  run-get_payload (rotates ∷ cs) k = get_payload-rotate k (run cs)

  -- After any history of insertions and rotations, `get` finds the newest payload that came for the
  -- block hash since the last rotation, and `get_for_reveal` the newest since the last but one.
  pub run-get_for_reveal :
      (cs : List (Call T)) (k : ℕ)
      → (get_payload k (run cs) ≡ newest 1 k cs) × (get_for_reveal k (run cs) ≡ newest 2 k cs)
  unfolding run call newest
  run-get_for_reveal [] k = (run-get_payload [] k, get_for_reveal-empty k)
  run-get_for_reveal (inserts h entry ∷ cs) k = (
    run-get_payload (inserts h entry ∷ cs) k,
    ground (arith, get_for_reveal-insert k h entry (run cs), run-get_for_reveal cs k),
  )
  run-get_for_reveal (rotates ∷ cs) k =
      (run-get_payload (rotates ∷ cs) k, get_for_reveal-rotate k (run cs) ∙ run-get_payload cs k)
