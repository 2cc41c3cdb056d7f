-- ===== src/Types/Hydration/TxRefs.antt =====
-- crates/types/src/hydration.rs, `hydrate_inner`: the loop over the transactions' refs.
use helix.Base.{
  ℕ, suc, ◌+◌, ◌≤◌, ◌≡◌, refl, ap, subst, ◌⊎◌, inl, inr, true, false, none, some, List, [], ◌∷◌,
  ◌++◌, ltb, ◌==◌, length, All, All-map, length-append, arith, ℕ_discrete, Bool-cases,
}
use helix.Base.Map.{Map, get, insert, get-insert}
use helix.Types.Payload.{Externals, Transaction}
use helix.Types.Hydration.{next_full_item, tx_key_size, tx_cache_key, contains_key, next_full_refs}
use helix.Types.Hydration.Hydrate.{TxLoop, take_full, take_cached, tx_round, tx_loop}

-- The key is in the map.
abbrev pub Known : {V : Type 0} → Map ℕ V → ℕ → Type 0
Known {V} m k = (v : V) × (get ℕ_discrete k m ≡ some v)

pub Known-insert :
    {V : Type 0} (j k : ℕ) (v : V) (m : Map ℕ V) → Known m j → Known (insert ℕ_discrete k v m) j
Known-insert j k v m (w, e) = elim (ℕ_discrete k j) [
  | yes p ↦ (v, ground (arith, get-insert ℕ_discrete j k v m))
  | no n ↦ (w, ground (arith, get-insert ℕ_discrete j k v m))
]

Known-insert_self : {V : Type 0} (k : ℕ) (v : V) (m : Map ℕ V) → Known (insert ℕ_discrete k v m) k
Known-insert_self k v m = (v, ground (arith, get-insert ℕ_discrete k k v m))

pub Known-of_contains : {V : Type 0} (k : ℕ) (m : Map ℕ V) → contains_key k m ≡ true → Known m k
Known-of_contains k m h = ground arith

-- A ref is to a full item or is in the map.
abbrev pub RefKnown : {V : Type 0} → Map ℕ V → ℕ → Type 0
RefKnown m r = (r ≡ next_full_item) ⊎ Known m r

module _ (x : Externals) where
  abbrev pub LongEnough : Transaction → Type 0
  LongEnough tx = tx_key_size ≤ length tx

  -- Before a round of the loop: no error so far, enough full transactions, each long enough, and every
  -- ref known.
  pub record Ready (refs : List ℕ) (s : TxLoop) : Type 0 where
    pub no_err : s.last_err ≡ none
    pub enough : next_full_refs x refs ≤ length s.full
    pub long : All LongEnough s.full
    pub known : All (RefKnown s.txs) refs

  pub next_full_refs-full :
      (r : ℕ) (refs : List ℕ)
      → (r == next_full_item) ≡ true
      → next_full_refs x (r ∷ refs) ≡ suc (next_full_refs x refs)
  next_full_refs-full r refs z = ground arith

  pub next_full_refs-cached :
      (r : ℕ) (refs : List ℕ)
      → (r == next_full_item) ≡ false
      → next_full_refs x (r ∷ refs) ≡ next_full_refs x refs
  next_full_refs-cached r refs z = ground arith

  length-snoc : (xs : List Transaction) (tx : Transaction) → length (xs ++ tx ∷ []) ≡ length xs + 1
  length-snoc xs tx = omega (arith, length-append xs (tx ∷ []))

  RefsKnown-insert :
      {V : Type 0} (k : ℕ) (v : V) (m : Map ℕ V) (refs : List ℕ)
      → All (RefKnown m) refs
      → All (RefKnown (insert ℕ_discrete k v m)) refs
  RefsKnown-insert k v m refs a = All-map refs (λ r h. step r h) a
    where
      step : (r : ℕ) → RefKnown m r → RefKnown (insert ℕ_discrete k v m) r
      step r (inl z) = inl z
      step r (inr g) = inr (Known-insert r k v m g)

  take_full-Ready :
      (index r : ℕ) (refs : List ℕ) (s : TxLoop) (f : List Transaction)
      → s.full ≡ f
      → (r == next_full_item) ≡ true
      → Ready (r ∷ refs) s
      → Ready refs (take_full x index s)
        × (length (take_full x index s).hydrated ≡ length s.hydrated + 1)
  unfolding take_full
  take_full-Ready index r refs s [] e z v =
      absurd (omega (arith, ap length e, next_full_refs-full r refs z, v.enough))
  take_full-Ready index r refs s (tx ∷ rest) e z v =
      let long = subst (All LongEnough) e v.long in
      elim (Bool-cases (ltb (length tx) tx_key_size)) [
        | inl short ↦ absurd (ground (arith, long.0))
        | inr fits ↦
            rw (e, take_full, fits)
              (
                record {
                  no_err = v.no_err;
                  enough = omega (arith, ap length e, next_full_refs-full r refs z, v.enough);
                  long = long.1;
                  known = RefsKnown-insert (tx_cache_key x tx) tx s.txs refs v.known.1;
                },
                length-snoc s.hydrated tx,
              )
      ]

  take_cached-Ready :
      (index r : ℕ) (refs : List ℕ) (s : TxLoop)
      → (r == next_full_item) ≡ false
      → Ready (r ∷ refs) s
      → Ready refs (take_cached x index r s)
        × (length (take_cached x index r s).hydrated ≡ length s.hydrated + 1)
  unfolding take_cached
  take_cached-Ready index r refs s z v = go v.known.0
    where
      go :
          RefKnown s.txs r
          → Ready refs (take_cached x index r s)
            × (length (take_cached x index r s).hydrated ≡ length s.hydrated + 1)
      go (inl full) = absurd (ground arith)
      go (inr (tx, g)) =
          rw (g, take_cached)
            (
              record {
                no_err = v.no_err;
                enough = omega (arith, next_full_refs-cached r refs z, v.enough);
                long = v.long;
                known = v.known.1;
              },
              length-snoc s.hydrated tx,
            )

  tx_round-Ready :
      (index r : ℕ) (refs : List ℕ) (s : TxLoop)
      → Ready (r ∷ refs) s
      → Ready refs (tx_round x index r s)
        × (length (tx_round x index r s).hydrated ≡ length s.hydrated + 1)
  unfolding tx_round
  tx_round-Ready index r refs s v = elim (Bool-cases (r == next_full_item)) [
    | inl full ↦ rw (full, tx_round) (take_full-Ready index r refs s s.full refl full v)
    | inr cached ↦ rw (cached, tx_round) (take_cached-Ready index r refs s cached v)
  ]

  -- The loop takes one transaction for each ref, and no step of it fails.
  pub tx_loop_lem :
      (index : ℕ) (refs : List ℕ) (s : TxLoop)
      → Ready refs s
      → ((tx_loop x index refs s).last_err ≡ none)
        × (length (tx_loop x index refs s).hydrated ≡ length s.hydrated + length refs)
  unfolding tx_loop
  tx_loop_lem index [] s v = (v.no_err, omega arith)
  tx_loop_lem index (r ∷ refs) s v =
      let (w, l) = tx_round-Ready index r refs s v in
      let (e, m) = tx_loop_lem (suc index) refs (tx_round x index r s) w in (e, omega arith)
