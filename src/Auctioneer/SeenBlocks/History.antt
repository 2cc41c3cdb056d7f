-- ===== src/Auctioneer/SeenBlocks/History.antt =====
-- seen_blocks.rs: what is answered, told from the calls before.
use helix.Base.{
  ℕ, ◌≡◌, refl, sym, subst, Bool, not, ◌||◌, ◌&&◌, none, List, [], ◌∷◌, ◌++◌, ltb, leb, ◌==◌, any,
  if◌then◌else◌, arith, ℕ_discrete,
}
use helix.Base.Map.{Map, get, insert, remove, retain, get-insert, get-remove}
use helix.Auctioneer.SeenBlocks.{
  SeenBlock, new_block, repeat, late, SeenBlocks, no_blocks, seen_at, same_root, record_block,
  decide,
}

pub data Call : Type 0 where
  records : ℕ → SeenBlock → Call
  decides : ℕ → Call

unfoldable pub call : Call → SeenBlocks → SeenBlocks
call (records slot block) s = (record_block slot block s).0
call (decides slot) s = (decide slot s).0

-- The calls of a history stand newest first.
unfoldable pub run : List Call → SeenBlocks
unfolding call
run [] = no_blocks
run (c ∷ cs) = call c (run cs)

-- A slot as late as this one was decided, or it is slot 0.
unfoldable pub is_closed : ℕ → List Call → Bool
is_closed slot [] = slot == 0
is_closed slot (records _ _ ∷ cs) = is_closed slot cs
is_closed slot (decides d ∷ cs) = leb slot d || is_closed slot cs

-- The blocks of a slot, one for each root, in the order they came.
unfoldable pub seen_in : ℕ → List Call → List SeenBlock
seen_in slot [] = []
seen_in slot (decides _ ∷ cs) = seen_in slot cs
seen_in slot (records t block ∷ cs) =
    let seen = seen_in slot cs in
    if t == slot && not (any (same_root block) seen) then seen ++ block ∷ [] else seen

get-retain :
    (k slot : ℕ) (m : Map ℕ (List SeenBlock))
    → get ℕ_discrete k (retain (λ kept _. ltb slot kept) m)
      ≡ (if ltb slot k then get ℕ_discrete k m else none)
unfolding get retain ℕ_discrete
get-retain k slot [] = ground arith
get-retain k slot ((j, v) ∷ m) = ground (arith, get-retain k slot m)

closed_lem : (slot : ℕ) (cs : List Call) → leb slot (run cs).decided ≡ is_closed slot cs
unfolding run call is_closed record_block decide
closed_lem slot [] = ground arith
closed_lem slot (records t b ∷ cs) = ground (arith, closed_lem slot cs)
closed_lem slot (decides d ∷ cs) = ground (arith, closed_lem slot cs)

seen_at-insert :
    (j k : ℕ) (v : List SeenBlock) (m : Map ℕ (List SeenBlock))
    → seen_at j (insert ℕ_discrete k v m) ≡ (if k == j then v else seen_at j m)
unfolding seen_at ℕ_discrete
seen_at-insert j k v m = ground (arith, get-insert ℕ_discrete j k v m)

seen_at-decide :
    (j slot : ℕ) (m : Map ℕ (List SeenBlock))
    → seen_at j (retain (λ kept _. ltb slot kept) (remove ℕ_discrete slot m))
      ≡ (if leb j slot then [] else seen_at j m)
unfolding seen_at ℕ_discrete
seen_at-decide j slot m =
    ground (arith, get-retain j slot (remove ℕ_discrete slot m), get-remove ℕ_discrete j slot m)

seen_at-nil : (j : ℕ) → seen_at j [] ≡ []
unfolding seen_at get
seen_at-nil j = refl

seen_at-record :
    (j t : ℕ) (b : SeenBlock) (s : SeenBlocks)
    → seen_at j (record_block t b s).0.slots ≡ (
        if not (leb t s.decided) && t == j && not (any (same_root b) (seen_at j s.slots))
        then seen_at j s.slots ++ b ∷ []
        else seen_at j s.slots)
unfolding record_block
seen_at-record j t b s = elim (ℕ_discrete t j) [
  | yes e ↦
      subst
        (λ k. seen_at j (record_block k b s).0.slots ≡ (
          if not (leb k s.decided) && k == j && not (any (same_root b) (seen_at j s.slots))
          then seen_at j s.slots ++ b ∷ []
          else seen_at j s.slots))
        (sym e)
        (ground (
          arith,
          seen_at-insert j j (seen_at j s.slots) s.slots,
          seen_at-insert j j (seen_at j s.slots ++ b ∷ []) s.slots,
        ))
  | no ne ↦ ground (
    arith,
    ne,
    seen_at-insert j t (seen_at t s.slots) s.slots,
    seen_at-insert j t (seen_at t s.slots ++ b ∷ []) s.slots,
  )
]

seen_lem :
    (slot : ℕ) (cs : List Call)
    → seen_at slot (run cs).slots ≡ (if is_closed slot cs then [] else seen_in slot cs)
unfolding run call is_closed seen_in decide
seen_lem slot [] = ground (arith, seen_at-nil slot)
seen_lem slot (records t b ∷ cs) = elim (ℕ_discrete t slot) [
  | yes e ↦ ground (
    arith,
    seen_at-record slot t b (run cs),
    seen_lem slot cs,
    closed_lem t cs,
    closed_lem slot cs,
  )
  | no ne ↦ ground (arith, ne, seen_at-record slot t b (run cs), seen_lem slot cs)
]
seen_lem slot (decides d ∷ cs) =
    ground (arith, seen_lem slot cs, seen_at-decide slot d (run cs).slots)

-- What `record` answers, and what it does, after any history of calls: a block is late exactly if the
-- slot is closed; else it is a repeat exactly if a block with its root came for the slot before.
pub run-record :
    (cs : List Call) (slot : ℕ) (block : SeenBlock)
    → (record_block slot block (run cs)).1 ≡ (
        if is_closed slot cs
        then late
        else if any (same_root block) (seen_in slot cs)
        then repeat
        else new_block)
unfolding record_block
run-record cs slot block = ground (arith, closed_lem slot cs, seen_lem slot cs)

-- What `decide` returns after any history of calls: nothing for a slot that is closed, and else one
-- block for each root that came for the slot, in the order they came.
pub run-decide :
    (cs : List Call) (slot : ℕ)
    → (decide slot (run cs)).1 ≡ (if is_closed slot cs then [] else seen_in slot cs)
unfolding decide
run-decide cs slot = seen_lem slot cs
