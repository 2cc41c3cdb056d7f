-- ===== src/Auctioneer/SeenBlocks.antt =====
-- crates/relay/src/auctioneer/seen_blocks.rs: the blocks seen of each slot, until its attestation
-- deadline. A slot is a key of a sorted map, of which the code uses no order.
use helix.Base.{
  ℕ, ◌≤◌, ◌<◌, ◌≡◌, ◌≢◌, refl, sym, ap, subst, ◌∙◌, ◌⊎◌, inl, inr, ◌↔◌, Bool, true, false, not,
  ◌||◌, ◌&&◌, Option, none, some, List, [], ◌∷◌, ◌++◌, ltb, leb, ◌==◌, any, if◌then◌else◌, ite,
  arith, ℕ_discrete, Bool-cases, Option-cases,
}
use helix.Base.Map.{Map, get, insert, remove, retain}
pub mod History

pub record SeenBlock : Type 0 where
  pub block_root : ℕ
  pub parent_root : ℕ
  pub bid_builder_index : ℕ
  pub bid_block_hash : ℕ

-- `new_block` is the source's `New`.
pub data Recorded : Type 0 where
  new_block repeat late : Recorded

pub record SeenBlocks : Type 0 where
  pub slots : Map ℕ (List SeenBlock)
  pub decided : ℕ

abbrev pub no_blocks : SeenBlocks
no_blocks = record { slots = []; decided = 0 }

-- `entry(slot).or_default()`, `remove(&slot).unwrap_or_default()`.
unfoldable pub seen_at : ℕ → Map ℕ (List SeenBlock) → List SeenBlock
seen_at slot m = elim (get ℕ_discrete slot m) [ none ↦ [] | some seen ↦ seen ]

abbrev pub same_root : SeenBlock → SeenBlock → Bool
same_root block b = b.block_root == block.block_root

unfoldable pub record_block : ℕ → SeenBlock → SeenBlocks → SeenBlocks × Recorded
record_block slot block s =
    let seen = seen_at slot s.slots in
    if leb slot s.decided
    then (s, late)
    else if any (same_root block) seen
    then (record s { slots = insert ℕ_discrete slot seen s.slots }, repeat)
    else (record s { slots = insert ℕ_discrete slot (seen ++ block ∷ []) s.slots }, new_block)

abbrev pub max : ℕ → ℕ → ℕ
max a b = if ltb a b then b else a

unfoldable pub decide : ℕ → SeenBlocks → SeenBlocks × List SeenBlock
decide slot s = (
  record {
    slots = retain (λ kept _. ltb slot kept) (remove ℕ_discrete slot s.slots);
    decided = max s.decided slot;
  },
  seen_at slot s.slots,
)
