-- ===== src/Merging/Unbundling.antt =====
-- crates/relay/src/block_merging/unbundling.rs: whether the merge builder took an order apart. The scratch
-- vectors of the caller are cleared first, so they start as vectors of `false` here.
use helix.Base.{
  ℕ, zero, suc, ◌+◌, Bool, true, false, not, ◌&&◌, ◌||◌, Option, none, some, List, [], ◌∷◌, ◌==◌,
  any, map, if◌then◌else◌, ℕ_discrete,
}
use helix.Base.Map.{Map, get, insert}
use helix.Merging.Orders.{MergeOrderRef, tx_order, bundle_order, get_or_zero}
pub mod Flags
pub mod Reference
pub mod Segments

pub record OrderTxs : Type 0 where
  pub hashes : List ℕ
  pub droppable : List ℕ

-- `OrderTxs::from_ref`.
unfoldable pub from_ref : MergeOrderRef → List ℕ → OrderTxs
from_ref (tx_order t) tx_hashes = record {
  hashes = get_or_zero t.index tx_hashes ∷ [];
  droppable = [];
}
from_ref (bundle_order b) tx_hashes = record {
  hashes = map (λ i. get_or_zero i tx_hashes) b.txs;
  droppable = b.dropping_txs;
}

-- The last position of each hash.
unfoldable pub positions_from : ℕ → List ℕ → Map ℕ ℕ → Map ℕ ℕ
positions_from i [] m = m
positions_from i (h ∷ hs) m = positions_from (suc i) hs (insert ℕ_discrete h i m)

abbrev pub positions_of : List ℕ → Map ℕ ℕ
positions_of final_txs = positions_from 0 final_txs []

-- Whether the position comes directly after the one before, if there is one.
abbrev pub follows : Option ℕ → ℕ → Bool
follows none pos = true
follows (some p) pos = pos == p + 1

-- The loop of `is_satisfied` from the index on, with the last position found.
unfoldable pub satisfied_from : List ℕ → Map ℕ ℕ → ℕ → Option ℕ → List ℕ → Bool
satisfied_from droppable positions i prev [] = true
satisfied_from droppable positions i prev (h ∷ hs) = elim (get ℕ_discrete h positions) [
  | some pos ↦ follows prev pos && satisfied_from droppable positions (suc i) (some pos) hs
  | none ↦ any (λ j. j == i) droppable && satisfied_from droppable positions (suc i) prev hs
]

unfoldable pub is_satisfied : OrderTxs → Map ℕ ℕ → Bool
is_satisfied o positions = satisfied_from o.droppable positions 0 none o.hashes

-- `flags[pos] |= value`.
unfoldable pub set_or : ℕ → Bool → List Bool → List Bool
set_or pos value [] = []
set_or zero value (b ∷ bs) = (b || value) ∷ bs
set_or (suc pos) value (b ∷ bs) = b ∷ set_or pos value bs

unfoldable pub flag_at : ℕ → List Bool → Bool
flag_at i [] = false
flag_at zero (b ∷ bs) = b
flag_at (suc i) (b ∷ bs) = flag_at i bs

-- The two flags of every transaction: whether it belongs to an order, and to a satisfied one.
abbrev pub Marks : Type 0
Marks = List Bool × List Bool

unfoldable pub mark : Map ℕ ℕ → Bool → List ℕ → Marks → Marks
mark positions satisfied [] marks = marks
mark positions satisfied (h ∷ hs) (bundled, covered) = elim (get ℕ_discrete h positions) [
  | some pos ↦ mark positions satisfied hs (set_or pos true bundled, set_or pos satisfied covered)
  | none ↦ mark positions satisfied hs (bundled, covered)
]

unfoldable pub mark_all : Map ℕ ℕ → List OrderTxs → Marks → Marks
mark_all positions [] marks = marks
mark_all positions (o ∷ os) marks =
    mark_all positions os (mark positions (is_satisfied o positions) o.hashes marks)

-- The transactions from the index on that are bundled and not covered.
unfoldable pub unexplained : ℕ → List ℕ → Marks → List ℕ
unexplained i [] marks = []
unexplained i (h ∷ hs) (bundled, covered) =
    let rest = unexplained (suc i) hs (bundled, covered) in
    if flag_at i bundled && not (flag_at i covered) then h ∷ rest else rest

unfoldable pub find_unbundled_txs : List ℕ → List OrderTxs → List ℕ
find_unbundled_txs final_txs orders =
    let clear = map (λ _. false) final_txs in
    unexplained 0 final_txs (mark_all (positions_of final_txs) orders (clear, clear))
