-- ===== src/Merging/Unbundling/Reference.antt =====
-- `find_unbundled_txs`: the transactions that belong to orders of which none was honoured.
use helix.Base.{
  ℕ, zero, suc, ◌+◌, ◌≤◌, ◌≡◌, refl, Bool, false, not, ◌&&◌, List, [], ◌∷◌, any, length, map, arith,
  if◌then◌else◌,
}
use helix.Base.Map.{Map}
use helix.Merging.Unbundling.{
  OrderTxs, is_satisfied, positions_of, flag_at, mark_all, unexplained, find_unbundled_txs,
}
use helix.Merging.Unbundling.Flags.{touches, flag_at-mark_all}

module _ (positions : Map ℕ ℕ) (orders : List OrderTxs) where
  -- Whether some order names the transaction at the position, and whether an honoured one does.
  abbrev pub is_bundled : ℕ → Bool
  is_bundled i = any (λ (o : OrderTxs). touches positions i o.hashes) orders

  abbrev pub is_covered : ℕ → Bool
  is_covered i =
      any (λ (o : OrderTxs). is_satisfied o positions && touches positions i o.hashes) orders

  -- The transactions from the index on that are in orders, none of them honoured.
  abbrev pub taken_apart : ℕ → List ℕ → List ℕ
  taken_apart i [] = []
  taken_apart i (h ∷ hs) =
      if is_bundled i && not (is_covered i)
      then h ∷ taken_apart (suc i) hs
      else taken_apart (suc i) hs

length-clear : (hs : List ℕ) → length (map (λ _. false) hs) ≡ length hs
length-clear [] = refl
length-clear (h ∷ hs) = omega (arith, length-clear hs)

flag_at-clear : (i : ℕ) (hs : List ℕ) → flag_at i (map (λ _. false) hs) ≡ false
unfolding flag_at
flag_at-clear i [] = refl
flag_at-clear zero (h ∷ hs) = refl
flag_at-clear (suc i) (h ∷ hs) = flag_at-clear i hs

unexplained-taken_apart :
    (positions : Map ℕ ℕ) (orders : List OrderTxs) (all : List ℕ) (i : ℕ) (hs : List ℕ)
    → i + length hs ≤ length all
    → let clear = map (λ _. false) all in
      unexplained i hs (mark_all positions orders (clear, clear))
      ≡ taken_apart positions orders i hs
unfolding unexplained
unexplained-taken_apart positions orders all i [] h = refl
unexplained-taken_apart positions orders all i (x ∷ hs) h =
    let clear = map (λ _. false) all in
    let flags =
      flag_at-mark_all positions i orders (clear, clear)
        (omega (arith, length-clear all), omega (arith, length-clear all)) in
    let ih = unexplained-taken_apart positions orders all (suc i) hs (omega arith) in
    ground (arith, flags.1, flags.2, flag_at-clear i all, ih)

-- The pass over the orders with its two vectors of flags returns exactly the transactions, in their order,
-- that some order names and no honoured order does.
pub find_unbundled_txs-taken_apart :
    (final_txs : List ℕ) (orders : List OrderTxs)
    → find_unbundled_txs final_txs orders ≡ taken_apart (positions_of final_txs) orders 0 final_txs
unfolding find_unbundled_txs
find_unbundled_txs-taken_apart final_txs orders =
    unexplained-taken_apart (positions_of final_txs) orders final_txs 0 final_txs (omega arith)
