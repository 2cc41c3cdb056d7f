-- ===== src/Merging/Orders.antt =====
-- crates/types/src/block_merging.rs, crates/tcp-types/src/merging/order.rs and
-- crates/relay/src/block_merging/mod.rs: the orders of a submission, as they are sent to the merge builder.
-- Bits of a byte are read with division and remainder.
use helix.Base.{
  ℕ, zero, suc, ◌+◌, ◌*◌, ◌/◌, ◌%◌, ◌^◌, Bool, true, false, not, ◌&&◌, ◌||◌, Option, none, some,
  List, [], ◌∷◌, ◌==◌, ltb, leb, length, any, map, if◌then◌else◌,
}

abbrev pub u16_max : ℕ
u16_max = 65535

abbrev pub max_bundle_txs : ℕ
max_bundle_txs = 32

pub record OrderV2 : Type 0 where
  pub start : ℕ
  pub len : ℕ
  pub flags : ℕ

abbrev pub known_flags : ℕ
known_flags = 3

abbrev pub is_latest_only : OrderV2 → Bool
is_latest_only o = o.flags % 2 == 1

abbrev pub is_all_revert : OrderV2 → Bool
is_all_revert o = o.flags / 2 % 2 == 1

pub record OrderTxCodes : Type 0 where
  pub order : ℕ
  pub codes : List ℕ

abbrev pub codes_len : ℕ → ℕ
codes_len bundle_len = (bundle_len + 3) / 4

-- `list.get(i)`, or the default.
unfoldable pub get_or_zero : ℕ → List ℕ → ℕ
get_or_zero i [] = 0
get_or_zero zero (x ∷ xs) = x
get_or_zero (suc i) (x ∷ xs) = get_or_zero i xs

-- The two bits of the transaction; the caller checks that the byte is there.
unfoldable pub code : OrderTxCodes → ℕ → ℕ
unfolding get_or_zero
code c tx = get_or_zero (tx / 4) c.codes / 2 ^ (2 * (tx % 4)) % 4

pub record BlockMergingDataV2 : Type 0 where
  pub allow_appending : Bool
  pub builder_address : ℕ
  pub orders : List OrderV2
  pub tx_codes : List OrderTxCodes

pub record TxOrderRef : Type 0 where
  pub index : ℕ
  pub can_revert : Bool

pub record BundleOrderRef : Type 0 where
  pub txs : List ℕ
  pub reverting_txs : List ℕ
  pub dropping_txs : List ℕ
  pub latest_only : Bool

pub data MergeOrderRef : Type 0 where
  tx_order : TxOrderRef → MergeOrderRef
  bundle_order : BundleOrderRef → MergeOrderRef

abbrev pub is_nil : List ℕ → Bool
is_nil [] = true
is_nil (x ∷ xs) = false

-- `validate(..).is_ok()`.
unfoldable pub validate_order : MergeOrderRef → ℕ → Bool
validate_order (tx_order t) block_tx_count = ltb t.index block_tx_count
validate_order (bundle_order b) block_tx_count = not (
    is_nil b.txs
    || ltb max_bundle_txs (length b.txs)
    || any (λ i. leb block_tx_count i) b.txs
    || any (λ i. leb (length b.txs) i) b.reverting_txs
    || any (λ i. leb (length b.txs) i) b.dropping_txs)

-- `(start..start + len).collect()`.
unfoldable pub range : ℕ → ℕ → List ℕ
range start zero = []
range start (suc len) = start ∷ range (suc start) len

-- The reverting and the dropping positions among the next ones; `none` at an unknown code.
unfoldable pub read_codes : OrderTxCodes → ℕ → ℕ → Option (List ℕ × List ℕ)
read_codes c tx zero = some ([], [])
read_codes c tx (suc left) = elim (read_codes c (suc tx) left) [
  | none ↦ none
  | some (reverting, dropping) ↦
      if code c tx == 0
      then some (reverting, dropping)
      else if code c tx == 1
      then some (tx ∷ reverting, dropping)
      else if code c tx == 2
      then some (reverting, tx ∷ dropping)
      else none
]

-- The reference before its indices are validated.
unfoldable pub convert_order : OrderV2 → Option OrderTxCodes → Option MergeOrderRef
convert_order o none =
    if o.len == 1 && not (is_latest_only o)
    then some (tx_order (record { index = o.start; can_revert = is_all_revert o }))
    else some (
        bundle_order (record {
          txs = range o.start o.len;
          reverting_txs = if is_all_revert o then range 0 o.len else [];
          dropping_txs = [];
          latest_only = is_latest_only o;
        }))
convert_order o (some c) =
    if is_all_revert o || not (length c.codes == codes_len o.len)
    then none
    else elim (read_codes c 0 o.len) [
      | none ↦ none
      | some (reverting, dropping) ↦ some (
          bundle_order (record {
            txs = range o.start o.len;
            reverting_txs = reverting;
            dropping_txs = dropping;
            latest_only = is_latest_only o;
          }))
    ]

unfoldable pub order_to_ref : OrderV2 → Option OrderTxCodes → ℕ → Option MergeOrderRef
order_to_ref o codes block_tx_count =
    if o.len == 0 || ltb known_flags o.flags || ltb u16_max (o.start + o.len)
    then none
    else elim (convert_order o codes) [
      | none ↦ none
      | some r ↦ if validate_order r block_tx_count then some r else none
    ]

-- `tx_codes.iter().find(|c| c.order == i)`.
unfoldable pub codes_for : ℕ → List OrderTxCodes → Option OrderTxCodes
codes_for i [] = none
codes_for i (c ∷ cs) = if c.order == i then some c else codes_for i cs

-- The references of the orders from the index on, and how many orders were dropped.
unfoldable pub order_refs : List OrderTxCodes → ℕ → ℕ → List OrderV2 → List MergeOrderRef × ℕ
order_refs codes block_tx_count i [] = ([], 0)
order_refs codes block_tx_count i (o ∷ os) =
    let (refs, dropped) = order_refs codes block_tx_count (suc i) os in
    elim (order_to_ref o (codes_for i codes) block_tx_count) [
      | some r ↦ (r ∷ refs, dropped)
      | none ↦ (refs, suc dropped)
    ]

-- `bundle_order_hash` is the hash over the hashes, one after the other.
unfoldable pub order_ref_hash : (List ℕ → ℕ) → MergeOrderRef → List ℕ → ℕ
order_ref_hash bundle_order_hash (tx_order t) tx_hashes = get_or_zero t.index tx_hashes
order_ref_hash bundle_order_hash (bundle_order b) tx_hashes =
    bundle_order_hash (map (λ i. get_or_zero i tx_hashes) b.txs)

abbrev pub is_latest_only_ref : MergeOrderRef → Bool
is_latest_only_ref (tx_order _) = false
is_latest_only_ref (bundle_order b) = b.latest_only
