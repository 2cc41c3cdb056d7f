-- ===== src/Auctioneer/Header.antt =====
-- crates/relay/src/auctioneer/get_header.rs, and the event of mod.rs that asks for it: the header that a
-- proposer is served. The bid adjustor is the one of the repository, which adjusts nothing.
use helix.Base.{
  ℕ, ◌≤◌, ◌<◌, ◌≡◌, ◌≢◌, refl, ◌⊎◌, inl, inr, Bool, not, ◌/◌, ◌-◌, Option, none, some, ◌==◌,
  if◌then◌else◌, arith, ℕ_discrete,
}
use helix.Base.Map.{get}
use helix.Auctioneer.BidSorter.{get_header}
use helix.Auctioneer.BlockMerger.{BlockMergingConfig, get_merged_header}
use helix.Auctioneer.Slot.{SlotData, fork_for_parent_hash, PayloadEntry}
use helix.Auctioneer.Context.{Context}
pub mod Merged
pub mod Served
pub mod Held
pub mod Ready
pub mod Requests
pub mod History

pub record GetHeaderParams : Type 0 where
  pub slot : ℕ
  pub parent_hash : ℕ
  pub pubkey : ℕ

pub data HeaderError : Type 0 where
  request_wrong_slot : ℕ → ℕ → HeaderError
  no_bid_prepared : HeaderError

abbrev pub HeaderResult : Type 0
HeaderResult = HeaderError ⊎ PayloadEntry

-- The hash of the best bid on the fork of the parent.
unfoldable pub best_block_hash : ℕ → SlotData → Context → Option ℕ
best_block_hash parent_hash d c = elim (fork_for_parent_hash d parent_hash) [
  | none ↦ none
  | some k ↦ get_header c.bid_sorter k
]

-- A merged block, or else the bid itself.
unfoldable pub serve_header :
    BlockMergingConfig → Bool → PayloadEntry → Context → HeaderResult × Context
serve_header config enabled original c =
    let (merged, m) = get_merged_header config enabled original c.block_merger in
    (elim merged [ none ↦ inr original | some bid ↦ inr bid ], record c { block_merger = m })

unfoldable pub get_header_result :
    BlockMergingConfig → Bool → ℕ → SlotData → Context → HeaderResult × Context
get_header_result config enabled parent_hash d c = elim (best_block_hash parent_hash d c) [
  | none ↦ (inl no_bid_prepared, c)
  | some hash ↦ elim (get ℕ_discrete hash c.validator.payloads) [
    | none ↦ (inl no_bid_prepared, c)
    | some original ↦ serve_header config enabled original c
  ]
]

-- `none` is a panic.
unfoldable pub handle_get_header :
    BlockMergingConfig
    → Bool
    → GetHeaderParams
    → SlotData
    → Context
    → Option (HeaderResult × Context)
handle_get_header config enabled p d c =
    if p.slot == c.validator.bid_slot
    then some (get_header_result config enabled p.parent_hash d c)
    else none

-- The event while the slot is sorted.
unfoldable pub on_get_header :
    BlockMergingConfig
    → Bool
    → GetHeaderParams
    → SlotData
    → Context
    → Option (HeaderResult × Context)
on_get_header config enabled p d c =
    if not (d.bid_slot == p.slot)
    then some (inl (request_wrong_slot p.slot d.bid_slot), c)
    else elim (fork_for_parent_hash d p.parent_hash) [
      | none ↦ some (inl no_bid_prepared, c)
      | some k ↦
          if not (d.registration_data.pubkey == p.pubkey)
          then some (inl no_bid_prepared, c)
          else handle_get_header config enabled p d c
    ]
