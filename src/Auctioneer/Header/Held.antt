-- ===== src/Auctioneer/Header/Held.antt =====
-- get_header.rs, context.rs, submit_block.rs: the payload of every header that is served is at hand.
use helix.Base.{
  ℕ, ◌≡◌, refl, inl, inr, some, List, ◌==◌, leb, arith, ℕ_discrete, Option-cases, Bool-cases,
}
use helix.Base.Map.{
  Map, get, insert, AllEntries, AllEntries-insert, AllEntries-map, get-insert, get-insert_self,
}
use helix.Types.Payload.{Externals}
use helix.Auctioneer.BlockMerger.{
  BlockMergingConfig, BlockMerger, BlockMergeResponse, merged_entry,
  prepare_merged_payload_for_storage, handle_merge_response,
}
use helix.Auctioneer.Slot.{PayloadEntry, receive_ns, value, execution_payload}
use helix.Auctioneer.Validation.{BuilderInfo}

abbrev pub block_hash : PayloadEntry → ℕ
block_hash e = (execution_payload e).block_hash

abbrev pub IsHeld : Map ℕ PayloadEntry → PayloadEntry → Type 0
IsHeld payloads e =
    (held : PayloadEntry) × (get ℕ_discrete (block_hash e) payloads ≡ some held)
    × (block_hash held ≡ block_hash e)

-- Each payload stands under its own block hash, and each merged block's payload is held.
pub record Held (payloads : Map ℕ PayloadEntry) (m : BlockMerger) : Type 0 where
  pub keyed : AllEntries (λ k e. block_hash e ≡ k) payloads
  pub merged : AllEntries (λ _ b. IsHeld payloads b.bid) m.best_merged_blocks

insert-IsHeld :
    (k : ℕ) (e f : PayloadEntry) (payloads : Map ℕ PayloadEntry)
    → block_hash e ≡ k
    → IsHeld payloads f
    → IsHeld (insert ℕ_discrete k e payloads) f
unfolding ℕ_discrete
insert-IsHeld k e f payloads same (held, found, hash) = elim (Bool-cases (k == block_hash f)) [
  | inl here ↦ (
    e,
    ground (arith, here, get-insert ℕ_discrete (block_hash f) k e payloads),
    ground (arith, here, same),
  )
  | inr other ↦
      (held, ground (arith, other, found, get-insert ℕ_discrete (block_hash f) k e payloads), hash)
]

pub insert-Held :
    (k : ℕ) (e : PayloadEntry) (payloads : Map ℕ PayloadEntry) (m : BlockMerger)
    → block_hash e ≡ k
    → Held payloads m
    → Held (insert ℕ_discrete k e payloads) m
insert-Held k e payloads m same h = record {
  keyed = AllEntries-insert ℕ_discrete (λ k e. block_hash e ≡ k) k e payloads same h.keyed;
  merged =
      AllEntries-map m.best_merged_blocks (λ _ b. insert-IsHeld k e b.bid payloads same) h.merged;
}

module _ (x : Externals) (config : BlockMergingConfig) where
  -- A merged block that is stored is held.
  merged-Held :
      (coinbase age ns pubkey : ℕ) (flagged : List ℕ) (r : BlockMergeResponse)
      (payloads : Map ℕ PayloadEntry) (m : BlockMerger)
      → Held payloads m
      → Held
          (insert ℕ_discrete r.execution_payload.block_hash
            (merged_entry x config r pubkey)
            payloads)
          (record m {
            flagged_payment_tx_only_blocks = flagged;
            best_merged_blocks =
                insert ℕ_discrete coinbase
                  (record {
                    base_block_receive_ns = ns;
                    max_merged_bid_age_ms = age;
                    bid = merged_entry x config r pubkey;
                  })
                  m.best_merged_blocks;
          })
  unfolding execution_payload
  merged-Held coinbase age ns pubkey flagged r payloads m h =
      let hash = r.execution_payload.block_hash in
      let e = merged_entry x config r pubkey in
      let inserted = insert-Held hash e payloads m refl h in
      record {
        keyed = inserted.keyed;
        merged =
            AllEntries-insert ℕ_discrete (λ _ b. IsHeld (insert ℕ_discrete hash e payloads) b.bid)
              coinbase (record { base_block_receive_ns = ns; max_merged_bid_age_ms = age; bid = e })
              m.best_merged_blocks (e, get-insert_self ℕ_discrete hash e payloads, refl)
              inserted.merged;
      }

  pub handle_merge_response-Held :
      (builders : Map ℕ BuilderInfo) (r : BlockMergeResponse) (payloads : Map ℕ PayloadEntry)
      (m : BlockMerger)
      → Held payloads m
      → let (payloads', m') = handle_merge_response x config builders r (payloads, m) in
        Held payloads' m'
  unfolding handle_merge_response prepare_merged_payload_for_storage
  handle_merge_response-Held builders r payloads m h =
      elim (Option-cases (get ℕ_discrete r.base_block_hash payloads)) [
        | inl e ↦ rw (e, handle_merge_response) h
        | inr (original, e) ↦ elim (Option-cases (receive_ns original)) [
          | inl e' ↦ rw (e, handle_merge_response) (rw (e', handle_merge_response) h)
          | inr (ns, e') ↦ elim (Bool-cases (leb r.proposer_value (value original))) [
            | inl low ↦
                rw (e, handle_merge_response)
                  (rw (e', handle_merge_response) (rw (low, handle_merge_response) h))
            | inr worth ↦
                rw (e, handle_merge_response)
                  (rw (e', handle_merge_response)
                    (rw (worth, handle_merge_response) (merged-Held _ _ _ _ _ r payloads m h)))
          ]
        ]
      ]
