-- ===== src/Merging/Forward/Sent.antt =====
-- `forward_decoded`: when a block goes out, and within which limits.
use helix.Base.{
  ℕ, ◌+◌, ◌≤◌, ◌<◌, ◌≡◌, refl, sym, subst, All-map, ◌⊎◌, inl, inr, Bool, true, false, not, ◌||◌,
  Option, none, some, List, [], ◌∷◌, ◌==◌, count, length, map, arith, Option-cases, Bool-cases,
  ℕ_discrete,
}
use helix.Base.Map.{get}
use helix.Auctioneer.Slot.{
  Submission, full, dehydrated, fulu_submission, gloas_submission, bid_trace,
}
use helix.Types.Payload.{SignedBidSubmissionFulu}
use helix.Types.Hydration.{HydratedData, Result, ok, err}
use helix.Types.Hydration.Builders.{HydrationCache, hydrate}
use helix.Merging.Orders.{BlockMergingDataV2, order_ref_hash}
use helix.Merging.Forward.Wire.{
  AreMembers, set-AreMembers, wire_hash, extend_set-AreMembers, extend_set-keeps,
  dehydrate_txs-wire_hash,
}
use helix.Merging.Tile.{
  SlotStartV1, MergeableBlockV1, mergeable_block, DecodedSubmission, Tile, send,
}
use helix.Merging.Forward.{
  MergeExternals, is_member, insert_set, extend_set, u32_max, is_over_limits, feed_cache,
  signed_submission, send_block, forward_signed, only_other, dehydrate_txs, mergeable, add_builders,
  record_forward, is_none, forward_in_slot, forward_decoded,
}

count_mono :
    (p q : ℕ → Bool) (hs : List ℕ) → ((h : ℕ) → p h ≡ true → q h ≡ true) → count p hs ≤ count q hs
count_mono p q [] f = omega arith
count_mono p q (h ∷ hs) f = ground (arith, f h, count_mono p q hs f)

-- The set grows by at most the number of hashes that it does not have.
length-extend_set :
    (hs set : List ℕ)
    → length (extend_set hs set) ≤ length set + count (λ h. not (is_member h set)) hs
unfolding extend_set insert_set
length-extend_set [] set = omega arith
length-extend_set (h ∷ hs) set = elim (Bool-cases (is_member h set)) [
  | inl old ↦ ground (arith, old, length-extend_set hs set)
  | inr new ↦ ground (
    arith,
    new,
    length-extend_set hs (h ∷ set),
    count_mono (λ k. not (is_member k (h ∷ set))) (λ k. not (is_member k set)) hs
        (λ k e. ground (arith, e)),
  )
]

-- The hashes of the orders of a block, over the transactions as they stand in the frame.
abbrev pub orders_of : MergeExternals → MergeableBlockV1 → List ℕ
orders_of x msg =
    map (λ r. order_ref_hash x.bundle_order_hash r (map (wire_hash x.keccak) msg.transactions))
      msg.merge_orders

-- The orders that were on record still are, and those of the block are too.
abbrev pub IsRecorded : MergeExternals → MergeableBlockV1 → Tile → Tile → Type 0
IsRecorded x msg t t' =
    AreMembers t'.conn.orders_sent (orders_of x msg)
    × AreMembers t'.conn.orders_sent t.conn.orders_sent

-- The tile after the call has sent nothing more, or one block more, to the builder that is connected, has
-- acknowledged it and is not ahead, for the slot that has started, and within the builder's limits.
abbrev pub IsSent : MergeExternals → Bool → ℕ → Tile → Tile → Type 0
IsSent x enabled id t t' =
    ((t'.sent ≡ t.sent) × (t'.conn.orders_sent ≡ t.conn.orders_sent))
    ⊎ (token : ℕ) × (msg : MergeableBlockV1) × (sub : DecodedSubmission) × (start : SlotStartV1)
      × (t'.sent ≡ (token, mergeable_block msg) ∷ t.sent)
      × (t.token ≡ some token)
      × (enabled ≡ true)
      × (t.slot.slot_start ≡ some start)
      × (t.conn.active ≡ true)
      × (t.conn.builder_ahead ≡ false)
      × (get ℕ_discrete id t.decoded ≡ some sub)
      × ((bid_trace sub.submission).slot ≡ t.slot.bid_slot)
      × (x.frame_len msg ≤ t.conn.max_frame_bytes)
      × (length t'.conn.orders_sent ≤ t.conn.max_orders_per_slot)
      × IsRecorded x msg t t'

module _ (x : MergeExternals) where
  -- What `send_block` adds to what was sent.
  abbrev Adds : Tile → Tile → Type 0
  Adds t t' =
      ((t'.sent ≡ t.sent) × (t'.conn.orders_sent ≡ t.conn.orders_sent))
      ⊎ (token : ℕ) × (msg : MergeableBlockV1) × (t'.sent ≡ (token, mergeable_block msg) ∷ t.sent)
        × (t.token ≡ some token)
        × (t.conn.active ≡ true)
        × (x.frame_len msg ≤ t.conn.max_frame_bytes)
        × (length t'.conn.orders_sent ≤ t.conn.max_orders_per_slot)
        × IsRecorded x msg t t'

  send_block-Adds :
      (msg : MergeableBlockV1) (tx_hashes : List ℕ) (only : Option ℕ) (t : Tile)
      → t.conn.max_orders_per_slot < u32_max
      → map (wire_hash x.keccak) msg.transactions ≡ tx_hashes
      → Adds t (send_block x msg tx_hashes only t)
  unfolding send_block send is_over_limits
  send_block-Adds msg tx_hashes only t h wire =
      let order_hashes =
        map (λ r. order_ref_hash x.bundle_order_hash r tx_hashes) msg.merge_orders in
      elim (Option-cases t.token) [
        | inl alone ↦ rw (alone, send_block) (inl (refl, refl))
        | inr (token, ours) ↦
            elim (Bool-cases (
              not t.conn.active
              || only_other only token
              || is_over_limits t.conn order_hashes (x.frame_len msg))) [
                | inl held ↦ rw (ours, send_block, held) (inl (refl, refl))
                | inr free ↦
                    let sent = t.conn.orders_sent in
                    rw (ours, send_block, free)
                      (inr (
                        token,
                        msg,
                        refl,
                        refl,
                        ground (arith, free),
                        ground (arith, free),
                        ground (arith, free, h, length-extend_set order_hashes sent),
                        (
                          subst
                              (λ hs. AreMembers (extend_set order_hashes sent) (
                                map (λ r. order_ref_hash x.bundle_order_hash r hs)
                                  msg.merge_orders))
                              (sym wire) (extend_set-AreMembers order_hashes sent),
                          All-map sent (λ k e. extend_set-keeps k order_hashes sent e)
                              (set-AreMembers sent),
                        ),
                      ))
              ]
      ]

  forward_signed-Adds :
      (id : ℕ) (only : Option ℕ) (s : SignedBidSubmissionFulu) (merging : BlockMergingDataV2)
      (t : Tile)
      → t.conn.max_orders_per_slot < u32_max
      → Adds t (forward_signed x id only s merging t)
  unfolding forward_signed mergeable dehydrate_txs
  forward_signed-Adds id only s merging t h =
      let tx_hashes = map x.keccak s.execution_payload.transactions in
      let (wire, sent_txs) =
        dehydrate_txs x.keccak s.execution_payload.transactions t.conn.sent_txs in
      let msg = mergeable x s merging wire t.slot in
      let slot = record t.slot {
        tx_builders = add_builders msg.builder_pubkey tx_hashes t.slot.tx_builders;
      } in
      send_block-Adds msg tx_hashes only
        (record t {
          conn = record t.conn { sent_txs = sent_txs };
          slot = record_forward x id s.message.block_hash msg only slot;
        })
        h (dehydrate_txs-wire_hash x.keccak s.execution_payload.transactions t.conn.sent_txs)

  -- Only the cache differs.
  signed_submission-cache :
      (s : Submission) (t : Tile)
      → (c : HydrationCache) × ((signed_submission x s t).0 ≡ record t { hydration_cache = c })
  unfolding signed_submission
  signed_submission-cache (full (gloas_submission g)) t = (t.hydration_cache, refl)
  signed_submission-cache (full (fulu_submission f)) t = (t.hydration_cache, refl)
  signed_submission-cache (dehydrated d) t =
      let hydrated = hydrate x.hydration d t.hydration_cache x.max_blobs_per_block in
      (
        hydrated.0,
        elim hydrated.1
            as (λ (r : Result HydratedData).
              (elim r as (λ _. Tile × Option SignedBidSubmissionFulu) [
                | ok h ↦ (record t { hydration_cache = hydrated.0 }, some h.submission)
                | err _ ↦ (record t { hydration_cache = hydrated.0 }, none)
              ]).0
              ≡ record t { hydration_cache = hydrated.0 }) [ ok h ↦ refl | err _ ↦ refl ],
      )

  feed_cache-sent :
      (s : Submission) (t : Tile)
      → ((feed_cache x.hydration s t).sent ≡ t.sent)
        × ((feed_cache x.hydration s t).conn.orders_sent ≡ t.conn.orders_sent)
  unfolding feed_cache
  feed_cache-sent (full _) t = (refl, refl)
  feed_cache-sent (dehydrated d) t = (refl, refl)

  forward_in_slot-Adds :
      (id : ℕ) (only : Option ℕ) (sub : DecodedSubmission) (t : Tile)
      → t.conn.max_orders_per_slot < u32_max
      → Adds t (forward_in_slot x id only sub t)
  unfolding forward_in_slot
  forward_in_slot-Adds id only sub t h = elim (Option-cases sub.merging_data) [
    | inl absent ↦ rw (absent, forward_in_slot) (inl (feed_cache-sent sub.submission t))
    | inr (merging, found) ↦
        let (c, same) = signed_submission-cache sub.submission t in
        let t' = (signed_submission x sub.submission t).0 in
        elim (Option-cases (signed_submission x sub.submission t).1) [
          | inl nothing ↦ rw (found, forward_in_slot, nothing, same) (inl (refl, refl))
          | inr (s, signed) ↦
              rw (found, forward_in_slot, signed, same)
                (forward_signed-Adds id only s merging (record t { hydration_cache = c }) h)
        ]
  ]

-- Whatever it is asked to forward or to replay, the tile sends nothing more and leaves the record of the
-- slot's orders as it was, or one block more: to the connection that is its own and has acknowledged it,
-- while merging is enabled and the builder is not ahead, for a submission to the slot that has started, in
-- a frame within the advertised size. Then the orders of that block are on record with all that were
-- before, and no more orders are on record than the builder takes, if the number that it advertised is
-- below the greatest of 32 bits.
pub forward_decoded-IsSent :
    (x : MergeExternals) (enabled : Bool) (id : ℕ) (only : Option ℕ) (t : Tile)
    → t.conn.max_orders_per_slot < u32_max
    → IsSent x enabled id t (forward_decoded x enabled id only t)
unfolding forward_decoded
forward_decoded-IsSent x false id only t h = inl (refl, refl)
forward_decoded-IsSent x true id only t h = elim (Option-cases (get ℕ_discrete id t.decoded)) [
  | inl unknown ↦ rw (unknown, forward_decoded) (inl (refl, refl))
  | inr (sub, known) ↦ elim (Option-cases t.slot.slot_start) [
    | inl early ↦ rw (known, early, forward_decoded) (inl (feed_cache-sent x sub.submission t))
    | inr (start, started) ↦
        elim (Bool-cases
          (not ((bid_trace sub.submission).slot == t.slot.bid_slot) || t.conn.builder_ahead)) [
            | inl skipped ↦ elim (Bool-cases (is_none only)) [
              | inl first ↦
                  rw (known, started, skipped, first, forward_decoded)
                    (inl (feed_cache-sent x sub.submission t))
              | inr again ↦ rw (known, started, skipped, again, forward_decoded) (inl (refl, refl))
            ]
            | inr free ↦
                rw (known, started, free, forward_decoded)
                  (elim (forward_in_slot-Adds x id only sub t h) [
                    | inl same ↦ inl same
                    | inr (token, msg, more, ours, active, size, orders, recorded) ↦ inr (
                      token,
                      msg,
                      sub,
                      start,
                      more,
                      ours,
                      refl,
                      refl,
                      active,
                      ground (arith, free),
                      refl,
                      ground (arith, free),
                      size,
                      orders,
                      recorded,
                    )
                  ])
          ]
  ]
]
