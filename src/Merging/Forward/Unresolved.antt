-- ===== src/Merging/Forward/Unresolved.antt =====
-- `forward_decoded` and `complete_handshake`: what the builder can resolve of a block that came in between
-- connecting and its acknowledgement.
use helix.Base.{
  ℕ, ◌≤◌, ◌≡◌, refl, sym, ap, subst, inl, inr, true, false, not, ◌||◌, Option, none, some, List, [],
  ◌∷◌, ◌==◌, length, map, arith, Option-cases, ◌∙◌, ℕ_discrete,
}
use helix.Base.Map.{get}
use helix.Types.Payload.{SignedBidSubmissionFulu}
use helix.Auctioneer.Slot.{full, fulu_submission, bid_trace}
use helix.Merging.Orders.{BlockMergingDataV2, order_ref_hash}
use helix.Merging.Tile.{
  WireTx, reference, SlotStartV1, MergeableBlockV1, relay_config, slot_start_frame, mergeable_block,
  DecodedSubmission, Tile, send, reset_conn, reset_slot,
}
use helix.Merging.Forward.{
  MergeExternals, u32_max, is_over_limits, is_member, dehydrate_txs, forward_decoded,
  forward_in_slot, forward_signed, signed_submission, send_block, record_forward, add_builders,
  mergeable, replay, on_ack,
}
use helix.Merging.Forward.Wire.{
  dehydrate_txs-AllSent, dehydrate_txs-reference, count-length, length-map, length-order_refs,
}

module _ (x : MergeExternals) (s : SignedBidSubmissionFulu) (merging : BlockMergingDataV2) where
  abbrev pub wire_txs : List ℕ → List WireTx
  wire_txs sent_txs = (dehydrate_txs x.keccak s.execution_payload.transactions sent_txs).0

  abbrev pub fulu_block : DecodedSubmission
  fulu_block = record { submission = full (fulu_submission s); merging_data = some merging }

  forward_decoded-forward_signed :
      (id : ℕ) (only : Option ℕ) (start : SlotStartV1) (t : Tile)
      → get ℕ_discrete id t.decoded ≡ some fulu_block
      → t.slot.slot_start ≡ some start
      → s.message.slot ≡ t.slot.bid_slot
      → t.conn.builder_ahead ≡ false
      → forward_decoded x true id only t ≡ forward_signed x id only s merging t
  unfolding forward_decoded forward_in_slot signed_submission bid_trace forward_signed mergeable
      record_forward send_block
  forward_decoded-forward_signed id only start t known started slot ahead =
      let free : (not (s.message.slot == t.slot.bid_slot) || t.conn.builder_ahead) ≡ false =
        ground (arith, slot, ahead) in
      rw (known, started, free, forward_decoded) refl

  -- Within the limits of a builder to which no order was sent yet.
  forward_signed-sent :
      (id token : ℕ) (t : Tile)
      → t.token ≡ some token
      → t.conn.active ≡ true
      → t.conn.orders_sent ≡ []
      → length merging.orders ≤ t.conn.max_orders_per_slot
      → t.conn.max_orders_per_slot ≤ u32_max
      → ((msg : MergeableBlockV1) → x.frame_len msg ≤ t.conn.max_frame_bytes)
      → (forward_signed x id (some token) s merging t).sent
        ≡ (token, mergeable_block (mergeable x s merging (wire_txs t.conn.sent_txs) t.slot))
          ∷ t.sent
  unfolding forward_signed send_block send is_over_limits mergeable
  forward_signed-sent id token t ours active fresh orders limit size =
      let msg = mergeable x s merging (wire_txs t.conn.sent_txs) t.slot in
      let tx_hashes = map x.keccak s.execution_payload.transactions in
      let order_hashes =
        map (λ r. order_ref_hash x.bundle_order_hash r tx_hashes) msg.merge_orders in
      let few : length order_hashes ≤ length merging.orders = omega (
        arith,
        length-map (λ r. order_ref_hash x.bundle_order_hash r tx_hashes) msg.merge_orders,
        length-order_refs merging.tx_codes (length s.execution_payload.transactions) 0
            merging.orders,
      ) in
      ground (
        arith,
        ours,
        active,
        fresh,
        few,
        limit,
        orders,
        size msg,
        count-length (λ h. not (is_member h t.conn.orders_sent)) order_hashes,
      )

  send_block-inactive :
      (msg : MergeableBlockV1) (tx_hashes : List ℕ) (only : Option ℕ) (t : Tile)
      → t.conn.active ≡ false
      → send_block x msg tx_hashes only t ≡ t
  unfolding send_block
  send_block-inactive msg tx_hashes only t down = elim (Option-cases t.token) [
    | inl alone ↦ ground (arith, alone)
    | inr (token, ours) ↦ ground (arith, ours, down)
  ]

  -- The tile connected to the merge builder and has not heard of it yet; the slot has started, and no
  -- submission to it came in yet.
  abbrev pub connecting : ℕ → SlotStartV1 → Tile → Tile
  connecting token start t = record t {
    token = some token;
    conn = reset_conn t.conn;
    slot = record t.slot { bid_slot = s.message.slot; slot_start = some start; replay_log = [] };
  }

  -- The tile after a submission that came in meanwhile.
  abbrev held : ℕ → Tile → Tile
  held id t =
      let txs = s.execution_payload.transactions in
      let (wire, sent_txs) = dehydrate_txs x.keccak txs t.conn.sent_txs in
      let msg = mergeable x s merging wire t.slot in
      let slot = record t.slot {
        tx_builders = add_builders msg.builder_pubkey (map x.keccak txs) t.slot.tx_builders;
      } in
      record t {
        conn = record t.conn { sent_txs = sent_txs };
        slot = record_forward x id s.message.block_hash msg none slot;
      }

  forward_decoded-held :
      (id token : ℕ) (start : SlotStartV1) (t : Tile)
      → get ℕ_discrete id t.decoded ≡ some fulu_block
      → forward_decoded x true id none (connecting token start t)
        ≡ held id (connecting token start t)
  unfolding forward_signed reset_conn reset_slot
  forward_decoded-held id token start t known =
      let t0 = connecting token start t in
      forward_decoded-forward_signed id none start t0 known refl refl refl
      ∙ send_block-inactive _ _ none (held id t0) refl

  -- What the acknowledgement sends of a block, if the tile stood as given before it.
  abbrev pub Unresolved : ℕ → ℕ → ℕ → SlotStartV1 → Tile → Tile → Type 0
  Unresolved token max_orders max_frame start t t' =
      (t'.sent ≡ t.sent)
      × (msg : MergeableBlockV1) × ((on_ack x true token max_orders max_frame t').sent
          ≡ (token, mergeable_block msg)
            ∷ (token, slot_start_frame start)
            ∷ (token, relay_config)
            ∷ t.sent)
      × (msg.transactions ≡ map (λ tx. reference (x.keccak tx)) s.execution_payload.transactions)

  held-Unresolved :
      (id token max_orders max_frame : ℕ) (start : SlotStartV1) (t : Tile)
      → get ℕ_discrete id t.decoded ≡ some fulu_block
      → length merging.orders ≤ max_orders
      → max_orders ≤ u32_max
      → ((msg : MergeableBlockV1) → x.frame_len msg ≤ max_frame)
      → Unresolved token max_orders max_frame start t (held id (connecting token start t))
  unfolding on_ack replay send record_forward reset_conn reset_slot mergeable
  held-Unresolved id token max_orders max_frame start t known orders limit size =
      let txs = s.execution_payload.transactions in
      let w = held id (connecting token start t) in
      let v = send token (slot_start_frame start) (
        send token relay_config (record w {
          conn = record w.conn {
            active = true;
            max_orders_per_slot = max_orders;
            max_frame_bytes = max_frame;
          };
        })) in
      (
        refl,
        mergeable x s merging (wire_txs v.conn.sent_txs) v.slot,
        ap (λ (u : Tile). u.sent)
              (forward_decoded-forward_signed id (some token) start v known refl refl refl)
            ∙ forward_signed-sent id token v refl refl refl orders limit size,
        dehydrate_txs-reference x.keccak txs v.conn.sent_txs
            (dehydrate_txs-AllSent x.keccak txs []),
      )

  -- Of a block that came in between connecting and the acknowledgement, nothing is sent until the
  -- acknowledgement, and then every transaction goes out as a reference by its hash, though the builder got
  -- none of them on this connection, if merging is enabled, the builder's limits leave room for the block,
  -- and it is the first of the slot.
  pub on_ack-Unresolved :
      (id token max_orders max_frame : ℕ) (start : SlotStartV1) (t : Tile)
      → get ℕ_discrete id t.decoded ≡ some fulu_block
      → length merging.orders ≤ max_orders
      → max_orders ≤ u32_max
      → ((msg : MergeableBlockV1) → x.frame_len msg ≤ max_frame)
      → Unresolved token max_orders max_frame start t
          (forward_decoded x true id none (connecting token start t))
  on_ack-Unresolved id token max_orders max_frame start t known orders limit size =
      subst (Unresolved token max_orders max_frame start t)
        (sym (forward_decoded-held id token start t known))
        (held-Unresolved id token max_orders max_frame start t known orders limit size)
