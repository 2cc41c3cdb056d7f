-- ===== src/Merging/Forward/Quiet.antt =====
-- `on_reject`: a builder that is ahead of the relay gets no more blocks in the slot.
use helix.Base.{
  ℕ, ◌≡◌, refl, inl, inr, Bool, true, false, not, ◌||◌, Option, none, some, List, [], ◌∷◌, ◌==◌,
  ltb, count, arith, Option-cases, Bool-cases, ℕ_discrete,
}
use helix.Base.Map.{get}
use helix.Auctioneer.Slot.{
  Submission, full, dehydrated, SlotDuty, PayloadAttributesUpdate, bid_trace,
}
use helix.Merging.Tile.{
  Frame, mergeable_block, Tile, RejectCode, is_stale, send, on_reject, maybe_start_slot,
  on_slot_msg, learn, send_pings, relay_config, slot_start_frame,
}
use helix.Merging.Forward.{MergeExternals, is_none, feed_cache, forward_decoded, replay, on_ack}

-- What can happen within a slot on a connection that stays as it is.
pub data SlotCall : Type 0 where
  forwards : Bool → ℕ → SlotCall
  rejects : ℕ → RejectCode → ℕ → SlotCall
  updates : Option SlotDuty → List PayloadAttributesUpdate → SlotCall
  pings : SlotCall
  acknowledges : Bool → ℕ → ℕ → ℕ → SlotCall

abbrev pub is_block : ℕ × Frame → Bool
is_block (_, mergeable_block _) = true
is_block _ = false

-- How many blocks were sent.
abbrev pub blocks_sent : Tile → ℕ
blocks_sent t = count is_block t.sent

module _ (x : MergeExternals) where
  unfoldable pub slot_call : SlotCall → Tile → Tile
  slot_call (forwards enabled id) t = forward_decoded x enabled id none t
  slot_call (rejects token code slot) t = on_reject token code slot t
  slot_call (updates duty attrs) t = on_slot_msg t.slot.bid_slot duty attrs t
  slot_call pings t = send_pings t
  slot_call (acknowledges enabled token max_orders max_frame) t =
      on_ack x enabled token max_orders max_frame t

  -- The calls stand oldest first.
  unfoldable pub slot_calls : List SlotCall → Tile → Tile
  slot_calls [] t = t
  slot_calls (c ∷ cs) t = slot_calls cs (slot_call c t)

  abbrev IsQuiet : Tile → Tile → Type 0
  IsQuiet t t' = (blocks_sent t' ≡ blocks_sent t) × (t'.conn.builder_ahead ≡ true)

  feed_cache-IsQuiet :
      (s : Submission) (t : Tile)
      → t.conn.builder_ahead ≡ true
      → IsQuiet t (feed_cache x.hydration s t)
  unfolding feed_cache
  feed_cache-IsQuiet (full _) t h = (refl, h)
  feed_cache-IsQuiet (dehydrated d) t h = (refl, h)

  forward_decoded-IsQuiet :
      (enabled : Bool) (id : ℕ) (only : Option ℕ) (t : Tile)
      → t.conn.builder_ahead ≡ true
      → IsQuiet t (forward_decoded x enabled id only t)
  unfolding forward_decoded
  forward_decoded-IsQuiet false id only t h = (refl, h)
  forward_decoded-IsQuiet true id only t h = elim (Option-cases (get ℕ_discrete id t.decoded)) [
    | inl unknown ↦ rw (unknown, forward_decoded) (refl, h)
    | inr (sub, known) ↦ elim (Option-cases t.slot.slot_start) [
      | inl early ↦ rw (known, early, forward_decoded) (feed_cache-IsQuiet sub.submission t h)
      | inr (start, started) ↦
          let skipped : (not ((bid_trace sub.submission).slot == t.slot.bid_slot)
                || t.conn.builder_ahead)
              ≡ true =
            ground (arith, h) in
          elim (Bool-cases (is_none only)) [
            | inl first ↦
                rw (known, started, skipped, first, forward_decoded)
                  (feed_cache-IsQuiet sub.submission t h)
            | inr again ↦ rw (known, started, skipped, again, forward_decoded) (refl, h)
          ]
    ]
  ]

  maybe_start_slot-IsQuiet :
      (t : Tile) → t.conn.builder_ahead ≡ true → IsQuiet t (maybe_start_slot t)
  unfolding maybe_start_slot send
  maybe_start_slot-IsQuiet t h = ground (arith, h)

  replay-IsQuiet :
      (enabled : Bool) (token : ℕ) (ids : List ℕ) (t : Tile)
      → t.conn.builder_ahead ≡ true
      → IsQuiet t (replay x enabled token ids t)
  unfolding replay
  replay-IsQuiet enabled token [] t h = (refl, h)
  replay-IsQuiet enabled token (id ∷ ids) t h =
      let (same, ahead) = forward_decoded-IsQuiet enabled id (some token) t h in
      let t' = forward_decoded x enabled id (some token) t in
      let (same', ahead') = replay-IsQuiet enabled token ids t' ahead in
      (omega (arith, same, same'), ahead')

  on_ack-IsQuiet :
      (enabled : Bool) (token max_orders max_frame : ℕ) (t : Tile)
      → t.conn.builder_ahead ≡ true
      → IsQuiet t (on_ack x enabled token max_orders max_frame t)
  unfolding on_ack send
  on_ack-IsQuiet enabled token max_orders max_frame t h =
      let t' = send token relay_config (record t {
        conn = record t.conn {
          active = true;
          max_orders_per_slot = max_orders;
          max_frame_bytes = max_frame;
        };
      }) in
      elim (Option-cases t.slot.slot_start) [
        | inl early ↦ rw (early, on_ack) (refl, h)
        | inr (start, started) ↦
            rw (started, on_ack)
              (replay-IsQuiet enabled token t.slot.replay_log
                (send token (slot_start_frame start) t') h)
      ]

  slot_call-IsQuiet :
      (c : SlotCall) (t : Tile) → t.conn.builder_ahead ≡ true → IsQuiet t (slot_call c t)
  unfolding slot_call on_reject learn on_slot_msg send_pings send
  slot_call-IsQuiet (forwards enabled id) t h = forward_decoded-IsQuiet enabled id none t h
  slot_call-IsQuiet (rejects token code slot) t h = ground (arith, h)
  slot_call-IsQuiet (updates duty attrs) t h =
      let own : ltb t.slot.bid_slot t.slot.bid_slot ≡ false = ground arith in
      rw (own, on_slot_msg) (maybe_start_slot-IsQuiet (learn duty attrs t) h)
  slot_call-IsQuiet pings t h = ground (arith, h)
  slot_call-IsQuiet (acknowledges enabled token max_orders max_frame) t h =
      on_ack-IsQuiet enabled token max_orders max_frame t h

  slot_calls-IsQuiet :
      (cs : List SlotCall) (t : Tile)
      → t.conn.builder_ahead ≡ true
      → blocks_sent (slot_calls cs t) ≡ blocks_sent t
  unfolding slot_calls
  slot_calls-IsQuiet [] t h = refl
  slot_calls-IsQuiet (c ∷ cs) t h =
      let (same, ahead) = slot_call-IsQuiet c t h in
      omega (arith, same, slot_calls-IsQuiet cs (slot_call c t) ahead)

  -- Once the builder has refused something on the tile's own connection as stale, or named a later slot than
  -- the tile's, the tile sends it no block for the rest of the slot, as long as the connection is not closed
  -- or opened again: whatever submissions come in, whatever else the builder refuses, though it acknowledges
  -- the registration again, and whatever else is learnt of the slot.
  pub on_reject-blocks_sent :
      (token : ℕ) (code : RejectCode) (slot : ℕ) (cs : List SlotCall) (t : Tile)
      → t.token ≡ some token
      → (is_stale code || ltb t.slot.bid_slot slot) ≡ true
      → blocks_sent (slot_calls cs (on_reject token code slot t)) ≡ blocks_sent t
  unfolding on_reject
  on_reject-blocks_sent token code slot cs t ours ahead =
      let (same, refused) : IsQuiet t (on_reject token code slot t) = ground (arith, ours, ahead) in
      omega (arith, same, slot_calls-IsQuiet cs (on_reject token code slot t) refused)
