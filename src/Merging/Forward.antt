-- ===== src/Merging/Forward.antt =====
-- crates/relay/src/block_merging/tile.rs, `forward_decoded` and `complete_handshake`: the blocks that go to
-- the merge builder. The sidecars of a submission's blobs are left out.
use helix.Base.{
  ℕ, ◌+◌, ◌-◌, ◌^◌, Bool, true, false, not, ◌&&◌, ◌||◌, Option, none, some, List, [], ◌∷◌, ◌++◌,
  ◌==◌, ltb, any, count, length, map, if◌then◌else◌, ℕ_discrete,
}
use helix.Base.Map.{Map, get, insert}
use helix.Types.Payload.{Externals, Transaction, SignedBidSubmissionFulu, ExecutionPayload}
use helix.Types.Hydration.{HydrationError, HydratedData, Result, ok, err}
use helix.Types.Hydration.Builders.{HydrationCache, hydrate, feed}
use helix.Auctioneer.Slot.{
  Submission, full, dehydrated, fulu_submission, gloas_submission, bid_trace,
}
use helix.Merging.Orders.{BlockMergingDataV2, MergeOrderRef, order_refs, order_ref_hash}
use helix.Merging.Unbundling.{OrderTxs, from_ref}
use helix.Merging.Tile.{
  Conn, SlotState, WireTx, whole, reference, MergeableBlockV1, Frame, relay_config,
  slot_start_frame, mergeable_block, DecodedSubmission, Tile, send,
}
pub mod Sent
pub mod Quiet
pub mod Wire
pub mod Unresolved

-- Of other packages: the hash of a transaction and that over the hashes of a bundle, the length of an
-- encoded frame, and the blobs that a block may have.
pub record MergeExternals : Type 0 where
  pub hydration : Externals
  pub keccak : Transaction → ℕ
  pub bundle_order_hash : List ℕ → ℕ
  pub frame_len : MergeableBlockV1 → ℕ
  pub max_blobs_per_block : ℕ

abbrev pub is_member : ℕ → List ℕ → Bool
is_member h hs = any (λ j. j == h) hs

-- `FxHashSet::insert`, and `extend`.
unfoldable pub insert_set : ℕ → List ℕ → List ℕ
insert_set h hs = if is_member h hs then hs else h ∷ hs

unfoldable pub extend_set : List ℕ → List ℕ → List ℕ
unfolding insert_set
extend_set [] set = set
extend_set (h ∷ hs) set = extend_set hs (insert_set h set)

abbrev pub builders_of : ℕ → Map ℕ (List ℕ) → List ℕ
builders_of hash m = elim (get ℕ_discrete hash m) [ none ↦ [] | some builders ↦ builders ]

unfoldable pub add_builder : ℕ → ℕ → Map ℕ (List ℕ) → Map ℕ (List ℕ)
add_builder hash builder m =
    let builders = builders_of hash m in
    insert ℕ_discrete hash
      (if is_member builder builders then builders else builders ++ builder ∷ []) m

-- The transactions as they go over the wire, and the set of those sent whole after them.
unfoldable pub dehydrate_txs : (Transaction → ℕ) → List Transaction → List ℕ → List WireTx × List ℕ
unfolding insert_set
dehydrate_txs keccak [] sent_txs = ([], sent_txs)
dehydrate_txs keccak (tx ∷ txs) sent_txs =
    let (wire, sent_txs') = dehydrate_txs keccak txs (insert_set (keccak tx) sent_txs) in
    ((if is_member (keccak tx) sent_txs then reference (keccak tx) else whole tx) ∷ wire, sent_txs')

unfoldable pub add_builders : ℕ → List ℕ → Map ℕ (List ℕ) → Map ℕ (List ℕ)
unfolding add_builder
add_builders builder [] m = m
add_builders builder (h ∷ hs) m = add_builders builder hs (add_builder h builder m)

unfoldable pub root_of : ℕ → Map ℕ ℕ → ℕ
root_of parent_hash attrs = elim (get ℕ_discrete parent_hash attrs) [ none ↦ 0 | some root ↦ root ]

abbrev pub u32_max : ℕ
u32_max = 2 ^ 32 - 1

abbrev pub saturating_add : ℕ → ℕ → ℕ
saturating_add a b = if ltb u32_max (a + b) then u32_max else a + b

-- Whether the block is over the limits that the builder advertised.
unfoldable pub is_over_limits : Conn → List ℕ → ℕ → Bool
is_over_limits c order_hashes frame_len =
    let new_orders = count (λ h. not (is_member h c.orders_sent)) order_hashes in
    ltb c.max_orders_per_slot (saturating_add (length c.orders_sent) new_orders)
    || ltb c.max_frame_bytes frame_len

abbrev pub only_other : Option ℕ → ℕ → Bool
only_other none token = false
only_other (some only) token = not (only == token)

-- Even a submission that is not forwarded enters the cache.
unfoldable pub feed_cache : Externals → Submission → Tile → Tile
feed_cache x (full _) t = t
feed_cache x (dehydrated s) t = record t { hydration_cache = feed x s t.hydration_cache }

abbrev pub is_none : Option ℕ → Bool
is_none none = true
is_none (some _) = false

module _ (x : MergeExternals) where
  -- The submission with its payload; `none` if it is a Gloas one or cannot be hydrated.
  unfoldable pub signed_submission : Submission → Tile → Tile × Option SignedBidSubmissionFulu
  signed_submission (full (gloas_submission _)) t = (t, none)
  signed_submission (full (fulu_submission s)) t = (t, some s)
  signed_submission (dehydrated d) t =
      let (cache, r) = hydrate x.hydration d t.hydration_cache x.max_blobs_per_block in
      let t' = record t { hydration_cache = cache } in
      elim r [ ok h ↦ (t', some h.submission) | err _ ↦ (t', none) ]

  unfoldable pub mergeable :
      SignedBidSubmissionFulu → BlockMergingDataV2 → List WireTx → SlotState → MergeableBlockV1
  mergeable s merging wire slot = record {
    slot = s.message.slot;
    builder_pubkey = s.message.builder_pubkey;
    block_value = s.message.value;
    builder_address = merging.builder_address;
    proposer_fee_recipient = s.message.proposer_fee_recipient;
    parent_beacon_block_root = root_of s.message.parent_hash slot.attrs;
    allow_appending = merging.allow_appending;
    merge_orders =
        (order_refs merging.tx_codes (length s.execution_payload.transactions) 0 merging.orders).0;
    execution_payload = record s.execution_payload { transactions = [] };
    transactions = wire;
  }

  -- What the slot records of a block that is not a replay.
  unfoldable pub record_forward : ℕ → ℕ → MergeableBlockV1 → Option ℕ → SlotState → SlotState
  unfolding insert_set
  record_forward id block_hash msg only slot =
      if is_none only
      then record slot {
        appendable =
            if msg.allow_appending then insert_set block_hash slot.appendable else slot.appendable;
        replay_log = slot.replay_log ++ id ∷ [];
      }
      else slot

  -- The last part: the block goes out if the connection is up and the limits allow it.
  unfoldable pub send_block : MergeableBlockV1 → List ℕ → Option ℕ → Tile → Tile
  unfolding extend_set
  send_block msg tx_hashes only t =
      let order_hashes =
        map (λ r. order_ref_hash x.bundle_order_hash r tx_hashes) msg.merge_orders in
      elim t.token [
        | none ↦ t
        | some token ↦
            if not t.conn.active
              || only_other only token
              || is_over_limits t.conn order_hashes (x.frame_len msg)
            then t
            else send token (mergeable_block msg) (record t {
              conn = record t.conn { orders_sent = extend_set order_hashes t.conn.orders_sent };
              slot = record t.slot {
                order_txs = t.slot.order_txs ++ map (λ r. from_ref r tx_hashes) msg.merge_orders;
              };
            })
      ]

  unfoldable pub forward_signed :
      ℕ → Option ℕ → SignedBidSubmissionFulu → BlockMergingDataV2 → Tile → Tile
  forward_signed id only s merging t =
      let tx_hashes = map x.keccak s.execution_payload.transactions in
      let (wire, sent_txs) =
        dehydrate_txs x.keccak s.execution_payload.transactions t.conn.sent_txs in
      let msg = mergeable s merging wire t.slot in
      let slot = record t.slot {
        tx_builders = add_builders msg.builder_pubkey tx_hashes t.slot.tx_builders;
      } in
      send_block msg tx_hashes only (record t {
        conn = record t.conn { sent_txs = sent_txs };
        slot = record_forward id s.message.block_hash msg only slot;
      })

  -- The submission is in the tile's slot, which has started.
  unfoldable pub forward_in_slot : ℕ → Option ℕ → DecodedSubmission → Tile → Tile
  forward_in_slot id only sub t = elim sub.merging_data [
    | none ↦ feed_cache x.hydration sub.submission t
    | some merging ↦
        let (t', signed) = signed_submission sub.submission t in
        elim signed [ none ↦ t' | some s ↦ forward_signed id only s merging t' ]
  ]

  unfoldable pub forward_decoded : Bool → ℕ → Option ℕ → Tile → Tile
  forward_decoded enabled id only t =
      if enabled
      then elim (get ℕ_discrete id t.decoded) [
        | none ↦ t
        | some sub ↦ elim t.slot.slot_start [
          | none ↦ feed_cache x.hydration sub.submission t
          | some _ ↦
              if not ((bid_trace sub.submission).slot == t.slot.bid_slot) || t.conn.builder_ahead
              then if is_none only then feed_cache x.hydration sub.submission t else t
              else forward_in_slot id only sub t
        ]
      ]
      else t

  unfoldable pub replay : Bool → ℕ → List ℕ → Tile → Tile
  replay enabled token [] t = t
  replay enabled token (id ∷ ids) t =
      replay enabled token ids (forward_decoded enabled id (some token) t)

  -- The builder accepted the registration: `MergerAckV1`, then `complete_handshake`.
  unfoldable pub on_ack : Bool → ℕ → ℕ → ℕ → Tile → Tile
  unfolding send replay
  on_ack enabled token max_orders max_frame t =
      let t' = send token relay_config (record t {
        conn = record t.conn {
          active = true;
          max_orders_per_slot = max_orders;
          max_frame_bytes = max_frame;
        };
      }) in
      elim t.slot.slot_start [
        | none ↦ t'
        | some msg ↦ replay enabled token t.slot.replay_log (send token (slot_start_frame msg) t')
      ]
