-- ===== src/Merging/Tile.antt =====
-- crates/relay/src/block_merging/tile.rs: the tile's state, and what happens on its connection to the merge
-- builder and at a new slot. Hash sets are lists without order. The counters of the slot's log line, the
-- times kept for latencies, and the memo of transaction hashes are left out. What is written to the
-- connection is kept in `sent`, newest first.
use helix.Base.{
  ℕ, ◌+◌, Bool, true, false, ◌||◌, Option, none, some, List, [], ◌∷◌, ◌==◌, ltb, if◌then◌else◌,
  ℕ_discrete,
}
use helix.Base.Map.{Map, insert}
use helix.Types.Payload.{ExecutionPayload, Transaction}
use helix.Types.Hydration.Builders.{HydrationCache, clear}
use helix.Auctioneer.Slot.{Submission, SlotDuty, PayloadAttributesUpdate, parent_root}
use helix.Merging.Orders.{BlockMergingDataV2, MergeOrderRef}
use helix.Merging.Unbundling.{OrderTxs}

pub record Conn : Type 0 where
  pub active : Bool
  pub max_orders_per_slot : ℕ
  pub max_frame_bytes : ℕ
  pub orders_sent : List ℕ
  pub builder_ahead : Bool
  pub sent_txs : List ℕ

-- `Conn::default`.
abbrev pub no_conn : Conn
no_conn = record {
  active = false;
  max_orders_per_slot = 0;
  max_frame_bytes = 0;
  orders_sent = [];
  builder_ahead = false;
  sent_txs = [];
}

-- `Conn::reset_slot` and `Conn::reset`.
unfoldable pub reset_slot : Conn → Conn
reset_slot c = record c { orders_sent = []; sent_txs = []; builder_ahead = false }

unfoldable pub reset_conn : Conn → Conn
unfolding reset_slot
reset_conn c = reset_slot (record c { active = false })

pub record SlotStartV1 : Type 0 where
  pub slot : ℕ
  pub parent_hash : ℕ
  pub proposer_fee_recipient : ℕ
  pub parent_beacon_block_root : ℕ
  pub apply_blacklist : Bool

pub record SlotState : Type 0 where
  pub bid_slot : ℕ
  pub slot_start : Option SlotStartV1
  pub fee_recipient : Option ℕ
  pub apply_blacklist : Bool
  pub attrs : Map ℕ ℕ
  pub appendable : List ℕ
  pub replay_log : List ℕ
  pub order_txs : List OrderTxs
  pub tx_builders : Map ℕ (List ℕ)

-- `SlotState { bid_slot, ..Default::default() }`.
abbrev pub new_slot_state : ℕ → SlotState
new_slot_state bid_slot = record {
  bid_slot = bid_slot;
  slot_start = none;
  fee_recipient = none;
  apply_blacklist = false;
  attrs = [];
  appendable = [];
  replay_log = [];
  order_txs = [];
  tx_builders = [];
}

-- A transaction on the wire, whole or by its hash.
pub data WireTx : Type 0 where
  whole : Transaction → WireTx
  reference : ℕ → WireTx

-- The transactions of the payload stand apart from it, as they go over the wire.
pub record MergeableBlockV1 : Type 0 where
  pub slot : ℕ
  pub builder_pubkey : ℕ
  pub block_value : ℕ
  pub builder_address : ℕ
  pub proposer_fee_recipient : ℕ
  pub parent_beacon_block_root : ℕ
  pub allow_appending : Bool
  pub merge_orders : List MergeOrderRef
  pub execution_payload : ExecutionPayload
  pub transactions : List WireTx

pub data Frame : Type 0 where
  merger_registration : Frame
  relay_config : Frame
  slot_start_frame : SlotStartV1 → Frame
  mergeable_block : MergeableBlockV1 → Frame
  ping : ℕ → Frame
  pong : ℕ → Frame

-- A decoded submission, as the tile reads it.
pub record DecodedSubmission : Type 0 where
  pub submission : Submission
  pub merging_data : Option BlockMergingDataV2

pub record Tile : Type 0 where
  pub token : Option ℕ
  pub conn : Conn
  pub slot : SlotState
  pub hydration_cache : HydrationCache
  pub ping_nonce : ℕ
  pub decoded : Map ℕ DecodedSubmission
  pub sent : List (ℕ × Frame)

unfoldable pub send : ℕ → Frame → Tile → Tile
send token f t = record t { sent = (token, f) ∷ t.sent }

abbrev pub is_ours : Option ℕ → ℕ → Bool
is_ours none token = false
is_ours (some own) token = own == token

-- `Event::Connected`, and the registration that follows.
unfoldable pub on_connected : ℕ → Tile → Tile
unfolding send reset_conn
on_connected token t =
    if is_ours t.token token
    then send token merger_registration (record t { conn = reset_conn t.conn })
    else t

-- `Event::Disconnected`, and a disconnection by the tile itself.
unfoldable pub on_disconnected : ℕ → Tile → Tile
unfolding reset_conn
on_disconnected token t = if is_ours t.token token then record t { conn = reset_conn t.conn } else t

pub data RejectCode : Type 0 where
  head_mismatch not_synced unknown_base_block invalid_payment unknown_collateral : RejectCode
  invalid_order stale_slot limit_exceeded busy invalid_base_block : RejectCode

abbrev pub is_busy : RejectCode → Bool
is_busy busy = true
is_busy _ = false

abbrev pub is_stale : RejectCode → Bool
is_stale stale_slot = true
is_stale _ = false

unfoldable pub on_reject : ℕ → RejectCode → ℕ → Tile → Tile
on_reject token code slot t =
    if is_ours t.token token
    then (let conn = if is_busy code then record t.conn { sent_txs = [] } else t.conn in
        record t {
          conn =
              if is_stale code || ltb t.slot.bid_slot slot
              then record conn { builder_ahead = true }
              else conn;
        })
    else t

-- The slot starts when the proposer and the attributes of a parent are known.
unfoldable pub maybe_start_slot : Tile → Tile
unfolding send
maybe_start_slot t = elim t.slot.slot_start [
  | some _ ↦ t
  | none ↦ elim t.slot.fee_recipient [
    | none ↦ t
    | some fee_recipient ↦ elim t.slot.attrs [
      | [] ↦ t
      | (parent_hash, root) ∷ _ ↦
          let msg : SlotStartV1 = record {
            slot = t.slot.bid_slot;
            parent_hash = parent_hash;
            proposer_fee_recipient = fee_recipient;
            parent_beacon_block_root = root;
            apply_blacklist = t.slot.apply_blacklist;
          } in
          let t' = record t { slot = record t.slot { slot_start = some msg } } in
          if t.conn.active
          then elim t.token [ none ↦ t' | some token ↦ send token (slot_start_frame msg) t' ]
          else t'
    ]
  ]
]

unfoldable pub insert_attrs : List PayloadAttributesUpdate → Map ℕ ℕ → Map ℕ ℕ
insert_attrs [] m = m
insert_attrs (a ∷ attrs) m = insert_attrs attrs (insert ℕ_discrete a.parent_hash (parent_root a) m)

abbrev pub register : Option SlotDuty → SlotState → SlotState
register none s = s
register (some d) s = record s {
  fee_recipient = some d.fee_recipient;
  apply_blacklist = d.preferences.is_regional;
}

-- The updates of a slot come one after the other.
unfoldable pub learn : Option SlotDuty → List PayloadAttributesUpdate → Tile → Tile
unfolding insert_attrs
learn duty attrs t =
    let slot = register duty t.slot in
    record t { slot = record slot { attrs = insert_attrs attrs slot.attrs } }

unfoldable pub on_slot_msg : ℕ → Option SlotDuty → List PayloadAttributesUpdate → Tile → Tile
unfolding maybe_start_slot learn
on_slot_msg bid_slot duty attrs t =
    if ltb bid_slot t.slot.bid_slot
    then t
    else (let t' =
          if ltb t.slot.bid_slot bid_slot
          then record t {
            slot = new_slot_state bid_slot;
            conn = reset_slot t.conn;
            hydration_cache = clear t.hydration_cache;
          }
          else t in
        maybe_start_slot (learn duty attrs t'))

unfoldable pub send_pings : Tile → Tile
unfolding send
send_pings t =
    let t' = record t { ping_nonce = t.ping_nonce + 1 } in
    elim t.token [
      | none ↦ t'
      | some token ↦ if t.conn.active then send token (ping (t.ping_nonce + 1)) t' else t'
    ]
