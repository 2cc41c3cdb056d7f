-- ===== src/Auctioneer/State/Serving.antt =====
-- mod.rs: what serving a payload, and a new slot, do to the slots of the payloads that were given out.
use helix.Base.{
  ℕ, suc, ◌≤◌, ◌<◌, ◌≡◌, refl, sym, ap, subst, ◌∙◌, inl, inr, Option, none, some, List, [], ◌∷◌,
  arith, ℕ_discrete, Option-cases,
}
use helix.Base.Map.{get}
use helix.Types.Payload.{Externals}
use helix.Auctioneer.BidSorter.{BidSorter, process_slot}
use helix.Auctioneer.Slot.{
  PayloadAttributesUpdate, SlotDuty, SlotData, PayloadAndBlobs, payload_and_blobs,
}
use helix.Auctioneer.Validation.{Chain}
use helix.Auctioneer.Unblind.{BlindedBlock, get_unblinded, get_unblinded-Matches}
use helix.Auctioneer.Context.{
  PendingPayload, refused, delivered, preferences_stored, answered, revealed, Log, Context,
  BroadcastPayloadParams, start_payloads, refuse_pending, start_slot, handle_gossip_payload,
  handle_get_payload, try_unblind, maybe_try_unblind,
}
use helix.Auctioneer.State.{
  Attributes, State, waiting, sorting, broadcasting, Auctioneer, bid_slot, process_slot_data,
  begin_slot, more_slot_data, broadcast, on_get_payload, maybe_start_broadcasting,
  on_gossip_payload,
}

-- The slots of the payloads that were given out, newest first.
abbrev pub delivered_slots : Log → List ℕ
delivered_slots [] = []
delivered_slots (answered res_tx (delivered u) ∷ log) = u.slot ∷ delivered_slots log
delivered_slots (answered res_tx (refused e) ∷ log) = delivered_slots log
delivered_slots (answered res_tx preferences_stored ∷ log) = delivered_slots log
delivered_slots (revealed slot r ∷ log) = delivered_slots log

-- The slots fall from the newest to the oldest, and all are below the bound.
abbrev pub FallsBelow : ℕ → List ℕ → Type 0
FallsBelow n [] = Unit
FallsBelow n (s ∷ slots) = (s < n) × FallsBelow s slots

pub FallsBelow-weaken : (m n : ℕ) (slots : List ℕ) → m ≤ n → FallsBelow m slots → FallsBelow n slots
FallsBelow-weaken m n [] h f = tt
FallsBelow-weaken m n (s ∷ slots) h f = (omega (arith, f.0), f.1)

-- The slots from which a payload may not be given out any more.
abbrev pub limit : State → ℕ
limit (waiting slot reg m il) = slot
limit (sorting d) = d.bid_slot
limit (broadcasting d h) = suc d.bid_slot

-- The three copies of the slot agree, and every payload given out was for an earlier one, or for this
-- one if the state broadcasts.
abbrev pub Inv : Auctioneer → Type 0
Inv (s, c, log) =
    (c.validator.bid_slot ≡ bid_slot s)
    × (c.bid_sorter.curr_bid_slot ≡ bid_slot s)
    × FallsBelow (limit s) (delivered_slots log)

pub refuse_pending-slots :
    (p : Option PendingPayload) (log : Log)
    → delivered_slots (refuse_pending p log) ≡ delivered_slots log
refuse_pending-slots none log = refl
refuse_pending-slots (some p) log = refl

module _ (x : Externals) (chain : Chain) where
  pub process_slot_data-slot :
      (slot : ℕ) (m : Attributes) (reg : Option SlotDuty) (updates : List PayloadAttributesUpdate)
      (il : Option ℕ)
      → let s = process_slot_data x chain slot m reg updates il in
        (bid_slot s ≡ slot) × (limit s ≡ slot)
  unfolding process_slot_data bid_slot
  process_slot_data-slot slot m reg updates il = ground arith

  pub start_slot-slots :
      (slot : ℕ) (c : Context) (log : Log)
      → let (c', log') = start_slot slot (c, log) in
        (c'.validator.bid_slot ≡ slot)
        × (c'.bid_sorter.curr_bid_slot ≡ slot)
        × (delivered_slots log' ≡ delivered_slots log)
  unfolding start_slot start_payloads process_slot
  start_slot-slots slot c log = (ground arith, refl, refuse_pending-slots c.pending_payload log)

  pub begin_slot-Inv :
      (slot : ℕ) (reg : Option SlotDuty) (updates : List PayloadAttributesUpdate) (il : Option ℕ)
      (s : State) (c : Context) (log : Log)
      → limit s ≤ slot
      → Inv (s, c, log)
      → Inv (begin_slot x chain slot reg updates il (s, c, log))
        × (bid_slot (begin_slot x chain slot reg updates il (s, c, log)).0 ≡ slot)
  unfolding begin_slot
  begin_slot-Inv slot reg updates il s c log h (a, b, f) =
      let (p, q) = process_slot_data-slot slot [] reg updates il in
      let (u, v, w) = start_slot-slots slot c log in
      (
        (
          u ∙ sym p,
          v ∙ sym p,
          rw (q, w) (FallsBelow-weaken (limit s) slot (delivered_slots log) h f),
        ),
        p,
      )

  -- A payload is given out for the slot of the context, and then the state broadcasts.
  pub handle_get_payload-slots :
      (slot : ℕ) (local : PayloadAndBlobs) (blinded : BlindedBlock) (res_tx : ℕ) (d : SlotData)
      (log : Log)
      → d.bid_slot ≡ slot
      → FallsBelow d.bid_slot (delivered_slots log)
      → let (h, log') = handle_get_payload x slot local blinded res_tx d log in
        FallsBelow (limit (broadcast x chain d h)) (delivered_slots log')
  unfolding handle_get_payload
  handle_get_payload-slots slot local blinded res_tx d log e f =
      elim (get_unblinded x slot blinded local d)
          as (λ r.
            get_unblinded x slot blinded local d ≡ r
            → let p : Option ℕ × Log = elim r [
              | inl err ↦ (none, answered res_tx (refused err) ∷ log)
              | inr u ↦ (some u.payload.block_hash, answered res_tx (delivered u) ∷ log)
            ] in
              FallsBelow (limit (broadcast x chain d p.0)) (delivered_slots p.1)) [
                | inl err ↦ λ g. f
                | inr u ↦ λ g.
                    let signed = get_unblinded-Matches x slot blinded local d u g in
                    (
                      omega (arith, signed.1),
                      subst (λ n. FallsBelow n (delivered_slots log)) (e ∙ sym signed.1) f,
                    )
              ]
        refl

  pub broadcast-slot : (d : SlotData) (h : Option ℕ) → bid_slot (broadcast x chain d h) ≡ d.bid_slot
  unfolding bid_slot
  broadcast-slot d none = refl
  broadcast-slot d (some h) = refl

  pub try_unblind-Inv :
      (p : Option PendingPayload) (d : SlotData) (c : Context) (log : Log)
      → Inv (sorting d, c, log)
      → let (h, c', log') = try_unblind x p d (c, log) in Inv (broadcast x chain d h, c', log')
  unfolding try_unblind bid_slot
  try_unblind-Inv none d c log i = i
  try_unblind-Inv (some p) d c log (a, b, f) =
      elim (Option-cases (get ℕ_discrete p.block_hash c.validator.payloads)) [
        | inl e ↦ rw (e, try_unblind) (a, b, f)
        | inr (local, e) ↦
            rw (e, try_unblind)
              (
                a ∙ sym (broadcast-slot d _),
                b ∙ sym (broadcast-slot d _),
                handle_get_payload-slots c.validator.bid_slot (payload_and_blobs local) p.blinded
                    p.res_tx d log (sym a) f,
              )
      ]

  pub on_get_payload-Inv :
      (blinded : BlindedBlock) (hash res_tx : ℕ) (s : State) (c : Context) (log : Log)
      → Inv (s, c, log)
      → Inv (on_get_payload x chain blinded hash res_tx (s, c, log))
        × (bid_slot (on_get_payload x chain blinded hash res_tx (s, c, log)).0 ≡ bid_slot s)
  unfolding on_get_payload bid_slot
  on_get_payload-Inv blinded hash res_tx (waiting slot reg m il) c log i = (i, refl)
  on_get_payload-Inv blinded hash res_tx (broadcasting d h) c log i = (i, refl)
  on_get_payload-Inv blinded hash res_tx (sorting d) c log (a, b, f) =
      elim (Option-cases (get ℕ_discrete hash c.validator.payloads)) [
        | inl e ↦
            rw (e, on_get_payload)
              (elim (Option-cases c.pending_payload) [
                | inl q ↦ rw (q, on_get_payload) ((a, b, f), refl)
                | inr (p, q) ↦ rw (q, on_get_payload) ((a, b, f), refl)
              ])
        | inr (local, e) ↦
            rw (e, on_get_payload)
              (
                (
                  a ∙ sym (broadcast-slot d _),
                  b ∙ sym (broadcast-slot d _),
                  handle_get_payload-slots c.validator.bid_slot (payload_and_blobs local) blinded
                      res_tx d log (sym a) f,
                ),
                broadcast-slot d _,
              )
      ]

  pub handle_gossip_payload-slots :
      (g : BroadcastPayloadParams) (d : SlotData) (c : Context)
      → ((handle_gossip_payload g d c).validator.bid_slot ≡ c.validator.bid_slot)
        × ((handle_gossip_payload g d c).bid_sorter ≡ c.bid_sorter)
  unfolding handle_gossip_payload
  handle_gossip_payload-slots g d c = ground arith

  pub on_gossip_payload-Inv :
      (g : BroadcastPayloadParams) (s : State) (c : Context) (log : Log)
      → Inv (s, c, log)
      → Inv (on_gossip_payload x chain g (s, c, log))
        × (bid_slot (on_gossip_payload x chain g (s, c, log)).0 ≡ bid_slot s)
  unfolding on_gossip_payload maybe_start_broadcasting maybe_try_unblind bid_slot
  on_gossip_payload-Inv g (waiting slot reg m il) c log i = (i, refl)
  on_gossip_payload-Inv g (broadcasting d h) c log i = (i, refl)
  on_gossip_payload-Inv g (sorting d) c log (a, b, f) =
      let (same, sorter) = handle_gossip_payload-slots g d c in
      (
        try_unblind-Inv (handle_gossip_payload g d c).pending_payload d
            (handle_gossip_payload g d c) log
            (same ∙ a, ap (λ (t : BidSorter). t.curr_bid_slot) sorter ∙ b, f),
        broadcast-slot d _,
      )

  pub more_slot_data-slot :
      (d : SlotData) (updates : List PayloadAttributesUpdate) (il : Option ℕ)
      → (more_slot_data x chain d updates il).bid_slot ≡ d.bid_slot
  unfolding more_slot_data
  more_slot_data-slot d updates il = ground arith
