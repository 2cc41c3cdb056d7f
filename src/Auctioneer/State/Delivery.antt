-- ===== src/Auctioneer/State/Delivery.antt =====
-- mod.rs: over any sequence of events, the slot of the state never goes back, and the relay gives out
-- one payload in a slot at most.
use helix.Base.{
  ℕ, suc, ◌≤◌, ◌≡◌, refl, sym, subst, ◌∙◌, Bool, true, false, Option, none, some, List, [], ◌∷◌,
  ◌==◌, ltb, if◌then◌else◌, arith,
}
use helix.Types.Payload.{Externals}
use helix.Auctioneer.Gloas.{Reveal}
use helix.Auctioneer.Slot.{GloasBidSubmission, PayloadAttributesUpdate, SlotDuty}
use helix.Auctioneer.Validation.{Chain}
use helix.Auctioneer.Context.{Log, Context}
use helix.Auctioneer.State.{
  State, waiting, sorting, broadcasting, Event, slot_data, get_payload, gossip_payload,
  submit_builder_preferences, gloas_block, attestation_deadline, Auctioneer, bid_slot, begin_slot,
  on_slot_data, on_preferences, log_reveal, or_else, step, initial,
}
use helix.Auctioneer.State.Serving.{
  delivered_slots, FallsBelow, FallsBelow-weaken, limit, Inv, process_slot_data-slot,
  begin_slot-Inv, on_get_payload-Inv, on_gossip_payload-Inv, more_slot_data-slot,
}

module _ (x : Externals) (chain : Chain) where
  -- The event keeps the invariant, and the slot does not go back.
  abbrev Kept : Auctioneer → Auctioneer → Type 0
  Kept a b = Inv b × (bid_slot a.0 ≤ bid_slot b.0)

  Kept-if :
      (b : Bool) (a t e : Auctioneer)
      → (b ≡ true → Kept a t)
      → (b ≡ false → Kept a e)
      → Kept a (if b then t else e)
  Kept-if true a t e f g = f refl
  Kept-if false a t e f g = g refl

  begin_slot-Kept :
      (slot : ℕ) (reg : Option SlotDuty) (updates : List PayloadAttributesUpdate) (il : Option ℕ)
      (s : State) (c : Context) (log : Log)
      → limit s ≤ slot
      → bid_slot s ≤ limit s
      → Inv (s, c, log)
      → Kept (s, c, log) (begin_slot x chain slot reg updates il (s, c, log))
  begin_slot-Kept slot reg updates il s c log h l i =
      let (j, e) = begin_slot-Inv x chain slot reg updates il s c log h i in (j, omega (arith, e))

  on_slot_data-Kept :
      (slot : ℕ) (reg : Option SlotDuty) (updates : List PayloadAttributesUpdate) (il : Option ℕ)
      (s : State) (c : Context) (log : Log)
      → Inv (s, c, log)
      → Kept (s, c, log) (on_slot_data x chain slot reg updates il (s, c, log))
  unfolding on_slot_data bid_slot
  on_slot_data-Kept slot reg updates il (waiting curr old m curr_il) c log (a, b, f) =
      Kept-if (ltb slot curr) (waiting curr old m curr_il, c, log) _ _
        (λ _. ((a, b, f), omega arith))
        (λ le.
          Kept-if (slot == curr) (waiting curr old m curr_il, c, log) _ _
            (λ same.
              let (p, q) =
                process_slot_data-slot x chain slot m (or_else old reg) updates
                  (or_else curr_il il) in
              let e : slot ≡ curr = ground arith in
              (
                (
                  a ∙ sym e ∙ sym p,
                  b ∙ sym e ∙ sym p,
                  rw q (subst (λ n. FallsBelow n (delivered_slots log)) (sym e) f),
                ),
                omega (arith, p, e),
              ))
            (λ other.
              begin_slot-Kept slot reg updates il (waiting curr old m curr_il) c log (ground arith)
                (omega arith) (a, b, f)))
  on_slot_data-Kept slot reg updates il (sorting d) c log (a, b, f) =
      Kept-if (ltb slot d.bid_slot) (sorting d, c, log) _ _ (λ _. ((a, b, f), omega arith))
        (λ le.
          Kept-if (slot == d.bid_slot) (sorting d, c, log) _ _
            (λ same.
              let e = more_slot_data-slot x chain d updates il in
              (
                (a ∙ sym e, b ∙ sym e, subst (λ n. FallsBelow n (delivered_slots log)) (sym e) f),
                omega (arith, e),
              ))
            (λ other.
              begin_slot-Kept slot reg updates il (sorting d) c log (ground arith) (omega arith)
                (a, b, f)))
  on_slot_data-Kept slot reg updates il (broadcasting d h) c log i =
      Kept-if (ltb d.bid_slot slot) (broadcasting d h, c, log) _ _
        (λ more.
          begin_slot-Kept slot reg updates il (broadcasting d h) c log (ground arith) (omega arith)
            i)
        (λ _. (i, omega arith))

  on_preferences-Kept :
      (pubkey slot payment res_tx : ℕ) (s : State) (c : Context) (log : Log)
      → Inv (s, c, log)
      → Kept (s, c, log) (on_preferences x chain pubkey slot payment res_tx (s, c, log))
  unfolding on_preferences
  on_preferences-Kept pubkey slot payment res_tx s c log i =
      Kept-if (ltb slot (bid_slot s)) (s, c, log) _ _ (λ _. (i, omega arith))
        (λ _. (i, omega arith))

  log_reveal-slots :
      (slot : ℕ) (r : Option (Reveal GloasBidSubmission)) (log : Log)
      → delivered_slots (log_reveal slot r log) ≡ delivered_slots log
  log_reveal-slots slot none log = refl
  log_reveal-slots slot (some r) log = refl

  step-Kept : (e : Event) (a : Auctioneer) → Inv a → Kept a (step x chain e a)
  unfolding step
  step-Kept (slot_data slot reg updates il) (s, c, log) i =
      on_slot_data-Kept slot reg updates il s c log i
  step-Kept (get_payload blinded hash res_tx) (s, c, log) i =
      let (j, e) = on_get_payload-Inv x chain blinded hash res_tx s c log i in (j, omega (arith, e))
  step-Kept (gossip_payload g) (s, c, log) i =
      let (j, e) = on_gossip_payload-Inv x chain g s c log i in (j, omega (arith, e))
  step-Kept (submit_builder_preferences pubkey slot payment res_tx) (s, c, log) i =
      on_preferences-Kept pubkey slot payment res_tx s c log i
  step-Kept (gloas_block slot seen) (s, c, log) i = (i, omega arith)
  step-Kept (attestation_deadline slot head_root identity) (s, c, log) (a, b, f) =
      ((a, b, rw (log_reveal-slots slot _ log) f), omega arith)

  unfoldable pub run : List Event → Auctioneer → Auctioneer
  run [] a = a
  run (e ∷ es) a = run es (step x chain e a)

  run-Kept : (es : List Event) (a : Auctioneer) → Inv a → Kept a (run es a)
  unfolding run
  run-Kept [] a i = (i, omega arith)
  run-Kept (e ∷ es) a i =
      let (j, l) = step-Kept e a i in
      let (k, m) = run-Kept es (step x chain e a) j in (k, omega (arith, l, m))

initial-Inv : Inv initial
unfolding bid_slot
initial-Inv = (refl, refl, tt)

limit-le : (s : State) → limit s ≤ suc (bid_slot s)
unfolding bid_slot
limit-le (waiting slot reg m il) = omega arith
limit-le (sorting d) = omega arith
limit-le (broadcasting d h) = omega arith

-- After any sequence of the modelled events, however they are ordered, the slots for which payloads
-- were given out fall strictly from the newest to the oldest, so that no slot has two, and none is
-- later than the slot of the state; the state, the context and the bid sorter are at the same slot; and
-- further events never take it back.
pub run-delivered :
    (x : Externals) (chain : Chain) (es fs : List Event)
    → let (s, c, log) = run x chain es initial in
      FallsBelow (suc (bid_slot s)) (delivered_slots log)
      × (c.validator.bid_slot ≡ bid_slot s)
      × (c.bid_sorter.curr_bid_slot ≡ bid_slot s)
      × (bid_slot s ≤ bid_slot (run x chain fs (run x chain es initial)).0)
run-delivered x chain es fs =
    let a = run x chain es initial in
    let ((u, v, f), l) = run-Kept x chain es initial initial-Inv in
    (
      FallsBelow-weaken (limit a.0) (suc (bid_slot a.0)) (delivered_slots a.2) (limit-le a.0) f,
      u,
      v,
      (run-Kept x chain fs a (u, v, f)).1,
    )
