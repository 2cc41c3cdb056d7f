-- ===== src/Auctioneer/Gloas.antt =====
-- crates/relay/src/auctioneer/gloas_payload.rs and builder_identity.rs: whether the relay reveals its
-- payload at the attestation deadline of a slot. What is revealed is built and signed outside the
-- auctioneer's state, so a reveal is what it is built from.
use helix.Base.{
  ℕ, ◌-◌, ◌^◌, ◌≡◌, ◌≢◌, refl, ap, ◌∙◌, ◌↔◌, true, false, Option, none, some, List, [], ◌∷◌, ◌==◌,
  if◌then◌else◌, arith,
}
use helix.Auctioneer.SeenBlocks.{SeenBlock, SeenBlocks, decide}
use helix.Auctioneer.SeenBlocks.History.{Call, run, is_closed, seen_in, run-decide}
use helix.Auctioneer.Payloads.{PayloadStore, get_for_reveal}

-- `UNRESOLVED_BUILDER_INDEX`, u64::MAX.
abbrev pub unresolved_builder_index : ℕ
unresolved_builder_index = 2 ^ 64 - 1

-- `GloasBuilderIdentity::builder_index`, of what the atomic holds.
unfoldable pub builder_index : ℕ → Option ℕ
builder_index index = if index == unresolved_builder_index then none else some index

-- `GloasBuilderIdentity::set_builder_index`: what the atomic holds after it.
unfoldable pub set_builder_index : Option ℕ → ℕ
set_builder_index none = unresolved_builder_index
set_builder_index (some index) = index

-- What the relay reads back is what the chain says its index is, unless that is the largest u64.
set_builder_index-builder_index :
    (o : Option ℕ) → o ≢ some unresolved_builder_index → builder_index (set_builder_index o) ≡ o
unfolding builder_index set_builder_index
set_builder_index-builder_index o h = ground arith

-- The block whose bid is fulfilled, the relay's index in it, and the payload.
pub record Reveal (T : Type 0) : Type 0 where
  pub builder_index : ℕ
  pub block : SeenBlock
  pub entry : T

module _ {T : Type 0} where
  -- After `decide`: `none` is every early return of `handle_attestation_deadline`.
  unfoldable pub reveal_decision :
      List SeenBlock → Option ℕ → ℕ → PayloadStore T → Option (Reveal T)
  reveal_decision (block ∷ []) (some index) head_root payloads =
      if block.bid_builder_index == index
      then if block.block_root == head_root
        then elim (get_for_reveal block.bid_block_hash payloads) [
          | none ↦ none
          | some entry ↦ some (record { builder_index = index; block = block; entry = entry })
        ]
        else none
      else none
  reveal_decision _ _ head_root payloads = none

  unfoldable pub handle_attestation_deadline :
      ℕ → ℕ → ℕ → PayloadStore T → SeenBlocks → SeenBlocks × Option (Reveal T)
  handle_attestation_deadline slot head_root identity payloads seen =
      let (seen', blocks) = decide slot seen in
      (seen', reveal_decision blocks (builder_index identity) head_root payloads)

  -- The block is the only one of the slot, it is the head, it names the relay's own bid, and the
  -- relay holds the payload.
  abbrev pub Justified : List SeenBlock → Option ℕ → ℕ → PayloadStore T → Reveal T → Type 0
  Justified blocks ours head_root payloads r =
      (blocks ≡ r.block ∷ [])
      × (r.block.block_root ≡ head_root)
      × (ours ≡ some r.builder_index)
      × (r.block.bid_builder_index ≡ r.builder_index)
      × (get_for_reveal r.block.bid_block_hash payloads ≡ some r.entry)

  reveal_decision-Justified :
      (blocks : List SeenBlock) (ours : Option ℕ) (head_root : ℕ) (payloads : PayloadStore T)
      (r : Reveal T)
      → reveal_decision blocks ours head_root payloads ≡ some r
      → Justified blocks ours head_root payloads r
  unfolding reveal_decision
  reveal_decision-Justified [] ours head_root payloads r e = cc
  reveal_decision-Justified (b ∷ []) none head_root payloads r e = cc
  reveal_decision-Justified (b ∷ []) (some index) head_root payloads r e = ground arith
  reveal_decision-Justified (b ∷ c ∷ cs) ours head_root payloads r e = cc

  Justified-reveal_decision :
      (blocks : List SeenBlock) (ours : Option ℕ) (head_root : ℕ) (payloads : PayloadStore T)
      (r : Reveal T)
      → Justified blocks ours head_root payloads r
      → reveal_decision blocks ours head_root payloads ≡ some r
  unfolding reveal_decision
  Justified-reveal_decision [] ours head_root payloads r j = absurd (cc j.0)
  Justified-reveal_decision (b ∷ []) none head_root payloads r j = absurd (cc j.2)
  Justified-reveal_decision (b ∷ []) (some index) head_root payloads r j = ground arith
  Justified-reveal_decision (b ∷ c ∷ cs) ours head_root payloads r j = absurd (cc j.0)

  handle-reveal :
      (cs : List Call) (slot head_root identity : ℕ) (payloads : PayloadStore T)
      → (handle_attestation_deadline slot head_root identity payloads (run cs)).1 ≡ (
          if is_closed slot cs
          then none
          else reveal_decision (seen_in slot cs) (builder_index identity) head_root payloads)
  unfolding handle_attestation_deadline reveal_decision
  handle-reveal cs slot head_root identity payloads =
      ap (λ blocks. reveal_decision blocks (builder_index identity) head_root payloads)
        (run-decide cs slot)
      ∙ (elim (is_closed slot cs)
          as (λ closed.
            reveal_decision (if closed then [] else seen_in slot cs) (builder_index identity)
              head_root payloads
            ≡ (if closed
                then none
                else reveal_decision (seen_in slot cs) (builder_index identity) head_root
                    payloads)) [ true ↦ refl | false ↦ refl ])

  -- After any history of blocks and deadlines, the deadline of a slot reveals a payload if and only if
  -- no deadline as late was handled, blocks with exactly one root came for the slot, that block is the
  -- head and names the relay's own resolved index, and the relay holds the payload of its bid: then it
  -- reveals that payload, for that block.
  pub run-reveal :
      (cs : List Call) (slot head_root identity : ℕ) (payloads : PayloadStore T) (r : Reveal T)
      → ((handle_attestation_deadline slot head_root identity payloads (run cs)).1 ≡ some r) ↔ (
          (is_closed slot cs ≡ false)
          × Justified (seen_in slot cs) (builder_index identity) head_root payloads r)
  run-reveal cs slot head_root identity payloads r =
      rw (handle-reveal cs slot head_root identity payloads)
        (elim (is_closed slot cs)
          as (λ closed.
            ((if closed
                then none
                else reveal_decision (seen_in slot cs) (builder_index identity) head_root payloads)
              ≡ some r)
            ↔ ((closed ≡ false)
                × Justified (seen_in slot cs) (builder_index identity) head_root payloads r)) [
                  | true ↦ (λ e. cc, λ j. cc)
                  | false ↦ (
                    λ e. (refl, reveal_decision-Justified _ _ head_root payloads r e),
                    λ j. Justified-reveal_decision _ _ head_root payloads r j.1,
                  )
                ])
