-- ===== src/Auctioneer/Header/History.antt =====
-- get_header.rs, mod.rs: every history of submissions, results of simulations, gossiped payloads, merged
-- blocks, requests and new slots.
use helix.Base.{
  ℕ, ◌≡◌, subst, inl, inr, Bool, Option, some, List, [], ◌∷◌, arith, ◌>>=◌, >>=-eq-some,
}
use helix.Base.Map.{Map}
use helix.Types.Payload.{Externals}
use helix.Auctioneer.BidSorter.{Producers}
use helix.Auctioneer.BlockMerger.{
  BlockMergingConfig, BlockMerger, BlockMergeResponse, handle_merge_response,
}
use helix.Auctioneer.Slot.{SlotData, SubmissionData, PayloadEntry}
use helix.Auctioneer.Validation.{Chain, BuilderInfo}
use helix.Auctioneer.Context.{Context, BroadcastPayloadParams, start_slot, handle_gossip_payload}
use mathlib.Core.Option.{some-injective}
use helix.Auctioneer.Submit.{Gate, handle_submission}
use helix.Auctioneer.Simulation.{SimulationResult, Simulated, on_sim_result}
use helix.Auctioneer.Simulation.Sorted.{on_sim_result-Inv}
use helix.Auctioneer.State.{initial_context}
use helix.Auctioneer.Header.{GetHeaderParams, on_get_header}
use helix.Auctioneer.Header.Held.{IsHeld, handle_merge_response-Held}
use helix.Auctioneer.Header.Served.{on_get_header-Outcome}
use helix.Auctioneer.Header.Ready.{
  Ready, start_slot-Ready, handle_gossip_payload-Ready, handle_submission-Ready,
}
use helix.Auctioneer.Header.Requests.{on_get_header-Ready, served-IsHeld}

pub data Call : Type 0 where
  submits : ℕ → ℕ → Gate → SubmissionData → BuilderInfo → SlotData → Call
  simulates : ℕ → ℕ → Map ℕ BuilderInfo → SlotData → Option SimulationResult → Call
  gossips : BroadcastPayloadParams → SlotData → Call
  merges : BlockMergingConfig → Map ℕ BuilderInfo → BlockMergeResponse → Call
  asks : BlockMergingConfig → Bool → GetHeaderParams → SlotData → Call
  starts : ℕ → Call

abbrev pub merge : Map ℕ PayloadEntry × BlockMerger → Context → Context
merge (payloads, m) c = record c {
  validator = record c.validator { payloads = payloads };
  block_merger = m;
}

-- The auction with the builders' entries of the cache, before and after a simulation's result.
abbrev pub simulated : Map ℕ BuilderInfo → Context × Producers → Simulated
simulated builders (c, out) = record {
  sorter = c.bid_sorter;
  producers = out;
  builders = builders;
  answers = [];
}

module _ (x : Externals) (chain : Chain) where
  -- `none` if the call panics.
  unfoldable pub call : Call → Context × Producers → Option (Context × Producers)
  call (submits now latency gate sub info d) s = do
    r ← handle_submission x chain now latency gate sub info d s
    some r.0
  call (simulates now latency builders d r) (c, out) = do
    t ← on_sim_result now latency d.bid_slot r (simulated builders (c, out))
    some (record c { bid_sorter = t.sorter }, t.producers)
  call (gossips g d) (c, out) = some (handle_gossip_payload g d c, out)
  call (merges config builders r) (c, out) = some (
    merge (handle_merge_response x config builders r (c.validator.payloads, c.block_merger)) c,
    out,
  )
  call (asks config enabled p d) (c, out) = do
    r ← on_get_header config enabled p d c
    some (r.1, out)
  call (starts slot) (c, out) = some ((start_slot slot (c, [])).0, out)

  -- The calls of a history stand oldest first.
  unfoldable pub run : List Call → Context × Producers → Option (Context × Producers)
  unfolding call
  run [] s = some s
  run (c ∷ cs) s = do s' ← call c s; run cs s'

module _ (x : Externals) (chain : Chain) where
  call-Ready :
      (call1 : Call) (s s' : Context × Producers)
      → Ready s.0
      → call x chain call1 s ≡ some s'
      → Ready s'.0
  unfolding call
  call-Ready (submits now latency gate sub info d) (c, out) s' i e =
      let (r, handled, done) =
        >>=-eq-some (handle_submission x chain now latency gate sub info d (c, out)) _ e in
      subst (λ (s : Context × Producers). Ready s.0) (some-injective _ _ done)
        (handle_submission-Ready x chain now latency gate sub info d c out r i handled)
  call-Ready (simulates now latency builders d r) (c, out) s' i e =
      let s0 = simulated builders (c, out) in
      let (t, handled, done) = >>=-eq-some (on_sim_result now latency d.bid_slot r s0) _ e in
      subst (λ (s : Context × Producers). Ready s.0) (some-injective _ _ done)
        (on_sim_result-Inv now latency d.bid_slot r s0 t i.0 handled, i.1)
  call-Ready (gossips g d) (c, out) s' i e =
      subst (λ (s : Context × Producers). Ready s.0) (some-injective _ _ e)
        (handle_gossip_payload-Ready g d c i)
  call-Ready (merges config builders r) (c, out) s' i e =
      subst (λ (s : Context × Producers). Ready s.0) (some-injective _ _ e)
        (
          i.0,
          handle_merge_response-Held x config builders r c.validator.payloads c.block_merger i.1,
        )
  call-Ready (asks config enabled p d) (c, out) s' i e =
      let (r, served, done) = >>=-eq-some (on_get_header config enabled p d c) _ e in
      subst (λ (s : Context × Producers). Ready s.0) (some-injective _ _ done)
        (on_get_header-Ready config enabled p d c r i served)
  call-Ready (starts slot) (c, out) s' i e =
      subst (λ (s : Context × Producers). Ready s.0) (some-injective _ _ e)
        (start_slot-Ready slot c i)

  run-Ready :
      (calls : List Call) (s s' : Context × Producers)
      → Ready s.0
      → run x chain calls s ≡ some s'
      → Ready s'.0
  unfolding run
  run-Ready [] s s' i e = subst (λ (s : Context × Producers). Ready s.0) (some-injective _ _ e) i
  run-Ready (c ∷ cs) s s' i e =
      let (t, called, rest) = >>=-eq-some (call x chain c s) _ e in
      run-Ready cs t s' (call-Ready c s t i called) rest

-- After any history of submissions, results of simulations, gossiped payloads, merged blocks, requests
-- for headers and new slots that does not panic, and for a request with the data of the context's slot,
-- a payload with the block hash of the header that is served, be it a builder's block or a merged one,
-- is stored under that hash, where `get_payload` looks for it.
pub run-IsHeld :
    (x : Externals) (chain : Chain) (calls : List Call) (c c' : Context) (out : Producers)
    (config : BlockMergingConfig) (enabled : Bool) (p : GetHeaderParams) (d : SlotData)
    (e : PayloadEntry)
    → run x chain calls (initial_context, []) ≡ some (c, out)
    → d.bid_slot ≡ c.validator.bid_slot
    → on_get_header config enabled p d c ≡ some (inr e, c')
    → IsHeld c.validator.payloads e
run-IsHeld x chain calls c c' out config enabled p d e ran agree answer =
    let (i, h) =
      run-Ready x chain calls (initial_context, []) (c, out)
        (tt, record { keyed = tt; merged = tt }) ran in
    let (r, c1, answered, outcome, _) = on_get_header-Outcome config enabled p d c i agree in
    let same : r ≡ inr e = ground (arith, answered, answer) in
    elim outcome [
      | inl (refused, _) ↦ absurd (ground (arith, same, refused))
      | inr (inl (refused, _)) ↦ absurd (ground (arith, same, refused))
      | inr (inr (f, served, which)) ↦
          let f_e : f ≡ e = ground (arith, same, served) in
          subst (IsHeld c.validator.payloads) f_e (served-IsHeld config enabled p d c f h which)
    ]
