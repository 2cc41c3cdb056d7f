-- ===== src/Simulator/Queue.antt =====
-- crates/relay/src/simulator/mod.rs, `PendingRequests` and `PendingMergeRequests`: the requests that wait
-- for a node.
use helix.Base.{
  ℕ, zero, suc, ◌+◌, Bool, true, false, ◌&&◌, Option, none, some, List, [], ◌∷◌, ◌++◌, ◌==◌, ltb,
  leb, length, if◌then◌else◌,
}
use helix.Types.SubmissionVersion.{SubmissionVersion, gt}
use helix.Auctioneer.BlockMerger.{BlockMergeResponse}
use helix.Simulator.Request.{ValidationRequest, MergedValidationRequest, sort_key, key_ge}
use helix.Simulator.Entry.{max}
pub mod Order
pub mod History

pub record QueueKey : Type 0 where
  pub parent_hash : ℕ
  pub builder_pubkey : ℕ

unfoldable pub key_eq : QueueKey → QueueKey → Bool
key_eq a b = a.parent_hash == b.parent_hash && a.builder_pubkey == b.builder_pubkey

pub record LocalTelemetry : Type 0 where
  pub sims_reqs : ℕ
  pub sims_sent_immediately : ℕ
  pub sims_reqs_dropped : ℕ
  pub max_pending : ℕ
  pub max_in_flight : ℕ
  pub sample_skipped : ℕ
  pub duplicate_skipped : ℕ
  pub queued : ℕ
  pub sims_sent_from_queue : ℕ
  pub superseded : ℕ
  pub superseded_sent : ℕ

abbrev pub Waiting : Type 0
Waiting = ValidationRequest × QueueKey × SubmissionVersion

-- The queue with the request in the place of the first one under its key, and the request that lost;
-- `none` if no request has the key.
unfoldable pub replace :
    ValidationRequest
    → QueueKey
    → SubmissionVersion
    → List Waiting
    → Option (List Waiting × ValidationRequest)
replace req key version [] = none
replace req key version ((r, k, v) ∷ reqs) =
    let rest = replace req key version reqs in
    if key_eq k key
    then (if gt version v then some ((req, k, version) ∷ reqs, r) else some ((r, k, v) ∷ reqs, req))
    else elim rest [ none ↦ none | some (reqs', dropped) ↦ some ((r, k, v) ∷ reqs', dropped) ]

-- `PendingRequests::store`: the request that is dropped, if one is.
unfoldable pub store_request :
    ValidationRequest
    → QueueKey
    → SubmissionVersion
    → List Waiting × LocalTelemetry
    → (List Waiting × LocalTelemetry) × Option ValidationRequest
store_request req key version (reqs, t) = elim (replace req key version reqs) [
  | some (reqs', dropped) ↦
      ((reqs', record t { sims_reqs_dropped = t.sims_reqs_dropped + 1 }), some dropped)
  | none ↦
      let reqs' = reqs ++ (req, key, version) ∷ [] in
      ((reqs', record t { max_pending = max t.max_pending (length reqs') }), none)
]

-- `max_by_key`: the last of the greatest, with its index.
unfoldable pub greatest : List Waiting → Option (ℕ × Waiting)
greatest [] = none
greatest (w ∷ reqs) = elim (greatest reqs) [
  | none ↦ some (0, w)
  | some (j, u) ↦ if key_ge (sort_key u.0) (sort_key w.0) then some (suc j, u) else some (0, w)
]

-- `Vec::swap_remove`: the last one takes the place.
unfoldable pub last_of {ℓ} : {A : Type ℓ} → A → List A → A
last_of x [] = x
last_of x (y ∷ ys) = last_of y ys

unfoldable pub but_last {ℓ} : {A : Type ℓ} → A → List A → List A
but_last x [] = []
but_last x (y ∷ ys) = x ∷ but_last y ys

unfoldable pub swap_remove {ℓ} : {A : Type ℓ} → ℕ → List A → List A
swap_remove i [] = []
swap_remove zero (x ∷ []) = []
swap_remove zero (x ∷ y ∷ xs) = last_of y xs ∷ but_last y xs
swap_remove (suc i) (x ∷ xs) = x ∷ swap_remove i xs

-- `PendingRequests::next_req`.
unfoldable pub next_req : List Waiting → List Waiting × Option ValidationRequest
next_req reqs = elim (greatest reqs) [
  | none ↦ (reqs, none)
  | some (i, w) ↦ (swap_remove i reqs, some w.0)
]

abbrev pub Merging : Type 0
Merging = MergedValidationRequest × BlockMergeResponse

-- `PendingMergeRequests::store`, the queue after it: the newest request for each base block.
unfoldable pub store_merge :
    MergedValidationRequest → BlockMergeResponse → List Merging → List Merging
store_merge req response [] = (req, response) ∷ []
store_merge req response ((r, old) ∷ reqs) =
    let rest = store_merge req response reqs in
    if r.base_block_hash == req.base_block_hash
    then (if ltb r.receive_ns req.receive_ns then (req, response) ∷ reqs else (r, old) ∷ reqs)
    else (r, old) ∷ rest

unfoldable pub newest : List Merging → Option (ℕ × Merging)
newest [] = none
newest (w ∷ reqs) = elim (newest reqs) [
  | none ↦ some (0, w)
  | some (j, u) ↦ if leb w.0.receive_ns u.0.receive_ns then some (suc j, u) else some (0, w)
]

-- `PendingMergeRequests::next_req`.
unfoldable pub next_merge : List Merging → List Merging × Option Merging
next_merge reqs = elim (newest reqs) [
  | none ↦ (reqs, none)
  | some (i, w) ↦ (swap_remove i reqs, some w)
]
