-- ===== src/TcpBids/Loop.antt =====
-- crates/relay/src/tcp_bid_recv/mod.rs: the passes of the loop of `BidSubmissionTcpListener`, with the
-- timeouts, the dropped peers and the answers.
use helix.Base.{
  ℕ, ◌-◌, Option, none, some, List, [], ◌∷◌, ◌++◌, ◌==◌, ltb, leb, if◌then◌else◌, ℕ_discrete,
}
use helix.Base.Map.{remove}
use helix.TcpBids.Listener.{
  ListenerExternals, ApiKeyCache, Listener, Stats, no_stats, inc, SubmissionError,
  NewTcpBidSubmission, tcp_ref, Outgoing, disconnect, send_with, response_from_bid_submission_error,
  response_from_submission_result, SubmissionRef, Status,
}
use helix.TcpBids.Poll.{NetworkEvent, on_event}

pub record SubmissionResultWithRef : Type 0 where
  pub sub_ref : SubmissionRef
  pub submission_id : ℕ
  pub tcp_status : Status
  pub error_msg : List ℕ

-- The peers that have been pending for longer than the timeout, and the others.
unfoldable pub expire : ℕ → ℕ → List (ℕ × ℕ) → List ℕ × List (ℕ × ℕ)
expire timeout now [] = ([], [])
expire timeout now ((t, at) ∷ ps) =
    let rest = expire timeout now ps in
    if ltb timeout (now - at) then (t ∷ rest.0, rest.1) else ([], (t, at) ∷ ps)

-- `registration_timeouts += 1`, once for each.
unfoldable pub count_timeouts : List ℕ → Stats → Stats
count_timeouts [] s = s
count_timeouts (t ∷ ts) s =
    count_timeouts ts (record s { registration_timeouts = inc s.registration_timeouts })

unfoldable pub drop_expired : ℕ → Listener → Listener
unfolding expire count_timeouts
drop_expired now l =
    let e = expire l.registration_timeout now l.pending in
    record l {
      pending = e.1;
      stats = count_timeouts e.0 l.stats;
      to_disconnect = l.to_disconnect ++ e.0;
    }

abbrev pub disconnect_all : List ℕ → Listener → Listener
disconnect_all [] l = l
disconnect_all (t ∷ ts) l = disconnect_all ts (record l {
  registered = remove ℕ_discrete t l.registered;
  outputs = l.outputs ++ (disconnect t ∷ []);
})

unfoldable pub drain_disconnects : Listener → Listener
drain_disconnects l = let l' = disconnect_all l.to_disconnect l in record l' { to_disconnect = [] }

abbrev pub error_outputs : List SubmissionError → List Outgoing
error_outputs [] = []
error_outputs (e ∷ es) =
    send_with e.token (response_from_bid_submission_error e.seq_num e.request_id e.error)
    ∷ error_outputs es

unfoldable pub drain_errors : Listener → Listener
drain_errors l = record l {
  submission_errors = [];
  outputs = l.outputs ++ error_outputs l.submission_errors;
}

-- A result of a submission that came over TCP goes back over its connection.
unfoldable pub send_result : SubmissionResultWithRef → Listener → Listener
send_result r l = elim r.sub_ref.kind [
  | tcp_ref ↦ record l {
    stats = record l.stats { results_sent = inc l.stats.results_sent };
    outputs =
        l.outputs
        ++ (send_with r.sub_ref.id (
              response_from_submission_result r.sub_ref.seq_num r.submission_id r.tcp_status
                r.error_msg)
            ∷ []);
  }
  | _ ↦ l
]

-- `report_slot_stats`: the counters start again, except before the first slot.
abbrev pub report_slot_stats : Listener → Listener
report_slot_stats l = if l.bid_slot == 0 then l else record l { stats = no_stats }

-- `on_slot_msg`, with the bid slot of the update, if the update is found.
unfoldable pub listener_slot_msg : Option ℕ → Listener → Listener
listener_slot_msg none l = l
listener_slot_msg (some slot) l =
    if leb slot l.bid_slot then l else record (report_slot_stats l) { bid_slot = slot }

-- One pass of the loop: the slot updates, the frames with the API keys at that moment, the instant at
-- which the timeouts are checked (the clock is read once for all peers), and the results of submissions.
pub record Pass : Type 0 where
  pub slots : List (Option ℕ)
  pub events : List (ApiKeyCache × NetworkEvent)
  pub now : ℕ
  pub results : List SubmissionResultWithRef

unfoldable pub on_slots : List (Option ℕ) → Listener → Listener
on_slots [] l = l
on_slots (m ∷ ms) l = on_slots ms (listener_slot_msg m l)

unfoldable pub on_results : List SubmissionResultWithRef → Listener → Listener
on_results [] l = l
on_results (r ∷ rs) l = on_results rs (send_result r l)

abbrev pub produced : Option NewTcpBidSubmission → List NewTcpBidSubmission
produced none = []
produced (some s) = s ∷ []

-- `poll_with_produce`, with what is produced.
unfoldable pub poll :
    ListenerExternals
    → List (ApiKeyCache × NetworkEvent)
    → Listener
    → Listener × List NewTcpBidSubmission
unfolding on_event
poll x [] l = (l, [])
poll x ((keys, e) ∷ es) l =
    let r = on_event x keys e l in let rest = poll x es r.0 in (rest.0, produced r.1 ++ rest.1)

-- `loop_body`.
unfoldable pub loop_body : ListenerExternals → Pass → Listener → Listener × List NewTcpBidSubmission
unfolding poll drop_expired drain_disconnects drain_errors
loop_body x p l =
    let r = poll x p.events (on_slots p.slots l) in
    (on_results p.results (drain_errors (drain_disconnects (drop_expired p.now r.0))), r.1)

-- The passes stand oldest first.
unfoldable pub passes :
    ListenerExternals → List Pass → Listener → Listener × List NewTcpBidSubmission
unfolding loop_body
passes x [] l = (l, [])
passes x (p ∷ ps) l =
    let r = loop_body x p l in let rest = passes x ps r.0 in (rest.0, r.1 ++ rest.1)
