-- ===== src/TcpBids/Pending/Open.antt =====
-- Where the peers of the TCP listener are after the passes of its loop.
use helix.Base.{
  ℕ, ◌-◌, ◌≡◌, refl, sym, subst, ◌⊎◌, inl, inr, Bool, true, false, Option, none, some, List, [],
  ◌∷◌, ◌++◌, ◌==◌, ltb, Bool-cases, ℕ_discrete, arith,
}
use helix.Base.Map.{Map, get, remove, get-remove}
use helix.TcpBids.Listener.{
  ListenerExternals, ApiKeyCache, Listener, Outgoing, disconnect, send_with, Stats, inc,
  SubmissionRefKind, http_ref, tcp_ref, internal_ref, response_from_submission_result,
}
use helix.TcpBids.Poll.{NetworkEvent, on_event}
use helix.TcpBids.Loop.{
  SubmissionResultWithRef, Pass, on_slots, on_results, listener_slot_msg, send_result, poll,
  loop_body, passes, expire, drop_expired, drain_disconnects, drain_errors, disconnect_all,
  error_outputs,
}
use helix.TcpBids.Pending.Seats.{
  waits, is_listed, closes_peer, is_closed, HasSeat, any-append_left, any-append_right, opens,
  on_event-HasSeat,
}

-- The peer waits, is registered, or the sockets were asked to close its connection.
abbrev pub IsHeld : ℕ → Listener → Type 0
IsHeld t l =
    (waits t l.pending ≡ true)
    ⊎ ((key : ℕ) × (get ℕ_discrete t l.registered ≡ some key))
    ⊎ (is_closed t l.outputs ≡ true)

IsHeld-HasSeat : (t : ℕ) (l : Listener) → IsHeld t l → HasSeat t l
IsHeld-HasSeat t l (inl pending) = inl pending
IsHeld-HasSeat t l (inr (inl registered)) = inr (inl registered)
IsHeld-HasSeat t l (inr (inr closed)) = inr (inr (inr closed))

-- A peer that waits still does, or has waited for too long.
expire-waits :
    (t timeout now : ℕ) (ps : List (ℕ × ℕ))
    → waits t ps ≡ true
    → (waits t (expire timeout now ps).1 ≡ true) ⊎ (is_listed t (expire timeout now ps).0 ≡ true)
unfolding expire
expire-waits t timeout now [] e = absurd (ground (arith, e))
expire-waits t timeout now ((k, at) ∷ ps) e = elim (Bool-cases (ltb timeout (now - at))) [
  | inl old ↦ rw (old) (elim (Bool-cases (k == t)) [
    | inl same ↦ inr (ground (arith, same))
    | inr other ↦ elim (expire-waits t timeout now ps (ground (arith, e, other))) [
      | inl left ↦ inl left
      | inr gone ↦ inr (ground (arith, gone))
    ]
  ])
  | inr young ↦ rw (young) (inl e)
]

drop_expired-HasSeat : (t now : ℕ) (l : Listener) → HasSeat t l → HasSeat t (drop_expired now l)
unfolding drop_expired
drop_expired-HasSeat t now l (inl pending) =
    elim (expire-waits t l.registration_timeout now l.pending pending) [
      | inl left ↦ inl left
      | inr gone ↦ inr (
          inr (
            inl (
              any-append_right (λ k. k == t) l.to_disconnect
                (expire l.registration_timeout now l.pending).0 gone)))
    ]
drop_expired-HasSeat t now l (inr (inl registered)) = inr (inl registered)
drop_expired-HasSeat t now l (inr (inr (inl listed))) = inr (
    inr (
      inl (
        any-append_left (λ k. k == t) l.to_disconnect
          (expire l.registration_timeout now l.pending).0 listed)))
drop_expired-HasSeat t now l (inr (inr (inr closed))) = inr (inr (inr closed))

-- The peer is dropped next.
abbrev step : ℕ → Listener → Listener
step k l = record l {
  registered = remove ℕ_discrete k l.registered;
  outputs = l.outputs ++ (disconnect k ∷ []);
}

disconnect_all-is_closed :
    (t : ℕ) (ts : List ℕ) (l : Listener)
    → is_closed t l.outputs ≡ true
    → is_closed t (disconnect_all ts l).outputs ≡ true
disconnect_all-is_closed t [] l e = e
disconnect_all-is_closed t (k ∷ ts) l e =
    disconnect_all-is_closed t ts (step k l)
      (any-append_left (closes_peer t) l.outputs (disconnect k ∷ []) e)

step-is_closed : (t k : ℕ) (l : Listener) → (k == t) ≡ true → is_closed t (step k l).outputs ≡ true
step-is_closed t k l same =
    any-append_right (closes_peer t) l.outputs (disconnect k ∷ []) (ground (arith, same))

disconnect_all-listed :
    (t : ℕ) (ts : List ℕ) (l : Listener)
    → is_listed t ts ≡ true
    → is_closed t (disconnect_all ts l).outputs ≡ true
disconnect_all-listed t [] l e = absurd (ground (arith, e))
disconnect_all-listed t (k ∷ ts) l e = elim (Bool-cases (k == t)) [
  | inl same ↦ disconnect_all-is_closed t ts (step k l) (step-is_closed t k l same)
  | inr other ↦ disconnect_all-listed t ts (step k l) (ground (arith, e, other))
]

disconnect_all-registered :
    (t key : ℕ) (ts : List ℕ) (l : Listener)
    → get ℕ_discrete t l.registered ≡ some key
    → (get ℕ_discrete t (disconnect_all ts l).registered ≡ some key)
      ⊎ (is_closed t (disconnect_all ts l).outputs ≡ true)
disconnect_all-registered t key [] l e = inl e
disconnect_all-registered t key (k ∷ ts) l e = elim (Bool-cases (k == t)) [
  | inl same ↦ inr (disconnect_all-is_closed t ts (step k l) (step-is_closed t k l same))
  | inr other ↦
      disconnect_all-registered t key ts (step k l)
        (ground (arith, e, other, get-remove ℕ_discrete t k l.registered))
]

disconnect_all-pending : (ts : List ℕ) (l : Listener) → (disconnect_all ts l).pending ≡ l.pending
disconnect_all-pending [] l = refl
disconnect_all-pending (k ∷ ts) l = disconnect_all-pending ts (step k l)

disconnect_all-IsHeld :
    (t : ℕ) (l : Listener) → HasSeat t l → IsHeld t (disconnect_all l.to_disconnect l)
disconnect_all-IsHeld t l (inl pending) =
    inl (subst (λ ps. waits t ps ≡ true) (sym (disconnect_all-pending l.to_disconnect l)) pending)
disconnect_all-IsHeld t l (inr (inl (key, registered))) =
    elim (disconnect_all-registered t key l.to_disconnect l registered) [
      | inl kept ↦ inr (inl (key, kept))
      | inr closed ↦ inr (inr closed)
    ]
disconnect_all-IsHeld t l (inr (inr (inl listed))) =
    inr (inr (disconnect_all-listed t l.to_disconnect l listed))
disconnect_all-IsHeld t l (inr (inr (inr closed))) =
    inr (inr (disconnect_all-is_closed t l.to_disconnect l closed))

drain-IsHeld : (t : ℕ) (l : Listener) → HasSeat t l → IsHeld t (drain_errors (drain_disconnects l))
unfolding drain_errors drain_disconnects
drain-IsHeld t l s =
    let d = disconnect_all l.to_disconnect l in
    elim (disconnect_all-IsHeld t l s) [
      | inl pending ↦ inl pending
      | inr (inl registered) ↦ inr (inl registered)
      | inr (inr closed) ↦ inr (
          inr
            (any-append_left (closes_peer t) d.outputs (error_outputs d.submission_errors) closed))
    ]

abbrev Parts : Type 0
Parts = List (ℕ × ℕ) × Map ℕ ℕ × List Outgoing

abbrev parts : Listener → Parts
parts l = (l.pending, l.registered, l.outputs)

abbrev AreHolding : ℕ → Parts → Type 0
AreHolding t s =
    (waits t s.0 ≡ true)
    ⊎ ((key : ℕ) × (get ℕ_discrete t s.1 ≡ some key))
    ⊎ (is_closed t s.2 ≡ true)

listener_slot_msg-parts : (m : Option ℕ) (l : Listener) → parts (listener_slot_msg m l) ≡ parts l
unfolding listener_slot_msg
listener_slot_msg-parts none l = refl
listener_slot_msg-parts (some slot) l = ground arith

listener_slot_msg-IsHeld :
    (t : ℕ) (m : Option ℕ) (l : Listener) → IsHeld t l → IsHeld t (listener_slot_msg m l)
listener_slot_msg-IsHeld t m l s = subst (AreHolding t) (sym (listener_slot_msg-parts m l)) s

on_slots-IsHeld :
    (t : ℕ) (ms : List (Option ℕ)) (l : Listener) → IsHeld t l → IsHeld t (on_slots ms l)
unfolding on_slots
on_slots-IsHeld t [] l s = s
on_slots-IsHeld t (m ∷ ms) l s =
    on_slots-IsHeld t ms (listener_slot_msg m l) (listener_slot_msg-IsHeld t m l s)

more_outputs-IsHeld :
    (t : ℕ) (l : Listener) (s : Stats) (out : List Outgoing)
    → IsHeld t l
    → IsHeld t (record l { stats = s; outputs = l.outputs ++ out })
more_outputs-IsHeld t l s out (inl pending) = inl pending
more_outputs-IsHeld t l s out (inr (inl registered)) = inr (inl registered)
more_outputs-IsHeld t l s out (inr (inr closed)) =
    inr (inr (any-append_left (closes_peer t) l.outputs out closed))

send_result-IsHeld :
    (t : ℕ) (r : SubmissionResultWithRef) (k : SubmissionRefKind) (l : Listener)
    → r.sub_ref.kind ≡ k
    → IsHeld t l
    → IsHeld t (send_result r l)
unfolding send_result
send_result-IsHeld t r http_ref l e s = rw (e, send_result) s
send_result-IsHeld t r internal_ref l e s = rw (e, send_result) s
send_result-IsHeld t r tcp_ref l e s =
    rw (e, send_result)
      (more_outputs-IsHeld t l (record l.stats { results_sent = inc l.stats.results_sent })
        (send_with r.sub_ref.id (
            response_from_submission_result r.sub_ref.seq_num r.submission_id r.tcp_status
              r.error_msg)
          ∷ [])
        s)

on_results-IsHeld :
    (t : ℕ) (rs : List SubmissionResultWithRef) (l : Listener)
    → IsHeld t l
    → IsHeld t (on_results rs l)
unfolding on_results
on_results-IsHeld t [] l s = s
on_results-IsHeld t (r ∷ rs) l s =
    on_results-IsHeld t rs (send_result r l) (send_result-IsHeld t r r.sub_ref.kind l refl s)

-- Whether the connection is open after the events, and after the passes.
abbrev pub open_after : ℕ → List (ApiKeyCache × NetworkEvent) → Bool → Bool
open_after t [] b = b
open_after t (e ∷ es) b = open_after t es (opens t e.1 b)

abbrev pub open_after_passes : ℕ → List Pass → Bool → Bool
open_after_passes t [] b = b
open_after_passes t (p ∷ ps) b = open_after_passes t ps (open_after t p.events b)

module _ (x : ListenerExternals) where
  poll-HasSeat :
      (t : ℕ) (es : List (ApiKeyCache × NetworkEvent)) (b : Bool) (l : Listener)
      → (b ≡ false) ⊎ HasSeat t l
      → (open_after t es b ≡ false) ⊎ HasSeat t (poll x es l).0
  unfolding poll
  poll-HasSeat t [] b l s = s
  poll-HasSeat t ((keys, e) ∷ es) b l s =
      poll-HasSeat t es (opens t e b) (on_event x keys e l).0 (on_event-HasSeat x t keys e b l s)

  pub loop_body-IsHeld :
      (t : ℕ) (p : Pass) (b : Bool) (l : Listener)
      → (b ≡ false) ⊎ IsHeld t l
      → (open_after t p.events b ≡ false) ⊎ IsHeld t (loop_body x p l).0
  unfolding loop_body
  loop_body-IsHeld t p b l s =
      let polled = poll x p.events (on_slots p.slots l) in
      let start : (b ≡ false) ⊎ HasSeat t (on_slots p.slots l) = elim s [
        | inl shut ↦ inl shut
        | inr held ↦ inr (IsHeld-HasSeat t (on_slots p.slots l) (on_slots-IsHeld t p.slots l held))
      ] in
      elim (poll-HasSeat t p.events b (on_slots p.slots l) start) [
        | inl shut ↦ inl shut
        | inr here ↦
            let d = drop_expired p.now polled.0 in
            inr (
              on_results-IsHeld t p.results (drain_errors (drain_disconnects d))
                (drain-IsHeld t d (drop_expired-HasSeat t p.now polled.0 here)))
      ]

  pub passes-IsHeld :
      (t : ℕ) (ps : List Pass) (b : Bool) (l : Listener)
      → (b ≡ false) ⊎ IsHeld t l
      → (open_after_passes t ps b ≡ false) ⊎ IsHeld t (passes x ps l).0
  unfolding passes
  passes-IsHeld t [] b l s = s
  passes-IsHeld t (p ∷ ps) b l s =
      passes-IsHeld t ps (open_after t p.events b) (loop_body x p l).0 (loop_body-IsHeld t p b l s)
