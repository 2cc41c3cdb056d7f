-- ===== src/TcpBids/Registered/History.antt =====
-- Whose bids the TCP listener passes on in any history of its loop.
use helix.Base.{
  ℕ, ◌≡◌, refl, inr, Option, none, some, List, [], ◌∷◌, ◌++◌, subst, sym, ◌∙◌, All, All-map,
  All-append, ℕ_discrete, arith,
}
use helix.Base.Map.{AllEntries, AllEntries-remove, remove}
use helix.TcpBids.Listener.{
  ListenerExternals, ApiKeyCache, disconnect, NewTcpBidSubmission, Listener, new_listener,
}
use helix.TcpBids.Poll.{NetworkEvent, on_event}
use helix.TcpBids.Loop.{
  SubmissionResultWithRef, Pass, on_slots, on_results, listener_slot_msg, send_result, produced,
  poll, loop_body, passes, drop_expired, drain_disconnects, drain_errors, disconnect_all,
}
use helix.TcpBids.Registered.{Heard, AreVouched, Vouched, IsBacked, on_event-AreVouched}

module _ (x : ListenerExternals) where
  -- What was heard after some events, in turn.
  abbrev pub hears : List (ApiKeyCache × NetworkEvent) → Heard → Heard
  hears [] hs = hs
  hears (e ∷ es) hs = hears es (e ∷ hs)

  hears-IsBacked :
      (es : List (ApiKeyCache × NetworkEvent)) (hs : Heard) (s : NewTcpBidSubmission)
      → IsBacked x hs s
      → IsBacked x (hears es hs) s
  hears-IsBacked [] hs s b = b
  hears-IsBacked (e ∷ es) hs s b = hears-IsBacked es (e ∷ hs) s (inr b)

  poll-AreVouched :
      (es : List (ApiKeyCache × NetworkEvent)) (hs : Heard) (l : Listener)
      → AreVouched x hs l
      → AreVouched x (hears es hs) (poll x es l).0 × All (IsBacked x (hears es hs)) (poll x es l).1
  unfolding poll
  poll-AreVouched [] hs l a = (a, tt)
  poll-AreVouched ((keys, e) ∷ es) hs l a =
      let first = on_event-AreVouched x keys e hs l a in
      let rest = poll-AreVouched es ((keys, e) ∷ hs) (on_event x keys e l).0 first.0 in
      let made = produced (on_event x keys e l).1 in
      (
        rest.0,
        All-append (IsBacked x (hears es ((keys, e) ∷ hs))) made
            (poll x es (on_event x keys e l).0).1
            (All-map made (λ s. hears-IsBacked es ((keys, e) ∷ hs) s) first.1) rest.1,
      )

  disconnect_all-AreVouched :
      (ts : List ℕ) (hs : Heard) (l : Listener)
      → AreVouched x hs l
      → AreVouched x hs (disconnect_all ts l)
  disconnect_all-AreVouched [] hs l a = a
  disconnect_all-AreVouched (t ∷ ts) hs l a =
      disconnect_all-AreVouched ts hs
        (record l {
          registered = remove ℕ_discrete t l.registered;
          outputs = l.outputs ++ (disconnect t ∷ []);
        })
        (AllEntries-remove ℕ_discrete (Vouched x hs) t l.registered a)

  listener_slot_msg-registered :
      (m : Option ℕ) (l : Listener) → (listener_slot_msg m l).registered ≡ l.registered
  unfolding listener_slot_msg
  listener_slot_msg-registered none l = refl
  listener_slot_msg-registered (some slot) l = ground arith

  on_slots-registered :
      (ms : List (Option ℕ)) (l : Listener) → (on_slots ms l).registered ≡ l.registered
  unfolding on_slots
  on_slots-registered [] l = refl
  on_slots-registered (m ∷ ms) l =
      on_slots-registered ms (listener_slot_msg m l) ∙ listener_slot_msg-registered m l

  send_result-registered :
      (r : SubmissionResultWithRef) (l : Listener) → (send_result r l).registered ≡ l.registered
  unfolding send_result
  send_result-registered r l = ground arith

  on_results-registered :
      (rs : List SubmissionResultWithRef) (l : Listener)
      → (on_results rs l).registered ≡ l.registered
  unfolding on_results
  on_results-registered [] l = refl
  on_results-registered (r ∷ rs) l =
      on_results-registered rs (send_result r l) ∙ send_result-registered r l

  finish-AreVouched :
      (now : ℕ) (hs : Heard) (l : Listener)
      → AreVouched x hs l
      → AreVouched x hs (drain_errors (drain_disconnects (drop_expired now l)))
  unfolding drain_errors drain_disconnects drop_expired
  finish-AreVouched now hs l a =
      disconnect_all-AreVouched (drop_expired now l).to_disconnect hs (drop_expired now l) a

  loop_body-AreVouched :
      (p : Pass) (hs : Heard) (l : Listener)
      → AreVouched x hs l
      → AreVouched x (hears p.events hs) (loop_body x p l).0
        × All (IsBacked x (hears p.events hs)) (loop_body x p l).1
  unfolding loop_body
  loop_body-AreVouched p hs l a =
      let r = poll x p.events (on_slots p.slots l) in
      let polled =
        poll-AreVouched p.events hs (on_slots p.slots l)
          (subst (AllEntries (Vouched x hs)) (sym (on_slots-registered p.slots l)) a) in
      (
        subst (AllEntries (Vouched x (hears p.events hs)))
            (sym (
              on_results-registered p.results
                (drain_errors (drain_disconnects (drop_expired p.now r.0)))))
            (finish-AreVouched p.now (hears p.events hs) r.0 polled.0),
        polled.1,
      )

  -- All that was heard in some passes.
  abbrev pub heard : List Pass → Heard → Heard
  heard [] hs = hs
  heard (p ∷ ps) hs = heard ps (hears p.events hs)

  heard-IsBacked :
      (ps : List Pass) (hs : Heard) (s : NewTcpBidSubmission)
      → IsBacked x hs s
      → IsBacked x (heard ps hs) s
  heard-IsBacked [] hs s b = b
  heard-IsBacked (p ∷ ps) hs s b =
      heard-IsBacked ps (hears p.events hs) s (hears-IsBacked p.events hs s b)

  passes-AreVouched :
      (ps : List Pass) (hs : Heard) (l : Listener)
      → AreVouched x hs l
      → All (IsBacked x (heard ps hs)) (passes x ps l).1
  unfolding passes
  passes-AreVouched [] hs l a = tt
  passes-AreVouched (p ∷ ps) hs l a =
      let r = loop_body x p l in
      let first = loop_body-AreVouched p hs l a in
      All-append (IsBacked x (heard ps (hears p.events hs))) r.1 (passes x ps r.0).1
        (All-map r.1 (λ s. heard-IsBacked ps (hears p.events hs) s) first.1)
        (passes-AreVouched ps (hears p.events hs) r.0 first.0)

  -- Whatever the listener passes on is a frame whose header could be read, marked with the public key of
  -- a builder: before that frame its connection sent a registration with that key and an API key that
  -- admitted it at the time, and was not closed in between.
  pub passes-IsBacked :
      (max_connections : ℕ) (ps : List Pass)
      → All (IsBacked x (heard ps [])) (passes x ps (new_listener max_connections)).1
  passes-IsBacked max_connections ps = passes-AreVouched ps [] (new_listener max_connections) tt
