-- ===== src/TcpBids/Pending/History.antt =====
-- What holds of the peers of the TCP listener after each pass of its loop.
use helix.Base.{
  ℕ, ◌⊎◌, false, ◌-◌, ◌≡◌, ◌≤◌, refl, sym, subst, ◌∙◌, inl, inr, Option, none, some, List, [], ◌∷◌,
  ◌++◌, ltb, length, All, All-map, Bool-cases, ℕ_discrete, arith,
}
use helix.Base.Map.{Map, get, remove, get-remove}
use helix.TcpBids.Listener.{ListenerExternals, ApiKeyCache, Listener, new_listener, disconnect}
use helix.TcpBids.Poll.{
  NetworkEvent, accepts, connects, disconnects, message, on_event, peer_connected,
}
use helix.TcpBids.Loop.{
  SubmissionResultWithRef, Pass, on_slots, on_results, listener_slot_msg, send_result, poll,
  loop_body, passes, expire, drop_expired, drain_disconnects, drain_errors, disconnect_all,
}
use helix.TcpBids.Pending.Open.{
  IsHeld, open_after, open_after_passes, loop_body-IsHeld, passes-IsHeld,
}
use helix.TcpBids.Pending.{
  Book, book, IsAged, IsKept, IsAged-later, on_accepted-IsKept, on_message-IsKept,
  peer_disconnected-IsKept,
}

-- The instant at which the event notices a peer, if it does, and else the given one.
abbrev pub noticed_at : NetworkEvent → ℕ → ℕ
noticed_at (accepts token now) t = now
noticed_at (connects token) t = t
noticed_at (disconnects token) t = t
noticed_at (message token payload uuid now) t = t

-- The clock does not run backwards from `t` over the events to `end`.
abbrev pub EventsUntil : ℕ → ℕ → List (ApiKeyCache × NetworkEvent) → Type 0
EventsUntil end t [] = t ≤ end
EventsUntil end t (e ∷ es) = (t ≤ noticed_at e.1 t) × EventsUntil end (noticed_at e.1 t) es

abbrev pub PassesFrom : ℕ → List Pass → Type 0
PassesFrom t [] = Unit
PassesFrom t (p ∷ ps) = EventsUntil p.now t p.events × PassesFrom p.now ps

abbrev pub last_now : ℕ → List Pass → ℕ
last_now t [] = t
last_now t (p ∷ ps) = last_now p.now ps

expire-All :
    (P : ℕ × ℕ → Type 0) (timeout now : ℕ) (ps : List (ℕ × ℕ))
    → All P ps
    → All P (expire timeout now ps).1
unfolding expire
expire-All P timeout now [] a = tt
expire-All P timeout now ((t, at) ∷ ps) a = elim (Bool-cases (ltb timeout (now - at))) [
  | inl old ↦ rw (old) (expire-All P timeout now ps a.1)
  | inr young ↦ rw (young) a
]

-- What is left is young, is aged, and is not longer than before.
expire_lem :
    (hi timeout now : ℕ) (ps : List (ℕ × ℕ))
    → IsAged hi ps
    → All (λ q. now - q.1 ≤ timeout) (expire timeout now ps).1
      × IsAged hi (expire timeout now ps).1
      × (length (expire timeout now ps).1 ≤ length ps)
unfolding expire
expire_lem hi timeout now [] a = (tt, tt, omega arith)
expire_lem hi timeout now ((t, at) ∷ ps) a =
    let rest = expire_lem hi timeout now ps a.2 in
    elim (Bool-cases (ltb timeout (now - at))) [
      | inl old ↦ rw (old) (rest.0, rest.1, omega (arith, rest.2))
      | inr young ↦
          let fresh : now - at ≤ timeout = ground (arith, young) in
          rw (young)
            ((fresh, All-map ps (λ q later. omega (arith, later, fresh)) a.1), a, omega arith)
    ]

disconnect_all-book : (ts : List ℕ) (l : Listener) → book (disconnect_all ts l) ≡ book l
disconnect_all-book [] l = refl
disconnect_all-book (t ∷ ts) l = disconnect_all-book ts (record l {
  registered = remove ℕ_discrete t l.registered;
  outputs = l.outputs ++ (disconnect t ∷ []);
})

listener_slot_msg-book : (m : Option ℕ) (l : Listener) → book (listener_slot_msg m l) ≡ book l
unfolding listener_slot_msg
listener_slot_msg-book none l = refl
listener_slot_msg-book (some slot) l = ground arith

on_slots-book : (ms : List (Option ℕ)) (l : Listener) → book (on_slots ms l) ≡ book l
unfolding on_slots
on_slots-book [] l = refl
on_slots-book (m ∷ ms) l = on_slots-book ms (listener_slot_msg m l) ∙ listener_slot_msg-book m l

-- The parts of a listener that the theorem is about.
abbrev Kept : Type 0
Kept = Book × List ℕ × Map ℕ ℕ

abbrev kept : Listener → Kept
kept l = (book l, l.to_disconnect, l.registered)

send_result-kept : (r : SubmissionResultWithRef) (l : Listener) → kept (send_result r l) ≡ kept l
unfolding send_result
send_result-kept r l = ground arith

on_results-kept :
    (rs : List SubmissionResultWithRef) (l : Listener) → kept (on_results rs l) ≡ kept l
unfolding on_results
on_results-kept [] l = refl
on_results-kept (r ∷ rs) l = on_results-kept rs (send_result r l) ∙ send_result-kept r l

get-disconnect_all :
    (k : ℕ) (ts : List ℕ) (l : Listener)
    → get ℕ_discrete k l.registered ≡ none
    → get ℕ_discrete k (disconnect_all ts l).registered ≡ none
get-disconnect_all k [] l e = e
get-disconnect_all k (t ∷ ts) l e =
    get-disconnect_all k ts
      (record l {
        registered = remove ℕ_discrete t l.registered;
        outputs = l.outputs ++ (disconnect t ∷ []);
      })
      (ground (arith, get-remove ℕ_discrete k t l.registered, e))

disconnect_all-forgets :
    (ts : List ℕ) (l : Listener)
    → All (λ t. get ℕ_discrete t (disconnect_all ts l).registered ≡ none) ts
disconnect_all-forgets [] l = tt
disconnect_all-forgets (t ∷ ts) l =
    let l1 = record l {
      registered = remove ℕ_discrete t l.registered;
      outputs = l.outputs ++ (disconnect t ∷ []);
    } in
    (
      get-disconnect_all t ts l1 (ground (arith, get-remove ℕ_discrete t t l.registered)),
      disconnect_all-forgets ts l1,
    )

-- At most `limit` peers wait, none of them for more than a second, no peer is still to be dropped, and the
-- peers that were are not registered.
abbrev pub IsSwept : ℕ → ℕ → List ℕ → Listener → Type 0
IsSwept limit now dropped l =
    (length l.pending ≤ limit)
    × All (λ q. now - q.1 ≤ 1000000000) l.pending
    × (l.to_disconnect ≡ [])
    × All (λ t. get ℕ_discrete t l.registered ≡ none) dropped

abbrev IsYoung : ℕ → ℕ → Book → Type 0
IsYoung limit now b =
    IsKept limit now b × (length b.0 ≤ limit) × All (λ q. now - q.1 ≤ 1000000000) b.0

abbrev IsSweptKept : ℕ → ℕ → List ℕ → Kept → Type 0
IsSweptKept limit now dropped k =
    IsKept limit now k.0
    × ((length k.0.0 ≤ limit)
        × All (λ q. now - q.1 ≤ 1000000000) k.0.0
        × (k.1 ≡ [])
        × All (λ t. get ℕ_discrete t k.2 ≡ none) dropped)

module _ (x : ListenerExternals) where
  on_event-IsKept :
      (limit hi : ℕ) (keys : ApiKeyCache) (e : NetworkEvent) (l : Listener)
      → 1 ≤ limit
      → hi ≤ noticed_at e hi
      → IsKept limit hi (book l)
      → IsKept limit (noticed_at e hi) (book (on_event x keys e l).0)
  unfolding on_event peer_connected
  on_event-IsKept limit hi keys (accepts token now) l h later k =
      on_accepted-IsKept limit hi token now l h later k
  on_event-IsKept limit hi keys (connects token) l h later k = k
  on_event-IsKept limit hi keys (disconnects token) l h later k =
      peer_disconnected-IsKept x limit hi token l k
  on_event-IsKept limit hi keys (message token payload uuid now) l h later k =
      on_message-IsKept x limit hi keys token payload uuid now l k

  poll-IsKept :
      (limit end hi : ℕ) (es : List (ApiKeyCache × NetworkEvent)) (l : Listener)
      → 1 ≤ limit
      → EventsUntil end hi es
      → IsKept limit hi (book l)
      → IsKept limit end (book (poll x es l).0)
  unfolding poll
  poll-IsKept limit end hi [] l h t k = (k.0, IsAged-later hi end l.pending t k.1, k.2, k.3)
  poll-IsKept limit end hi ((keys, e) ∷ es) l h t k =
      poll-IsKept limit end (noticed_at e hi) es (on_event x keys e l).0 h t.1
        (on_event-IsKept limit hi keys e l h t.0 k)

  -- The peers that a pass drops.
  abbrev pub dropped : Pass → Listener → List ℕ
  dropped p l = (drop_expired p.now (poll x p.events (on_slots p.slots l)).0).to_disconnect

  finish-IsSwept :
      (limit now : ℕ) (l : Listener)
      → IsKept limit now (book l)
      → IsKept limit now (book (drain_errors (drain_disconnects (drop_expired now l))))
        × IsSwept limit now
            (drop_expired now l).to_disconnect
            (drain_errors (drain_disconnects (drop_expired now l)))
  unfolding drain_errors drain_disconnects drop_expired
  finish-IsSwept limit now l k =
      let d = drop_expired now l in
      let left = expire_lem now l.registration_timeout now l.pending k.1 in
      let short : length d.pending ≤ limit = omega (arith, left.2, k.0) in
      let young : All (λ q. now - q.1 ≤ 1000000000) d.pending =
        subst (λ n. All (λ q. now - q.1 ≤ n) d.pending) k.3 left.0 in
      let swept =
        subst (IsYoung limit now) (sym (disconnect_all-book d.to_disconnect d))
          ((short, left.1, k.2, k.3), short, young) in
      (swept.0, (swept.1, swept.2, refl, disconnect_all-forgets d.to_disconnect d))

  loop_body-IsSwept :
      (limit hi : ℕ) (p : Pass) (l : Listener)
      → 1 ≤ limit
      → EventsUntil p.now hi p.events
      → IsKept limit hi (book l)
      → IsKept limit p.now (book (loop_body x p l).0)
        × IsSwept limit p.now (dropped p l) (loop_body x p l).0
  unfolding loop_body
  loop_body-IsSwept limit hi p l h t k =
      let r = poll x p.events (on_slots p.slots l) in
      let polled =
        poll-IsKept limit p.now hi p.events (on_slots p.slots l) h t
          (subst (IsKept limit hi) (sym (on_slots-book p.slots l)) k) in
      let l1 = drain_errors (drain_disconnects (drop_expired p.now r.0)) in
      subst (IsSweptKept limit p.now (dropped p l)) (sym (on_results-kept p.results l1))
        (finish-IsSwept limit p.now r.0 polled)

  passes-IsKept :
      (limit hi : ℕ) (ps : List Pass) (l : Listener)
      → 1 ≤ limit
      → PassesFrom hi ps
      → IsKept limit hi (book l)
      → IsKept limit (last_now hi ps) (book (passes x ps l).0)
  unfolding passes
  passes-IsKept limit hi [] l h t k = k
  passes-IsKept limit hi (p ∷ ps) l h t k =
      passes-IsKept limit p.now ps (loop_body x p l).0 h t.1
        (loop_body-IsSwept limit hi p l h t.0 k).0

  -- If the clock does not run backwards, then after each pass of the loop at most `max_connections` peers
  -- (at least one) wait for their registration, none of them for more than a second, no peer is left
  -- to be dropped, and no peer that the pass dropped is registered. No peer is lost: whatever connection was
  -- noticed, and was not reported as closed since, is one of a peer that waits, of one that is registered,
  -- or one that the sockets were asked to close.
  pub passes-IsSwept :
      (max_connections : ℕ) (ps : List Pass) (p : Pass) (t : ℕ)
      → PassesFrom 0 ps
      → EventsUntil p.now (last_now 0 ps) p.events
      → let l = (passes x ps (new_listener max_connections)).0 in
        IsSwept (new_listener max_connections).max_pending p.now (dropped p l) (loop_body x p l).0
        × ((open_after t p.events (open_after_passes t ps false) ≡ false)
            ⊎ IsHeld t (loop_body x p l).0)
  passes-IsSwept max_connections ps p t before timed =
      let limit = (new_listener max_connections).max_pending in
      let room : 1 ≤ limit = ground arith in
      let l = (passes x ps (new_listener max_connections)).0 in
      (
        (loop_body-IsSwept limit (last_now 0 ps) p l room timed (
            passes-IsKept limit 0 ps (new_listener max_connections) room before
              (omega arith, tt, refl, refl))).1,
        loop_body-IsHeld x t p (open_after_passes t ps false) l
            (passes-IsHeld x t ps false (new_listener max_connections) (inl refl)),
      )
