-- ===== src/TcpBids/Pending/Seats.antt =====
-- No peer of the TCP listener is lost: while its connection is open it waits, is registered or is dropped.
use helix.Base.{
  ℕ, ◌≡◌, ◌≢◌, refl, sym, subst, ◌⊎◌, inl, inr, Bool, true, false, not, ◌&&◌, ◌||◌, Option, none,
  some, List, [], ◌∷◌, ◌++◌, ◌==◌, leb, any, length, Bool-cases, Option-cases, ℕ_discrete, arith,
  if◌then◌else◌,
}
use helix.Base.Map.{Map, get, get-remove, get-insert}
use helix.TcpBids.Header.{Parsed, try_from, parsed, unreadable}
use helix.TcpBids.Listener.{
  ListenerExternals, ApiKeyCache, RegistrationMsg, Listener, Outgoing, disconnect, send_with, inc,
}
use helix.TcpBids.Poll.{
  NetworkEvent, accepts, connects, disconnects, message, is_known, remove_pending, on_event,
  on_message, on_submission, on_registration, on_accepted, evict_oldest, peer_connected,
  peer_disconnected,
}

abbrev pub waits : ℕ → List (ℕ × ℕ) → Bool
waits t ps = any (λ q. q.0 == t) ps

abbrev pub is_listed : ℕ → List ℕ → Bool
is_listed t ts = any (λ k. k == t) ts

-- The sockets were asked to close the connection.
abbrev pub closes_peer : ℕ → Outgoing → Bool
closes_peer t (disconnect k) = k == t
closes_peer t (send_with k r) = false

abbrev pub is_closed : ℕ → List Outgoing → Bool
is_closed t out = any (closes_peer t) out

-- Where the peer is, when it still may be about to be dropped.
abbrev pub Seat : ℕ → List (ℕ × ℕ) → Map ℕ ℕ → List ℕ → List Outgoing → Type 0
Seat t ps m ts out =
    (waits t ps ≡ true)
    ⊎ ((key : ℕ) × (get ℕ_discrete t m ≡ some key))
    ⊎ (is_listed t ts ≡ true)
    ⊎ (is_closed t out ≡ true)

abbrev pub HasSeat : ℕ → Listener → Type 0
HasSeat t l = Seat t l.pending l.registered l.to_disconnect l.outputs

any-append :
    {A : Type 0} (p : A → Bool) (xs ys : List A) → any p (xs ++ ys) ≡ (any p xs || any p ys)
any-append p [] ys = refl
any-append p (x ∷ xs) ys = ground (arith, any-append p xs ys)

pub any-append_left :
    {A : Type 0} (p : A → Bool) (xs ys : List A) → any p xs ≡ true → any p (xs ++ ys) ≡ true
any-append_left p xs ys e = ground (arith, any-append p xs ys, e)

pub any-append_right :
    {A : Type 0} (p : A → Bool) (xs ys : List A) → any p ys ≡ true → any p (xs ++ ys) ≡ true
any-append_right p xs ys e = ground (arith, any-append p xs ys, e)

waits-remove_pending :
    (t k : ℕ) (ps : List (ℕ × ℕ)) → k ≢ t → waits t ps ≡ true → waits t (remove_pending k ps) ≡ true
unfolding remove_pending
waits-remove_pending t k [] n e = e
waits-remove_pending t k ((j, at) ∷ ps) n e = ground (arith, n, e, waits-remove_pending t k ps n)

evict_oldest-HasSeat :
    (t : ℕ) (l : Listener) (ps : List (ℕ × ℕ))
    → l.pending ≡ ps
    → HasSeat t l
    → HasSeat t (evict_oldest l)
unfolding evict_oldest
evict_oldest-HasSeat t l [] e s = rw (e, evict_oldest) s
evict_oldest-HasSeat t l ((j, at) ∷ ps) e s =
    rw (e, evict_oldest)
      (elim s [
        | inl pending ↦
            let held : ((j == t) || waits t ps) ≡ true =
              subst (λ qs. waits t qs ≡ true) e pending in
            elim (Bool-cases (j == t)) [
              | inl oldest ↦ inr (
                  inr (
                    inl (
                      any-append_right (λ k. k == t) l.to_disconnect (j ∷ [])
                        (ground (arith, oldest)))))
              | inr other ↦ inl (ground (arith, other, held))
            ]
        | inr (inl registered) ↦ inr (inl registered)
        | inr (inr (inl listed)) ↦
            inr (inr (inl (any-append_left (λ k. k == t) l.to_disconnect (j ∷ []) listed)))
        | inr (inr (inr closed)) ↦ inr (inr (inr closed))
      ])

-- With one more peer that waits.
append-HasSeat :
    (t token now : ℕ) (l : Listener)
    → HasSeat t l
    → Seat t (l.pending ++ ((token, now) ∷ [])) l.registered l.to_disconnect l.outputs
append-HasSeat t token now l (inl pending) =
    inl (any-append_left (λ q. q.0 == t) l.pending ((token, now) ∷ []) pending)
append-HasSeat t token now l (inr other) = inr other

accepted_pending :
    (token now : ℕ) (l : Listener)
    → (ps : List (ℕ × ℕ)) × ((on_accepted token now l).pending ≡ ps ++ ((token, now) ∷ []))
unfolding on_accepted
accepted_pending token now l = (
  (if leb l.max_pending (length l.pending)
      then evict_oldest (record l { stats = record l.stats { accepted = inc l.stats.accepted } })
      else record l { stats = record l.stats { accepted = inc l.stats.accepted } }).pending,
  refl,
)

on_accepted-HasSeat :
    (t token now : ℕ) (l : Listener) → HasSeat t l → HasSeat t (on_accepted token now l)
unfolding on_accepted
on_accepted-HasSeat t token now l s =
    let l1 = record l { stats = record l.stats { accepted = inc l.stats.accepted } } in
    elim (Bool-cases (leb l.max_pending (length l.pending))) [
      | inl full ↦
          rw (full, on_accepted)
            (append-HasSeat t token now (evict_oldest l1)
              (evict_oldest-HasSeat t l1 l.pending refl s))
      | inr free ↦ rw (free, on_accepted) (append-HasSeat t token now l1 s)
    ]

-- A peer that is noticed waits.
on_accepted-waits : (t now : ℕ) (l : Listener) → HasSeat t (on_accepted t now l)
on_accepted-waits t now l =
    let (ps, e) = accepted_pending t now l in
    inl (
      subst (λ qs. waits t qs ≡ true) (sym e)
        (any-append_right (λ q. q.0 == t) ps ((t, now) ∷ []) (ground arith)))

peer_disconnected-HasSeat :
    (t k : ℕ) (l : Listener) → k ≢ t → HasSeat t l → HasSeat t (peer_disconnected k l)
unfolding peer_disconnected
peer_disconnected-HasSeat t k l n (inl pending) =
    elim (Option-cases (get ℕ_discrete k l.registered)) [
      | inl unknown ↦
          rw (unknown, peer_disconnected) (inl (waits-remove_pending t k l.pending n pending))
      | inr (key, known) ↦ rw (known, peer_disconnected) (inl pending)
    ]
peer_disconnected-HasSeat t k l n (inr (inl (key, registered))) =
    inr (inl (key, ground (arith, get-remove ℕ_discrete t k l.registered, n, registered)))
peer_disconnected-HasSeat t k l n (inr (inr s)) = inr (inr s)

-- With one more peer that is to be dropped.
append_listed :
    (t token : ℕ) (l : Listener)
    → HasSeat t l
    → Seat t l.pending l.registered (l.to_disconnect ++ (token ∷ [])) l.outputs
append_listed t token l (inl pending) = inl pending
append_listed t token l (inr (inl registered)) = inr (inl registered)
append_listed t token l (inr (inr (inl listed))) =
    inr (inr (inl (any-append_left (λ k. k == t) l.to_disconnect (token ∷ []) listed)))
append_listed t token l (inr (inr (inr closed))) = inr (inr (inr closed))

now_listed :
    (t : ℕ) (l : Listener) → Seat t l.pending l.registered (l.to_disconnect ++ (t ∷ [])) l.outputs
now_listed t l =
    inr (inr (inl (any-append_right (λ k. k == t) l.to_disconnect (t ∷ []) (ground arith))))

-- Whether the connection is open after the event.
abbrev pub opens : ℕ → NetworkEvent → Bool → Bool
opens t (accepts token now) live = (token == t) || live
opens t (disconnects token) live = not (token == t) && live
opens t (connects token) live = live
opens t (message token payload uuid now) live = live

module _ (x : ListenerExternals) where
  on_submission-HasSeat :
      (t token pubkey : ℕ) (p : Parsed) (uuid now : ℕ) (l : Listener)
      → HasSeat t l
      → HasSeat t (on_submission token pubkey p uuid now l).0
  unfolding on_submission
  on_submission-HasSeat t token pubkey (unreadable e) uuid now l s = s
  on_submission-HasSeat t token pubkey (parsed h) uuid now l s = s

  -- Another peer's registration.
  on_registration-HasSeat :
      (t token : ℕ) (keys : ApiKeyCache) (o : Option RegistrationMsg) (l : Listener)
      → token ≢ t
      → HasSeat t l
      → HasSeat t (on_registration x keys token o l)
  unfolding on_registration
  on_registration-HasSeat t token keys none l n s = append_listed t token l s
  on_registration-HasSeat t token keys (some msg) l n s = elim (Bool-cases (is_known x keys msg)) [
    | inl known ↦
        rw (known, on_registration)
          (elim s [
            | inl pending ↦ inl pending
            | inr (inl (key, registered)) ↦ inr (
                inl (
                  key,
                  ground (
                    arith,
                    get-insert ℕ_discrete t token msg.builder_pubkey l.registered,
                    n,
                    registered,
                  ),
                ))
            | inr (inr rest) ↦ inr (inr rest)
          ])
    | inr unknown ↦ rw (unknown, on_registration) (append_listed t token l s)
  ]

  -- A peer's own registration.
  on_registration_self :
      (t : ℕ) (keys : ApiKeyCache) (o : Option RegistrationMsg) (l : Listener)
      → HasSeat t (on_registration x keys t o l)
  unfolding on_registration
  on_registration_self t keys none l = now_listed t l
  on_registration_self t keys (some msg) l = elim (Bool-cases (is_known x keys msg)) [
    | inl known ↦
        rw (known, on_registration)
          (inr (
            inl (
              msg.builder_pubkey,
              ground (arith, get-insert ℕ_discrete t t msg.builder_pubkey l.registered),
            )))
    | inr unknown ↦ rw (unknown, on_registration) (now_listed t l)
  ]

  -- Another peer's frame.
  on_message-HasSeat :
      (t token : ℕ) (keys : ApiKeyCache) (payload : List ℕ) (uuid now : ℕ) (l : Listener)
      → token ≢ t
      → HasSeat t l
      → HasSeat t (on_message x keys token payload uuid now l).0
  unfolding on_message
  on_message-HasSeat t token keys payload uuid now l n s =
      elim (Option-cases (get ℕ_discrete token l.registered)) [
        | inl first ↦
            rw (first, on_message)
              (on_registration-HasSeat t token keys (x.from_ssz_bytes payload)
                (record l { pending = remove_pending token l.pending }) n
                (elim s [
                  | inl pending ↦ inl (waits-remove_pending t token l.pending n pending)
                  | inr rest ↦ inr rest
                ]))
        | inr (pubkey, known) ↦
            rw (known, on_message)
              (on_submission-HasSeat t token pubkey (try_from payload) uuid now l s)
      ]

  -- A peer's own frame.
  on_message_self :
      (t : ℕ) (keys : ApiKeyCache) (payload : List ℕ) (uuid now : ℕ) (l : Listener)
      → HasSeat t (on_message x keys t payload uuid now l).0
  unfolding on_message
  on_message_self t keys payload uuid now l = elim (Option-cases (get ℕ_discrete t l.registered)) [
    | inl first ↦
        rw (first, on_message)
          (on_registration_self t keys (x.from_ssz_bytes payload)
            (record l { pending = remove_pending t l.pending }))
    | inr (pubkey, known) ↦
        rw (known, on_message)
          (on_submission-HasSeat t t pubkey (try_from payload) uuid now l
            (inr (inl (pubkey, known))))
  ]

  pub on_event-HasSeat :
      (t : ℕ) (keys : ApiKeyCache) (e : NetworkEvent) (live : Bool) (l : Listener)
      → (live ≡ false) ⊎ HasSeat t l
      → (opens t e live ≡ false) ⊎ HasSeat t (on_event x keys e l).0
  unfolding on_event peer_connected
  on_event-HasSeat t keys (accepts token now) live l s = elim (ℕ_discrete token t) [
    | yes e ↦ inr (subst (λ k. HasSeat t (on_accepted k now l)) (sym e) (on_accepted-waits t now l))
    | no n ↦ elim s [
      | inl shut ↦ inl (ground (arith, n, shut))
      | inr held ↦ inr (on_accepted-HasSeat t token now l held)
    ]
  ]
  on_event-HasSeat t keys (connects token) live l s = s
  on_event-HasSeat t keys (disconnects token) live l s = elim (ℕ_discrete token t) [
    | yes e ↦ inl (ground (arith, e))
    | no n ↦ elim s [
      | inl shut ↦ inl (ground (arith, n, shut))
      | inr held ↦ inr (peer_disconnected-HasSeat t token l n held)
    ]
  ]
  on_event-HasSeat t keys (message token payload uuid now) live l s = elim (ℕ_discrete token t) [
    | yes e ↦ inr (
        subst (λ k. HasSeat t (on_message x keys k payload uuid now l).0) (sym e)
          (on_message_self t keys payload uuid now l))
    | no n ↦ elim s [
      | inl shut ↦ inl shut
      | inr held ↦ inr (on_message-HasSeat t token keys payload uuid now l n held)
    ]
  ]
