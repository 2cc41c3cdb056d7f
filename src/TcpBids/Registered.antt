-- ===== src/TcpBids/Registered.antt =====
-- Whose bids the TCP listener passes on: those of the builder that the connection is registered for.
pub mod History
use helix.Base.{
  ℕ, ◌≡◌, ◌≢◌, ◌⊎◌, refl, inl, inr, Bool, true, false, Option, none, some, List, [], ◌∷◌, ◌++◌,
  ◌==◌, leb, length, subst, sym, ◌∙◌, ite, All, All-map, All-append, Option-cases, Bool-cases,
  ℕ_discrete, arith,
}
use helix.Base.Map.{
  Map, AllEntries, AllEntries-map, AllEntries-insert, AllEntries-remove, AllEntries-get, get,
  insert, remove,
}
use helix.TcpBids.Header.{BidSubmissionHeader, try_from, Parsed, parsed, unreadable}
use helix.TcpBids.Listener.{
  ListenerExternals, ApiKeyCache, RegistrationMsg, disconnect, inc, NewTcpBidSubmission, Listener,
  new_listener,
}
use helix.TcpBids.Poll.{
  NetworkEvent, accepts, connects, disconnects, message, is_known, remove_pending, new_submission,
  on_event, on_message, on_submission, on_registration, on_accepted, evict_oldest, peer_connected,
  peer_disconnected,
}
use helix.TcpBids.Loop.{
  SubmissionResultWithRef, Pass, on_slots, on_results, listener_slot_msg, send_result, produced,
  poll, loop_body, passes, drop_expired, drain_disconnects, drain_errors, disconnect_all,
}

abbrev pub Heard : Type 0
Heard = List (ApiKeyCache × NetworkEvent)

-- The peer of the connection went away.
abbrev pub closes : NetworkEvent → ℕ → Bool
closes (disconnects t) token = t == token
closes _ token = false

module _ (x : ListenerExternals) where
  -- A frame that names the public key together with an API key for which it is known.
  abbrev pub Registers : ApiKeyCache × NetworkEvent → ℕ → ℕ → Type 0
  Registers (keys, e) token pubkey =
      (payload : List ℕ) × (uuid : ℕ) × (now : ℕ) × (msg : RegistrationMsg) × (e
        ≡ message token payload uuid now)
      × (x.from_ssz_bytes payload ≡ some msg)
      × (is_known x keys msg ≡ true)
      × (msg.builder_pubkey ≡ pubkey)

  -- The connection was registered for the public key, and was not closed since. The newest event stands
  -- first.
  abbrev pub Vouched : Heard → ℕ → ℕ → Type 0
  Vouched [] token pubkey = ⊥
  Vouched (e ∷ older) token pubkey =
      Registers e token pubkey ⊎ ((closes e.1 token ≡ false) × Vouched older token pubkey)

  -- The submission is what a frame holds, and it is for the builder that the frame's connection was
  -- registered for at that time.
  abbrev pub IsFrame : ApiKeyCache × NetworkEvent → Heard → NewTcpBidSubmission → Type 0
  IsFrame (keys, e) older s =
      (token : ℕ) × (pubkey : ℕ) × (payload : List ℕ) × (uuid : ℕ) × (now : ℕ)
      × (h : BidSubmissionHeader) × (e ≡ message token payload uuid now)
      × (try_from payload ≡ parsed h)
      × (s ≡ new_submission token pubkey uuid now h)
      × Vouched older token pubkey

  abbrev pub IsBacked : Heard → NewTcpBidSubmission → Type 0
  IsBacked [] s = ⊥
  IsBacked (e ∷ older) s = IsFrame e older s ⊎ IsBacked older s

  abbrev pub AreVouched : Heard → Listener → Type 0
  AreVouched hs l = AllEntries (Vouched hs) l.registered

  remove-AreVouched :
      (keys : ApiKeyCache) (token : ℕ) (hs : Heard) (m : Map ℕ ℕ)
      → AllEntries (Vouched hs) m
      → AllEntries (Vouched ((keys, disconnects token) ∷ hs)) (remove ℕ_discrete token m)
  unfolding remove
  remove-AreVouched keys token hs [] a = tt
  remove-AreVouched keys token hs ((j, v) ∷ m) a =
      let rest : AllEntries (Vouched ((keys, disconnects token) ∷ hs)) (remove ℕ_discrete token m) =
        remove-AreVouched keys token hs m a.1 in
      elim (ℕ_discrete j token)
        as (λ d.
          AllEntries (Vouched ((keys, disconnects token) ∷ hs))
            (ite d (remove ℕ_discrete token m) ((j, v) ∷ remove ℕ_discrete token m))) [
              | yes e ↦ rest
              | no n ↦ (inr (ground (arith, n), a.0), rest)
            ]

  on_submission-IsBacked :
      (keys : ApiKeyCache) (token pubkey : ℕ) (payload : List ℕ) (p : Parsed) (uuid now : ℕ)
      (hs : Heard) (l : Listener)
      → try_from payload ≡ p
      → Vouched hs token pubkey
      → All
          (IsBacked ((keys, message token payload uuid now) ∷ hs))
          (produced (on_submission token pubkey p uuid now l).1)
  unfolding on_submission
  on_submission-IsBacked keys token pubkey payload (unreadable e) uuid now hs l q v = tt
  on_submission-IsBacked keys token pubkey payload (parsed h) uuid now hs l q v =
      (inl (token, pubkey, payload, uuid, now, h, refl, q, refl, v), tt)

  -- A frame that is not the closing of its connection keeps what was vouched for.
  keep-AreVouched :
      (keys : ApiKeyCache) (token : ℕ) (payload : List ℕ) (uuid now : ℕ) (hs : Heard) (m : Map ℕ ℕ)
      → AllEntries (Vouched hs) m
      → AllEntries (Vouched ((keys, message token payload uuid now) ∷ hs)) m
  keep-AreVouched keys token payload uuid now hs m a = AllEntries-map m (λ k v p. inr (refl, p)) a

  on_submission-registered :
      (token pubkey : ℕ) (p : Parsed) (uuid now : ℕ) (l : Listener)
      → (on_submission token pubkey p uuid now l).0.registered ≡ l.registered
  unfolding on_submission
  on_submission-registered token pubkey (unreadable e) uuid now l = refl
  on_submission-registered token pubkey (parsed h) uuid now l = refl

  on_registration-AreVouched :
      (keys : ApiKeyCache) (token : ℕ) (payload : List ℕ) (o : Option RegistrationMsg)
      (uuid now : ℕ) (hs : Heard) (l : Listener)
      → x.from_ssz_bytes payload ≡ o
      → AreVouched hs l
      → AreVouched ((keys, message token payload uuid now) ∷ hs) (on_registration x keys token o l)
  unfolding on_registration
  on_registration-AreVouched keys token payload none uuid now hs l q a =
      keep-AreVouched keys token payload uuid now hs l.registered a
  on_registration-AreVouched keys token payload (some msg) uuid now hs l q a =
      let kept : AllEntries (Vouched ((keys, message token payload uuid now) ∷ hs)) l.registered =
        keep-AreVouched keys token payload uuid now hs l.registered a in
      elim (Bool-cases (is_known x keys msg)) [
        | inl known ↦ rw (known) (
            AllEntries-insert ℕ_discrete (Vouched ((keys, message token payload uuid now) ∷ hs))
              token msg.builder_pubkey l.registered
              (inl (payload, uuid, now, msg, refl, q, known, refl)) kept)
        | inr unknown ↦ rw (unknown) kept
      ]

  evict_oldest-registered : (l : Listener) → (evict_oldest l).registered ≡ l.registered
  unfolding evict_oldest
  evict_oldest-registered l = ground arith

  on_accepted-registered :
      (token now : ℕ) (l : Listener) → (on_accepted token now l).registered ≡ l.registered
  unfolding on_accepted
  on_accepted-registered token now l =
      let l1 = record l { stats = record l.stats { accepted = inc l.stats.accepted } } in
      elim (Bool-cases (leb l.max_pending (length l.pending))) [
        | inl full ↦ rw (full) (evict_oldest-registered l1)
        | inr free ↦ rw (free) refl
      ]

  on_message-AreVouched :
      (keys : ApiKeyCache) (token : ℕ) (payload : List ℕ) (uuid now : ℕ) (hs : Heard) (l : Listener)
      (o : Option ℕ)
      → get ℕ_discrete token l.registered ≡ o
      → AreVouched hs l
      → AreVouched
          ((keys, message token payload uuid now) ∷ hs)
          (on_message x keys token payload uuid now l).0
        × All
            (IsBacked ((keys, message token payload uuid now) ∷ hs))
            (produced (on_message x keys token payload uuid now l).1)
  unfolding on_message
  on_message-AreVouched keys token payload uuid now hs l none first a =
      rw (first, on_message)
        (
          on_registration-AreVouched keys token payload (x.from_ssz_bytes payload) uuid now hs
              (record l { pending = remove_pending token l.pending }) refl a,
          tt,
        )
  on_message-AreVouched keys token payload uuid now hs l (some pubkey) known a =
      rw (known, on_message)
        (
          subst (AllEntries (Vouched ((keys, message token payload uuid now) ∷ hs)))
              (sym (on_submission-registered token pubkey (try_from payload) uuid now l))
              (keep-AreVouched keys token payload uuid now hs l.registered a),
          on_submission-IsBacked keys token pubkey payload (try_from payload) uuid now hs l refl
              (AllEntries-get ℕ_discrete (Vouched hs) token l.registered a known),
        )

  pub on_event-AreVouched :
      (keys : ApiKeyCache) (e : NetworkEvent) (hs : Heard) (l : Listener)
      → AreVouched hs l
      → AreVouched ((keys, e) ∷ hs) (on_event x keys e l).0
        × All (IsBacked ((keys, e) ∷ hs)) (produced (on_event x keys e l).1)
  unfolding on_event peer_connected peer_disconnected on_message
  on_event-AreVouched keys (accepts token now) hs l a = (
    subst (AllEntries (Vouched ((keys, accepts token now) ∷ hs)))
        (sym (on_accepted-registered token now l))
        (AllEntries-map l.registered (λ k v p. inr (refl, p)) a),
    tt,
  )
  on_event-AreVouched keys (connects token) hs l a =
      (AllEntries-map l.registered (λ k v p. inr (refl, p)) a, tt)
  on_event-AreVouched keys (disconnects token) hs l a =
      (remove-AreVouched keys token hs l.registered a, tt)
  on_event-AreVouched keys (message token payload uuid now) hs l a =
      on_message-AreVouched keys token payload uuid now hs l (get ℕ_discrete token l.registered)
        refl a
