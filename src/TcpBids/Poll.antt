-- ===== src/TcpBids/Poll.antt =====
-- crates/relay/src/tcp_bid_recv/mod.rs: what one pass of the loop of `BidSubmissionTcpListener` does.
use helix.Base.{
  ℕ, Bool, true, false, ◌&&◌, ◌||◌, Option, none, some, List, [], ◌∷◌, ◌++◌, ◌==◌, leb,
  if◌then◌else◌, any, length, ℕ_discrete,
}
use helix.Base.Map.{get, insert, remove}
use helix.TcpBids.Header.{BidSubmissionHeader, Parsed, parsed, unreadable, try_from}
use helix.TcpBids.Listener.{
  ListenerExternals, ApiKeyCache, RegistrationMsg, Listener, inc, parse_error, NewTcpBidSubmission,
  bid_sub_header_size, from_tcp_header, tcp,
}

-- What the sockets report: a peer with the instant it is noticed, or a frame with the identifier drawn for
-- it and the time.
pub data NetworkEvent : Type 0 where
  accepts : ℕ → ℕ → NetworkEvent
  connects : ℕ → NetworkEvent
  disconnects : ℕ → NetworkEvent
  message : ℕ → List ℕ → ℕ → ℕ → NetworkEvent

-- `position` and `remove`: the first entry of the token goes.
unfoldable pub remove_pending : ℕ → List (ℕ × ℕ) → List (ℕ × ℕ)
remove_pending token [] = []
remove_pending token ((t, at) ∷ ps) =
    let rest = remove_pending token ps in if t == token then ps else (t, at) ∷ rest

-- `Event::Accepted`: past `max_pending`, the oldest peer has to go.
unfoldable pub evict_oldest : Listener → Listener
evict_oldest l = elim l.pending [
  | [] ↦ l
  | (oldest, at) ∷ ps ↦ record l {
    pending = ps;
    stats = record l.stats { registration_timeouts = inc l.stats.registration_timeouts };
    to_disconnect = l.to_disconnect ++ (oldest ∷ []);
  }
]

unfoldable pub on_accepted : ℕ → ℕ → Listener → Listener
unfolding evict_oldest
on_accepted token now l =
    let l1 = record l { stats = record l.stats { accepted = inc l.stats.accepted } } in
    let l2 = if leb l1.max_pending (length l1.pending) then evict_oldest l1 else l1 in
    record l2 { pending = l2.pending ++ ((token, now) ∷ []) }

unfoldable pub peer_connected : Listener → Listener
peer_connected l = record l { stats = record l.stats { reconnected = inc l.stats.reconnected } }

abbrev pub is_absent : Option ℕ → Bool
is_absent none = true
is_absent (some _) = false

unfoldable pub peer_disconnected : ℕ → Listener → Listener
unfolding remove_pending
peer_disconnected token l = record l {
  registered = remove ℕ_discrete token l.registered;
  pending =
      if is_absent (get ℕ_discrete token l.registered)
      then remove_pending token l.pending
      else l.pending;
  stats = record l.stats { disconnected = inc l.stats.disconnected };
}

-- The API key is known, and one of its builders has the public key and may submit over TCP. In local
-- development the API key is enough.
unfoldable pub is_known : ListenerExternals → ApiKeyCache → RegistrationMsg → Bool
is_known x keys msg = elim (keys msg.api_key) [
  | none ↦ false
  | some bs ↦ any (λ b. (b.pub_key == msg.builder_pubkey) && b.tcp_submissions) bs || x.is_local_dev
]

-- The first frame of a peer.
unfoldable pub on_registration :
    ListenerExternals → ApiKeyCache → ℕ → Option RegistrationMsg → Listener → Listener
unfolding is_known
on_registration x keys token none l = record l {
  stats = record l.stats { registration_invalid = inc l.stats.registration_invalid };
  to_disconnect = l.to_disconnect ++ (token ∷ []);
}
on_registration x keys token (some msg) l =
    if is_known x keys msg
    then record l {
      registered = insert ℕ_discrete token msg.builder_pubkey l.registered;
      stats = record l.stats { registration_ok = inc l.stats.registration_ok };
    }
    else record l {
      stats = record l.stats { registration_invalid = inc l.stats.registration_invalid };
      to_disconnect = l.to_disconnect ++ (token ∷ []);
    }

-- The submission that a registered peer's frame holds.
abbrev pub new_submission : ℕ → ℕ → ℕ → ℕ → BidSubmissionHeader → NewTcpBidSubmission
new_submission token pubkey uuid now h = record {
  payload_offset = bid_sub_header_size;
  header = from_tcp_header uuid h;
  submission_ref = tcp token h.sequence_number;
  receive_ns = now;
  read_body_ns = now;
  expected_pubkey = pubkey;
  has_expected_pubkey = true;
}

unfoldable pub on_submission :
    ℕ → ℕ → Parsed → ℕ → ℕ → Listener → Listener × Option NewTcpBidSubmission
on_submission token pubkey (unreadable e) uuid now l = (
  record l {
    stats = record l.stats { header_parse_errors = inc l.stats.header_parse_errors };
    submission_errors =
        l.submission_errors
        ++ (record { token = token; seq_num = none; request_id = none; error = parse_error e }
            ∷ []);
  },
  none,
)
on_submission token pubkey (parsed h) uuid now l = (
  record l { stats = record l.stats { submissions_received = inc l.stats.submissions_received } },
  some (new_submission token pubkey uuid now h),
)

-- `Event::Message`.
unfoldable pub on_message :
    ListenerExternals
    → ApiKeyCache
    → ℕ
    → List ℕ
    → ℕ
    → ℕ
    → Listener
    → Listener × Option NewTcpBidSubmission
unfolding on_submission on_registration try_from remove_pending
on_message x keys token payload uuid now l = elim (get ℕ_discrete token l.registered) [
  | some pubkey ↦ on_submission token pubkey (try_from payload) uuid now l
  | none ↦ (
    on_registration x keys token (x.from_ssz_bytes payload)
        (record l { pending = remove_pending token l.pending }),
    none,
  )
]

unfoldable pub on_event :
    ListenerExternals
    → ApiKeyCache
    → NetworkEvent
    → Listener
    → Listener × Option NewTcpBidSubmission
unfolding on_accepted peer_connected peer_disconnected on_message
on_event x keys (accepts token now) l = (on_accepted token now l, none)
on_event x keys (connects token) l = (peer_connected l, none)
on_event x keys (disconnects token) l = (peer_disconnected token l, none)
on_event x keys (message token payload uuid now) l = on_message x keys token payload uuid now l
