-- ===== src/TcpBids/Tests.antt =====
-- crates/tcp-types/src/lib.rs, crates/relay/src/tcp_bid_recv: the definitions and the theorems at concrete
-- values.
use helix.Base.{
  ℕ, ◌≡◌, ◌↔◌, refl, ◌⊎◌, true, false, none, some, List, [], ◌∷◌, ◌++◌, All, arith, ℕ_discrete,
}
use helix.TcpBids.Header.{
  BidSubmissionHeader, mergeable, Encodes, parsed, unreadable, invalid_merge_type,
  submission_too_short, try_from, append_encoded, try_from_iff, is_dehydrated, is_zstd_compressed,
  merging_v2, pessimistic,
}
use helix.TcpBids.Listener.{ListenerExternals, new_listener, ApiKeyCache}
use helix.TcpBids.Poll.{
  accepts, connects, disconnects, message, new_submission, on_event, on_message, on_registration,
  is_known, on_submission, on_accepted, evict_oldest, peer_connected, peer_disconnected,
  remove_pending,
}
use helix.Base.Map.{get, insert, remove}
use helix.TcpBids.Loop.{
  Pass, passes, loop_body, poll, on_slots, listener_slot_msg, on_results, drop_expired, expire,
  count_timeouts, drain_disconnects, drain_errors,
}
use helix.TcpBids.Registered.{IsBacked}
use helix.TcpBids.Registered.History.{heard, passes-IsBacked}
use helix.TcpBids.Pending.Open.{IsHeld, open_after, open_after_passes}
use helix.TcpBids.Pending.History.{IsSwept, dropped, passes-IsSwept}

-- The header of the unit test `test_bid_submission_header`, with all flags.
abbrev test_header : BidSubmissionHeader
test_header = record { sequence_number = 1913; merge_type = mergeable; flags = 63 }

abbrev test_bytes : List ℕ
test_bytes = 0 ∷ 0 ∷ 7 ∷ 121 ∷ 1 ∷ 63 ∷ 17 ∷ []

test_header_encoded : append_encoded [] test_header ++ (17 ∷ []) ≡ test_bytes
unfolding append_encoded
test_header_encoded = refl

test_header_decoded : try_from test_bytes ≡ parsed test_header
unfolding try_from
test_header_decoded = refl

test_no_merge_type : try_from (0 ∷ 0 ∷ 0 ∷ 1 ∷ 4 ∷ 0 ∷ []) ≡ unreadable (invalid_merge_type 4)
unfolding try_from
test_no_merge_type = refl

test_too_short : try_from (0 ∷ 0 ∷ 0 ∷ 1 ∷ 1 ∷ []) ≡ unreadable submission_too_short
unfolding try_from
test_too_short = refl

test_flags :
    (is_dehydrated 5 ≡ true)
    × (is_zstd_compressed 5 ≡ true)
    × (pessimistic 5 ≡ false)
    × (merging_v2 32 ≡ true)
test_flags = (refl, refl, refl, refl)

try_from_iff_example : (try_from test_bytes ≡ parsed test_header) ↔ Encodes test_bytes test_header
try_from_iff_example = try_from_iff test_bytes test_header (
  omega arith,
  (omega arith, (omega arith, (omega arith, (omega arith, (omega arith, (omega arith, tt)))))),
)

-- A registration is a frame of two bytes, the API key and the public key.
abbrev listener_externals : ListenerExternals
listener_externals = record {
  from_ssz_bytes = λ bytes. elim bytes [
    | [] ↦ none
    | a ∷ rest ↦ elim rest [ [] ↦ none | k ∷ _ ↦ some (record { api_key = a; builder_pubkey = k }) ]
  ];
  is_local_dev = false;
}

-- Every API key has the builder 8.
abbrev keys : ApiKeyCache
keys _ = some (record { pub_key = 8; tcp_submissions = true } ∷ [])

-- Three peers come, of which one may wait. The second registers, the last stays silent; the frame that
-- comes before the registration is one of a submission.
abbrev first_pass : Pass
first_pass = record {
  slots = some 3 ∷ none ∷ [];
  events =
      (keys, accepts 1 10)
      ∷ (keys, accepts 2 20)
      ∷ (keys, message 2 (5 ∷ 8 ∷ []) 40 20)
      ∷ (keys, accepts 3 30)
      ∷ (keys, connects 2)
      ∷ (keys, message 2 test_bytes 41 31)
      ∷ [];
  now = 40;
  results = [];
}

abbrev second_pass : Pass
second_pass = record {
  slots = [];
  events = (keys, disconnects 2) ∷ (keys, message 4 (5 ∷ 9 ∷ []) 42 1500000000) ∷ [];
  now = 1500000000;
  results = [];
}

abbrev history : List Pass
history = first_pass ∷ []

test_submission :
    (passes listener_externals history (new_listener 1)).1
    ≡ new_submission 2 8 41 31 test_header ∷ []
unfolding passes loop_body poll on_event on_message on_registration is_known on_submission
    on_accepted evict_oldest peer_connected peer_disconnected remove_pending try_from get insert
    remove on_slots listener_slot_msg on_results drop_expired expire count_timeouts
    drain_disconnects drain_errors ℕ_discrete
test_submission = refl

test_dropped :
    dropped listener_externals second_pass (passes listener_externals history (new_listener 1)).0
    ≡ 4 ∷ 3 ∷ []
unfolding passes loop_body poll on_event on_message on_registration is_known on_submission
    on_accepted evict_oldest peer_connected peer_disconnected remove_pending try_from get insert
    remove on_slots listener_slot_msg on_results drop_expired expire count_timeouts
    drain_disconnects drain_errors ℕ_discrete
test_dropped = refl

passes-IsBacked_example :
    All
      (IsBacked listener_externals (heard listener_externals history []))
      (passes listener_externals history (new_listener 1)).1
passes-IsBacked_example = passes-IsBacked listener_externals 1 history

passes-IsSwept_example :
    IsSwept 1 1500000000
      (dropped listener_externals second_pass
        (passes listener_externals history (new_listener 1)).0)
      (loop_body listener_externals second_pass
        (passes listener_externals history (new_listener 1)).0).0
    × ((open_after 3 second_pass.events (open_after_passes 3 history false) ≡ false)
        ⊎ IsHeld 3
            (loop_body listener_externals second_pass
              (passes listener_externals history (new_listener 1)).0).0)
passes-IsSwept_example =
    passes-IsSwept listener_externals 1 history second_pass 3
      (
        (
          omega arith,
          (omega arith, (omega arith, (omega arith, (omega arith, (omega arith, omega arith))))),
        ),
        tt,
      )
      (omega arith, (omega arith, omega arith))
