-- ===== src/TcpBids/Listener.antt =====
-- crates/relay/src/tcp_bid_recv/mod.rs, `BidSubmissionTcpListener`: the connections that builders open and
-- register, and the bids that come over them. The sockets are a library's: what they report is an event,
-- and what is asked of them is in `outputs`. Instants are numbers of nanoseconds.
use helix.Base.{ℕ, ◌+◌, ◌*◌, ◌^◌, ◌%◌, Bool, true, Option, none, some, List, [], ltb, if◌then◌else◌}
use helix.Base.Map.{Map}
use helix.TcpBids.Header.{MergeType, Compression, ParseError, BidSubmissionHeader, compression}

pub record RegistrationMsg : Type 0 where
  pub api_key : ℕ
  pub builder_pubkey : ℕ

pub record BuilderConfig : Type 0 where
  pub pub_key : ℕ
  pub tcp_submissions : Bool

-- The cache of builders by their API key.
abbrev pub ApiKeyCache : Type 0
ApiKeyCache = ℕ → Option (List BuilderConfig)

-- `RegistrationMsg::from_ssz_bytes`, and whether the relay runs for local development.
pub record ListenerExternals : Type 0 where
  pub from_ssz_bytes : List ℕ → Option RegistrationMsg
  pub is_local_dev : Bool

pub data BidSubmissionError : Type 0 where
  internal : BidSubmissionError
  -- The status of the HTTP error.
  builder_api : ℕ → BidSubmissionError
  parse_error : ParseError → BidSubmissionError

pub data Status : Type 0 where
  okay : Status
  invalid_request : Status
  internal_error : Status
  connection_error : Status

abbrev pub status_from : BidSubmissionError → Status
status_from internal = internal_error
status_from (builder_api _) = invalid_request
status_from (parse_error _) = invalid_request

-- The text of a response: that of an error, or one that came with a result.
pub data ErrorMsg : Type 0 where
  text_of : BidSubmissionError → ErrorMsg
  given : List ℕ → ErrorMsg

pub record BidSubmissionResponse : Type 0 where
  pub sequence_number : ℕ
  pub request_id : ℕ
  pub status : Status
  pub error_msg : ErrorMsg

abbrev pub unwrap_or_default : Option ℕ → ℕ
unwrap_or_default none = 0
unwrap_or_default (some n) = n

abbrev pub response_from_bid_submission_error :
    Option ℕ → Option ℕ → BidSubmissionError → BidSubmissionResponse
response_from_bid_submission_error seq id e = record {
  sequence_number = unwrap_or_default seq;
  request_id = unwrap_or_default id;
  status = status_from e;
  error_msg = text_of e;
}

abbrev pub response_from_submission_result : ℕ → ℕ → Status → List ℕ → BidSubmissionResponse
response_from_submission_result seq id status msg = record {
  sequence_number = seq;
  request_id = id;
  status = status;
  error_msg = given msg;
}

pub data SubmissionRefKind : Type 0 where
  http_ref : SubmissionRefKind
  tcp_ref : SubmissionRefKind
  internal_ref : SubmissionRefKind

pub record SubmissionRef : Type 0 where
  pub kind : SubmissionRefKind
  pub seq_num : ℕ
  pub id : ℕ

-- `SubmissionRef::tcp`.
abbrev pub tcp : ℕ → ℕ → SubmissionRef
tcp token seq = record { kind = tcp_ref; seq_num = seq; id = token }

pub data Encoding : Type 0 where
  json : Encoding
  ssz : Encoding

pub record InternalBidSubmissionHeader : Type 0 where
  pub submission_id : ℕ
  pub sequence_number : ℕ
  pub has_sequence_number : Bool
  pub merge_type : MergeType
  pub flags : ℕ
  pub encoding : Encoding
  pub header_compression : Compression
  pub api_key : List ℕ

abbrev pub from_tcp_header : ℕ → BidSubmissionHeader → InternalBidSubmissionHeader
from_tcp_header id h = record {
  submission_id = id;
  sequence_number = h.sequence_number;
  has_sequence_number = true;
  merge_type = h.merge_type;
  flags = h.flags;
  encoding = ssz;
  header_compression = compression h;
  api_key = [];
}

abbrev pub bid_sub_header_size : ℕ
bid_sub_header_size = 6

abbrev pub registration_timeout_ms : ℕ
registration_timeout_ms = 1000

-- `Duration::from_millis`.
abbrev pub from_millis : ℕ → ℕ
from_millis n = n * 1000000

pub record NewTcpBidSubmission : Type 0 where
  pub payload_offset : ℕ
  pub header : InternalBidSubmissionHeader
  pub submission_ref : SubmissionRef
  pub receive_ns : ℕ
  pub read_body_ns : ℕ
  pub expected_pubkey : ℕ
  pub has_expected_pubkey : Bool

pub record Stats : Type 0 where
  pub accepted : ℕ
  pub reconnected : ℕ
  pub disconnected : ℕ
  pub registration_ok : ℕ
  pub registration_invalid : ℕ
  pub registration_timeouts : ℕ
  pub submissions_received : ℕ
  pub header_parse_errors : ℕ
  pub results_sent : ℕ

abbrev pub no_stats : Stats
no_stats = record {
  accepted = 0;
  reconnected = 0;
  disconnected = 0;
  registration_ok = 0;
  registration_invalid = 0;
  registration_timeouts = 0;
  submissions_received = 0;
  header_parse_errors = 0;
  results_sent = 0;
}

-- `+= 1` on a u32.
abbrev pub inc : ℕ → ℕ
inc n = (n + 1) % 2 ^ 32

-- What the listener asks of the sockets.
pub data Outgoing : Type 0 where
  disconnect : ℕ → Outgoing
  send_with : ℕ → BidSubmissionResponse → Outgoing

pub record SubmissionError : Type 0 where
  pub token : ℕ
  pub seq_num : Option ℕ
  pub request_id : Option ℕ
  pub error : BidSubmissionError

pub record Listener : Type 0 where
  pub to_disconnect : List ℕ
  pub registered : Map ℕ ℕ
  pub pending : List (ℕ × ℕ)
  pub max_pending : ℕ
  pub registration_timeout : ℕ
  pub submission_errors : List SubmissionError
  pub bid_slot : ℕ
  pub stats : Stats
  pub outputs : List Outgoing

-- `BidSubmissionTcpListener::new`, by the number of connections.
abbrev pub new_listener : ℕ → Listener
new_listener max_connections = record {
  to_disconnect = [];
  registered = [];
  pending = [];
  max_pending = if ltb max_connections 1 then 1 else max_connections;
  registration_timeout = from_millis registration_timeout_ms;
  submission_errors = [];
  bid_slot = 0;
  stats = no_stats;
  outputs = [];
}
