-- ===== src/Types/Samples.antt =====
-- crates/types/src: concrete values for the tests.
use helix.Base.{ℕ, zero, suc, ◌+◌, none, List, [], ◌∷◌, length}
use helix.Types.Payload.{Externals, ExecutionPayload}
use helix.Types.Hydration.{DehydratedBidSubmission, Cache}

-- A hasher that adds up what it is given, and small limits.
abbrev pub sum : ℕ → List ℕ → ℕ
sum h [] = h
sum h (b ∷ bs) = sum (h + b) bs

abbrev pub externals : Externals
externals = record {
  max_extra_data_bytes = 32;
  max_bytes_per_transaction = 100;
  max_transactions_per_payload = 4;
  cells_per_ext_blob = 2;
  hasher_default = 0;
  hasher_write_u64 = λ h n. h + n;
  hasher_write = sum;
  hasher_finish = λ h. h;
  withdrawals_root = λ ws. length ws;
  transactions_root = λ txs. length txs;
}

abbrev pub bytes : ℕ → ℕ → List ℕ
bytes b zero = []
bytes b (suc n) = b ∷ bytes b n

abbrev pub payload : ExecutionPayload
payload = record {
  parent_hash = 1;
  fee_recipient = 2;
  state_root = 0;
  receipts_root = 0;
  logs_bloom = 0;
  prev_randao = 3;
  block_number = 77;
  gas_limit = 30;
  gas_used = 20;
  timestamp = 12;
  extra_data = [];
  base_fee_per_gas = 1;
  block_hash = 5;
  transactions = bytes 3 67 ∷ [];
  withdrawals = [];
  blob_gas_used = 0;
  excess_blob_gas = 0;
}

-- One full transaction, the same one again by its key, a new blob and a cached one.
abbrev pub dehydrated : DehydratedBidSubmission
dehydrated = record {
  message = record {
    slot = 5;
    parent_hash = 1;
    block_hash = 5;
    builder_pubkey = 8;
    proposer_pubkey = 6;
    proposer_fee_recipient = 2;
    gas_limit = 30;
    gas_used = 20;
    value = 100;
  };
  execution_payload = payload;
  refs = 0 ∷ 9 ∷ [];
  new_items = record { proof = 1 ∷ 2 ∷ []; commitment = 4 ∷ []; blob = 11 } ∷ [];
  execution_requests = [];
  signature = [];
  tx_root = none;
  tx_refs = 0 ∷ 201 ∷ [];
  withdrawals_ref = 0;
}

abbrev pub cache : Cache
cache = record {
  transactions = (201, bytes 3 67) ∷ [];
  blobs_fulu = (9, record { commitment = 9 ∷ []; proofs = 1 ∷ 2 ∷ []; blob = 12 }) ∷ [];
  withdrawals = [];
}
