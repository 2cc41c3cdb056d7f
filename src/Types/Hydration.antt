-- ===== src/Types/Hydration.antt =====
-- crates/types/src/hydration.rs: a submission may name transactions, blobs and withdrawals by an 8-byte
-- key instead of carrying them, once the relay has seen them from that builder. The program's
-- `DehydratedBidSubmission` has the one variant `Fulu`, which is the record here. What mutates its
-- maps returns them, on the error paths too.
use helix.Base.{
  ℕ, suc, ◌+◌, ◌-◌, Bool, true, false, ◌&&◌, ◌||◌, Option, none, some, List, [], ◌∷◌, ◌++◌, ltb,
  leb, ◌==◌, if◌then◌else◌, length, drop, all, any, count, ℕ_discrete,
}
use helix.Base.Map.{Map, get, insert}
use helix.Types.Payload.{
  Externals, BidTrace, ExecutionPayload, Withdrawal, Transaction, BlobsBundle,
  SignedBidSubmissionFulu, validate_ssz_lengths, validate_trace, Check,
}
pub mod Hydrate
pub mod Builders
pub mod TxRefs
pub mod BlobRefs
pub mod Precheck
pub mod Learning
pub mod Isolation

pub record BlobItem : Type 0 where
  pub proof : List ℕ
  pub commitment : List ℕ
  pub blob : ℕ

pub record DehydratedBidSubmission : Type 0 where
  pub message : BidTrace
  pub execution_payload : ExecutionPayload
  pub refs : List ℕ
  pub new_items : List BlobItem
  pub execution_requests : List ℕ
  pub signature : List ℕ
  pub tx_root : Option ℕ
  pub tx_refs : List ℕ
  pub withdrawals_ref : ℕ

pub record CachedBlob : Type 0 where
  pub commitment : List ℕ
  pub proofs : List ℕ
  pub blob : ℕ

pub record CachedWithdrawals : Type 0 where
  pub withdrawals : List Withdrawal
  pub root : ℕ

pub record Cache : Type 0 where
  pub transactions : Map ℕ Transaction
  pub blobs_fulu : Map ℕ CachedBlob
  pub withdrawals : Map ℕ CachedWithdrawals

abbrev pub empty_cache : Cache
empty_cache = record { transactions = []; blobs_fulu = []; withdrawals = [] }

pub data HydrationError : Type 0 where
  unknown_tx_hash : ℕ → ℕ → HydrationError
  invalid_tx_length : ℕ → ℕ → HydrationError
  unknown_blob_hash_fulu : ℕ → ℕ → HydrationError
  too_many_blobs : ℕ → ℕ → HydrationError
  missing_full_tx : ℕ → HydrationError
  missing_new_blob : ℕ → HydrationError
  too_many_txs : HydrationError
  unknown_withdrawals : ℕ → HydrationError
  invalid_blob_proofs : ℕ → ℕ → HydrationError

pub record HydratedData : Type 0 where
  pub submission : SignedBidSubmissionFulu
  pub tx_cache_hits : ℕ
  pub blob_cache_hits : ℕ
  pub tx_root : Option ℕ

pub data Result (A : Type 0) : Type 0 where
  ok : A → Result A
  err : HydrationError → Result A

abbrev pub next_full_item : ℕ
next_full_item = 0

abbrev pub tx_key_size : ℕ
tx_key_size = 67

abbrev pub contains_key : {V : Type 0} → ℕ → Map ℕ V → Bool
contains_key k m = elim (get ℕ_discrete k m) [ none ↦ false | some _ ↦ true ]

module _ (x : Externals) where
  -- The slice panics on a transaction shorter than the key; every caller checks the length first.
  unfoldable pub tx_cache_key : Transaction → ℕ
  tx_cache_key tx =
      x.hasher_finish (x.hasher_write x.hasher_default (drop (length tx - tx_key_size) tx))

  unfoldable pub blob_cache_key : List ℕ → ℕ
  blob_cache_key commitment = x.hasher_finish (x.hasher_write x.hasher_default commitment)

  unfoldable pub hash_withdrawals : ℕ → List Withdrawal → ℕ
  hash_withdrawals h [] = h
  hash_withdrawals h (w ∷ ws) =
      let h1 = x.hasher_write_u64 h w.index in
      let h2 = x.hasher_write_u64 h1 w.validator_index in
      let h3 = x.hasher_write h2 w.address in hash_withdrawals (x.hasher_write_u64 h3 w.amount) ws

  unfoldable pub withdrawals_key : List Withdrawal → ℕ
  unfolding hash_withdrawals
  withdrawals_key ws = x.hasher_finish (hash_withdrawals x.hasher_default ws)

  abbrev pub has_all_cells : List ℕ → Bool
  has_all_cells proofs = length proofs == x.cells_per_ext_blob

  abbrev pub next_full_refs : List ℕ → ℕ
  next_full_refs = count (λ r. r == next_full_item)

  -- `blobs.get(&r).is_some_and(..)`.
  abbrev pub is_cached_blob : Map ℕ CachedBlob → ℕ → Bool
  is_cached_blob blobs r = elim (get ℕ_discrete r blobs) [
    | none ↦ false
    | some b ↦ has_all_cells b.proofs
  ]

  abbrev pub is_new : List BlobItem → ℕ → Bool
  is_new items r = any (λ b. blob_cache_key b.commitment == r) items

  abbrev pub is_ok : Check → Bool
  is_ok none = true
  is_ok (some e) = false

  unfoldable pub can_hydrate_inner : DehydratedBidSubmission → Cache → ℕ → Bool
  can_hydrate_inner s c max_blobs_per_block =
      leb (length s.tx_refs) x.max_transactions_per_payload
      && leb (length s.refs) max_blobs_per_block
      && is_ok (validate_ssz_lengths x s.execution_payload)
      && (s.withdrawals_ref == 0 || contains_key s.withdrawals_ref c.withdrawals)
      && all (λ tx. leb tx_key_size (length tx)) s.execution_payload.transactions
      && leb (next_full_refs s.tx_refs) (length s.execution_payload.transactions)
      && all (λ r. r == next_full_item || contains_key r c.transactions) s.tx_refs
      && all (λ b. has_all_cells b.proof) s.new_items
      && leb (next_full_refs s.refs) (length s.new_items)
      && all (λ r. r == next_full_item || is_new s.new_items r || is_cached_blob c.blobs_fulu r)
          s.refs

  -- `or_insert_with`: a key that is there keeps its value.
  abbrev pub cache_withdrawals : List Withdrawal → Map ℕ CachedWithdrawals → Map ℕ CachedWithdrawals
  cache_withdrawals ws m =
      let k = withdrawals_key ws in
      elim (get ℕ_discrete k m) [
        | some _ ↦ m
        | none ↦ insert ℕ_discrete k (record { withdrawals = ws; root = x.withdrawals_root ws }) m
      ]

  -- `self.execution_payload.withdrawals.is_empty()`.
  abbrev pub has_withdrawals : DehydratedBidSubmission → Bool
  has_withdrawals s = elim s.execution_payload.withdrawals [ [] ↦ false | w ∷ ws ↦ true ]

  -- The withdrawals' step of `hydrate_inner`: the list of the payload, the cache, and `last_err`.
  unfoldable pub hydrate_withdrawals :
      DehydratedBidSubmission
      → Map ℕ CachedWithdrawals
      → List Withdrawal × Map ℕ CachedWithdrawals × Option HydrationError
  hydrate_withdrawals s m =
      let ws = s.execution_payload.withdrawals in
      if s.withdrawals_ref == 0
      then (ws, if has_withdrawals s then cache_withdrawals ws m else m, none)
      else elim (get ℕ_discrete s.withdrawals_ref m) [
        | some cached ↦ (cached.withdrawals, m, none)
        | none ↦ (ws, m, some (unknown_withdrawals s.withdrawals_ref))
      ]
