-- ===== src/TcpBids/Header.antt =====
-- crates/tcp-types/src/lib.rs: the six bytes before a submission. A byte is a number below 256.
use helix.Base.{
  ℕ, ◌+◌, ◌*◌, ◌/◌, ◌%◌, ◌^◌, ◌<◌, ◌≡◌, refl, Bool, List, [], ◌∷◌, ◌++◌, ◌==◌, if◌then◌else◌,
  Option, none, some, zero, suc, arith, inl, inr, Option-cases, All, ◌↔◌, subst, sym,
}
use mathlib.Core.Option.{some-injective}

pub data MergeType : Type 0 where
  no_merge : MergeType
  mergeable : MergeType
  append_only : MergeType
  pause : MergeType

pub data Compression : Type 0 where
  uncompressed : Compression
  gzip : Compression
  zstd : Compression

pub data ParseError : Type 0 where
  invalid_merge_type : ℕ → ParseError
  submission_too_short : ParseError
  duplicate_sequence_number : ℕ → ParseError

-- `merge_type as u8`.
abbrev pub merge_type_byte : MergeType → ℕ
merge_type_byte no_merge = 0
merge_type_byte mergeable = 1
merge_type_byte append_only = 2
merge_type_byte pause = 3

-- `MergeType::try_from`.
abbrev pub merge_type_from : ℕ → Option MergeType
merge_type_from zero = some no_merge
merge_type_from (suc zero) = some mergeable
merge_type_from (suc (suc zero)) = some append_only
merge_type_from (suc (suc (suc zero))) = some pause
merge_type_from _ = none

-- The flags are the bits of a byte.
pub record BidSubmissionHeader : Type 0 where
  pub sequence_number : ℕ
  pub merge_type : MergeType
  pub flags : ℕ

-- `contains`, of a flag `1 << bit`.
abbrev pub contains_flag : ℕ → ℕ → Bool
contains_flag flags bit = flags / 2 ^ bit % 2 == 1

abbrev pub is_dehydrated : ℕ → Bool
is_dehydrated flags = contains_flag flags 0

abbrev pub with_adjustments : ℕ → Bool
with_adjustments flags = contains_flag flags 1

abbrev pub is_zstd_compressed : ℕ → Bool
is_zstd_compressed flags = contains_flag flags 2

abbrev pub pessimistic : ℕ → Bool
pessimistic flags = contains_flag flags 3

abbrev pub dehydrated_v2 : ℕ → Bool
dehydrated_v2 flags = contains_flag flags 4

abbrev pub merging_v2 : ℕ → Bool
merging_v2 flags = contains_flag flags 5

abbrev pub compression : BidSubmissionHeader → Compression
compression h = if is_zstd_compressed h.flags then zstd else uncompressed

-- `u32::from_be_bytes`.
abbrev pub from_be_bytes : ℕ → ℕ → ℕ → ℕ → ℕ
from_be_bytes a b c d = ((a * 256 + b) * 256 + c) * 256 + d

-- `u32::to_be_bytes`.
abbrev pub to_be_bytes : ℕ → List ℕ
to_be_bytes n = n / 16777216 % 256 ∷ n / 65536 % 256 ∷ n / 256 % 256 ∷ n % 256 ∷ []

-- `Result<BidSubmissionHeader, ParseError>`.
pub data Parsed : Type 0 where
  parsed : BidSubmissionHeader → Parsed
  unreadable : ParseError → Parsed

-- A merge type that is none is named in the error.
abbrev pub with_merge_type : ℕ → ℕ → ℕ → Option MergeType → Parsed
with_merge_type n flags byte (some m) =
    parsed (record { sequence_number = n; merge_type = m; flags = flags })
with_merge_type n flags byte none = unreadable (invalid_merge_type byte)

-- `TryFrom<&[u8]> for BidSubmissionHeader`; what follows the header is not read.
unfoldable pub try_from : List ℕ → Parsed
try_from (a ∷ b ∷ c ∷ d ∷ m ∷ f ∷ rest) =
    with_merge_type (from_be_bytes a b c d) f m (merge_type_from m)
try_from _ = unreadable submission_too_short

-- `append_encoded`, the buffer first.
unfoldable pub append_encoded : List ℕ → BidSubmissionHeader → List ℕ
append_encoded buffer h =
    buffer ++ (to_be_bytes h.sequence_number ++ (merge_type_byte h.merge_type ∷ h.flags ∷ []))

be_bytes_lem :
    (n : ℕ)
    → n < 4294967296
    → from_be_bytes (n / 16777216 % 256) (n / 65536 % 256) (n / 256 % 256) (n % 256) ≡ n
be_bytes_lem n h = omega arith

merge_type_from-byte : (m : MergeType) → merge_type_from (merge_type_byte m) ≡ some m
merge_type_from-byte no_merge = refl
merge_type_from-byte mergeable = refl
merge_type_from-byte append_only = refl
merge_type_from-byte pause = refl

-- A header that holds a u32 for its sequence number is read back as it was written, whatever comes after it.
try_from-append_encoded :
    (h : BidSubmissionHeader) (rest : List ℕ)
    → h.sequence_number < 4294967296
    → try_from (append_encoded [] h ++ rest) ≡ parsed h
unfolding try_from append_encoded
try_from-append_encoded h rest b =
    rw (be_bytes_lem h.sequence_number b, merge_type_from-byte h.merge_type) refl

be_bytes_back :
    (a b c d : ℕ) (rest : List ℕ)
    → All (λ x. x < 256) (a ∷ b ∷ c ∷ d ∷ [])
    → to_be_bytes (from_be_bytes a b c d) ++ rest ≡ a ∷ b ∷ c ∷ d ∷ rest
be_bytes_back a b c d rest (ha, (hb, (hc, (hd, _)))) =
    let e1 : from_be_bytes a b c d / 16777216 % 256 ≡ a = omega arith in
    let e2 : from_be_bytes a b c d / 65536 % 256 ≡ b = omega arith in
    let e3 : from_be_bytes a b c d / 256 % 256 ≡ c = omega arith in
    let e4 : from_be_bytes a b c d % 256 ≡ d = omega arith in rw (e1, e2, e3, e4) refl

merge_type_byte-from : (n : ℕ) (m : MergeType) → merge_type_from n ≡ some m → merge_type_byte m ≡ n
merge_type_byte-from zero m e = ground (arith, some-injective no_merge m e)
merge_type_byte-from (suc zero) m e = ground (arith, some-injective mergeable m e)
merge_type_byte-from (suc (suc zero)) m e = ground (arith, some-injective append_only m e)
merge_type_byte-from (suc (suc (suc zero))) m e = ground (arith, some-injective pause m e)
merge_type_byte-from (suc (suc (suc (suc n)))) m e = cc

-- The bytes are those of a header, with something after them.
abbrev pub Encodes : List ℕ → BidSubmissionHeader → Type 0
Encodes bytes h =
    (h.sequence_number < 4294967296) × (rest : List ℕ) × (bytes ≡ append_encoded [] h ++ rest)

parsed-injective : (g h : BidSubmissionHeader) → parsed g ≡ parsed h → g ≡ h
parsed-injective g h e = cc

-- What is read as a header is its encoding, with something after it.
try_from-Encodes :
    (bytes : List ℕ) (h : BidSubmissionHeader)
    → All (λ x. x < 256) bytes
    → try_from bytes ≡ parsed h
    → Encodes bytes h
unfolding try_from append_encoded
try_from-Encodes (a ∷ b ∷ c ∷ d ∷ m ∷ f ∷ rest) h (ha, (hb, (hc, (hd, _)))) e =
    elim (Option-cases (merge_type_from m)) [
      | inl bad ↦ cc
      | inr (t, good) ↦
          let g : BidSubmissionHeader = record {
            sequence_number = from_be_bytes a b c d;
            merge_type = t;
            flags = f;
          } in
          let same : g ≡ h =
            parsed-injective g h
              (subst (λ o. with_merge_type (from_be_bytes a b c d) f m o ≡ parsed h) good e) in
          subst (Encodes (a ∷ b ∷ c ∷ d ∷ m ∷ f ∷ rest)) same (
            omega arith,
            rest,
            rw (merge_type_byte-from m t good)
                (sym (be_bytes_back a b c d (m ∷ f ∷ rest) (ha, (hb, (hc, (hd, tt)))))),
          )
    ]
try_from-Encodes [] h b e = cc
try_from-Encodes (_ ∷ []) h b e = cc
try_from-Encodes (_ ∷ _ ∷ []) h b e = cc
try_from-Encodes (_ ∷ _ ∷ _ ∷ []) h b e = cc
try_from-Encodes (_ ∷ _ ∷ _ ∷ _ ∷ []) h b e = cc
try_from-Encodes (_ ∷ _ ∷ _ ∷ _ ∷ _ ∷ []) h b e = cc

-- Bytes are read as a header exactly if they begin with what `append_encoded` writes for it and its
-- sequence number is a u32. What comes after the first six bytes plays no role.
pub try_from_iff :
    (bytes : List ℕ) (h : BidSubmissionHeader)
    → All (λ x. x < 256) bytes
    → (try_from bytes ≡ parsed h) ↔ Encodes bytes h
try_from_iff bytes h b = (
  try_from-Encodes bytes h b,
  λ e. subst (λ bs. try_from bs ≡ parsed h) (sym e.2) (try_from-append_encoded h e.1 e.0),
)
