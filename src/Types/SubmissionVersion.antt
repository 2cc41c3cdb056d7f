-- ===== src/Types/SubmissionVersion.antt =====
-- crates/types/src/bid_submission.rs, `SubmissionVersion`: the order in which a builder's submissions
-- replace one another.
use Prim.Native.Nat.{compare, Ordering}
use helix.Base.{ℕ, ◌<◌, ◌≡◌, ◌⊎◌, Bool, true, false, Option, none, some, arith}

pub record SubmissionVersion : Type 0 where
  pub on_receive_ns : ℕ
  pub sequence : Option ℕ

abbrev cmp_by : Option ℕ → Option ℕ → ℕ → ℕ → Ordering
cmp_by (some a) (some b) ns_a ns_b = compare a b
cmp_by _ _ ns_a ns_b = compare ns_a ns_b

-- `Ord::cmp`: by sequence number if both have one, else by receive time.
unfoldable pub cmp : SubmissionVersion → SubmissionVersion → Ordering
cmp a b = cmp_by a.sequence b.sequence a.on_receive_ns b.on_receive_ns

-- `a >= b`, which Rust derives from `partial_cmp`.
unfoldable pub ge : SubmissionVersion → SubmissionVersion → Bool
unfolding cmp
ge a b = elim (cmp a b) [ Ordering.lt ↦ false | _ ↦ true ]

-- `a > b`.
unfoldable pub gt : SubmissionVersion → SubmissionVersion → Bool
unfolding cmp
gt a b = elim (cmp a b) [ Ordering.gt ↦ true | _ ↦ false ]

-- The two versions compare by the same number as any third of their kind.
abbrev pub SameKind : SubmissionVersion → SubmissionVersion → Type 0
SameKind a b =
    ((a.sequence ≡ none) × (b.sequence ≡ none))
    ⊎ ((m : ℕ) × (n : ℕ) × (a.sequence ≡ some m) × (b.sequence ≡ some n))

-- What is not greater is at most.
pub gt-ge : (a b : SubmissionVersion) → gt a b ≡ false → ge b a ≡ true
unfolding gt ge
gt-ge a b h = ground arith

pub ge_refl : (a : SubmissionVersion) → ge a a ≡ true
unfolding ge
ge_refl a = ground arith

-- Of two versions one is at least the other.
pub ge_total : (a b : SubmissionVersion) → (ge a b ≡ true) ⊎ (ge b a ≡ true)
unfolding ge
ge_total a b = ground arith

-- Among versions that all carry a sequence number, or all carry none, the order is transitive.
ge_trans :
    (a b c : SubmissionVersion)
    → SameKind a b
    → SameKind b c
    → ge a b ≡ true
    → ge b c ≡ true
    → ge a c ≡ true
unfolding ge
ge_trans a b c k l p q = ground arith

-- Whenever a version without a sequence number was received between two with one, and the sequence
-- numbers of those two run against their receive times, each of the three is older than the next and
-- the last is older than the first: the order is not transitive.
pub ge_cyclic :
    (a b c : SubmissionVersion) (m n : ℕ)
    → a.sequence ≡ some m
    → b.sequence ≡ none
    → c.sequence ≡ some n
    → n < m
    → a.on_receive_ns < b.on_receive_ns
    → b.on_receive_ns < c.on_receive_ns
    → (ge a b ≡ false) × (ge b c ≡ false) × (ge c a ≡ false)
unfolding ge
ge_cyclic a b c m n p q r h k l = ground arith
