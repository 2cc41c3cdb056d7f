-- ===== src/TcpBids/Pending.antt =====
-- The peers of the TCP listener that have not registered yet: how many there are, and for how long.
pub mod Seats
pub mod Open
pub mod History
use helix.Base.{
  ℕ, ◌+◌, ◌-◌, ◌≡◌, ◌≤◌, ◌<◌, refl, sym, subst, ◌∙◌, inl, inr, Bool, true, false, Option, none,
  some, List, [], ◌∷◌, ◌++◌, ◌==◌, leb, ltb, length, length-append, All, All-map, All-append,
  Bool-cases, Option-cases, ℕ_discrete, arith, if◌then◌else◌,
}
use helix.Base.Map.{get, remove, insert}
use helix.TcpBids.Header.{Parsed, try_from, parsed, unreadable}
use helix.TcpBids.Listener.{
  ListenerExternals, ApiKeyCache, RegistrationMsg, Listener, new_listener, inc, disconnect,
}
use helix.TcpBids.Poll.{
  NetworkEvent, accepts, connects, disconnects, message, is_known, remove_pending, on_event,
  on_message, on_submission, on_registration, on_accepted, evict_oldest, peer_connected,
  peer_disconnected, is_absent,
}

-- Every peer was noticed no later than those after it and than the given instant.
abbrev pub IsAged : ℕ → List (ℕ × ℕ) → Type 0
IsAged hi [] = Unit
IsAged hi (p ∷ ps) = (p.1 ≤ hi) × All (λ q. p.1 ≤ q.1) ps × IsAged hi ps

abbrev pub Book : Type 0
Book = List (ℕ × ℕ) × ℕ × ℕ

abbrev pub book : Listener → Book
book l = (l.pending, l.max_pending, l.registration_timeout)

-- There are at most as many peers as may wait, in the order in which they were noticed.
abbrev pub IsKept : ℕ → ℕ → Book → Type 0
IsKept limit hi b = (length b.0 ≤ limit) × IsAged hi b.0 × (b.1 ≡ limit) × (b.2 ≡ 1000000000)

pub IsAged-later : (hi now : ℕ) (ps : List (ℕ × ℕ)) → hi ≤ now → IsAged hi ps → IsAged now ps
IsAged-later hi now [] h a = tt
IsAged-later hi now (p ∷ ps) h a = (omega (arith, a.0, h), a.1, IsAged-later hi now ps h a.2)

IsAged-append :
    (hi now token : ℕ) (ps : List (ℕ × ℕ))
    → hi ≤ now
    → IsAged hi ps
    → IsAged now (ps ++ ((token, now) ∷ []))
IsAged-append hi now token [] h a = (omega arith, tt, tt)
IsAged-append hi now token (p ∷ ps) h a = (
  omega (arith, a.0, h),
  All-append (λ q. p.1 ≤ q.1) ps ((token, now) ∷ []) a.1 (omega (arith, a.0, h), tt),
  IsAged-append hi now token ps h a.2,
)

remove_pending-All :
    (P : ℕ × ℕ → Type 0) (token : ℕ) (ps : List (ℕ × ℕ))
    → All P ps
    → All P (remove_pending token ps)
unfolding remove_pending
remove_pending-All P token [] a = tt
remove_pending-All P token ((t, at) ∷ ps) a = elim (Bool-cases (t == token)) [
  | inl same ↦ rw (same) a.1
  | inr other ↦ rw (other) (a.0, remove_pending-All P token ps a.1)
]

remove_pending-IsAged :
    (hi token : ℕ) (ps : List (ℕ × ℕ)) → IsAged hi ps → IsAged hi (remove_pending token ps)
unfolding remove_pending
remove_pending-IsAged hi token [] a = tt
remove_pending-IsAged hi token ((t, at) ∷ ps) a = elim (Bool-cases (t == token)) [
  | inl same ↦ rw (same) a.2
  | inr other ↦
      rw (other) (
        a.0,
        remove_pending-All (λ q. at ≤ q.1) token ps a.1,
        remove_pending-IsAged hi token ps a.2,
      )
]

length-remove_pending :
    (token : ℕ) (ps : List (ℕ × ℕ)) → length (remove_pending token ps) ≤ length ps
unfolding remove_pending
length-remove_pending token [] = omega arith
length-remove_pending token ((t, at) ∷ ps) = ground (arith, length-remove_pending token ps)

abbrev rest_of : List (ℕ × ℕ) → List (ℕ × ℕ)
rest_of [] = []
rest_of (p ∷ ps) = ps

length-rest_of : (n : ℕ) (ps : List (ℕ × ℕ)) → 1 ≤ n → length ps ≤ n → length (rest_of ps) < n
length-rest_of n [] h k = omega arith
length-rest_of n (p ∷ ps) h k = omega arith

rest_of-IsAged : (hi : ℕ) (ps : List (ℕ × ℕ)) → IsAged hi ps → IsAged hi (rest_of ps)
rest_of-IsAged hi [] a = tt
rest_of-IsAged hi (p ∷ ps) a = a.2

evict_oldest-book :
    (l : Listener) (ps : List (ℕ × ℕ))
    → l.pending ≡ ps
    → book (evict_oldest l) ≡ (rest_of ps, l.max_pending, l.registration_timeout)
unfolding evict_oldest
evict_oldest-book l [] e = rw (e, evict_oldest) (rw (e) refl)
evict_oldest-book l (p ∷ ps) e = rw (e, evict_oldest) refl

-- There is room for one more peer.
abbrev HasRoom : ℕ → ℕ → Book → Type 0
HasRoom limit hi b = (length b.0 < limit) × IsAged hi b.0 × (b.1 ≡ limit) × (b.2 ≡ 1000000000)

append-IsKept :
    (limit hi token now : ℕ) (b : Book)
    → hi ≤ now
    → HasRoom limit hi b
    → IsKept limit now (b.0 ++ ((token, now) ∷ []), b.1, b.2)
append-IsKept limit hi token now b later k = (
  omega (arith, length-append b.0 ((token, now) ∷ []), k.0),
  IsAged-append hi now token b.0 later k.1,
  k.2,
  k.3,
)

evict_oldest-HasRoom :
    (limit hi : ℕ) (l : Listener)
    → 1 ≤ limit
    → IsKept limit hi (book l)
    → HasRoom limit hi (book (evict_oldest l))
evict_oldest-HasRoom limit hi l h k =
    subst (HasRoom limit hi) (sym (evict_oldest-book l l.pending refl))
      (length-rest_of limit l.pending h k.0, rest_of-IsAged hi l.pending k.1, k.2, k.3)

pub on_accepted-IsKept :
    (limit hi token now : ℕ) (l : Listener)
    → 1 ≤ limit
    → hi ≤ now
    → IsKept limit hi (book l)
    → IsKept limit now (book (on_accepted token now l))
unfolding on_accepted
on_accepted-IsKept limit hi token now l h later k =
    let l1 = record l { stats = record l.stats { accepted = inc l.stats.accepted } } in
    elim (Bool-cases (leb l.max_pending (length l.pending))) [
      | inl full ↦
          rw (full, on_accepted)
            (append-IsKept limit hi token now (book (evict_oldest l1)) later
              (evict_oldest-HasRoom limit hi l1 h k))
      | inr free ↦
          rw (free, on_accepted)
            (append-IsKept limit hi token now (book l) later
              (ground (arith, free, k.2), k.1, k.2, k.3))
    ]

module _ (x : ListenerExternals) where
  on_submission-book :
      (token pubkey : ℕ) (p : Parsed) (uuid now : ℕ) (l : Listener)
      → book (on_submission token pubkey p uuid now l).0 ≡ book l
  unfolding on_submission
  on_submission-book token pubkey (unreadable e) uuid now l = refl
  on_submission-book token pubkey (parsed h) uuid now l = refl

  on_registration-book :
      (keys : ApiKeyCache) (token : ℕ) (o : Option RegistrationMsg) (l : Listener)
      → book (on_registration x keys token o l) ≡ book l
  unfolding on_registration
  on_registration-book keys token none l = refl
  on_registration-book keys token (some msg) l = elim (Bool-cases (is_known x keys msg)) [
    | inl known ↦ rw (known) refl
    | inr unknown ↦ rw (unknown) refl
  ]

  remove_pending-IsKept :
      (limit hi token : ℕ) (l : Listener)
      → IsKept limit hi (book l)
      → IsKept limit hi (remove_pending token l.pending, l.max_pending, l.registration_timeout)
  remove_pending-IsKept limit hi token l k = (
    omega (arith, length-remove_pending token l.pending, k.0),
    remove_pending-IsAged hi token l.pending k.1,
    k.2,
    k.3,
  )

  pub on_message-IsKept :
      (limit hi : ℕ) (keys : ApiKeyCache) (token : ℕ) (payload : List ℕ) (uuid now : ℕ)
      (l : Listener)
      → IsKept limit hi (book l)
      → IsKept limit hi (book (on_message x keys token payload uuid now l).0)
  unfolding on_message
  on_message-IsKept limit hi keys token payload uuid now l k =
      elim (Option-cases (get ℕ_discrete token l.registered)) [
        | inl first ↦
            let l1 = record l { pending = remove_pending token l.pending } in
            rw (first, on_message)
              (subst (IsKept limit hi)
                (sym (on_registration-book keys token (x.from_ssz_bytes payload) l1))
                (remove_pending-IsKept limit hi token l k))
        | inr (pubkey, known) ↦
            rw (known, on_message)
              (subst (IsKept limit hi)
                (sym (on_submission-book token pubkey (try_from payload) uuid now l)) k)
      ]

  pub peer_disconnected-IsKept :
      (limit hi token : ℕ) (l : Listener)
      → IsKept limit hi (book l)
      → IsKept limit hi (book (peer_disconnected token l))
  unfolding peer_disconnected
  peer_disconnected-IsKept limit hi token l k =
      elim (Option-cases (get ℕ_discrete token l.registered)) [
        | inl unknown ↦ rw (unknown, peer_disconnected) (remove_pending-IsKept limit hi token l k)
        | inr (pubkey, known) ↦ rw (known, peer_disconnected) k
      ]
