-- ===== src/Simulator/Queue/Order.antt =====
-- `PendingRequests`: no request is lost, one waits for each builder on each fork, and the most urgent one
-- runs next.
use helix.Base.{
  total, total_option, total-append, ℕ, suc, ◌+◌, ◌≤◌, ◌≡◌, refl, sym, subst, ◌⊎◌, inl, inr, true,
  false, none, some, List, [], ◌∷◌, arith, All, All-map, Bool-cases, Option-cases, if◌then◌else◌,
}
use helix.Types.SubmissionVersion.{SubmissionVersion}
use helix.Simulator.Request.{ValidationRequest, sort_key, key_ge}
use helix.Simulator.Queue.{
  QueueKey, key_eq, LocalTelemetry, Waiting, replace, store_request, greatest, last_of, but_last,
  swap_remove, next_req,
}

abbrev pub of_request : (ValidationRequest → ℕ) → Waiting → ℕ
of_request f w = f w.0

greatest-nil : {w : ℕ × Waiting} → greatest [] ≡ some w → ⊥
unfolding greatest
greatest-nil e = cc

greatest-cons :
    (x : Waiting) (xs : List Waiting) (i : ℕ) (w : Waiting)
    → greatest (x ∷ xs) ≡ some (i, w)
    → ((i ≡ 0) × (w ≡ x)) ⊎ ((j : ℕ) × (i ≡ suc j) × (greatest xs ≡ some (j, w)))
unfolding greatest
greatest-cons x xs i w e = elim (Option-cases (greatest xs)) [
  | inl alone ↦ inl (ground (arith, e, alone))
  | inr ((j, u), found) ↦ elim (Bool-cases (key_ge (sort_key u.0) (sort_key x.0))) [
    | inl more ↦ inr (j, ground (arith, e, found, more), ground (arith, e, found, more))
    | inr less ↦ inl (ground (arith, e, found, less))
  ]
]

module _ {A : Type 0} (g : A → ℕ) where
  total-but_last :
      (y : A) (ys : List A) → total g (but_last y ys) + g (last_of y ys) ≡ g y + total g ys
  unfolding but_last last_of
  total-but_last y [] = omega arith
  total-but_last y (z ∷ zs) = omega (arith, total-but_last z zs)

  pub total-swap_remove_first :
      (x : A) (xs : List A) → total g (swap_remove 0 (x ∷ xs)) + g x ≡ g x + total g xs
  unfolding swap_remove
  total-swap_remove_first x [] = omega arith
  total-swap_remove_first x (y ∷ ys) = omega (arith, total-but_last y ys)

module _ (g : Waiting → ℕ) where
  pub total-greatest :
      (reqs : List Waiting) (i : ℕ) (w : Waiting)
      → greatest reqs ≡ some (i, w)
      → total g (swap_remove i reqs) + g w ≡ total g reqs
  unfolding swap_remove
  total-greatest [] i w e = absurd (greatest-nil e)
  total-greatest (x ∷ xs) i w e = elim (greatest-cons x xs i w e) [
    | inl (first, same) ↦ rw first (rw same (total-swap_remove_first g x xs))
    | inr (j, later, found) ↦ rw later (omega (arith, total-greatest xs j w found))
  ]

module _ (f : ValidationRequest → ℕ) where
  total-replace :
      (req : ValidationRequest) (key : QueueKey) (version : SubmissionVersion)
      (reqs reqs' : List Waiting) (dropped : ValidationRequest)
      → replace req key version reqs ≡ some (reqs', dropped)
      → total (of_request f) reqs' + f dropped ≡ total (of_request f) reqs + f req
  unfolding replace
  total-replace req key version [] reqs' dropped e = cc
  total-replace req key version ((r, k, v) ∷ reqs) reqs' dropped e =
      elim (Option-cases (replace req key version reqs)) [
        | inl absent ↦ ground (arith, absent)
        | inr ((rest, d), found) ↦
            ground (arith, found, total-replace req key version reqs rest d found)
      ]

  -- What is stored is in the queue or dropped, and so is all that was there.
  pub total-store_request :
      (req : ValidationRequest) (key : QueueKey) (version : SubmissionVersion) (reqs : List Waiting)
      (t : LocalTelemetry)
      → let (q, dropped) = store_request req key version (reqs, t) in
        total (of_request f) q.0 + total_option f dropped ≡ total (of_request f) reqs + f req
  unfolding store_request
  total-store_request req key version reqs t = elim (Option-cases (replace req key version reqs)) [
    | inl absent ↦
        ground (arith, absent, total-append (of_request f) reqs ((req, key, version) ∷ []))
    | inr ((rest, d), found) ↦
        ground (arith, found, total-replace req key version reqs rest d found)
  ]

  -- The request that runs next leaves the queue, and no other does.
  pub total-next_req :
      (reqs : List Waiting)
      → let (reqs', r) = next_req reqs in
        total (of_request f) reqs' + total_option f r ≡ total (of_request f) reqs
  unfolding next_req
  total-next_req reqs = elim (Option-cases (greatest reqs)) [
    | inl nothing ↦ rw (nothing, next_req) (omega arith)
    | inr ((i, w), found) ↦ rw (found, next_req) (total-greatest (of_request f) reqs i w found)
  ]

-- How many requests wait under the key.
abbrev pub under : QueueKey → Waiting → ℕ
under k w = if key_eq w.1 k then 1 else 0

abbrev pub IsUnique : List Waiting → Type 0
IsUnique reqs = (k : QueueKey) → total (under k) reqs ≤ 1

-- As urgent as every request of the queue.
abbrev pub IsMostUrgent : ValidationRequest → List Waiting → Type 0
IsMostUrgent r reqs = All (λ w. key_ge (sort_key r) (sort_key w.0) ≡ true) reqs

key_ge_refl : (a : ℕ × ℕ × ℕ) → key_ge a a ≡ true
unfolding key_ge
key_ge_refl a = ground arith

key_ge_trans : (a b c : ℕ × ℕ × ℕ) → key_ge a b ≡ true → key_ge b c ≡ true → key_ge a c ≡ true
unfolding key_ge
key_ge_trans a b c p q = ground arith

key_ge_total : (a b : ℕ × ℕ × ℕ) → key_ge a b ≡ false → key_ge b a ≡ true
unfolding key_ge
key_ge_total a b p = ground arith

IsMostUrgent-trans :
    (r s : ValidationRequest) (reqs : List Waiting)
    → key_ge (sort_key r) (sort_key s) ≡ true
    → IsMostUrgent s reqs
    → IsMostUrgent r reqs
IsMostUrgent-trans r s reqs h a =
    All-map reqs (λ w k. key_ge_trans (sort_key r) (sort_key s) (sort_key w.0) h k) a

pub greatest-none : (reqs : List Waiting) → greatest reqs ≡ none → reqs ≡ []
unfolding greatest
greatest-none [] e = refl
greatest-none (x ∷ xs) e = absurd (ground arith)

pub greatest-IsMostUrgent :
    (reqs : List Waiting) (i : ℕ) (w : Waiting)
    → greatest reqs ≡ some (i, w)
    → IsMostUrgent w.0 reqs
unfolding greatest
greatest-IsMostUrgent [] i w e = cc
greatest-IsMostUrgent (x ∷ xs) i w e = elim (Option-cases (greatest xs)) [
  | inl alone ↦
      let same : w ≡ x = ground (arith, e, alone) in
      subst (λ (v : Waiting). IsMostUrgent v.0 (x ∷ xs)) (sym same)
        (key_ge_refl (sort_key x.0), rw (greatest-none xs alone) tt)
  | inr ((j, u), found) ↦
      let ih = greatest-IsMostUrgent xs j u found in
      elim (Bool-cases (key_ge (sort_key u.0) (sort_key x.0))) [
        | inl more ↦
            let same : w ≡ u = ground (arith, e, found, more) in
            subst (λ (v : Waiting). IsMostUrgent v.0 (x ∷ xs)) (sym same) (more, ih)
        | inr less ↦
            let same : w ≡ x = ground (arith, e, found, less) in
            subst (λ (v : Waiting). IsMostUrgent v.0 (x ∷ xs)) (sym same)
              (
                key_ge_refl (sort_key x.0),
                IsMostUrgent-trans x.0 u.0 xs (key_ge_total (sort_key u.0) (sort_key x.0) less) ih,
              )
      ]
]

key_eq_lem : (a b : QueueKey) → key_eq a b ≡ true → a ≡ b
unfolding key_eq
key_eq_lem a b h = ground arith

total-under-replace :
    (k key : QueueKey) (req : ValidationRequest) (version : SubmissionVersion)
    (reqs reqs' : List Waiting) (dropped : ValidationRequest)
    → replace req key version reqs ≡ some (reqs', dropped)
    → total (under k) reqs' ≡ total (under k) reqs
unfolding replace
total-under-replace k key req version [] reqs' dropped e = cc
total-under-replace k key req version ((r, j, v) ∷ reqs) reqs' dropped e =
    elim (Option-cases (replace req key version reqs)) [
      | inl absent ↦ ground (arith, absent, key_eq_lem j key)
      | inr ((rest, d), found) ↦
          ground (
            arith,
            found,
            key_eq_lem j key,
            total-under-replace k key req version reqs rest d found,
          )
    ]

replace-absent :
    (key : QueueKey) (req : ValidationRequest) (version : SubmissionVersion) (reqs : List Waiting)
    → replace req key version reqs ≡ none
    → total (under key) reqs ≡ 0
unfolding replace
replace-absent key req version [] e = refl
replace-absent key req version ((r, k, v) ∷ reqs) e =
    elim (Option-cases (replace req key version reqs)) [
      | inl absent ↦ ground (arith, absent, replace-absent key req version reqs absent)
      | inr (p, found) ↦ absurd (ground (arith, e, found))
    ]

pub store_request-IsUnique :
    (req : ValidationRequest) (key : QueueKey) (version : SubmissionVersion) (reqs : List Waiting)
    (t : LocalTelemetry)
    → IsUnique reqs
    → IsUnique (store_request req key version (reqs, t)).0.0
unfolding store_request
store_request-IsUnique req key version reqs t u k =
    elim (Option-cases (replace req key version reqs)) [
      | inl absent ↦ ground (
        arith,
        absent,
        u k,
        key_eq_lem key k,
        replace-absent key req version reqs absent,
        total-append (under k) reqs ((req, key, version) ∷ []),
      )
      | inr ((rest, d), found) ↦
          ground (arith, found, u k, total-under-replace k key req version reqs rest d found)
    ]

pub next_req-IsUnique : (reqs : List Waiting) → IsUnique reqs → IsUnique (next_req reqs).0
unfolding next_req
next_req-IsUnique reqs u k = elim (Option-cases (greatest reqs)) [
  | inl nothing ↦ ground (arith, nothing, u k)
  | inr ((i, w), found) ↦ ground (arith, found, u k, total-greatest (under k) reqs i w found)
]
