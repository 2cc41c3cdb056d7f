-- ===== src/Base/Map.antt =====
-- The hash maps of the program (`FxHashMap`, `BTreeMap`), as association lists over a key with a
-- decidable equality. The iteration order of a hash map is unspecified; here it is the order of the
-- list, and no theorem depends on it.
use mathlib.Core.Path.{◌≡◌, refl, subst, subst₂}
use mathlib.Core.Logic.{◌≢◌, ◌⊎◌, inl, inr, ite}
use mathlib.Core.Bool.{Bool, true, false}
use mathlib.Core.Option.{Option, none, some, some-injective}
use mathlib.Core.List.{List, [], ◌∷◌}
use Prim.Native.Nat.{ℕ, ◌+◌}
use native.Mathlib.Omega.{arith}
use helix.Base.Lists.{total_option}

abbrev pub Map {ℓ} : Type ℓ → Type ℓ → Type ℓ
Map K V = List (K × V)

-- Every entry satisfies the predicate.
abbrev pub AllEntries {ℓ ι} : {K V : Type ℓ} → (K → V → Type ι) → Map K V → Type ι
AllEntries P [] = Unit
AllEntries P ((k, v) ∷ m) = P k v × AllEntries P m

module _ {ℓ} {K V : Type ℓ} where
  abbrev pub is_empty : Map K V → Bool
  is_empty [] = true
  is_empty (e ∷ m) = false

  pub AllEntries-map {ι υ} :
      {P : K → V → Type ι} {Q : K → V → Type υ} (m : Map K V)
      → ((k : K) (v : V) → P k v → Q k v)
      → AllEntries P m
      → AllEntries Q m
  AllEntries-map [] f a = tt
  AllEntries-map ((k, v) ∷ m) f a = (f k v a.0, AllEntries-map m f a.1)

  -- `retain`.
  unfoldable pub retain : (K → V → Bool) → Map K V → Map K V
  retain keep [] = []
  retain keep ((k, v) ∷ m) = elim (keep k v) [
    | true ↦ (k, v) ∷ retain keep m
    | false ↦ retain keep m
  ]

module _ {ℓ} {K V : Type ℓ} (dec : Discrete K) where
  unfoldable pub get : K → Map K V → Option V
  get k [] = none
  get k ((j, v) ∷ m) = ite (dec j k) (some v) (get k m)

  -- A present key keeps its place.
  unfoldable pub insert : K → V → Map K V → Map K V
  insert k v [] = (k, v) ∷ []
  insert k v ((j, w) ∷ m) = ite (dec j k) ((k, v) ∷ m) ((j, w) ∷ insert k v m)

  unfoldable pub remove : K → Map K V → Map K V
  remove k [] = []
  remove k ((j, v) ∷ m) = ite (dec j k) (remove k m) ((j, v) ∷ remove k m)

  pub get-nil : (k : K) → get k [] ≡ none
  unfolding get
  get-nil k = refl

  pub get-insert :
      (j k : K) (v : V) (m : Map K V) → get j (insert k v m) ≡ ite (dec k j) (some v) (get j m)
  unfolding get insert
  get-insert j k v [] = refl
  get-insert j k v ((i, w) ∷ m) = ground (arith, get-insert j k v m)

  pub get-insert_self : (k : K) (v : V) (m : Map K V) → get k (insert k v m) ≡ some v
  get-insert_self k v m = ground (arith, get-insert k k v m)

  pub get-insert_ne : (j k : K) (v : V) (m : Map K V) → k ≢ j → get j (insert k v m) ≡ get j m
  get-insert_ne j k v m h = ground (arith, get-insert j k v m)

  pub get-remove : (j k : K) (m : Map K V) → get j (remove k m) ≡ ite (dec k j) none (get j m)
  unfolding get remove
  get-remove j k [] = ground arith
  get-remove j k ((i, w) ∷ m) = ground (arith, get-remove j k m)

  pub insert-ne_nil : (k : K) (v : V) (m : Map K V) → insert k v m ≢ []
  unfolding insert
  insert-ne_nil k v [] = λ e. cc
  insert-ne_nil k v ((j, w) ∷ m) = ground arith

  module _ {ι} (P : K → V → Type ι) where
    pub AllEntries-insert :
        (k : K) (v : V) (m : Map K V) → P k v → AllEntries P m → AllEntries P (insert k v m)
    unfolding insert
    AllEntries-insert k v [] p a = (p, tt)
    AllEntries-insert k v ((j, w) ∷ m) p a =
        elim (dec j k) as (λ d. AllEntries P (ite d ((k, v) ∷ m) ((j, w) ∷ insert k v m))) [
          | yes _ ↦ (p, a.1)
          | no _ ↦ (a.0, AllEntries-insert k v m p a.1)
        ]

    pub AllEntries-remove : (k : K) (m : Map K V) → AllEntries P m → AllEntries P (remove k m)
    unfolding remove
    AllEntries-remove k [] a = tt
    AllEntries-remove k ((j, w) ∷ m) a =
        elim (dec j k) as (λ d. AllEntries P (ite d (remove k m) ((j, w) ∷ remove k m))) [
          | yes _ ↦ AllEntries-remove k m a.1
          | no _ ↦ (a.0, AllEntries-remove k m a.1)
        ]

    pub AllEntries-get : (k : K) {v : V} (m : Map K V) → AllEntries P m → get k m ≡ some v → P k v
    unfolding get
    AllEntries-get k [] a h = cc
    AllEntries-get k {v} ((j, w) ∷ m) a h =
        elim (dec j k) as (λ d. ite d (some w) (get k m) ≡ some v → P k v) [
          | yes e ↦ λ h'. subst₂ P e (some-injective w v h') a.0
          | no _ ↦ λ h'. AllEntries-get k m a.1 h'
        ]
          h

  -- No key occurs twice.
  abbrev pub Distinct : Map K V → Type ℓ
  Distinct [] = Unit
  Distinct ((k, v) ∷ m) = (get k m ≡ none) × Distinct m

  pub insert-Distinct : (k : K) (v : V) (m : Map K V) → Distinct m → Distinct (insert k v m)
  unfolding get insert
  insert-Distinct k v [] d = (refl, tt)
  insert-Distinct k v ((j, w) ∷ m) d = ground (arith, insert-Distinct k v m d.1, get-insert j k v m)

  pub remove-Distinct : (k : K) (m : Map K V) → Distinct m → Distinct (remove k m)
  unfolding get remove
  remove-Distinct k [] d = tt
  remove-Distinct k ((j, w) ∷ m) d = ground (arith, remove-Distinct k m d.1, get-remove j k m)

-- The list holds the entry.
abbrev pub HasEntry : {K V : Type 0} → K → V → Map K V → Type 0
HasEntry k v [] = ⊥
HasEntry k v ((j, w) ∷ m) = ((j ≡ k) × (w ≡ v)) ⊎ HasEntry k v m

pub get_of_HasEntry :
    {K V : Type 0} (dec : Discrete K) (k : K) (v : V) (m : Map K V)
    → Distinct dec m
    → HasEntry k v m
    → get dec k m ≡ some v
unfolding get
get_of_HasEntry dec k v [] d h = absurd h
get_of_HasEntry dec k v ((j, w) ∷ m) d h = ground (arith, get_of_HasEntry dec k v m d.1, d.0)

pub AllEntries-HasEntry :
    {K V : Type 0} (P : K → V → Type 0) (k : K) (v : V) (m : Map K V)
    → AllEntries P m
    → HasEntry k v m
    → P k v
AllEntries-HasEntry P k v [] a h = absurd h
AllEntries-HasEntry P k v ((j, w) ∷ m) a (inl (p, q)) = subst₂ P p q a.0
AllEntries-HasEntry P k v ((j, w) ∷ m) a (inr h) = AllEntries-HasEntry P k v m a.1 h

-- The sum of a function over the values.
abbrev pub total_values : {K V : Type 0} → (V → ℕ) → Map K V → ℕ
total_values f [] = 0
total_values f ((k, v) ∷ m) = f v + total_values f m

module _ {K V : Type 0} (dec : Discrete K) (f : V → ℕ) where
  pub total_values-insert :
      (k : K) (v : V) (m : Map K V)
      → total_values f (insert dec k v m) + total_option f (get dec k m) ≡ total_values f m + f v
  unfolding get insert
  total_values-insert k v [] = omega arith
  total_values-insert k v ((j, w) ∷ m) = ground (arith, total_values-insert k v m)

  absent_remove : (k : K) (m : Map K V) → get dec k m ≡ none → remove dec k m ≡ m
  unfolding get remove
  absent_remove k [] e = refl
  absent_remove k ((j, w) ∷ m) e = ground (arith, absent_remove k m)

  pub total_values-remove :
      (k : K) (m : Map K V)
      → Distinct dec m
      → total_values f (remove dec k m) + total_option f (get dec k m) ≡ total_values f m
  unfolding get remove
  total_values-remove k [] d = omega arith
  total_values-remove k ((j, w) ∷ m) d =
      elim (dec j k)
        as (λ c.
          total_values f (ite c (remove dec k m) ((j, w) ∷ remove dec k m))
            + total_option f (ite c (some w) (get dec k m))
          ≡ f w + total_values f m) [
            | yes e ↦
                let absent : get dec k m ≡ none = subst (λ i. get dec i m ≡ none) e d.0 in
                rw (absent_remove k m absent) (omega arith)
            | no n ↦ omega (arith, total_values-remove k m d.1)
          ]
