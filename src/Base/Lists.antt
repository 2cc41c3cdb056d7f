-- ===== src/Base/Lists.antt =====
-- Lists over the native numbers.
use Prim.Native.Nat.{ℕ, zero, suc, ◌+◌}
use mathlib.Core.Path.{◌≡◌}
use mathlib.Core.Bool.{Bool, true, false, ◌&&◌, ◌||◌}
use mathlib.Core.Option.{Option, none, some}
use mathlib.Core.List.{List, [], ◌∷◌, ◌++◌}
use native.Mathlib.Omega.{arith}

module _ {ℓ} {A : Type ℓ} where
  abbrev pub length : List A → ℕ
  length [] = 0
  length (x ∷ xs) = suc (length xs)

  abbrev pub drop : ℕ → List A → List A
  drop zero xs = xs
  drop (suc n) [] = []
  drop (suc n) (x ∷ xs) = drop n xs

  abbrev pub all : (A → Bool) → List A → Bool
  all p [] = true
  all p (x ∷ xs) = p x && all p xs

  abbrev pub any : (A → Bool) → List A → Bool
  any p [] = false
  any p (x ∷ xs) = p x || any p xs

  -- `iter().filter(p).count()`.
  abbrev pub count : (A → Bool) → List A → ℕ
  count p [] = 0
  count p (x ∷ xs) = elim (p x) [ true ↦ suc (count p xs) | false ↦ count p xs ]

  abbrev pub All {κ} : (A → Type κ) → List A → Type κ
  All P [] = Unit
  All P (x ∷ xs) = P x × All P xs

  pub All-map {κ ι} :
      {P : A → Type κ} {Q : A → Type ι} (xs : List A) → ((x : A) → P x → Q x) → All P xs → All Q xs
  All-map [] f a = tt
  All-map (x ∷ xs) f a = (f x a.0, All-map xs f a.1)

  pub length-append : (xs ys : List A) → length (xs ++ ys) ≡ length xs + length ys
  length-append [] ys = omega arith
  length-append (x ∷ xs) ys = omega (arith, length-append xs ys)

  pub All-append {κ} : (P : A → Type κ) (xs ys : List A) → All P xs → All P ys → All P (xs ++ ys)
  All-append P [] ys a b = b
  All-append P (x ∷ xs) ys a b = (a.0, All-append P xs ys a.1 b)

  pub All-of_all : (p : A → Bool) (xs : List A) → all p xs ≡ true → All (λ x. p x ≡ true) xs
  All-of_all p [] h = tt
  All-of_all p (x ∷ xs) h = (ground arith, All-of_all p xs (ground arith))

-- The sum of a function over a list. With a function that is one at a member and zero elsewhere it tells
-- how often the member stands there.
abbrev pub total : {A : Type 0} → (A → ℕ) → List A → ℕ
total f [] = 0
total f (w ∷ ws) = f w + total f ws

abbrev pub total_option : {A : Type 0} → (A → ℕ) → Option A → ℕ
total_option f none = 0
total_option f (some r) = f r

pub total-append :
    {A : Type 0} (f : A → ℕ) (xs ys : List A) → total f (xs ++ ys) ≡ total f xs + total f ys
total-append f [] ys = omega arith
total-append f (x ∷ xs) ys = omega (arith, total-append f xs ys)
