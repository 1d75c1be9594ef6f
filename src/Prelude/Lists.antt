-- ===== src/Prelude/Lists.antt =====
-- Lists measured and indexed by native numbers, under the library's names.
use Prim.Native.Nat.{ℕ, zero, suc, ◌+◌, ◌≤◌}
use mathlib.Core.Path.{◌≡◌}
use mathlib.Core.Bool.{Bool, true, false}
use mathlib.Core.List.{List, [], ◌∷◌, ◌++◌}
use mathlib.Core.Option.{Option, none, some}
use native.Mathlib.Omega.{arith}

module _ {ℓ} {A : Type ℓ} where
  abbrev pub length : List A → ℕ
  length [] = 0
  length (x ∷ xs) = suc (length xs)

  abbrev pub get_elem? : List A → ℕ → Option A
  get_elem? [] i = none
  get_elem? (x ∷ xs) zero = some x
  get_elem? (x ∷ xs) (suc i) = get_elem? xs i

  abbrev pub is_empty : List A → Bool
  is_empty [] = true
  is_empty (x ∷ xs) = false

  -- A predicate on every element, as a tuple.
  abbrev pub All {κ} : (A → Type κ) → List A → Type κ
  All P [] = Unit
  All P (x ∷ xs) = P x × All P xs

  pub length-append : (xs ys : List A) → length (xs ++ ys) ≡ length xs + length ys
  length-append [] ys = omega arith
  length-append (x ∷ xs) ys = omega (arith, length-append xs ys)

module _ {ℓ} {A : Type ℓ} where
  pub All-append {κ} : (P : A → Type κ) (xs ys : List A) → All P xs → All P ys → All P (xs ++ ys)
  All-append P [] ys hx hy = hy
  All-append P (x ∷ xs) ys hx hy = (hx.0, All-append P xs ys hx.1 hy)

  pub All-map {κ λ₁} :
      (P : A → Type κ) (Q : A → Type λ₁) (xs : List A) → ((x : A) → P x → Q x) → All P xs → All Q xs
  All-map P Q [] f h = tt
  All-map P Q (x ∷ xs) f h = (f x h.0, All-map P Q xs f h.1)

  -- The sum of a measure over a list.
  abbrev pub sum_of : (A → ℕ) → List A → ℕ
  sum_of f [] = 0
  sum_of f (x ∷ xs) = f x + sum_of f xs

  pub sum_of-append : (f : A → ℕ) (xs ys : List A) → sum_of f (xs ++ ys) ≡ sum_of f xs + sum_of f ys
  sum_of-append f [] ys = omega arith
  sum_of-append f (x ∷ xs) ys = omega (arith, sum_of-append f xs ys)

-- One list is another with some elements left out.
pub data Sub {ℓ} (A : Type ℓ) : List A → List A → Type ℓ where
  done : Sub A [] []
  keep : {x : A} {xs ys : List A} → Sub A xs ys → Sub A (x ∷ xs) (x ∷ ys)
  skip : {x : A} {xs ys : List A} → Sub A xs ys → Sub A xs (x ∷ ys)

module _ {ℓ} {A : Type ℓ} where
  pub Sub-refl : (xs : List A) → Sub A xs xs
  Sub-refl [] = done
  Sub-refl (x ∷ xs) = keep (Sub-refl xs)

  pub Sub-All {κ} : (P : A → Type κ) {xs ys : List A} → Sub A xs ys → All P ys → All P xs
  Sub-All P done h = tt
  Sub-All P (keep s) h = (h.0, Sub-All P s h.1)
  Sub-All P (skip s) h = Sub-All P s h.1

  pub length-Sub : {xs ys : List A} → Sub A xs ys → length xs ≤ length ys
  length-Sub done = omega arith
  length-Sub (keep s) = omega (arith, length-Sub s)
  length-Sub (skip s) = omega (arith, length-Sub s)

  pub Sub-trans : {ys zs : List A} → Sub A ys zs → {xs : List A} → Sub A xs ys → Sub A xs zs
  Sub-trans done s = s
  Sub-trans (keep t) (keep s) = keep (Sub-trans t s)
  Sub-trans (keep t) (skip s) = skip (Sub-trans t s)
  Sub-trans (skip t) s = skip (Sub-trans t s)

  pub sum_of-Sub : (f : A → ℕ) {xs ys : List A} → Sub A xs ys → sum_of f xs ≤ sum_of f ys
  sum_of-Sub f done = omega arith
  sum_of-Sub f (keep s) = omega (arith, sum_of-Sub f s)
  sum_of-Sub f (skip s) = omega (arith, sum_of-Sub f s)

  pub All-every {κ} : (P : A → Type κ) → ((x : A) → P x) → (xs : List A) → All P xs
  All-every P h [] = tt
  All-every P h (x ∷ xs) = (h x, All-every P h xs)
