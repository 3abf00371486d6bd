-- ===== src/Base/Lists.antt =====
-- Lists measured by native numbers, predicates over all members, and sums of numbers.
use Prim.Native.Nat.{ℕ, suc, ◌+◌}
use mathlib.Core.Path.{◌≡◌, refl, ap}
use mathlib.Core.Bool.{Bool, true, false}
use mathlib.Core.Option.{Option, none, some}
use mathlib.Core.List.{List, [], ◌∷◌, ◌++◌, map}
use native.Mathlib.Omega.{arith}
use mathlib.Core.Logic.{◌⊎◌, inl, inr}
use inpockets.Base.Tests.{Bool-cases, if◌then◌else◌}

module _ {ℓ} {A : Type ℓ} where
  abbrev pub length : List A → ℕ
  length [] = 0
  length (x ∷ xs) = suc (length xs)

  -- `[x for x in xs if p(x)]`
  abbrev pub keep : (A → Bool) → List A → List A
  keep p [] = []
  keep p (x ∷ xs) = let rest = keep p xs in if p x then x ∷ rest else rest

  -- The first member that passes the test.
  abbrev pub find : (A → Bool) → List A → Option A
  find p [] = none
  find p (x ∷ xs) = let rest = find p xs in if p x then some x else rest

  -- `sum(f(x) for x in xs)` over the natural numbers.
  abbrev pub sum_of : (A → ℕ) → List A → ℕ
  sum_of f [] = 0
  sum_of f (x ∷ xs) = f x + sum_of f xs

  pub length-append : (xs ys : List A) → length (xs ++ ys) ≡ length xs + length ys
  length-append [] ys = omega arith
  length-append (x ∷ xs) ys = omega (arith, length-append xs ys)

  pub sum_of-append : (f : A → ℕ) (xs ys : List A) → sum_of f (xs ++ ys) ≡ sum_of f xs + sum_of f ys
  sum_of-append f [] ys = omega arith
  sum_of-append f (x ∷ xs) ys = omega (arith, sum_of-append f xs ys)

-- Every member has the property; it computes to a tuple.
abbrev pub All {ℓ κ} : {A : Type ℓ} → (A → Type κ) → List A → Type κ
All Holds [] = Unit
All Holds (a ∷ rest) = Holds a × All Holds rest

-- An item stands in a list.
abbrev pub Among : {A : Type 0} → A → List A → Type 0
Among a [] = ⊥
Among a (b ∷ rest) = (b ≡ a) ⊎ Among a rest

module _ {ℓ κ} {A : Type ℓ} (Holds : A → Type κ) where
  pub All-append :
      (front back : List A) → All Holds front → All Holds back → All Holds (front ++ back)
  All-append [] back _ after = after
  All-append (a ∷ front) back (first, others) after = (first, All-append front back others after)

module _ {ℓ} {A : Type ℓ} where
  pub sum_of-add :
      (f g : A → ℕ) (xs : List A) → sum_of (λ x. f x + g x) xs ≡ sum_of f xs + sum_of g xs
  sum_of-add f g [] = omega arith
  sum_of-add f g (x ∷ xs) = omega (arith, sum_of-add f g xs)

  pub sum_of-zero : (xs : List A) → sum_of (λ x. 0) xs ≡ 0
  sum_of-zero [] = refl
  sum_of-zero (x ∷ xs) = omega (arith, sum_of-zero xs)

  -- What the test drops counts for nothing.
  pub sum_of-keep :
      (q : A → Bool) (f : A → ℕ) (xs : List A)
      → ((x : A) → q x ≡ false → f x ≡ 0)
      → sum_of f (keep q xs) ≡ sum_of f xs
  sum_of-keep q f [] h = refl
  sum_of-keep q f (x ∷ xs) h = ground (arith, h x, sum_of-keep q f xs h)

  pub sum_of-map {κ} :
      {B : Type κ} (h : A → B) (f : B → ℕ) (xs : List A)
      → sum_of f (map h xs) ≡ sum_of (λ x. f (h x)) xs
  sum_of-map h f [] = refl
  sum_of-map h f (x ∷ xs) = ap (λ n. f (h x) + n) (sum_of-map h f xs)

  pub find-none : (q : A → Bool) (xs : List A) → find q xs ≡ none → All (λ x. q x ≡ false) xs
  find-none q [] h = tt
  find-none q (x ∷ xs) h = ground (arith, find-none q xs)

  pub find-eq-some : (q : A → Bool) (xs : List A) (x : A) → find q xs ≡ some x → q x ≡ true
  find-eq-some q [] x h = cc
  find-eq-some q (y ∷ ys) x h = ground (arith, find-eq-some q ys x)

module _ {ℓ κ} {A : Type ℓ} where
  pub All-find :
      (P : A → Type κ) (q : A → Bool) (xs : List A) (x : A) → All P xs → find q xs ≡ some x → P x
  All-find P q [] x h e = cc
  All-find P q (y ∷ ys) x h e = elim (Bool-cases (q y)) [
    | inl t ↦ let same : y ≡ x = ground arith in rw (← same) h.0
    | inr f ↦ All-find P q ys x h.1 (ground arith)
  ]

  pub All-mono : (P Q : A → Type κ) (xs : List A) → ((x : A) → P x → Q x) → All P xs → All Q xs
  All-mono P Q [] f h = tt
  All-mono P Q (x ∷ xs) f h = (f x h.0, All-mono P Q xs f h.1)

module _ {A : Type 0} where
  pub All-Among : (xs : List A) → All (λ x. Among x xs) xs
  All-Among [] = tt
  All-Among (x ∷ xs) = (
    inl refl,
    All-mono (λ y. Among y xs) (λ y. Among y (x ∷ xs)) xs (λ y m. inr m) (All-Among xs),
  )
