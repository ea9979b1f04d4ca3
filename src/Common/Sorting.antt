-- ===== src/Common/Sorting.antt =====
-- `sort.Slice`, for a comparison that is a strict weak order. Elements that compare equal may come in any
-- order in Go; here the one that came first stays first.
use sentio_portfolio.Common.Tests.{if◌then◌else◌, Bool-cases}
use sentio_portfolio.Common.Lists.{All, count, one_if}
use mathlib.Core.Path.{◌≡◌, refl}
use mathlib.Core.Logic.{inl, inr}
use mathlib.Core.Bool.{Bool, true, false}
use mathlib.Core.List.{List, [], ◌∷◌}
use Prim.Native.Nat.{ℕ, ◌+◌}
use native.Mathlib.Omega.{arith}

module _ {A : Type 0} (lt : A → A → Bool) where
  abbrev pub insert_sorted : A → List A → List A
  insert_sorted x [] = x ∷ []
  insert_sorted x (y ∷ ys) =
      let rest = insert_sorted x ys in if lt y x then y ∷ rest else x ∷ y ∷ ys

  abbrev pub sort : List A → List A
  sort [] = []
  sort (x ∷ xs) = insert_sorted x (sort xs)

  -- No element is before one that stands earlier.
  abbrev pub IsSorted : List A → Type 0
  IsSorted [] = Unit
  IsSorted (x ∷ xs) = All (λ y. lt y x ≡ false) xs × IsSorted xs

  count-insert_sorted :
      (p : A → Bool) (x : A) (ys : List A)
      → count p (insert_sorted x ys) ≡ one_if (p x) + count p ys
  count-insert_sorted p x [] = refl
  count-insert_sorted p x (y ∷ ys) = elim (Bool-cases (lt y x)) [
    | inl later ↦ rw later (omega (arith, count-insert_sorted p x ys))
    | inr here ↦ rw here refl
  ]

  pub count-sort : (p : A → Bool) (xs : List A) → count p (sort xs) ≡ count p xs
  count-sort p [] = refl
  count-sort p (x ∷ xs) = omega (arith, count-insert_sorted p x (sort xs), count-sort p xs)

  module _ (asym : (x y : A) → lt x y ≡ true → lt y x ≡ false)
      (trans : (x y z : A) → lt y x ≡ false → lt z y ≡ false → lt z x ≡ false) where
    All-trans :
        (x y : A) (zs : List A)
        → lt y x ≡ false
        → All (λ z. lt z y ≡ false) zs
        → All (λ z. lt z x ≡ false) zs
    All-trans x y [] h k = tt
    All-trans x y (z ∷ zs) h k = (trans x y z h k.0, All-trans x y zs h k.1)

    All-insert_sorted :
        (w x : A) (ys : List A)
        → lt x w ≡ false
        → All (λ y. lt y w ≡ false) ys
        → All (λ y. lt y w ≡ false) (insert_sorted x ys)
    All-insert_sorted w x [] h k = (h, tt)
    All-insert_sorted w x (y ∷ ys) h k = elim (Bool-cases (lt y x)) [
      | inl later ↦ rw later (k.0, All-insert_sorted w x ys h k.1)
      | inr here ↦ rw here (h, k)
    ]

    insert_sorted-IsSorted : (x : A) (ys : List A) → IsSorted ys → IsSorted (insert_sorted x ys)
    insert_sorted-IsSorted x [] h = (tt, tt)
    insert_sorted-IsSorted x (y ∷ ys) h = elim (Bool-cases (lt y x)) [
      | inl later ↦
          rw later (All-insert_sorted y x ys (asym y x later) h.0, insert_sorted-IsSorted x ys h.1)
      | inr here ↦ rw here ((here, All-trans x y ys here h.0), h)
    ]

    pub sort-IsSorted : (xs : List A) → IsSorted (sort xs)
    sort-IsSorted [] = tt
    sort-IsSorted (x ∷ xs) = insert_sorted-IsSorted x (sort xs) (sort-IsSorted xs)

module _ {A : Type 0} (lt : A → A → Bool) (P : A → Type 0) where
  All-insert : (x : A) (ys : List A) → P x → All P ys → All P (insert_sorted lt x ys)
  All-insert x [] h k = (h, tt)
  All-insert x (y ∷ ys) h k = elim (Bool-cases (lt y x)) [
    | inl later ↦ rw later (k.0, All-insert x ys h k.1)
    | inr here ↦ rw here (h, k)
  ]

  pub All-sort : (xs : List A) → All P xs → All P (sort lt xs)
  All-sort [] h = tt
  All-sort (x ∷ xs) h = All-insert x (sort lt xs) h.0 (All-sort xs h.1)

-- The sum of a number over the elements.
abbrev pub sum_of : {A : Type 0} → (A → ℕ) → List A → ℕ
sum_of f [] = 0
sum_of f (x ∷ xs) = f x + sum_of f xs

module _ {A : Type 0} (lt : A → A → Bool) (f : A → ℕ) where
  sum_of-insert_sorted :
      (x : A) (ys : List A) → sum_of f (insert_sorted lt x ys) ≡ f x + sum_of f ys
  sum_of-insert_sorted x [] = refl
  sum_of-insert_sorted x (y ∷ ys) = elim (Bool-cases (lt y x)) [
    | inl later ↦ rw later (omega (arith, sum_of-insert_sorted x ys))
    | inr here ↦ rw here refl
  ]

  pub sum_of-sort : (xs : List A) → sum_of f (sort lt xs) ≡ sum_of f xs
  sum_of-sort [] = refl
  sum_of-sort (x ∷ xs) = omega (arith, sum_of-insert_sorted x (sort lt xs), sum_of-sort xs)
