-- ===== src/Common/Lists.antt =====
-- Lists measured by native numbers, predicates over lists, and association lists.
use Prim.Native.Nat.{ℕ, zero, suc, ◌+◌, ◌<◌, min}
use mathlib.Core.Path.{◌≡◌, refl, ap}
use mathlib.Core.List.{List, [], ◌∷◌, ◌++◌, map}
use mathlib.Core.Option.{Option, none, some}
use mathlib.Core.Bool.{Bool, true, false, ◌||◌}
use native.Mathlib.Omega.{arith}
use sentio_portfolio.Common.Tests.{if◌then◌else◌}

module _ {ℓ} {A : Type ℓ} where
  abbrev pub length : List A → ℕ
  length [] = 0
  length (x ∷ xs) = suc (length xs)

  abbrev pub get_elem? : List A → ℕ → Option A
  get_elem? [] i = none
  get_elem? (x ∷ xs) zero = some x
  get_elem? (x ∷ xs) (suc i) = get_elem? xs i

  pub length-append : (xs ys : List A) → length (xs ++ ys) ≡ length xs + length ys
  length-append [] ys = omega arith
  length-append (x ∷ xs) ys = omega (arith, length-append xs ys)

  abbrev pub take : ℕ → List A → List A
  take zero xs = []
  take (suc n) [] = []
  take (suc n) (x ∷ xs) = x ∷ take n xs

  abbrev pub drop : ℕ → List A → List A
  drop zero xs = xs
  drop (suc n) [] = []
  drop (suc n) (x ∷ xs) = drop n xs

  pub take-append-drop : (n : ℕ) (xs : List A) → take n xs ++ drop n xs ≡ xs
  take-append-drop zero xs = refl
  take-append-drop (suc n) [] = refl
  take-append-drop (suc n) (x ∷ xs) = ap (λ r. x ∷ r) (take-append-drop n xs)

  pub length-take : (n : ℕ) (xs : List A) → length (take n xs) ≡ min n (length xs)
  length-take zero xs = omega arith
  length-take (suc n) [] = omega arith
  length-take (suc n) (x ∷ xs) = omega (arith, length-take n xs)

  pub drop-eq_nil : (n : ℕ) (xs : List A) → length (take n xs) < n → drop n xs ≡ []
  drop-eq_nil zero xs h = elim h [ ]
  drop-eq_nil (suc n) [] h = refl
  drop-eq_nil (suc n) (x ∷ xs) h = drop-eq_nil n xs (omega (arith, h))

pub length-map {ℓ κ} :
    {A : Type ℓ} {B : Type κ} (f : A → B) (xs : List A) → length (map f xs) ≡ length xs
length-map f [] = refl
length-map f (x ∷ xs) = ap suc (length-map f xs)

-- A predicate by recursion computes to tuples, which the tactics read and build.
module _ {ℓ κ} {A : Type ℓ} (P : A → Type κ) where
  abbrev pub All : List A → Type κ
  All [] = Unit
  All (x ∷ xs) = P x × All xs

module _ {ℓ κ} {A : Type ℓ} (P : A → Type κ) where
  pub All-take : (n : ℕ) (xs : List A) → All P xs → All P (take n xs)
  All-take zero xs h = tt
  All-take (suc n) [] h = tt
  All-take (suc n) (x ∷ xs) h = (h.0, All-take n xs h.1)

  pub All-append_right : (xs ys : List A) → All P (xs ++ ys) → All P ys
  All-append_right [] ys h = h
  All-append_right (x ∷ xs) ys h = All-append_right xs ys h.1

pub All-snoc {ℓ κ} :
    {A : Type ℓ} (P : A → Type κ) (xs : List A) (x : A) → All P xs → P x → All P (xs ++ (x ∷ []))
All-snoc P [] x h p = (p, tt)
All-snoc P (y ∷ xs) x h p = (h.0, All-snoc P xs x h.1 p)

-- The elements that pass a test, in their order, and whether one does.
abbrev pub filter {ℓ} : {A : Type ℓ} → (A → Bool) → List A → List A
filter p [] = []
filter p (x ∷ xs) = if p x then x ∷ filter p xs else filter p xs

abbrev pub any {ℓ} : {A : Type ℓ} → (A → Bool) → List A → Bool
any p [] = false
any p (x ∷ xs) = p x || any p xs

-- How many elements pass a test.
abbrev pub one_if : Bool → ℕ
one_if true = 1
one_if false = 0

abbrev pub count : {A : Type 0} → (A → Bool) → List A → ℕ
count p [] = 0
count p (x ∷ xs) = one_if (p x) + count p xs

pub count-append :
    {A : Type 0} (p : A → Bool) (xs ys : List A) → count p (xs ++ ys) ≡ count p xs + count p ys
count-append p [] ys = omega arith
count-append p (x ∷ xs) ys = omega (arith, count-append p xs ys)

-- Two lists of one length whose elements stand in a relation, place by place.
module _ {ℓ κ} {A : Type ℓ} {B : Type κ} (R : A → B → Type 0) where
  abbrev pub Each : List A → List B → Type 0
  Each [] [] = Unit
  Each [] (y ∷ ys) = ⊥
  Each (x ∷ xs) [] = ⊥
  Each (x ∷ xs) (y ∷ ys) = R x y × Each xs ys

  pub Each-append :
      (xs : List A) (ys : List B) (xs' : List A) (ys' : List B)
      → Each xs ys
      → Each xs' ys'
      → Each (xs ++ xs') (ys ++ ys')
  Each-append [] [] xs' ys' h k = k
  Each-append [] (y ∷ ys) xs' ys' h k = absurd h
  Each-append (x ∷ xs) [] xs' ys' h k = absurd h
  Each-append (x ∷ xs) (y ∷ ys) xs' ys' h k = (h.0, Each-append xs ys xs' ys' h.1 k)

  -- What stands in the relation to a joined list is joined in the same way.
  pub Each-split :
      (xs xs' : List A) (zs : List B)
      → Each (xs ++ xs') zs
      → (ys : List B) × (ys' : List B) × (zs ≡ ys ++ ys') × Each xs ys × Each xs' ys'
  Each-split [] xs' zs h = ([], zs, refl, tt, h)
  Each-split (x ∷ xs) xs' [] h = absurd h
  Each-split (x ∷ xs) xs' (z ∷ zs) h =
      let (ys, ys', e, left, right) = Each-split xs xs' zs h.1 in
      (z ∷ ys, ys', ap (λ r. z ∷ r) e, (h.0, left), right)

abbrev pub flatten {ℓ} : {A : Type ℓ} → List (List A) → List A
flatten [] = []
flatten (xs ∷ rest) = xs ++ flatten rest

pub Each-imp {ℓ κ} :
    {A : Type ℓ} {B : Type κ} (R S : A → B → Type 0) (xs : List A) (ys : List B)
    → ((x : A) (y : B) → R x y → S x y)
    → Each R xs ys
    → Each S xs ys
Each-imp R S [] [] f h = tt
Each-imp R S [] (y ∷ ys) f h = h
Each-imp R S (x ∷ xs) [] f h = h
Each-imp R S (x ∷ xs) (y ∷ ys) f h = (f x y h.0, Each-imp R S xs ys f h.1)

pub Each-map {ℓ κ} :
    {A C : Type ℓ} {B D : Type κ} (R : C → D → Type 0) (f : A → C) (g : D → B) (S : A → B → Type 0)
    (xs : List A) (ys : List D)
    → ((x : A) (y : D) → R (f x) y → S x (g y))
    → Each R (map f xs) ys
    → Each S xs (map g ys)
Each-map R f g S [] [] h e = tt
Each-map R f g S [] (y ∷ ys) h e = e
Each-map R f g S (x ∷ xs) [] h e = e
Each-map R f g S (x ∷ xs) (y ∷ ys) h e = (h x y e.0, Each-map R f g S xs ys h e.1)
