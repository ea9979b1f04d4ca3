-- ===== src/Common/Assoc.antt =====
-- Go maps as association lists, and sets as lists. A map is read through `lookup`, which takes the
-- first entry of a key, so the order of the entries of different keys is immaterial.
use Prim.Native.Nat.{ℕ}
use mathlib.Core.Path.{◌≡◌, refl, ap, ◌∙◌}
use mathlib.Core.Logic.{◌↔◌, inl, inr}
use mathlib.Core.Bool.{Bool, true, false}
use mathlib.Core.List.{List, [], ◌∷◌}
use mathlib.Core.Option.{Option, none, some}
use sentio_portfolio.Common.Tests.{if◌then◌else◌, ==_iff, ◌==◌, Bool-cases}
use text.Mathlib.Text.{◌==◌ as str_eq}
use text.Mathlib.TextEquality.{eq_iff}
use Prim.Native.String.{String}

-- A type of keys, with its equality test.
pub record Key {ℓ} (K : Type ℓ) : Type ℓ where
  pub beq : K → K → Bool
  pub beq_iff : (a b : K) → (beq a b ≡ true) ↔ (a ≡ b)

instance abbrev pub nat_key : Key ℕ
nat_key = record { beq = ◌==◌; beq_iff = ==_iff }

instance abbrev pub string_key : Key String
string_key = record { beq = str_eq; beq_iff = eq_iff }

module _ {ℓ κ} {K : Type ℓ} {V : Type κ} ⦃k : Key K⦄ where
  abbrev pub lookup : K → List (K × V) → Option V
  lookup a [] = none
  lookup a ((b, v) ∷ m) = if k.beq b a then some v else lookup a m

  -- `m[k] = v`
  abbrev pub insert : K → V → List (K × V) → List (K × V)
  insert a v [] = (a, v) ∷ []
  insert a v ((b, w) ∷ m) = if k.beq b a then (a, v) ∷ m else (b, w) ∷ insert a v m

module _ {ℓ} {K : Type ℓ} ⦃k : Key K⦄ where
  abbrev pub contains : K → List K → Bool
  contains a [] = false
  contains a (b ∷ bs) = if k.beq b a then true else contains a bs

  pub beq_refl : (a : K) → k.beq a a ≡ true
  beq_refl a = (k.beq_iff a a).1 refl

module _ {ℓ κ} {K : Type ℓ} {V : Type κ} ⦃k : Key K⦄ where
  pub lookup-insert : (a : K) (v : V) (m : List (K × V)) → lookup a (insert a v m) ≡ some v
  lookup-insert a v [] = rw (beq_refl a) refl
  lookup-insert a v ((b, w) ∷ m) = elim (Bool-cases (k.beq b a)) [
    | inl e ↦ rw (e, beq_refl a) refl
    | inr e ↦ rw (e, e) (lookup-insert a v m)
  ]

  -- The other entries of a map stay.
  pub lookup-insert_other :
      (a b : K) (v : V) (m : List (K × V))
      → k.beq a b ≡ false
      → lookup b (insert a v m) ≡ lookup b m
  lookup-insert_other a b v [] ne = rw ne refl
  lookup-insert_other a b v ((c, w) ∷ m) ne = elim (Bool-cases (k.beq c a)) [
    | inl e ↦ rw (e, ne, ap (λ x. k.beq x b) ((k.beq_iff c a).0 e) ∙ ne) refl
    | inr e ↦ rw (e, lookup-insert_other a b v m ne) refl
  ]
