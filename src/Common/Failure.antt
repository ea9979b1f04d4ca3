-- ===== src/Common/Failure.antt =====
-- What a Go function that may fail gives: a result, an error, or a run-time panic such as the
-- division by zero of `big.Int`.
use mathlib.Core.Path.{◌≡◌, refl}
use mathlib.Core.Bool.{Bool, true, false}
use Prim.Native.Nat.{ℕ, ◌/◌}
use sentio_portfolio.Common.Tests.{◌==◌, if◌then◌else◌}

pub data Outcome (E A : Type 0) : Type 0 where
  ok : A → Outcome E A
  err : E → Outcome E A
  panic : Outcome E A

module _ {E A B : Type 0} where
  infixl 5 ◌>>=◌
  abbrev pub ◌>>=◌ : Outcome E A → (A → Outcome E B) → Outcome E B
  panic >>= next = panic
  err reason >>= next = err reason
  ok result >>= next = next result

  -- Both steps of a run that ends well.
  pub >>=-eq-ok :
      (first : Outcome E A) (next : A → Outcome E B) {final : B}
      → (first >>= next) ≡ ok final
      → (middle : A) × (first ≡ ok middle) × (next middle ≡ ok final)
  >>=-eq-ok panic next run = cc
  >>=-eq-ok (err reason) next run = cc
  >>=-eq-ok (ok middle) next run = (middle, refl, run)

module _ {E : Type 0} where
  infixl 5 ◌>>◌
  abbrev pub ◌>>◌ : {B : Type 0} → Outcome E (Unit {0}) → Outcome E B → Outcome E B
  check >> rest = check >>= λ _. rest

  -- `if bad { return error }`
  abbrev pub fail_if : Bool → E → Outcome E (Unit {0})
  fail_if bad reason = if bad then err reason else ok tt

  -- `Quo` and `Div` of numbers that are not negative.
  abbrev pub quo : ℕ → ℕ → Outcome E ℕ
  quo n d = if d == 0 then panic else ok (n / d)

-- A check that is passed.
pub fail_if-passed :
    {E A : Type 0} (bad : Bool) (reason : E) (rest : Outcome E A) {final : A}
    → (fail_if bad reason >> rest) ≡ ok final
    → (bad ≡ false) × (rest ≡ ok final)
fail_if-passed true reason rest run = cc
fail_if-passed false reason rest run = (refl, run)

pub ok_injective : {E A : Type 0} {a b : A} → ◌≡◌ {A = Outcome E A} (ok a) (ok b) → a ≡ b
ok_injective h = cc
