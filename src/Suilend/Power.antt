-- ===== src/Suilend/Power.antt =====
-- suilendPow (suilend_math.go): truncated exponentiation by squaring.
use mathlib.Core.WellFounded.{Acc}
use mathlib.Core.WellFounded
use mathlib.Core.Logic.{dif_pos, dif_neg}
use native.Mathlib.Bridge.{le_prop}
use sentio_portfolio.Common.{
  ℕ, ◌*◌, ◌/◌, ◌^◌, ◌≤◌, ◌<◌, ◌≡◌, refl, ◌⊎◌, inl, inr, arith, ok, err, dec_lt, Outcome,
}
use sentio_portfolio.Common.Order.{lt_wf}
use sentio_portfolio.Common.Division.{div-le, le-div, mul_mono}
use sentio_portfolio.Suilend.{
  wad, mul, pow_loop, pow, next_result, next_base, interest_exceeds_u256, bounded, half-lt, Error,
}

pub le-mul : (a b : ℕ) → wad ≤ b → a ≤ mul a b
unfolding mul
le-mul a b h = le-div (a * b) wad a (omega arith) (grind (arith, mul_mono a a wad b))

-- By a share of at most one.
pub mul-le : (a b : ℕ) → b ≤ wad → mul a b ≤ a
unfolding mul
mul-le a b h = div-le (a * b) wad a (omega arith) (grind (arith, mul_mono a a b wad))

next_result-ge : (result base exponent : ℕ) → wad ≤ base → result ≤ next_result result base exponent
unfolding next_result
next_result-ge result base exponent h = ground (arith, le-mul result base)

next_base-ge : (base exponent : ℕ) → wad ≤ base → wad ≤ next_base base exponent
unfolding next_base
next_base-ge base exponent h = ground (arith, le-mul base base)

-- The overflow test lets a round pass only if the result fits.
bounded_cases :
    (result base : ℕ) (rest : Outcome Error ℕ)
    → (bounded result base rest ≡ err interest_exceeds_u256)
      ⊎ ((result < 2 ^ 256) × (bounded result base rest ≡ rest))
unfolding bounded
bounded_cases result base rest = ground arith

Outcomes : ℕ → Outcome Error ℕ → Type 0
Outcomes result o =
    ((r : ℕ) × (o ≡ ok r) × (result ≤ r) × (r < 2 ^ 256)) ⊎ (o ≡ err interest_exceeds_u256)

Outcomes-mono : (q result : ℕ) (o : Outcome Error ℕ) → q ≤ result → Outcomes result o → Outcomes q o
unfolding Outcomes
Outcomes-mono q result o h (inl (r, e, lo, hi)) = inl (r, e, omega arith, hi)
Outcomes-mono q result o h (inr e) = inr e

bounded-Outcomes :
    (q result base : ℕ) (rest : Outcome Error ℕ)
    → q ≤ result
    → (result < 2 ^ 256 → Outcomes result rest)
    → Outcomes q (bounded result base rest)
unfolding Outcomes
bounded-Outcomes q result base rest h later = elim (bounded_cases result base rest) [
  | inl e ↦ inr e
  | inr (fits, e) ↦ rw e (Outcomes-mono q result rest h (later fits))
]

abbrev LoopOutcomes : ℕ → Type 0
LoopOutcomes e =
    (result base : ℕ) (w : Acc ◌<◌ e)
    → wad ≤ base
    → result < 2 ^ 256
    → Outcomes result (pow_loop result base e w)

loop_step : (e : ℕ) → ((y : ℕ) → y < e → LoopOutcomes y) → LoopOutcomes e
unfolding pow_loop Outcomes
loop_step e ih result base (Acc.intro _ smaller) hb hr = elim (dec_lt 0 e) [
  | no done ↦ rw (dif_neg _ done) (inl (result, refl, omega arith, hr))
  | yes more ↦ rw (dif_pos _ le_prop more) (
      bounded-Outcomes result (next_result result base e) (next_base base e) _
        (next_result-ge result base e hb)
        (λ fits.
          ih (e / 2) (omega arith) (next_result result base e) (next_base base e)
            (smaller (e / 2) (half-lt e more)) (next_base-ge base e hb) fits))
]

-- From a base of at least one the power is at least one, and below 2 ^ 256, whenever it is given;
-- the only other outcome is the overflow error.
pub pow_range :
    (base exponent : ℕ)
    → wad ≤ base
    → ((r : ℕ) × (pow base exponent ≡ ok r) × (wad ≤ r) × (r < 2 ^ 256))
      ⊎ (pow base exponent ≡ err interest_exceeds_u256)
unfolding Outcomes pow
pow_range base exponent h =
    WellFounded.induction lt_wf {C = LoopOutcomes} exponent loop_step wad base
      (lt_wf.apply exponent) h (omega arith)
