-- ===== src/TickMath/Bounds.antt =====
-- The range of uniswapSqrtRatioAtTick (uniswap_math.go): no division by zero, and the results' size.
use sentio_portfolio.Common.{
  ℕ, zero, suc, ◌+◌, ◌*◌, ◌/◌, ◌^◌, ◌≤◌, ◌<◌, ◌≡◌, ◌⊎◌, inl, inr, Bool, true, false, List, [], ◌∷◌,
  arith, All, ltb, ltb→lt, Bool-cases, not_ltb→le, ok, err, ◌-◌,
}
use sentio_portfolio.Common.Int.{ℤ, pos, negsuc}
use sentio_portfolio.Common.Division.{div-le, div_mono, mul_mono, le-div}
use sentio_portfolio.TickMath.{
  max_tick, max_uint, first_multiplier, tick_multipliers, abs, has_bit, apply_bit, apply_bits,
  first_ratio, negative_ratio, invert, round_up, sqrt_ratio_at_tick, tick_outside_bounds,
}

apply_bit-le : (b : Bool) (m r : ℕ) → m ≤ 2 ^ 128 → apply_bit b m r ≤ r
unfolding apply_bit
apply_bit-le true m r h =
    div-le (r * m) (2 ^ 128) r (omega arith) (grind (arith, mul_mono r r m (2 ^ 128)))
apply_bit-le false m r h = omega arith

apply_bits-le :
    (a bit : ℕ) (ms : List ℕ) (r : ℕ) → All (λ m. m ≤ 2 ^ 128) ms → apply_bits a bit ms r ≤ r
unfolding apply_bits
apply_bits-le a bit [] r h = omega arith
apply_bits-le a bit (m ∷ ms) r h = omega (
  arith,
  apply_bits-le a (suc bit) ms (apply_bit (has_bit a bit) m r) h.1,
  apply_bit-le (has_bit a bit) m r h.0,
)

-- What the loop computes for a tick with every bit set.
all_bits : List ℕ → ℕ → ℕ
all_bits [] r = r
all_bits (m ∷ ms) r = all_bits ms (r * m / 2 ^ 128)

apply_bit-ge : (b : Bool) (m q r : ℕ) → m ≤ 2 ^ 128 → q ≤ r → q * m / 2 ^ 128 ≤ apply_bit b m r
unfolding apply_bit
apply_bit-ge true m q r h le =
    div_mono (q * m) (r * m) (2 ^ 128) (omega arith) (mul_mono q r m m le (omega arith))
apply_bit-ge false m q r h le =
    div-le (q * m) (2 ^ 128) r (omega arith) (grind (arith, mul_mono q r m (2 ^ 128)))

apply_bits-ge :
    (a bit : ℕ) (ms : List ℕ) (q r : ℕ)
    → All (λ m. m ≤ 2 ^ 128) ms
    → q ≤ r
    → all_bits ms q ≤ apply_bits a bit ms r
unfolding apply_bits all_bits
apply_bits-ge a bit [] q r h le = le
apply_bits-ge a bit (m ∷ ms) q r h le =
    apply_bits-ge a (suc bit) ms (q * m / 2 ^ 128) (apply_bit (has_bit a bit) m r) h.1
      (apply_bit-ge (has_bit a bit) m q r h.0 le)

multipliers_small : All (λ m. m ≤ 2 ^ 128) tick_multipliers
multipliers_small = omega arith

first_ratio_range : (a : ℕ) → (first_multiplier ≤ first_ratio a) × (first_ratio a ≤ 2 ^ 128)
unfolding first_ratio
first_ratio_range a = ground arith

low : ℕ
low = all_bits tick_multipliers first_multiplier

negative_ratio_range :
    (a : ℕ) → (5_800_441_176_149_320 ≤ negative_ratio a) × (negative_ratio a ≤ 2 ^ 128)
unfolding negative_ratio low all_bits
negative_ratio_range a = omega (
  arith,
  first_ratio_range a,
  apply_bits-le a 1 tick_multipliers (first_ratio a) multipliers_small,
  apply_bits-ge a 1 tick_multipliers first_multiplier (first_ratio a) multipliers_small,
)

-- The Q64.96 value is the Q128.128 one divided by 2 ^ 32 and rounded up.
pub round_up_ceil : (r : ℕ) → (r ≤ round_up r * 2 ^ 32) × (round_up r * 2 ^ 32 < r + 2 ^ 32)
unfolding round_up
round_up_ceil r = ground arith

-- The largest value that a result can have.
abbrev pub top_ratio : ℕ
top_ratio = 2 ^ 172

-- The range of the result, by the sign of the tick.
abbrev pub InRange : ℤ → ℕ → Type 0
InRange (pos zero) r = (0 < r) × (r ≤ 2 ^ 96)
InRange (pos (suc n)) r = (2 ^ 96 ≤ r) × (r ≤ top_ratio)
InRange (negsuc n) r = (0 < r) × (r ≤ 2 ^ 96)

result : ℤ → ℕ
result tick = round_up (invert tick (negative_ratio (abs tick)))

invert_range :
    (r : ℕ)
    → 5_800_441_176_149_320 ≤ r
    → r ≤ 2 ^ 128
    → (2 ^ 128 ≤ max_uint / r + 1) × (max_uint / r ≤ 2 ^ 204)
invert_range r lo hi = (
  (omega (arith, le-div max_uint r (2 ^ 128 - 1) (omega arith) (mul_bound r hi))),
  div-le max_uint r (2 ^ 204) (omega arith) (grind arith),
)
  where
    mul_bound : (r : ℕ) → r ≤ 2 ^ 128 → r * (2 ^ 128 - 1) ≤ max_uint
    mul_bound r h = omega arith

result-InRange : (tick : ℤ) → InRange tick (result tick)
unfolding result invert
result-InRange (pos zero) = omega (arith, negative_ratio_range 0, round_up_ceil (negative_ratio 0))
result-InRange (pos (suc n)) =
    let range = negative_ratio_range (suc n) in
    omega (
      arith,
      invert_range (negative_ratio (suc n)) range.0 range.1,
      round_up_ceil (max_uint / negative_ratio (suc n)),
    )
result-InRange (negsuc n) =
    omega (arith, negative_ratio_range (suc n), round_up_ceil (negative_ratio (suc n)))

-- A tick is accepted exactly within the bounds, and then its ratio is in range: positive, at most
-- 2 ^ 96 up to tick 0, and from 2 ^ 96 to 2 ^ 172 above it.
pub sqrt_ratio_at_tick_range :
    (tick : ℤ)
    → ((abs tick ≤ max_tick) × (r : ℕ) × (sqrt_ratio_at_tick tick ≡ ok r) × InRange tick r)
      ⊎ ((max_tick < abs tick) × (sqrt_ratio_at_tick tick ≡ err tick_outside_bounds))
unfolding sqrt_ratio_at_tick result
sqrt_ratio_at_tick_range tick = elim (Bool-cases (ltb max_tick (abs tick))) [
  | inl out ↦ inr (ltb→lt _ _ out, rw out)
  | inr within ↦ inl (not_ltb→le _ _ within, result tick, rw within, result-InRange tick)
]
