-- ===== src/TickMath/Tests.antt =====
-- Runs of the code of uniswap_math.go, and its theorems at concrete arguments.
use sentio_portfolio.Common.{ℕ, ◌*◌, ◌^◌, ◌≤◌, ◌<◌, ◌≡◌, ◌⊎◌, refl, ok, err}
use sentio_portfolio.Common.Int.{pos, negsuc, ◌-ℤ◌}
use sentio_portfolio.TickMath.{
  max_tick, abs, tick_outside_bounds, sqrt_ratio_at_tick, amounts_for_liquidity,
  decode_packed_int24,
}
use sentio_portfolio.TickMath.Bounds.{InRange, sqrt_ratio_at_tick_range}
use sentio_portfolio.TickMath.Amounts.{amounts_for_liquidity_total}

-- TickMath's published end points.
lowest : sqrt_ratio_at_tick (negsuc 887271) ≡ ok 4295128739
unfolding sqrt_ratio_at_tick
lowest = refl

highest : sqrt_ratio_at_tick (pos 887272) ≡ ok 1461446703485210103287273052203988822378723970342
unfolding sqrt_ratio_at_tick
highest = refl

too_low : sqrt_ratio_at_tick (negsuc 887272) ≡ err tick_outside_bounds
unfolding sqrt_ratio_at_tick
too_low = refl

zero_tick : sqrt_ratio_at_tick (pos 0) ≡ ok (2 ^ 96)
unfolding sqrt_ratio_at_tick
zero_tick = refl

negative_tick : decode_packed_int24 (0xffffff * 2 ^ 32) 32 ≡ negsuc 0
unfolding decode_packed_int24 ◌-ℤ◌
negative_tick = refl

sqrt_ratio_at_tick_range_example :
    ((abs (negsuc 9) ≤ max_tick)
      × (r : ℕ) × (sqrt_ratio_at_tick (negsuc 9) ≡ ok r)
      × InRange (negsuc 9) r)
    ⊎ ((max_tick < abs (negsuc 9)) × (sqrt_ratio_at_tick (negsuc 9) ≡ err tick_outside_bounds))
sqrt_ratio_at_tick_range_example = sqrt_ratio_at_tick_range (negsuc 9)

amounts_for_liquidity_total_example :
    ((abs (negsuc 59) ≤ max_tick)
      × (abs (pos 60) ≤ max_tick)
      × (a : ℕ × ℕ) × (amounts_for_liquidity (2 ^ 96) (negsuc 59) (pos 60) 1000 ≡ ok a))
    ⊎ (((max_tick < abs (negsuc 59)) ⊎ (max_tick < abs (pos 60)))
        × (amounts_for_liquidity (2 ^ 96) (negsuc 59) (pos 60) 1000 ≡ err tick_outside_bounds))
amounts_for_liquidity_total_example = amounts_for_liquidity_total (2 ^ 96) (negsuc 59) (pos 60) 1000
