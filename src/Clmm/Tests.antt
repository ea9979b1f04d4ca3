-- ===== src/Clmm/Tests.antt =====
-- Runs of the code of sui_clmm_math.go, and its theorems at concrete arguments.
use sentio_portfolio.Common.{◌^◌, ◌↔◌, ◌+◌, ◌-◌, ◌%◌, ◌≡◌, refl, none, some, arith, ok}
use sentio_portfolio.Common.Int.{pos, negsuc, ◌-ℤ◌, ◌*ℤ◌, mod_ℤ, div_ℤ}
use sentio_portfolio.Clmm.{
  q64, mod128, clamp, amounts, sub, inside, read, parse_uint, parse_tick, exceeds_bits,
  tick_out_of_range,
}
use sentio_portfolio.Clmm.Growth.{inside-append}
use sentio_portfolio.Clmm.Parser.{IsTick, pattern32, parse_tick-pattern}

swapped_prices : amounts q64 5 9 4 ≡ ok (0, negsuc 4)
unfolding amounts clamp div_ℤ ◌-ℤ◌ ◌*ℤ◌
swapped_prices = refl

wraps : sub 3 5 ≡ mod128 - 2
unfolding sub mod_ℤ ◌-ℤ◌
wraps = refl

wide : parse_uint none (read 256) 8 ≡ (some exceeds_bits, 256)
unfolding parse_uint
wide = refl

far_tick : parse_tick none (read 443637) ≡ (some tick_out_of_range, pos 443637)
unfolding parse_tick ◌-ℤ◌
far_tick = refl

inside-append_example :
    (inside 100 30 40 (pos 5) (negsuc 9) (pos 4) + inside 100 40 80 (pos 5) (pos 4) (pos 8))
      % mod128
    ≡ inside 100 30 80 (pos 5) (negsuc 9) (pos 8)
inside-append_example =
    inside-append 100 30 40 80 (pos 5) (negsuc 9) (pos 4) (pos 8) (omega arith) (omega arith)
      (omega arith) (omega arith)

parse_tick-pattern_example :
    (parse_tick none (read (2 ^ 32 - 100)) ≡ (none, negsuc 99))
    ↔ (IsTick (negsuc 99) × (read (2 ^ 32 - 100) ≡ read (pattern32 (negsuc 99))))
parse_tick-pattern_example = parse_tick-pattern (read (2 ^ 32 - 100)) (negsuc 99)
