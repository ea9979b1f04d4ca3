-- ===== src/Suilend/Tests.antt =====
-- Runs of the code of suilend_math.go, and its theorems at concrete arguments.
use sentio_portfolio.Common.{
  ℕ, ◌+◌, ◌*◌, ◌/◌, ◌≤◌, ◌<◌, ◌≡◌, ◌⊎◌, refl, List, [], ◌∷◌, arith, ok, err,
}
use sentio_portfolio.Common.Int.{pos, ◌≤ℤ◌}
use sentio_portfolio.Suilend.{
  wad, bps, Reserve, pow, apr_at, at, total_supply, check_curve, interest_exceeds_u256,
  invalid_time_or_liquidity, outside_curve,
}
use sentio_portfolio.Suilend.Curve.{IsCurve, apr_at_range, first_or, final_or}
use sentio_portfolio.Suilend.Accrual.{IsValid, Accrues, at-Accrues}

abbrev utils : List ℕ
utils = 0 ∷ 80 ∷ 100 ∷ []

abbrev aprs : List ℕ
aprs = 0 ∷ 800 ∷ 10000 ∷ []

-- A reserve of 1,000 with 600 lent out.
abbrev reserve : Reserve
reserve = record {
  id = "0x1";
  coin_type = "0x2::sui::SUI";
  decimals = 9;
  available = 400;
  borrowed = 600 * wad;
  fees = 0;
  supply = 1000;
  borrow_index = wad;
  updated = 100;
  utils = utils;
  aprs = aprs;
  spread_bps = 2000;
}

utils-IsCurve : IsCurve utils aprs
unfolding check_curve
utils-IsCurve = refl

reserve-IsValid : IsValid reserve
reserve-IsValid = record { curve = utils-IsCurve; spread = omega arith }

squared : pow (2 * wad) 5 ≡ ok (32 * wad)
unfolding pow
squared = refl

overflow : pow (2 * wad) 1000 ≡ err interest_exceeds_u256
unfolding pow
overflow = refl

half_way : apr_at (wad * 4 / 10) utils aprs ≡ ok (400 * bps)
unfolding apr_at
half_way = refl

beyond : apr_at (wad + 1) utils aprs ≡ err outside_curve
unfolding apr_at
beyond = refl

apr_at_range_example :
    (x : ℕ) × (apr_at (wad / 3) utils aprs ≡ ok x)
    × (first_or 0 aprs * bps ≤ x)
    × (x ≤ final_or 0 aprs * bps)
apr_at_range_example = apr_at_range (wad / 3) utils aprs utils-IsCurve (omega arith)

at-Accrues_example :
    (((200 < reserve.updated) ⊎ ¬ (pos 0 ≤ℤ total_supply reserve))
      × (at reserve 200 ≡ err invalid_time_or_liquidity))
    ⊎ ((reserve.updated ≤ 200)
        × (pos 0 ≤ℤ total_supply reserve)
        × Accrues reserve 200 (at reserve 200))
at-Accrues_example = at-Accrues reserve 200 reserve-IsValid
