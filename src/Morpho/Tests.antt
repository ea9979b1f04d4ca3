-- ===== src/Morpho/Tests.antt =====
-- Runs of the code of morpho_math.go, and its theorems at concrete arguments.
use sentio_portfolio.Common.{ℕ, ◌*◌, ◌^◌, ◌≡◌, refl, arith, ok, panic}
use sentio_portfolio.Morpho.{
  wad, MarketState, mul_div_down, mul_div_up, effective_supply_shares, expected_market_balances,
}
use sentio_portfolio.Morpho.Accrual.{Accrued, expected_market_balances-Accrued}

abbrev market : MarketState
market = record {
  total_supply_assets = 1000 * wad;
  total_supply_shares = 1000 * wad;
  total_borrow_assets = 500 * wad;
  total_borrow_shares = 500 * wad;
  last_update = 7;
  fee = 10 ^ 17;
}

rounds_down : mul_div_down 7 5 4 ≡ ok 8
unfolding mul_div_down
rounds_down = refl

rounds_up : mul_div_up 7 5 4 ≡ ok 9
unfolding mul_div_up
rounds_up = refl

divides_by_zero : mul_div_down 7 5 0 ≡ panic
unfolding mul_div_down
divides_by_zero = refl

recipient : effective_supply_shares 10 3 7 7 ≡ 13
unfolding effective_supply_shares
recipient = refl

no_recipient : effective_supply_shares 10 3 0 0 ≡ 10
unfolding effective_supply_shares
no_recipient = refl

idle : expected_market_balances market 5 0 ≡ ok (market, 0)
unfolding expected_market_balances
idle = refl

expected_market_balances-Accrued_example :
    (s' : MarketState) × (minted : ℕ) × (expected_market_balances market 1_000_000_000 86_400
      ≡ ok (s', minted))
    × Accrued market s' minted
expected_market_balances-Accrued_example =
    expected_market_balances-Accrued market 1_000_000_000 86_400 (omega arith)
