-- ===== src/Morpho.antt =====
-- morpho_math.go: Morpho Blue's share arithmetic and interest accrual. All amounts are decoded from
-- unsigned integers.
pub mod Accrual
mod Tests
use sentio_portfolio.Common.{
  ℕ, ◌+◌, ◌-◌, ◌*◌, ◌/◌, ◌^◌, Bool, true, false, not, ◌&&◌, ◌||◌, ltb, ◌==◌, if◌then◌else◌, Outcome,
  ok, err, quo, ◌>>=◌, panic,
}

abbrev pub wad : ℕ
wad = 10 ^ 18

pub record MarketState : Type 0 where
  pub total_supply_assets : ℕ
  pub total_supply_shares : ℕ
  pub total_borrow_assets : ℕ
  pub total_borrow_shares : ℕ
  pub last_update : ℕ
  pub fee : ℕ

-- The code returns no error: only a division by zero ends a call. `negative_divisor` stands for what
-- the natural numbers leave out, a supply that the fee exceeds; the code divides by it all the same.
pub data Error : Type 0 where
  negative_divisor : Error

pub mul_div_down : ℕ → ℕ → ℕ → Outcome Error ℕ
mul_div_down x y denominator = quo (x * y) denominator

-- With the early return for zero, the denominator is not looked at.
pub mul_div_up : ℕ → ℕ → ℕ → Outcome Error ℕ
mul_div_up x y denominator =
    if x == 0 || y == 0 then ok 0 else quo (x * y + denominator - 1) denominator

pub share_fraction : ℕ → ℕ → ℕ → ℕ × ℕ
share_fraction shares total_assets total_shares =
    (shares * (total_assets + 1), total_shares + 1_000_000)

-- Addresses are numbers; the zero address is 0.
pub effective_supply_shares : ℕ → ℕ → ℕ → ℕ → ℕ
effective_supply_shares stored_shares pending_fee_shares account fee_recipient =
    if not (fee_recipient == 0) && account == fee_recipient
    then stored_shares + pending_fee_shares
    else stored_shares

-- The third-order expansion of the compounded rate.
pub compounded_rate : ℕ → ℕ
compounded_rate first_term =
    let second_term = first_term * first_term / (2 * wad) in
    let third_term = second_term * first_term / (3 * wad) in first_term + second_term + third_term

pub accrued_interest : ℕ → ℕ → ℕ → ℕ
unfolding compounded_rate
accrued_interest borrow_assets borrow_rate elapsed =
    borrow_assets * compounded_rate (borrow_rate * elapsed) / wad

abbrev pub fee_amount : ℕ → ℕ → ℕ
fee_amount interest fee = interest * fee / wad

-- The shares minted for the fee, at the supply less the fee.
pub fee_shares : ℕ → ℕ → ℕ → Outcome Error ℕ
fee_shares amount supply_assets supply_shares =
    if ltb (supply_assets + 1) amount
    then err negative_divisor
    else quo (amount * (supply_shares + 1_000_000)) (supply_assets + 1 - amount)

-- The market with the interest on both sides.
pub grow : MarketState → ℕ → MarketState
grow state interest = record state {
  total_borrow_assets = state.total_borrow_assets + interest;
  total_supply_assets = state.total_supply_assets + interest;
}

-- The fee's shares join the supply's.
pub charge_fee : MarketState → ℕ → Outcome Error (MarketState × ℕ)
unfolding fee_shares
charge_fee state interest = do
  shares ←
      fee_shares (fee_amount interest state.fee) state.total_supply_assets state.total_supply_shares
  ok (record state { total_supply_shares = state.total_supply_shares + shares }, shares)

pub expected_market_balances : MarketState → ℕ → ℕ → Outcome Error (MarketState × ℕ)
unfolding accrued_interest charge_fee grow
expected_market_balances state borrow_rate elapsed =
    let interest = accrued_interest state.total_borrow_assets borrow_rate elapsed in
    if elapsed == 0 || state.total_borrow_assets == 0 || borrow_rate == 0
    then ok (state, 0)
    else if ltb 0 state.fee && ltb 0 interest
    then charge_fee (grow state interest) interest
    else ok (grow state interest, 0)
