-- ===== src/Morpho/Accrual.antt =====
-- Interest accrual of a Morpho market (morpho_math.go).
use sentio_portfolio.Common.{
  ℕ, ◌+◌, ◌-◌, ◌*◌, ◌/◌, ◌≤◌, ◌<◌, ◌≡◌, refl, inl, inr, ◌||◌, ◌&&◌, ltb, ◌==◌, arith, ok,
  if◌then◌else◌, Bool-cases,
}
use sentio_portfolio.Common.Division.{div_floor, div-le, mul_mono}
use sentio_portfolio.Morpho.{
  wad, MarketState, mul_div_down, mul_div_up, accrued_interest, fee_amount, fee_shares, grow,
  charge_fee, expected_market_balances,
}

ceiling : ℕ → ℕ → ℕ → ℕ
ceiling x y d = if x == 0 || y == 0 then 0 else (x * y + d - 1) / d

ceiling_lem : (x y d : ℕ) → 0 < d → mul_div_up x y d ≡ ok (ceiling x y d)
unfolding mul_div_up ceiling
ceiling_lem x y d h = ground arith

ceiling_range : (x y d : ℕ) → 0 < d → (x * y ≤ d * ceiling x y d) × (d * ceiling x y d < x * y + d)
unfolding ceiling
ceiling_range x y d h = ground (arith, div_floor (x * y + d - 1) d)

floor_lem : (x y d : ℕ) → 0 < d → mul_div_down x y d ≡ ok (x * y / d)
unfolding mul_div_down
floor_lem x y d h = ground arith

-- For a positive denominator the two roundings are the floor and the ceiling of the quotient.
pub mul_div_rounds :
    (x y d : ℕ)
    → 0 < d
    → (down up : ℕ) × (mul_div_down x y d ≡ ok down)
      × (mul_div_up x y d ≡ ok up)
      × (d * down ≤ x * y)
      × (x * y < d * down + d)
      × (x * y ≤ d * up)
      × (d * up < x * y + d)
mul_div_rounds x y d h =
    let floor = div_floor (x * y) d h in
    let ceil = ceiling_range x y d h in
    (
      x * y / d,
      ceiling x y d,
      floor_lem x y d h,
      ceiling_lem x y d h,
      floor.0,
      floor.1,
      ceil.0,
      ceil.1,
    )

-- What accrual may do to a market: the same interest on both sides, no change to the borrow shares,
-- and a supply share that is worth no less than before, the fee's new shares counted.
pub record Accrued (s s' : MarketState) (minted : ℕ) : Type 0 where
  pub interest : ℕ
  pub borrow_side : s'.total_borrow_assets ≡ s.total_borrow_assets + interest
  pub supply_side : s'.total_supply_assets ≡ s.total_supply_assets + interest
  pub same_borrow_shares : s'.total_borrow_shares ≡ s.total_borrow_shares
  pub minted_shares : s'.total_supply_shares ≡ s.total_supply_shares + minted
  pub share_value :
      (s.total_supply_assets + 1) * (s'.total_supply_shares + 1_000_000)
      ≤ (s'.total_supply_assets + 1) * (s.total_supply_shares + 1_000_000)

fee_amount-le : (i fee : ℕ) → fee ≤ wad → fee_amount i fee ≤ i
fee_amount-le i fee h = div-le (i * fee) wad i (omega arith) (grind (arith, mul_mono i i fee wad))

fee_shares_lem :
    (amount supply shares : ℕ)
    → amount ≤ supply
    → fee_shares amount supply shares ≡ ok (amount * (shares + 1_000_000) / (supply + 1 - amount))
unfolding fee_shares
fee_shares_lem amount supply shares h = ground arith

-- Minting at the supply less the fee dilutes nobody.
dilution :
    (supply interest amount shares : ℕ)
    → amount ≤ interest
    → (supply + 1) * (amount * shares / (supply + interest + 1 - amount)) ≤ interest * shares
dilution supply interest amount shares h =
    let d = supply + interest + 1 - amount in
    let f = amount * shares / d in
    let low : (supply + 1) * f ≤ d * f = mul_mono (supply + 1) d f f (omega arith) (omega arith) in
    let mid : d * f ≤ amount * shares = (div_floor (amount * shares) d (omega arith)).0 in
    let high : amount * shares ≤ interest * shares =
      mul_mono amount interest shares shares h (omega arith) in
    omega arith

unchanged-Accrued : (s : MarketState) → Accrued s s 0
unchanged-Accrued s = record {
  interest = 0;
  borrow_side = omega arith;
  supply_side = omega arith;
  same_borrow_shares = refl;
  minted_shares = omega arith;
  share_value = omega arith;
}

grow-Accrued : (s : MarketState) (i : ℕ) → Accrued s (grow s i) 0
unfolding grow
grow-Accrued s i = record {
  interest = i;
  borrow_side = refl;
  supply_side = refl;
  same_borrow_shares = refl;
  minted_shares = omega arith;
  share_value =
      mul_mono (s.total_supply_assets + 1) (s.total_supply_assets + i + 1) _ _ (omega arith)
        (omega arith);
}

abbrev minted_for : MarketState → ℕ → ℕ
minted_for s i =
    let amount = fee_amount i s.fee in
    amount * (s.total_supply_shares + 1_000_000) / (s.total_supply_assets + i + 1 - amount)

abbrev charged : MarketState → ℕ → MarketState
charged s i = record s {
  total_borrow_assets = s.total_borrow_assets + i;
  total_supply_assets = s.total_supply_assets + i;
  total_supply_shares = s.total_supply_shares + minted_for s i;
}

charge_fee_lem :
    (s : MarketState) (i : ℕ)
    → s.fee ≤ wad
    → charge_fee (grow s i) i ≡ ok (charged s i, minted_for s i)
unfolding charge_fee grow
charge_fee_lem s i h = rw (
    fee_shares_lem (fee_amount i s.fee) (s.total_supply_assets + i) s.total_supply_shares
      (omega (arith, fee_amount-le i s.fee h)))

charged-Accrued : (s : MarketState) (i : ℕ) → s.fee ≤ wad → Accrued s (charged s i) (minted_for s i)
charged-Accrued s i h = record {
  interest = i;
  borrow_side = refl;
  supply_side = refl;
  same_borrow_shares = refl;
  minted_shares = refl;
  share_value = omega (
    arith,
    dilution s.total_supply_assets i (fee_amount i s.fee) (s.total_supply_shares + 1_000_000)
        (fee_amount-le i s.fee h),
  );
}

-- With a fee of at most the whole interest accrual always gives a market: it never divides by zero,
-- puts the same interest on both sides, and dilutes no supplier.
pub expected_market_balances-Accrued :
    (s : MarketState) (borrow_rate elapsed : ℕ)
    → s.fee ≤ wad
    → (s' : MarketState) × (minted : ℕ) × (expected_market_balances s borrow_rate elapsed
        ≡ ok (s', minted))
      × Accrued s s' minted
unfolding expected_market_balances
expected_market_balances-Accrued s rate elapsed h =
    let i = accrued_interest s.total_borrow_assets rate elapsed in
    elim (Bool-cases (elapsed == 0 || s.total_borrow_assets == 0 || rate == 0)) [
      | inl idle ↦ (s, 0, rw idle, unchanged-Accrued s)
      | inr busy ↦ elim (Bool-cases (ltb 0 s.fee && ltb 0 i)) [
        | inl fee ↦ (
          charged s i,
          minted_for s i,
          rw (busy, fee) (charge_fee_lem s i h),
          charged-Accrued s i h,
        )
        | inr free ↦ (grow s i, 0, rw (busy, free), grow-Accrued s i)
      ]
    ]
