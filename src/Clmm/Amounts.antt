-- ===== src/Clmm/Amounts.antt =====
-- The token amounts of a position on Sui (sui_clmm_math.go, suiCLMMAmounts).
use sentio_portfolio.Common.{ℕ, ◌-◌, ◌*◌, ◌/◌, ◌≤◌, ◌<◌, ◌≡◌, arith, ok}
use sentio_portfolio.Common.Int.{pos, ◌-ℤ◌, ◌*ℤ◌, div_ℤ}
use sentio_portfolio.Common.Division.{mul_mono, div_mono, div_anti}
use sentio_portfolio.Clmm.{q64, clamp, amounts}

clamp_range :
    (price lower upper : ℕ)
    → lower ≤ upper
    → (lower ≤ clamp price lower upper) × (clamp price lower upper ≤ upper)
unfolding clamp
clamp_range price lower upper h = ground arith

clamp_mono :
    (p q lower upper : ℕ) → lower ≤ upper → p ≤ q → clamp p lower upper ≤ clamp q lower upper
unfolding clamp
clamp_mono p q lower upper h le = ground arith

abbrev pub amount_a : ℕ → ℕ → ℕ → ℕ
amount_a liquidity p upper = (upper - p) * liquidity * q64 / (p * upper)

abbrev pub amount_b : ℕ → ℕ → ℕ → ℕ
amount_b liquidity p lower = (p - lower) * liquidity / q64

pos_scale : (a b : ℕ) → pos a *ℤ pos b ≡ pos (a * b)
unfolding ◌*ℤ◌
pos_scale a b = ground arith

signed_b :
    (liquidity p lower : ℕ)
    → lower ≤ p
    → div_ℤ ((pos p -ℤ pos lower) *ℤ pos liquidity) q64 ≡ pos (amount_b liquidity p lower)
unfolding div_ℤ ◌-ℤ◌ ◌*ℤ◌
signed_b liquidity p lower h = ground arith

prod_pos : (a b : ℕ) → 0 < a → 0 < b → 0 < a * b
prod_pos a b h k = mul_mono 1 a 1 b h k

-- For ordered, positive boundary prices both amounts are given, and neither is negative: the price is
-- kept within the boundaries first.
pub amounts_lem :
    (liquidity price lower upper : ℕ)
    → 0 < lower
    → lower ≤ upper
    → amounts liquidity price lower upper
      ≡ ok (
        amount_a liquidity (clamp price lower upper) upper,
        pos (amount_b liquidity (clamp price lower upper) lower),
      )
unfolding amounts
amounts_lem liquidity price lower upper h le =
    let range = clamp_range price lower upper le in
    let positive =
      prod_pos (clamp price lower upper) upper (omega (arith, range.0)) (omega arith) in
    rw (signed_b liquidity (clamp price lower upper) lower range.0) (ground arith)

-- As the price rises a position only gives up the first coin and only gains the second.
pub amounts_mono :
    (liquidity p q lower upper : ℕ)
    → 0 < lower
    → lower ≤ upper
    → p ≤ q
    → (a₁ b₁ a₂ b₂ : ℕ) × (amounts liquidity p lower upper ≡ ok (a₁, pos b₁))
      × (amounts liquidity q lower upper ≡ ok (a₂, pos b₂))
      × (a₂ ≤ a₁)
      × (b₁ ≤ b₂)
amounts_mono l p q lower upper h le pq =
    let p' = clamp p lower upper in
    let q' = clamp q lower upper in
    let lo = clamp_range p lower upper le in
    let step = clamp_mono p q lower upper le pq in
    (
      _,
      _,
      _,
      _,
      amounts_lem l p lower upper h le,
      amounts_lem l q lower upper h le,
      a_anti p' q' (omega (arith, lo.0)) step,
      div_mono _ _ q64 (omega arith) (mul_mono _ _ l l (omega arith) (omega arith)),
    )
  where
    a_anti : (p q : ℕ) → 0 < p → p ≤ q → amount_a l q upper ≤ amount_a l p upper
    a_anti p q h' le' = omega (
      arith,
      div_anti ((upper - q) * l * q64) (p * upper) (q * upper) (prod_pos p upper h' (omega arith))
          (mul_mono p q upper upper le' (omega arith)),
      div_mono ((upper - q) * l * q64) ((upper - p) * l * q64) (p * upper)
          (prod_pos p upper h' (omega arith))
          (mul_mono _ _ q64 q64 (mul_mono (upper - q) (upper - p) l l (omega arith) (omega arith))
            (omega arith)),
    )
