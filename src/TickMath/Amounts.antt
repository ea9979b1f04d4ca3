-- ===== src/TickMath/Amounts.antt =====
-- The token amounts of a liquidity position (uniswap_math.go): when they are given, and how they
-- move with the price.
use sentio_portfolio.Common.{
  ℕ, zero, suc, ◌-◌, ◌*◌, ◌/◌, ◌^◌, ◌≤◌, ◌<◌, ◌≡◌, if◌then◌else◌, ◌⊎◌, inl, inr, arith, ltb, leb,
  Bool-cases, ok, err,
}
use sentio_portfolio.Common.Int.{ℤ, pos, negsuc}
use sentio_portfolio.Common.Division.{div_mono, mul_mono, div_anti}
use sentio_portfolio.TickMath.{
  max_tick, abs, tick_outside_bounds, amount0_for_liquidity, amount1_for_liquidity, amounts_between,
  amounts_for_liquidity, upper_of, lower_of,
}
use sentio_portfolio.TickMath.Bounds.{InRange, sqrt_ratio_at_tick_range}

abbrev amount0_value : ℕ → ℕ → ℕ → ℕ
amount0_value a b liquidity =
    liquidity * 2 ^ 96 * (upper_of a b - lower_of a b) / upper_of a b / lower_of a b

amount0_ok :
    (a b liquidity : ℕ)
    → 0 < a
    → 0 < b
    → amount0_for_liquidity a b liquidity ≡ ok (amount0_value a b liquidity)
unfolding amount0_for_liquidity
amount0_ok a b liquidity h k = ground arith

-- With positive prices the amounts are given, also for an empty range.
amounts_between_ok :
    (price lower upper liquidity : ℕ)
    → 0 < lower
    → 0 < upper
    → (a : ℕ × ℕ) × (amounts_between price lower upper liquidity ≡ ok a)
unfolding amounts_between
amounts_between_ok price lower upper l h k = elim (Bool-cases (leb price lower)) [
  | inl below ↦ ((amount0_value lower upper l, 0), ground (arith, amount0_ok lower upper l))
  | inr above ↦ elim (Bool-cases (ltb price upper)) [
    | inl inside ↦ (
      (amount0_value price upper l, amount1_for_liquidity lower price l),
      ground (arith, amount0_ok price upper l),
    )
    | inr over ↦ ((0, amount1_for_liquidity lower upper l), ground arith)
  ]
]

-- The price that a position sees: the market's, kept within the range.
abbrev pub clamp : ℕ → ℕ → ℕ → ℕ
clamp lower upper price =
    if leb price lower then lower else if ltb price upper then price else upper

-- The three regions are one formula, at the clamped price.
pub amounts_between-clamp :
    (price lower upper liquidity : ℕ)
    → 0 < lower
    → lower ≤ upper
    → let p = clamp lower upper price in
      amounts_between price lower upper liquidity
      ≡ ok (liquidity * 2 ^ 96 * (upper - p) / upper / p, liquidity * (p - lower) / 2 ^ 96)
unfolding amounts_between
amounts_between-clamp price lower upper l h le =
    ground (arith, amount0_ok lower upper l, amount0_ok price upper l)

clamp_range :
    (lower upper price : ℕ)
    → lower ≤ upper
    → (lower ≤ clamp lower upper price) × (clamp lower upper price ≤ upper)
clamp_range lower upper price le = ground arith

clamp_mono :
    (lower upper p q : ℕ) → lower ≤ upper → p ≤ q → clamp lower upper p ≤ clamp lower upper q
clamp_mono lower upper p q le h = ground arith

amount0_anti :
    (lower upper p q l : ℕ)
    → 0 < lower
    → lower ≤ p
    → p ≤ q
    → q ≤ upper
    → l * 2 ^ 96 * (upper - q) / upper / q ≤ l * 2 ^ 96 * (upper - p) / upper / p
amount0_anti lower upper p q l h lp pq qu = omega (
  arith,
  div_anti (n q) p q (omega arith) pq,
  div_mono (n q) (n p) p (omega arith) (
      div_mono _ _ upper (omega arith)
        (mul_mono (l * 2 ^ 96) (l * 2 ^ 96) (upper - q) (upper - p) (omega arith) (omega arith))),
)
  where
    n : ℕ → ℕ
    n x = l * 2 ^ 96 * (upper - x) / upper

amount1_mono : (lower p q l : ℕ) → p ≤ q → l * (p - lower) / 2 ^ 96 ≤ l * (q - lower) / 2 ^ 96
amount1_mono lower p q l pq =
    div_mono _ _ (2 ^ 96) (omega arith)
      (mul_mono l l (p - lower) (q - lower) (omega arith) (omega arith))

-- As the price rises a position over a positive range only gives up the first token and only gains
-- the second.
pub amounts_between_mono :
    (p q lower upper liquidity : ℕ)
    → 0 < lower
    → lower ≤ upper
    → p ≤ q
    → (a b : ℕ × ℕ) × (amounts_between p lower upper liquidity ≡ ok a)
      × (amounts_between q lower upper liquidity ≡ ok b)
      × (b.0 ≤ a.0)
      × (a.1 ≤ b.1)
amounts_between_mono p q lower upper l h le pq = (
  _,
  _,
  amounts_between-clamp p lower upper l h le,
  amounts_between-clamp q lower upper l h le,
  amount0_anti lower upper (clamp lower upper p) (clamp lower upper q) l h
      (clamp_range lower upper p le).0 (clamp_mono lower upper p q le pq)
      (clamp_range lower upper q le).1,
  amount1_mono lower (clamp lower upper p) (clamp lower upper q) l
      (clamp_mono lower upper p q le pq),
)

InRange-pos : (tick : ℤ) (r : ℕ) → InRange tick r → 0 < r
InRange-pos (pos zero) r h = h.0
InRange-pos (pos (suc n)) r h = omega arith
InRange-pos (negsuc n) r h = h.0

-- Amounts are given exactly if both ticks are within the bounds, and otherwise the error is; no
-- price or liquidity, and no order of the ticks, makes the function divide by zero.
pub amounts_for_liquidity_total :
    (price : ℕ) (lower upper : ℤ) (liquidity : ℕ)
    → ((abs lower ≤ max_tick)
        × (abs upper ≤ max_tick)
        × (a : ℕ × ℕ) × (amounts_for_liquidity price lower upper liquidity ≡ ok a))
      ⊎ (((max_tick < abs lower) ⊎ (max_tick < abs upper))
          × (amounts_for_liquidity price lower upper liquidity ≡ err tick_outside_bounds))
unfolding amounts_for_liquidity
amounts_for_liquidity_total price lower upper l = elim (sqrt_ratio_at_tick_range lower) [
  | inr (out, e) ↦ inr (inl out, rw e)
  | inl (in_l, r, e, range) ↦ elim (sqrt_ratio_at_tick_range upper) [
    | inr (out, e') ↦ inr (inr out, rw (e, e'))
    | inl (in_u, r', e', range') ↦
        let both =
          amounts_between_ok price r r' l (InRange-pos lower r range)
            (InRange-pos upper r' range') in
        inl (in_l, in_u, both.0, rw (e, e') both.1)
  ]
]
