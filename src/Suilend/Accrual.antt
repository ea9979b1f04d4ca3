-- ===== src/Suilend/Accrual.antt =====
-- Accrual, deposits and debts of a Suilend reserve (suilend_math.go).
use sentio_portfolio.Common.{
  ℕ, ◌+◌, ◌-◌, ◌*◌, ◌/◌, ◌^◌, ◌≤◌, ◌<◌, ◌≡◌, refl, ◌⊎◌, inl, inr, true, false, arith, ltb,
  Bool-cases, ok, err, Outcome, sym, ◌==◌, if◌then◌else◌, ltb→lt, not_ltb→le,
}
use sentio_portfolio.Common.Int.{pos, ◌*ℤ◌, ◌≤ℤ◌, div_ℤ, ltb_ℤ, int_laws}
use sentio_portfolio.Common.Division.{le-div, div_floor, mul_mono, div_mono}
use sentio_portfolio.Suilend.{
  wad, bps, year, Reserve, mul, div, total_supply, compound, accrue, accept, at, deposit_amount,
  debt_amount, interest_exceeds_u256, reserve_exceeds_u256, Error, invalid_time_or_liquidity,
}
use sentio_portfolio.Suilend.Curve.{IsCurve, apr_at_range, utilization-le}
use sentio_portfolio.Suilend.Power.{pow_range, le-mul, mul-le}

-- What parseSuilendReserve guarantees of the fields that accrual reads.
pub record IsValid (r : Reserve) : Type 0 where
  pub curve : IsCurve r.utils r.aprs
  pub spread : r.spread_bps ≤ 10000

-- What accrual may do to a reserve: debts, spread fees and the borrow index only grow, and the net
-- supply, which belongs to the depositors, does not fall.
pub record Accrued (r r' : Reserve) (target : ℕ) : Type 0 where
  pub time : r'.updated ≡ target
  pub borrowed_grows : r.borrowed ≤ r'.borrowed
  pub fees_grow : r.fees ≤ r'.fees
  pub index_grows : r.borrow_index ≤ r'.borrow_index
  pub supply_grows : total_supply r ≤ℤ total_supply r'
  pub same_available : r'.available ≡ r.available
  pub same_supply : r'.supply ≡ r.supply

compound-Accrued :
    (r : Reserve) (factor target : ℕ)
    → IsValid r
    → wad ≤ factor
    → Accrued r (compound r factor target) target
unfolding compound total_supply
compound-Accrued r factor target v h =
    let debt = mul r.borrowed (factor - wad) in
    let share = mul-le debt (r.spread_bps * bps) (omega (arith, v.spread)) in
    record {
      time = refl;
      borrowed_grows = omega arith;
      fees_grow = omega arith;
      index_grows = le-mul r.borrow_index factor h;
      supply_grows = omega (int_laws, share);
      same_available = refl;
      same_supply = refl;
    }

unchanged-Accrued : (r : Reserve) (target : ℕ) → target ≡ r.updated → Accrued r r target
unchanged-Accrued r target e = record {
  time = sym e;
  borrowed_grows = omega arith;
  fees_grow = omega arith;
  index_grows = omega arith;
  supply_grows = omega arith;
  same_available = refl;
  same_supply = refl;
}

-- An accrual that is admitted gives the accrued reserve, or one of the two overflow errors.
abbrev pub Accrues : Reserve → ℕ → Outcome Error Reserve → Type 0
Accrues r target o =
    ((r' : Reserve) × (o ≡ ok r') × Accrued r r' target)
    ⊎ (o ≡ err interest_exceeds_u256)
    ⊎ (o ≡ err reserve_exceeds_u256)

accept_cases : (r : Reserve) → (accept r ≡ ok r) ⊎ (accept r ≡ err reserve_exceeds_u256)
unfolding accept
accept_cases r = ground arith

accept-Accrues :
    (r : Reserve) (factor target : ℕ)
    → IsValid r
    → wad ≤ factor
    → Accrues r target (accept (compound r factor target))
accept-Accrues r factor target v h = elim (accept_cases (compound r factor target)) [
  | inl e ↦ inl (compound r factor target, e, compound-Accrued r factor target v h)
  | inr e ↦ inr (inr e)
]

accrue-Accrues : (r : Reserve) (target : ℕ) → IsValid r → Accrues r target (accrue r target)
unfolding accrue
accrue-Accrues r target v =
    let util = utilization-le r in
    let apr = apr_at_range util.0 r.utils r.aprs v.curve util.2 in
    rw (util.1, apr.1)
      (elim (pow_range (wad + apr.0 / year) (target - r.updated) (omega arith)) [
        | inr overflow ↦ rw overflow (inr (inl refl))
        | inl (factor, e, ge, _) ↦ rw e (accept-Accrues r factor target v ge)
      ])

-- Accrual of a parsed reserve rejects a time before its last update and a negative net supply. It
-- otherwise gives the accrued reserve, whose debts, fees and index have not shrunk and whose net
-- supply has not fallen, or an overflow error: no utilization is outside the curve, and nothing
-- divides by zero.
pub at-Accrues :
    (r : Reserve) (target : ℕ)
    → IsValid r
    → (((target < r.updated) ⊎ ¬ (pos 0 ≤ℤ total_supply r))
        × (at r target ≡ err invalid_time_or_liquidity))
      ⊎ ((r.updated ≤ target) × (pos 0 ≤ℤ total_supply r) × Accrues r target (at r target))
unfolding at
at-Accrues r target v = elim (Bool-cases (ltb target r.updated)) [
  | inl early ↦ inl (inl (ltb→lt _ _ early), rw early)
  | inr late ↦ elim (Bool-cases (ltb_ℤ (total_supply r) (pos 0))) [
    | inl negative ↦ inl (inr (ground arith), rw (late, negative))
    | inr positive ↦ inr (
      not_ltb→le _ _ late,
      ground arith,
      rw (late, positive) (timed (Bool-cases (target == r.updated))),
    )
  ]
]
  where
    timed :
        ((target == r.updated) ≡ true) ⊎ ((target == r.updated) ≡ false)
        → Accrues r target (if target == r.updated then ok r else accrue r target)
    timed (inl same) = rw same (inl (r, refl, unchanged-Accrued r target (ground arith)))
    timed (inr other) = rw other (accrue-Accrues r target v)

-- A debt is given for every snapshot index from 1 up to the reserve's, and is never reported below
-- its principal.
pub debt_amount-ge :
    (r : Reserve) (amount snapshot : ℕ)
    → 0 < snapshot
    → snapshot ≤ r.borrow_index
    → (d : ℕ) × (debt_amount r amount snapshot ≡ ok d) × (amount / wad ≤ d)
unfolding debt_amount div
debt_amount-ge r amount snapshot h le =
    let ratio = r.borrow_index * wad / snapshot in
    (
      mul amount ratio / wad,
      ground arith,
      div_mono amount (mul amount ratio) wad (omega arith)
          (le-mul amount ratio (le-div (r.borrow_index * wad) snapshot wad h (grind arith))),
    )

-- What a number of cTokens is worth at a net supply of `t`.
abbrev pub worth : Reserve → ℕ → ℕ → ℕ
worth r t ctokens = ctokens * (t / r.supply) / wad

deposit_amount_lem :
    (r : Reserve) (ctokens t : ℕ)
    → total_supply r ≡ pos t
    → 0 < r.supply
    → r.supply < 2 ^ 64
    → ctokens ≤ r.supply
    → deposit_amount r ctokens ≡ ok (pos (worth r t ctokens))
unfolding deposit_amount div_ℤ ◌*ℤ◌
deposit_amount_lem r ctokens t e h u64 le = rw e (ground arith)

worth_bound : (c ratio : ℕ) → c * ratio / wad * wad ≤ c * ratio
worth_bound c ratio = omega (arith, div_floor (c * ratio) wad)

-- Two depositors whose cTokens are within the supply are both given an amount, and together no more
-- than the net supply.
pub deposit_amounts-le :
    (r : Reserve) (c₁ c₂ t : ℕ)
    → total_supply r ≡ pos t
    → 0 < r.supply
    → r.supply < 2 ^ 64
    → c₁ + c₂ ≤ r.supply
    → (x₁ x₂ : ℕ) × (deposit_amount r c₁ ≡ ok (pos x₁))
      × (deposit_amount r c₂ ≡ ok (pos x₂))
      × ((x₁ + x₂) * wad ≤ t)
deposit_amounts-le r c₁ c₂ t e h u64 le = (
  worth r t c₁,
  worth r t c₂,
  deposit_amount_lem r c₁ t e h u64 (omega arith),
  deposit_amount_lem r c₂ t e h u64 (omega arith),
  omega (arith, worth_bound c₁ (t / r.supply), worth_bound c₂ (t / r.supply), whole),
)
  where
    whole : c₁ * (t / r.supply) + c₂ * (t / r.supply) ≤ t
    whole =
        grind
          (arith, mul_mono (c₁ + c₂) r.supply (t / r.supply) (t / r.supply), div_floor t r.supply h)
