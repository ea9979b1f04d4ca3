-- ===== src/Suilend.antt =====
-- suilend_math.go: Suilend's fixed-point arithmetic and the accrual of a reserve. Amounts are
-- natural numbers, since every decoded Move integer is one; the net supply, which the code tests
-- for its sign, is an integer.
pub mod Curve
pub mod Power
pub mod Accrual
mod Tests
use Prim.Native.String.{String}
use mathlib.Core.WellFounded.{Acc}
use mathlib.Core.Logic.{dite}
use sentio_portfolio.Common.{
  ℕ, zero, suc, ◌+◌, ◌-◌, ◌*◌, ◌/◌, ◌%◌, ◌^◌, ◌<◌, Bool, true, false, not, ◌||◌, ◌&&◌, List, [],
  ◌∷◌, arith, ltb, leb, ◌==◌, if◌then◌else◌, Outcome, ok, err, panic, length, quo, fail_if, ◌>>=◌,
  ◌>>◌, dec_lt,
}
use sentio_portfolio.Common.Order.{lt_wf}
use sentio_portfolio.Common.Int.{ℤ, pos, negsuc, ◌-ℤ◌, ◌*ℤ◌, ltb_ℤ, div_ℤ}

abbrev pub wad : ℕ
wad = 10 ^ 18

abbrev pub year : ℕ
year = 365 * 24 * 60 * 60

pub data Error : Type 0 where
  interest_exceeds_u256 invalid_time_or_liquidity outside_curve reserve_exceeds_u256 : Error
  invalid_supply invalid_index : Error
  invalid_curve invalid_curve_order : Error

-- `BitLen() > 256`
abbrev pub exceeds_u256 : ℕ → Bool
exceeds_u256 n = leb (2 ^ 256) n

-- `!IsUint64()`
abbrev pub exceeds_u64 : ℕ → Bool
exceeds_u64 n = leb (2 ^ 64) n

pub mul : ℕ → ℕ → ℕ
mul a b = a * b / wad

pub div : ℕ → ℕ → Outcome Error ℕ
div a b = quo (a * wad) b

-- A round of suilendPow's loop: the result takes the base if the exponent is odd, and the base is
-- squared if a round is left.
pub next_result : ℕ → ℕ → ℕ → ℕ
unfolding mul
next_result result base exponent = if exponent % 2 == 0 then result else mul result base

pub next_base : ℕ → ℕ → ℕ
unfolding mul
next_base base exponent = if exponent / 2 == 0 then base else mul base base

-- The overflow test that ends a round.
pub bounded : ℕ → ℕ → Outcome Error ℕ → Outcome Error ℕ
bounded result base rest =
    if exceeds_u256 result || exceeds_u256 base then err interest_exceeds_u256 else rest

pub half-lt : (n : ℕ) → 0 < n → n / 2 < n
half-lt n h = omega arith

-- The loop, by recursion on the exponent, which each round halves.
pub pow_loop : ℕ → ℕ → (exponent : ℕ) → Acc ◌<◌ exponent → Outcome Error ℕ
unfolding next_result next_base bounded
pow_loop result base exponent (Acc.intro _ smaller) =
    dite (dec_lt 0 exponent)
      (λ more.
        let result' = next_result result base exponent in
        let base' = next_base base exponent in
        bounded result' base'
          (pow_loop result' base' (exponent / 2) (smaller (exponent / 2) (half-lt exponent more))))
      (λ _. ok result)

pub pow : ℕ → ℕ → Outcome Error ℕ
unfolding pow_loop lt_wf dec_lt
pow base exponent = pow_loop wad base exponent (lt_wf.apply exponent)

pub record Reserve : Type 0 where
  pub id : String
  pub coin_type : String
  pub decimals : ℕ
  pub available : ℕ
  pub borrowed : ℕ
  pub fees : ℕ
  pub supply : ℕ
  pub borrow_index : ℕ
  pub updated : ℕ
  pub utils : List ℕ
  pub aprs : List ℕ
  pub spread_bps : ℕ

pub total_supply : Reserve → ℤ
total_supply r = pos (r.available * wad + r.borrowed) -ℤ pos r.fees

abbrev pub percent : ℕ
percent = wad / 100

abbrev pub bps : ℕ
bps = wad / 10000

-- Between two points of the curve. The rates do not fall along it: parseSuilendReserve checks that.
pub interpolate : ℕ → ℕ → ℕ → ℕ → ℕ → Outcome Error ℕ
unfolding mul div
interpolate util left right apr_left apr_right = do
  weight ← div (util - left) (right - left)
  ok (apr_left * bps + mul weight ((apr_right - apr_left) * bps))

-- The first segment of the curve that holds the utilization gives the rate. There are as many rates
-- as utilizations: parseSuilendReserve checks that too.
pub apr_from : ℕ → ℕ → ℕ → List ℕ → List ℕ → Outcome Error ℕ
unfolding interpolate
apr_from util u a (u' ∷ us) (a' ∷ as') =
    let rest = apr_from util u' a' us as' in
    if leb (u * percent) util && leb util (u' * percent)
    then interpolate util (u * percent) (u' * percent) a a'
    else rest
apr_from util u a [] as' = err outside_curve
apr_from util u a (u' ∷ us) [] = panic

pub apr_at : ℕ → List ℕ → List ℕ → Outcome Error ℕ
unfolding apr_from
apr_at util [] as' = err outside_curve
apr_at util (u ∷ us) [] = panic
apr_at util (u ∷ us) (a ∷ as') = apr_from util u a us as'

-- The available amount less the unclaimed spread, which counts as zero where it is negative.
pub net_available : Reserve → ℕ
net_available r = if ltb (r.available * wad) r.fees then 0 else r.available * wad - r.fees

pub utilization : Reserve → Outcome Error ℕ
unfolding net_available div
utilization r =
    let supply = net_available r + r.borrowed in if supply == 0 then ok 0 else div r.borrowed supply

-- The reserve with the interest factor applied.
pub compound : Reserve → ℕ → ℕ → Reserve
unfolding mul
compound r factor target =
    let debt = mul r.borrowed (factor - wad) in
    record r {
      borrowed = r.borrowed + debt;
      fees = r.fees + mul debt (r.spread_bps * bps);
      borrow_index = mul r.borrow_index factor;
      updated = target;
    }

-- The last check of an accrual.
pub accept : Reserve → Outcome Error Reserve
accept r = do
  fail_if (exceeds_u256 r.borrowed || exceeds_u256 r.fees || exceeds_u256 r.borrow_index)
      reserve_exceeds_u256
  ok r

pub accrue : Reserve → ℕ → Outcome Error Reserve
unfolding utilization apr_at pow compound accept
accrue r target = do
  util ← utilization r
  apr ← apr_at util r.utils r.aprs
  factor ← pow (wad + apr / year) (target - r.updated)
  accept (compound r factor target)

-- `suilendReserve.at`
pub at : Reserve → ℕ → Outcome Error Reserve
unfolding accrue total_supply
at r target = do
  fail_if (ltb target r.updated || ltb_ℤ (total_supply r) (pos 0)) invalid_time_or_liquidity
  if target == r.updated then ok r else accrue r target

pub deposit_amount : Reserve → ℕ → Outcome Error ℤ
unfolding total_supply
deposit_amount r ctokens = do
  fail_if (exceeds_u64 ctokens || r.supply == 0 || ltb r.supply ctokens) invalid_supply
  ok (div_ℤ (pos ctokens *ℤ div_ℤ (total_supply r) r.supply) wad)

pub debt_amount : Reserve → ℕ → ℕ → Outcome Error ℕ
unfolding mul div
debt_amount r amount snapshot_index = do
  fail_if (snapshot_index == 0 || ltb r.borrow_index snapshot_index) invalid_index
  ratio ← div r.borrow_index snapshot_index
  ok (mul amount ratio / wad)

-- The checks of parseSuilendReserve on the interest curve: from 0 to 100 percent, with as many rates,
-- utilizations that rise and rates that do not fall.
pub rises : ℕ → ℕ → List ℕ → List ℕ → Bool
rises u a (u' ∷ us) (a' ∷ as') = ltb u u' && leb a a' && rises u' a' us as'
rises u a _ _ = true

pub last_of : ℕ → List ℕ → ℕ
last_of u [] = u
last_of u (u' ∷ us) = last_of u' us

pub check_curve : List ℕ → List ℕ → Outcome Error (Unit {0})
unfolding rises last_of
check_curve (u ∷ u' ∷ us) (a ∷ as') = do
  fail_if (not (length (u' ∷ us) == length as') || not (u == 0) || not (last_of u' us == 100))
      invalid_curve
  fail_if (not (rises u a (u' ∷ us) as')) invalid_curve_order
check_curve _ _ = err invalid_curve
