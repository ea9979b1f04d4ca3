-- ===== src/TickMath.antt =====
-- uniswap_math.go: Uniswap's TickMath, the token amounts of a liquidity position, fee growth and
-- packed ticks. A `big.Int` that is never negative is a natural number; the differences whose sign
-- depends on the arguments are integers.
pub mod Bounds
pub mod Amounts
pub mod Growth
mod Tests
use sentio_portfolio.Common.{
  ℕ, zero, suc, ◌+◌, ◌-◌, ◌*◌, ◌/◌, ◌%◌, ◌^◌, Bool, true, false, not, List, [], ◌∷◌, ltb, leb, ◌==◌,
  if◌then◌else◌, Outcome, ok, err, quo, ◌>>=◌,
}
use sentio_portfolio.Common.Int.{ℤ, pos, negsuc, ◌-ℤ◌, mod_ℤ}

abbrev pub max_tick : ℕ
max_tick = 887_272

abbrev pub max_uint : ℕ
max_uint = 2 ^ 256 - 1

-- `tickMultipliers` but for its first entry, which the loop does not read.
abbrev pub first_multiplier : ℕ
first_multiplier = 0xfffcb933bd6fad37aa2d162d1a594001

abbrev pub tick_multipliers : List ℕ
tick_multipliers =
    0xfff97272373d413259a46990580e213a ∷ 0xfff2e50f5f656932ef12357cf3c7fdcc
    ∷ 0xffe5caca7e10e4e61c3624eaa0941cd0 ∷ 0xffcb9843d60f6159c9db58835c926644
    ∷ 0xff973b41fa98c081472e6896dfb254c0 ∷ 0xff2ea16466c96a3843ec78b326b52861
    ∷ 0xfe5dee046a99a2a811c461f1969c3053 ∷ 0xfcbe86c7900a88aedcffc83b479aa3a4
    ∷ 0xf987a7253ac413176f2b074cf7815e54 ∷ 0xf3392b0822b70005940c7a398e4b70f3
    ∷ 0xe7159475a2c29b7443b29c7fa6e889d9 ∷ 0xd097f3bdfd2022b8845ad8f792aa5825
    ∷ 0xa9f746462d870fdf8a65dc1f90e061e5 ∷ 0x70d869a156d2a1b890bb3df62baf32f7
    ∷ 0x31be135f97d08fd981231505542fcfa6 ∷ 0x9aa508b5b7a84e1c677de54f3e99bc9
    ∷ 0x5d6af8dedb81196699c329225ee604 ∷ 0x2216e584f5fa1ea926041bedfe98 ∷ 0x48a170391f7dc42444e8fa2
    ∷ []

abbrev pub abs : ℤ → ℕ
abs (pos n) = n
abs (negsuc n) = suc n

-- `x & (1 << bit) != 0`
pub has_bit : ℕ → ℕ → Bool
has_bit x bit = not ((x / 2 ^ bit) % 2 == 0)

-- The body of the loop: one Q128.128 multiplication where the bit is set.
pub apply_bit : Bool → ℕ → ℕ → ℕ
apply_bit true multiplier ratio = ratio * multiplier / 2 ^ 128
apply_bit false multiplier ratio = ratio

-- The loop over the bits from `bit` on.
pub apply_bits : ℕ → ℕ → List ℕ → ℕ → ℕ
unfolding has_bit apply_bit
apply_bits abs_tick bit [] ratio = ratio
apply_bits abs_tick bit (m ∷ ms) ratio =
    apply_bits abs_tick (suc bit) ms (apply_bit (has_bit abs_tick bit) m ratio)

pub first_ratio : ℕ → ℕ
unfolding has_bit
first_ratio abs_tick = if has_bit abs_tick 0 then first_multiplier else 2 ^ 128

-- The Q128.128 ratio of -|tick|.
pub negative_ratio : ℕ → ℕ
unfolding first_ratio apply_bits
negative_ratio abs_tick = apply_bits abs_tick 1 tick_multipliers (first_ratio abs_tick)

pub invert : ℤ → ℕ → ℕ
invert (pos zero) ratio = ratio
invert (pos (suc n)) ratio = max_uint / ratio
invert (negsuc n) ratio = ratio

-- From Q128.128 to Q64.96, upwards.
pub round_up : ℕ → ℕ
round_up ratio =
    let shifted = ratio / 2 ^ 32 in if ratio % 2 ^ 32 == 0 then shifted else shifted + 1

pub data Error : Type 0 where
  tick_outside_bounds : Error

pub sqrt_ratio_at_tick : ℤ → Outcome Error ℕ
unfolding negative_ratio invert round_up
sqrt_ratio_at_tick tick =
    if ltb max_tick (abs tick)
    then err tick_outside_bounds
    else ok (round_up (invert tick (negative_ratio (abs tick))))

-- The swap that orders the two prices.
abbrev pub lower_of : ℕ → ℕ → ℕ
lower_of a b = if ltb b a then b else a

abbrev pub upper_of : ℕ → ℕ → ℕ
upper_of a b = if ltb b a then a else b

pub amount0_for_liquidity : ℕ → ℕ → ℕ → Outcome Error ℕ
amount0_for_liquidity sqrt_a sqrt_b liquidity =
    let lower = lower_of sqrt_a sqrt_b in
    let upper = upper_of sqrt_a sqrt_b in
    do result ← quo (liquidity * 2 ^ 96 * (upper - lower)) upper; quo result lower

pub amount1_for_liquidity : ℕ → ℕ → ℕ → ℕ
amount1_for_liquidity sqrt_a sqrt_b liquidity =
    liquidity * (upper_of sqrt_a sqrt_b - lower_of sqrt_a sqrt_b) / 2 ^ 96

-- The three regions of the price: below, inside and above the range.
pub amounts_between : ℕ → ℕ → ℕ → ℕ → Outcome Error (ℕ × ℕ)
unfolding amount0_for_liquidity amount1_for_liquidity
amounts_between sqrt_price sqrt_lower sqrt_upper liquidity =
    if leb sqrt_price sqrt_lower
    then (do amount0 ← amount0_for_liquidity sqrt_lower sqrt_upper liquidity; ok (amount0, 0))
    else if ltb sqrt_price sqrt_upper
    then (do
      amount0 ← amount0_for_liquidity sqrt_price sqrt_upper liquidity
      ok (amount0, amount1_for_liquidity sqrt_lower sqrt_price liquidity))
    else ok (0, amount1_for_liquidity sqrt_lower sqrt_upper liquidity)

pub amounts_for_liquidity : ℕ → ℤ → ℤ → ℕ → Outcome Error (ℕ × ℕ)
unfolding sqrt_ratio_at_tick amounts_between
amounts_for_liquidity sqrt_price tick_lower tick_upper liquidity = do
  sqrt_lower ← sqrt_ratio_at_tick tick_lower
  sqrt_upper ← sqrt_ratio_at_tick tick_upper
  amounts_between sqrt_price sqrt_lower sqrt_upper liquidity

-- Fee growth is a counter modulo 2 ^ 256.
pub fees_from_growth : ℕ → ℕ → ℕ → ℕ
fees_from_growth liquidity current_growth last_growth =
    liquidity * mod_ℤ (pos current_growth -ℤ pos last_growth) (2 ^ 256) / 2 ^ 128

-- `And(0xff_ffff)` keeps the 24 low bits; the subtraction gives the tick its sign.
pub decode_packed_int24 : ℕ → ℕ → ℤ
decode_packed_int24 value offset =
    let raw = value / 2 ^ offset % 2 ^ 24 in
    if leb 0x80_0000 raw then pos raw -ℤ pos 0x100_0000 else pos raw
