-- ===== src/TickMath/Growth.antt =====
-- Fee growth and packed ticks (uniswap_math.go): counters modulo 2 ^ 256, and 24-bit signed fields.
use native.Mathlib.Nat.{add-mul-div_left, div-eq_of_lt}
use sentio_portfolio.Common.{ℕ, suc, ◌+◌, ◌-◌, ◌*◌, ◌/◌, ◌%◌, ◌^◌, ◌<◌, ◌≡◌, ◌∙◌, arith}
use sentio_portfolio.Common.Int.{ℤ, pos, negsuc, ◌-ℤ◌, mod_ℤ}
use sentio_portfolio.TickMath.{fees_from_growth, decode_packed_int24}

wrapped_difference :
    (last d : ℕ)
    → last < 2 ^ 256
    → d < 2 ^ 256
    → mod_ℤ (pos ((last + d) % 2 ^ 256) -ℤ pos last) (2 ^ 256) ≡ d
unfolding mod_ℤ ◌-ℤ◌
wrapped_difference last d hl hd = ground arith

-- Fees are the liquidity's share of what the growth counter advanced by, also where the counter
-- wrapped around in between.
pub fees_from_growth_wraps :
    (liquidity last d : ℕ)
    → last < 2 ^ 256
    → d < 2 ^ 256
    → fees_from_growth liquidity ((last + d) % 2 ^ 256) last ≡ liquidity * d / 2 ^ 128
unfolding fees_from_growth
fees_from_growth_wraps liquidity last d hl hd = rw (wrapped_difference last d hl hd)

-- The two's complement of a tick, in 24 bits.
abbrev pub encode_int24 : ℤ → ℕ
encode_int24 (pos n) = n
encode_int24 (negsuc n) = 2 ^ 24 - suc n

abbrev pub IsInt24 : ℤ → Type 0
IsInt24 (pos n) = n < 2 ^ 23
IsInt24 (negsuc n) = n < 2 ^ 23

field_of :
    (low o e high : ℕ)
    → low < 2 ^ o
    → (low + 2 ^ o * (e + 2 ^ 24 * high)) / 2 ^ o ≡ e + 2 ^ 24 * high
field_of low o e high h =
    add-mul-div_left low (e + 2 ^ 24 * high) (omega arith) ∙ omega (arith, div-eq_of_lt h)

decode_raw :
    (tick : ℤ) (value offset high : ℕ)
    → IsInt24 tick
    → value / 2 ^ offset ≡ encode_int24 tick + 2 ^ 24 * high
    → decode_packed_int24 value offset ≡ tick
unfolding decode_packed_int24 ◌-ℤ◌
decode_raw (pos n) value offset high h e = rw e (ground arith)
decode_raw (negsuc n) value offset high h e = rw e (ground arith)

-- Every 24-bit tick is read back from a packed word, whatever the bits below and above it.
pub decode-encode :
    (tick : ℤ) (offset low high : ℕ)
    → IsInt24 tick
    → low < 2 ^ offset
    → decode_packed_int24 (low + 2 ^ offset * (encode_int24 tick + 2 ^ 24 * high)) offset ≡ tick
decode-encode tick offset low high h hl =
    decode_raw tick _ offset high h (field_of low offset (encode_int24 tick) high hl)
