-- ===== src/Clmm.antt =====
-- sui_clmm_math.go: token amounts of a concentrated-liquidity position on Sui, fee growth inside its
-- range, what is owed to it, and the parser that keeps the first error.
pub mod Amounts
pub mod Growth
pub mod Parser
mod Tests
use sentio_portfolio.Common.{
  ℕ, ◌+◌, ◌-◌, ◌*◌, ◌/◌, ◌%◌, ◌^◌, Bool, true, false, Option, none, some, ltb, leb, ◌==◌,
  if◌then◌else◌, Outcome, ok, err, panic, ◌>>=◌,
}
use sentio_portfolio.Common.Int.{ℤ, pos, ◌-ℤ◌, ◌*ℤ◌, div_ℤ, mod_ℤ, ltb_ℤ, leb_ℤ}

abbrev pub q64 : ℕ
q64 = 2 ^ 64

abbrev pub mod128 : ℕ
mod128 = 2 ^ 128

pub data Error : Type 0 where
  owed_exceeds_u64 not_a_field exceeds_bits tick_out_of_range : Error

-- The two tests in the code's order: first up to the lower price, then down to the upper.
pub clamp : ℕ → ℕ → ℕ → ℕ
clamp price lower upper =
    let p = if ltb price lower then lower else price in if ltb upper p then upper else p

-- The first amount divides by the product of two prices. The second is signed, as with a lower price
-- above the upper one the difference is negative.
pub amounts : ℕ → ℕ → ℕ → ℕ → Outcome Error (ℕ × ℤ)
amounts liquidity price lower upper =
    let p = clamp price lower upper in
    if p * upper == 0
    then panic
    else ok (
      (upper - p) * liquidity * q64 / (p * upper),
      div_ℤ ((pos p -ℤ pos lower) *ℤ pos liquidity) q64,
    )

-- `suiCLMMSub`
pub sub : ℕ → ℕ → ℕ
sub a b = mod_ℤ (pos a -ℤ pos b) mod128

-- `suiCLMMInside`: the growth inside the ticks `lo` and `hi`, seen from the current tick.
pub inside : ℕ → ℕ → ℕ → ℤ → ℤ → ℤ → ℕ
inside global lower upper current lo hi =
    let below = if ltb_ℤ current lo then sub global lower else lower in
    let above = if leb_ℤ hi current then sub global upper else upper in sub (sub global below) above

-- `suiCLMMOwed`
pub owed_amount : ℕ → ℕ → ℕ → ℕ → Outcome Error ℕ
owed_amount owed last growth liquidity =
    let delta = sub growth last * liquidity / q64 + owed in
    if leb (2 ^ 64) delta then err owed_exceeds_u64 else ok delta

-- `suiCLMMParser` has the first error.
abbrev pub Parser : Type 0
Parser = Option Error

-- `fail`, with `none` for a nil error.
pub fail : Parser → Option Error → Parser
fail none e = e
fail (some first) e = some first

-- What reading a field gives: a number or an error.
pub data Field : Type 0 where
  read : ℕ → Field
  failed : Error → Field

-- `uint`, given what reading the field gave; a number of more bits is reported and still returned.
pub parse_uint : Parser → Field → ℕ → Parser × ℕ
unfolding fail
parse_uint p (read v) bits = (if leb (2 ^ bits) v then fail p (some exceeds_bits) else p, v)
parse_uint p (failed e) bits = (fail p (some e), 0)

-- `int32(uint32(...))` of the low 32 bits.
pub signed32 : ℕ → ℤ
signed32 bits =
    let low = bits % 2 ^ 32 in if ltb low (2 ^ 31) then pos low else pos low -ℤ pos (2 ^ 32)

pub in_tick_range : ℤ → Bool
in_tick_range tick =
    if ltb_ℤ tick (pos 0 -ℤ pos 443636)
    then false
    else if ltb_ℤ (pos 443636) tick
    then false
    else true

-- `tick`, given what reading the bits gave.
pub parse_tick : Parser → Field → Parser × ℤ
unfolding parse_uint signed32 in_tick_range fail
parse_tick p field =
    let (p', bits) = parse_uint p field 32 in
    let tick = signed32 bits in
    (if in_tick_range tick then p' else fail p' (some tick_out_of_range), tick)
