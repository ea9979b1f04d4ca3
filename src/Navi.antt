-- ===== src/Navi.antt =====
-- navi_math.go: NAVI's half-up ray arithmetic, its interest index, token amounts, and the reading of
-- Move integers from JSON text. Amounts are natural numbers where the code has checked the sign.
pub mod Index
pub mod Integers
mod Tests
use sentio_portfolio.Common.{
  ℕ, zero, suc, ◌+◌, ◌-◌, ◌*◌, ◌/◌, ◌^◌, Bool, true, false, not, ◌&&◌, ◌||◌, List, [], ◌∷◌, length,
  ltb, leb, ◌==◌, if◌then◌else◌, Outcome, ok, err, fail_if, ◌>>=◌, ◌>>◌, Option, none, some,
}
use sentio_portfolio.Common.Int.{ℤ, pos, leb_ℤ, ltb_ℤ, pos_part}

abbrev pub ray : ℕ
ray = 10 ^ 27

abbrev pub half_ray : ℕ
half_ray = ray / 2

abbrev pub seconds_per_year : ℕ
seconds_per_year = 365 * 24 * 60 * 60

pub ray_mul : ℕ → ℕ → ℕ
ray_mul a b = (a * b + half_ray) / ray

pub data Error : Type 0 where
  invalid_interest_inputs not_text invalid_integer exceeds_u256 : Error

-- The supply factor is linear in the seconds.
pub supply_interest : ℕ → ℕ → ℕ
supply_interest rate seconds = ray + rate * seconds / seconds_per_year

-- The borrow factor is a third-order approximation of the compound interest.
pub borrow_interest : ℕ → ℕ → ℕ
unfolding ray_mul
borrow_interest rate seconds =
    let per_second = rate / seconds_per_year in
    let square = ray_mul per_second per_second in
    let cube = ray_mul square per_second in
    let minus_one = seconds - 1 in
    let minus_two = if ltb 2 seconds then seconds - 2 else 0 in
    let term2 = seconds * minus_one * square / 2 in
    let term3 = seconds * minus_one * minus_two * cube / 6 in
    ray + per_second * seconds + term2 + term3

pub interest : ℕ → ℕ → Bool → ℕ
unfolding supply_interest borrow_interest
interest rate seconds false = supply_interest rate seconds
interest rate seconds true = if seconds == 0 then ray else borrow_interest rate seconds

-- The index and the rate come with a sign, which the code tests.
pub index_at : ℤ → ℤ → ℕ → ℕ → Bool → Outcome Error ℕ
unfolding interest ray_mul
index_at index rate last_ms target_ms borrow = do
  fail_if (leb_ℤ index (pos 0) || ltb_ℤ rate (pos 0) || ltb target_ms last_ms)
      invalid_interest_inputs
  let seconds = (target_ms - last_ms) / 1000
  ok (ray_mul (pos_part index) (interest (pos_part rate) seconds borrow))

pub token_amount : ℕ → ℕ → ℕ → ℕ
unfolding ray_mul
token_amount principal index decimals = ray_mul principal index * 10 ^ decimals / 1_000_000_000

-- A decoded JSON value, as far as `text` and `uint` tell values apart; `json.Number` keeps its text.
pub data Json : Type 0 where
  string number : List ℕ → Json
  other : Json

pub text : Json → Outcome Error (List ℕ)
text (string s) = ok s
text (number s) = ok s
text other = err not_text

abbrev pub is_digit : ℕ → Bool
is_digit c = leb b'0' c && leb c b'9'

pub all_digits : List ℕ → Bool
all_digits [] = true
all_digits (c ∷ cs) = is_digit c && all_digits cs

-- The value of a text of digits, as `SetString(raw, 10)` reads it.
pub digits_value : ℕ → List ℕ → ℕ
digits_value acc [] = acc
digits_value acc (c ∷ cs) = digits_value (acc * 10 + (c - b'0')) cs

-- No text, or a leading zero before more digits.
pub badly_started : List ℕ → Bool
badly_started [] = true
badly_started (c ∷ []) = false
badly_started (c ∷ d ∷ cs) = c == b'0'

-- `suiFields.uint`
pub uint : Json → Outcome Error ℕ
unfolding text all_digits digits_value badly_started
uint value = do
  raw ← text value
  fail_if (badly_started raw) invalid_integer
  fail_if (not (all_digits raw)) invalid_integer
  fail_if (leb (2 ^ 256) (digits_value 0 raw)) exceeds_u256
  ok (digits_value 0 raw)
