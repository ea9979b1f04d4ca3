-- ===== src/Navi/Tests.antt =====
-- Runs of the code of navi_math.go, and its theorems at concrete arguments.
use sentio_portfolio.Common.{
  ℕ, ◌-◌, ◌*◌, ◌^◌, ◌≤◌, ◌≡◌, refl, true, false, [], ◌∷◌, arith, ok, err, leb, if◌then◌else◌,
}
use sentio_portfolio.Common.Int.{pos}
use sentio_portfolio.Navi.{
  ray, ray_mul, index_at, token_amount, string, number, other, uint, invalid_integer, exceeds_u256,
  not_text, invalid_interest_inputs,
}
use sentio_portfolio.Navi.Index.{index_at_mono}
use sentio_portfolio.Navi.Integers.{decimal, uint-decimal}

half_up : ray_mul 1 (5 * 10 ^ 26) ≡ 1
unfolding ray_mul
half_up = refl

half_down : ray_mul 1 (5 * 10 ^ 26 - 1) ≡ 0
unfolding ray_mul
half_down = refl

ten_percent :
    index_at (pos ray) (pos (10 ^ 26)) 0 (365 * 24 * 60 * 60 * 1000) false ≡ ok (11 * 10 ^ 26)
unfolding index_at
ten_percent = refl

backwards : index_at (pos ray) (pos 1) 5 4 true ≡ err invalid_interest_inputs
unfolding index_at
backwards = refl

six_decimals : token_amount 1_234_567_899 ray 6 ≡ 1_234_567
unfolding token_amount
six_decimals = refl

reads : uint (number (b'1' ∷ b'0' ∷ b'7' ∷ [])) ≡ ok 107
unfolding uint
reads = refl

leading_zero : uint (string (b'0' ∷ b'7' ∷ [])) ≡ err invalid_integer
unfolding uint
leading_zero = refl

plus_sign : uint (string (b'+' ∷ b'7' ∷ [])) ≡ err invalid_integer
unfolding uint
plus_sign = refl

no_text : uint other ≡ err not_text
unfolding uint
no_text = refl

index_at_mono_example :
    (r r' : ℕ) × (index_at (pos ray) (pos (10 ^ 26)) 0 60_000 true ≡ ok r)
    × (index_at (pos ray) (pos (10 ^ 26)) 0 90_000 true ≡ ok r')
    × (ray ≤ r)
    × (r ≤ r')
index_at_mono_example =
    index_at_mono ray (10 ^ 26) 0 60_000 90_000 true (omega arith) (omega arith) (omega arith)

uint-decimal_example :
    (uint (string (decimal 1_234_567))
      ≡ (if leb (2 ^ 256) 1_234_567 then err exceeds_u256 else ok 1_234_567))
    × (uint (number (decimal 1_234_567))
        ≡ (if leb (2 ^ 256) 1_234_567 then err exceeds_u256 else ok 1_234_567))
uint-decimal_example = uint-decimal 1_234_567
