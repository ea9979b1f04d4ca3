-- ===== src/Valuation.antt =====
-- valuation.go: the value of what was read, by component, group, snapshot and protocol. The operations on
-- float64 are a parameter, and so is what `big.Rat` makes of one: the fraction that it is, if it is finite,
-- and the float64 that is nearest to a fraction. A map is a list of entries. Errors carry no text.
pub mod Totals
pub mod Counts
pub mod Summaries
pub mod Net
pub mod Values
mod Tests
use Prim.Native.String.{String}
use sentio_portfolio.Common.{
  ℕ, zero, suc, ◌+◌, ◌*◌, ◌-◌, ◌^◌, Bool, true, false, not, ◌&&◌, ◌||◌, List, [], ◌∷◌, Option, none,
  some, leb, ◌==◌, if◌then◌else◌, Outcome, ok, err, ◌>>=◌,
}
use sentio_portfolio.Common.Int.{ℤ, pos, negsuc, ◌*ℤ◌}
use sentio_portfolio.Common.Assoc.{lookup, string_key}
use sentio_portfolio.Pages.{Text}
use sentio_portfolio.Pricing.{AssetId, price_key, text_key}

-- A fraction with a positive denominator.
pub record Fraction : Type 0 where
  pub num : ℤ
  pub den : ℕ

-- `is_positive` is false of NaN and true of an infinite number; `is_finite` is false of both.
pub record Float (F : Type 0) : Type 0 where
  pub nought : F
  pub plus : F → F → F
  pub minus : F → F → F
  pub is_positive : F → Bool
  pub is_negative : F → Bool
  pub is_finite : F → Bool
  pub exact : F → Option Fraction
  pub nearest : Fraction → F

pub record PriceBasis : Type 0 where
  pub token : AssetId
  pub ratio_raw : Text

-- The parts of a component that are read or written here; `decimals` are those of its token.
pub record Component (F : Type 0) : Type 0 where
  pub kind : String
  pub token : AssetId
  pub decimals : ℕ
  pub amount_raw : Text
  pub amount_denominator_raw : Text
  pub price_basis : Option PriceBasis
  pub price_usd : Option F
  pub value_usd : Option F

pub record Group (F : Type 0) : Type 0 where
  pub components : List (Component F)
  pub net_value_policy : String
  pub value_usd : Option F

pub record Snapshot (F : Type 0) : Type 0 where
  pub protocol_id : String
  pub protocol_name : String
  pub chain_id : ℕ
  pub groups : List (Group F)
  pub net_value_policy : String
  pub value_usd : Option F

pub record Summary (F : Type 0) : Type 0 where
  pub protocol_id : String
  pub protocol_name : String
  pub total_usd : F
  pub asset_usd : F
  pub debt_usd : F
  pub reward_usd : F
  pub priced_components : ℕ
  pub component_count : ℕ
  pub chain_ids : List ℕ

pub data Error : Type 0 where
  invalid_ratio basis_price_not_exact derived_price_unusable : Error
  invalid_price invalid_amount invalid_denominator price_not_exact value_not_finite : Error

-- Decimal digits, at least one.
abbrev pub digits : ℕ → Text → Option ℕ
digits acc [] = some acc
digits acc (c ∷ cs) = if leb b'0' c && leb c b'9' then digits (acc * 10 + (c - b'0')) cs else none

abbrev pub negated : ℕ → ℤ
negated zero = pos 0
negated (suc n) = negsuc n

abbrev pub signed : (ℕ → ℤ) → Text → Option ℤ
signed sign [] = none
signed sign (c ∷ cs) = elim (digits 0 (c ∷ cs)) [ none ↦ none | some n ↦ some (sign n) ]

-- `SetString(raw, 10)` of a `big.Int`.
unfoldable pub set_string : Text → Option ℤ
set_string [] = none
set_string (c ∷ cs) =
    if c == b'-'
    then signed negated cs
    else if c == b'+'
    then signed pos cs
    else signed pos (c ∷ cs)

-- The value of a number that is positive.
abbrev pub positive : Option ℤ → Option ℕ
positive none = none
positive (some (negsuc n)) = none
positive (some (pos zero)) = none
positive (some (pos (suc n))) = some (suc n)

abbrev pub required : {A : Type 0} → Error → Option A → Outcome Error A
required reason none = err reason
required reason (some a) = ok a

-- A price token's key: `priceToken` and `PriceKey`.
abbrev pub price_token : {F : Type 0} → Component F → AssetId
price_token c = elim c.price_basis [ none ↦ c.token | some basis ↦ basis.token ]

module _ {F : Type 0} (float : Float F) where
  unfoldable pub derived_price : PriceBasis → F → Outcome Error F
  unfolding set_string
  derived_price basis price = do
    ratio ← required invalid_ratio (positive (set_string basis.ratio_raw))
    basis_price ← required basis_price_not_exact (float.exact price)
    let derived =
        float.nearest record { num = pos ratio *ℤ basis_price.num; den = 10 ^ 18 * basis_price.den }
    (if not (float.is_positive derived) || not (float.is_finite derived)
        then err derived_price_unusable
        else ok derived)

  -- `none` where the token has no price.
  unfoldable pub quoted_price : Option PriceBasis → Option F → Outcome Error (Option F)
  unfolding derived_price
  quoted_price basis none = ok none
  quoted_price none (some price) = ok (some price)
  quoted_price (some basis) (some price) = do derived ← derived_price basis price; ok (some derived)

  unfoldable pub component_price : List (Text × F) → Component F → Outcome Error (Option F)
  unfolding quoted_price
  component_price prices c = quoted_price c.price_basis (lookup (price_key (price_token c)) prices)

  abbrev pub denominator : Text → Outcome Error ℕ
  unfolding set_string
  denominator [] = ok 1
  denominator (c ∷ cs) = required invalid_denominator (positive (set_string (c ∷ cs)))

  unfoldable pub component_value_usd : Component F → F → Outcome Error F
  unfolding set_string
  component_value_usd c price =
      if not (float.is_positive price) || not (float.is_finite price)
      then err invalid_price
      else (do
        amount ← required invalid_amount (set_string c.amount_raw)
        divisor ← denominator c.amount_denominator_raw
        exact_price ← required price_not_exact (float.exact price)
        let value = float.nearest record {
          num = amount *ℤ exact_price.num;
          den = divisor * 10 ^ c.decimals * exact_price.den;
        }
        (if not (float.is_finite value) then err value_not_finite else ok value))

  unfoldable pub apply_floor_zero : F → String → F
  apply_floor_zero value policy =
      if string_key.beq policy "floor-zero" && float.is_negative value then float.nought else value
