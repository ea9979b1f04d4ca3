-- ===== src/Valuation/Tests.antt =====
-- Runs of valuation.go on whole numbers of dollars, and its theorems at concrete inputs.
use Prim.Native.String.{String}
use sentio_portfolio.Common.{◌≡◌, refl, true, List, [], ◌∷◌, Option, none, some, All, Each, ok, err}
use sentio_portfolio.Common.Int.{ℤ, pos, negsuc, ◌+ℤ◌, ◌-ℤ◌, ◌*ℤ◌, div_ℤ, ltb_ℤ}
use sentio_portfolio.Pages.{Text}
use sentio_portfolio.Pricing.{AssetId, price_key, text_beq}
use sentio_portfolio.Valuation.{
  Float, Component, Group, Snapshot, Summary, invalid_amount, set_string,
}
use sentio_portfolio.Valuation.Totals.{Protocol, apply_valuations}
use sentio_portfolio.Valuation.Net.{SnapshotValued}
use sentio_portfolio.Valuation.Summaries.{Tells, apply_valuations-Tells}
use sentio_portfolio.Valuation.Counts.{components_in}
use sentio_portfolio.Valuation.Values.{apply_valuations-SnapshotValued}

-- Numbers that are whole, rounded down.
abbrev whole : Float ℤ
whole = record {
  nought = pos 0;
  plus = λ a b. a +ℤ b;
  minus = λ a b. a -ℤ b;
  is_positive = λ a. ltb_ℤ (pos 0) a;
  is_negative = λ a. ltb_ℤ a (pos 0);
  is_finite = λ a. true;
  exact = λ a. some (record { num = a; den = 1 });
  nearest = λ q. div_ℤ q.num q.den;
}

abbrev coin : AssetId
coin = record { chain_id = 1; address = 17 }

abbrev stone : AssetId
stone = record { chain_id = 1; address = 18 }

abbrev quotes : List (Text × ℤ)
quotes = (price_key coin, pos 3) ∷ []

abbrev holding : String → AssetId → Text → Component ℤ
holding kind token amount = record {
  kind = kind;
  token = token;
  decimals = 1;
  amount_raw = amount;
  amount_denominator_raw = [];
  price_basis = none;
  price_usd = none;
  value_usd = none;
}

abbrev ninety : Text
ninety = b'9' ∷ b'0' ∷ []

abbrev fifty : Text
fifty = b'5' ∷ b'0' ∷ []

abbrev valued_at : Component ℤ → ℤ → Component ℤ
valued_at c value = record c { price_usd = some (pos 3); value_usd = some value }

abbrev group_of : List (Component ℤ) → Option ℤ → Group ℤ
group_of components value = record {
  components = components;
  net_value_policy = "floor-zero";
  value_usd = value;
}

abbrev snapshot_of : List (Group ℤ) → Option ℤ → Snapshot ℤ
snapshot_of groups value = record {
  protocol_id = "aave";
  protocol_name = "Aave";
  chain_id = 56;
  groups = groups;
  net_value_policy = "";
  value_usd = value;
}

-- A group with more assets than debts, one with more debts, and one that is not quoted.
abbrev before : Snapshot ℤ
before =
    snapshot_of
      (group_of (holding "asset" coin ninety ∷ holding "debt" coin fifty ∷ []) none
        ∷ group_of (holding "debt" coin ninety ∷ []) none
        ∷ group_of (holding "asset" stone fifty ∷ []) none
        ∷ [])
      none

abbrev after : Snapshot ℤ
after =
    snapshot_of
      (group_of
          (valued_at (holding "asset" coin ninety) (pos 27)
            ∷ valued_at (holding "debt" coin fifty) (pos 15)
            ∷ [])
          (some (pos 12))
        ∷ group_of (valued_at (holding "debt" coin ninety) (pos 27) ∷ []) (some (pos 0))
        ∷ group_of (holding "asset" stone fifty ∷ []) none
        ∷ [])
      (some (pos 12))

abbrev summary : Summary ℤ
summary = record {
  protocol_id = "aave";
  protocol_name = "Aave";
  total_usd = pos 12;
  asset_usd = pos 27;
  debt_usd = pos 42;
  reward_usd = pos 0;
  priced_components = 3;
  component_count = 4;
  chain_ids = 56 ∷ [];
}

abbrev protocols : List Protocol
protocols = record { id = "aave"; name = "Aave" } ∷ record { id = "lido"; name = "Lido" } ∷ []

values_all : apply_valuations whole (before ∷ []) quotes protocols ≡ ok (after ∷ [], summary ∷ [])
unfolding apply_valuations ◌+ℤ◌ ◌-ℤ◌ ◌*ℤ◌ div_ℤ price_key text_beq
values_all = refl

apply_valuations-SnapshotValued_example :
    Each (SnapshotValued whole quotes) (before ∷ []) (after ∷ [])
apply_valuations-SnapshotValued_example =
    apply_valuations-SnapshotValued whole quotes (before ∷ []) protocols (after ∷ []) (summary ∷ [])
      values_all

apply_valuations-Tells_example :
    All
      (λ told.
        Tells whole quotes told.protocol_id
          (components_in whole quotes told.protocol_id (before ∷ []))
          told)
      (summary ∷ [])
apply_valuations-Tells_example =
    apply_valuations-Tells whole quotes (before ∷ []) protocols (after ∷ []) (summary ∷ [])
      values_all

abbrev not_a_number : Text
not_a_number = b'1' ∷ b'x' ∷ []

refuses_text :
    apply_valuations whole
      (snapshot_of (group_of (holding "asset" coin not_a_number ∷ []) none ∷ []) none ∷ [])
      quotes
      protocols
    ≡ err invalid_amount
unfolding apply_valuations ◌+ℤ◌ ◌-ℤ◌ ◌*ℤ◌ div_ℤ price_key text_beq
refuses_text = refl

signs : set_string (b'-' ∷ b'4' ∷ b'2' ∷ []) ≡ some (negsuc 41)
unfolding set_string
signs = refl
