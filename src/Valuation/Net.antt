-- ===== src/Valuation/Net.antt =====
-- valuation.go, `applyValuations`: the values that the components, the groups and the snapshots are to have.
use Prim.Native.String.{String}
use sentio_portfolio.Common.{
  ◌≡◌, refl, ap, ◌∙◌, subst, ◌⊎◌, inl, inr, Bool, true, false, List, [], ◌∷◌, Option, none, some,
  Each, if◌then◌else◌, Bool-cases, Outcome, ok, err, panic, ◌||◌, >>=-eq-ok, ok_injective,
}
use sentio_portfolio.Common.Assoc.{string_key}
use sentio_portfolio.Pages.{Text}
use sentio_portfolio.Valuation.{
  Float, Component, Group, Snapshot, Error, component_price, component_value_usd, apply_floor_zero,
}
use sentio_portfolio.Valuation.Counts.{is_some}
use sentio_portfolio.Valuation.Totals.{
  Tally, add_value, count_priced, count_component, value_priced, value_component,
}

abbrev pub succeeded : {A : Type 0} → Outcome Error A → Option A
succeeded (ok a) = some a
succeeded (err reason) = none
succeeded panic = none

pub or_true : (b : Bool) → true ≡ (b || true)
or_true true = refl
or_true false = refl

pub or_assoc : (a b c : Bool) → (a || b || c) ≡ (a || (b || c))
or_assoc true b c = refl
or_assoc false b c = refl

pub or_false : (b : Bool) → b ≡ (b || false)
or_false true = refl
or_false false = refl

module _ {F : Type 0} (float : Float F) (prices : List (Text × F)) where
  -- A component keeps its parts, and has its price and its value where a price is found.
  abbrev pub ComponentValued : Component F → Component F → Type 0
  ComponentValued c c' =
      ((component_price float prices c ≡ ok none) × (c' ≡ c))
      ⊎ ((price : F) × (value : F) × (component_price float prices c ≡ ok (some price))
          × (component_value_usd float c price ≡ ok value)
          × (c' ≡ record c { price_usd = some price; value_usd = some value }))

  -- The value of a component, where its token is quoted and both calculations succeed.
  abbrev pub value_at : Component F → Outcome Error (Option F) → Option F
  value_at c (ok none) = none
  value_at c (ok (some price)) = succeeded (component_value_usd float c price)
  value_at c (err reason) = none
  value_at c panic = none

  abbrev pub value_of : Component F → Option F
  value_of c = value_at c (component_price float prices c)

  -- Debts count against the rest.
  abbrev pub add_signed : String → F → Option F → F
  add_signed kind total none = total
  add_signed kind total (some value) =
      if string_key.beq kind "debt" then float.minus total value else float.plus total value

  abbrev pub net_value : F → List (Component F) → F
  net_value total [] = total
  net_value total (c ∷ cs) = net_value (add_signed c.kind total (value_of c)) cs

  abbrev pub any_value : List (Component F) → Bool
  any_value [] = false
  any_value (c ∷ cs) = is_some (value_of c) || any_value cs

  -- The value that a group has, and what it adds to its snapshot.
  abbrev pub group_value : Group F → F
  group_value g = apply_floor_zero float (net_value float.nought g.components) g.net_value_policy

  abbrev pub net_groups : F → List (Group F) → F
  net_groups total [] = total
  net_groups total (g ∷ gs) =
      net_groups (if any_value g.components then float.plus total (group_value g) else total) gs

  abbrev pub any_group_value : List (Group F) → Bool
  any_group_value [] = false
  any_group_value (g ∷ gs) = any_value g.components || any_group_value gs

  abbrev pub GroupValued : Group F → Group F → Type 0
  GroupValued g g' =
      (g'.net_value_policy ≡ g.net_value_policy)
      × (g'.value_usd ≡ (if any_value g.components then some (group_value g) else g.value_usd))
      × Each ComponentValued g.components g'.components

  abbrev pub SnapshotValued : Snapshot F → Snapshot F → Type 0
  SnapshotValued s s' =
      (s'.protocol_id ≡ s.protocol_id)
      × (s'.protocol_name ≡ s.protocol_name)
      × (s'.chain_id ≡ s.chain_id)
      × (s'.net_value_policy ≡ s.net_value_policy)
      × (s'.value_usd ≡ (
          if any_group_value s.groups
          then some (apply_floor_zero float (net_groups float.nought s.groups) s.net_value_policy)
          else s.value_usd))
      × Each GroupValued s.groups s'.groups

  -- The total of a tally and whether it has a price, after a component.
  abbrev pub Adds : Tally F → Component F → Tally F → Type 0
  Adds t c t' =
      (t'.total ≡ add_signed c.kind t.total (value_of c))
      × (t'.priced ≡ (t.priced || is_some (value_of c)))

  add_value_lem :
      (c : Component F) (value : F) (t : Tally F)
      → value_of c ≡ some value
      → Adds t c (add_value float c.kind value (count_priced float (count_component float t)))
  add_value_lem c value t e = rw e (elim (Bool-cases (string_key.beq c.kind "debt")) [
    | inl debt ↦ rw debt (refl, or_true t.priced)
    | inr other ↦ rw other (elim (Bool-cases (string_key.beq c.kind "reward")) [
      | inl reward ↦ rw reward (refl, or_true t.priced)
      | inr asset ↦ rw asset (refl, or_true t.priced)
    ])
  ])

  value_of-eq-some :
      (c : Component F) (price value : F)
      → component_price float prices c ≡ ok (some price)
      → component_value_usd float c price ≡ ok value
      → value_of c ≡ some value
  value_of-eq-some c price value found made = ap (value_at c) found ∙ ap succeeded made

  value_priced-ComponentValued :
      (c : Component F) (t : Tally F) (price : Option F) {result : Component F × Tally F}
      → component_price float prices c ≡ ok price
      → value_priced float c (count_component float t) price ≡ ok result
      → ComponentValued c result.0 × Adds t c result.1
  unfolding value_priced
  value_priced-ComponentValued c t none found e =
      subst (λ r. ComponentValued c r.0 × Adds t c r.1) (ok_injective e)
        (inl (found, refl), rw found (refl, or_false t.priced))
  value_priced-ComponentValued c t (some price) found e =
      let (value, made, same) = >>=-eq-ok (component_value_usd float c price) _ e in
      subst (λ r. ComponentValued c r.0 × Adds t c r.1) (ok_injective same)
        (
          inr (price, value, found, made, refl),
          add_value_lem c value t (value_of-eq-some c price value found made),
        )

  pub value_component-ComponentValued :
      (c : Component F) (t : Tally F) {result : Component F × Tally F}
      → value_component float prices c t ≡ ok result
      → ComponentValued c result.0 × Adds t c result.1
  unfolding value_component
  value_component-ComponentValued c t e =
      let (price, found, valued) = >>=-eq-ok (component_price float prices c) _ e in
      value_priced-ComponentValued c t price found valued
