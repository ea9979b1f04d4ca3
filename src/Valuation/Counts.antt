-- ===== src/Valuation/Counts.antt =====
-- valuation.go, `applyValuations`: the components that a summary counts.
use Prim.Native.String.{String}
use sentio_portfolio.Common.{
  ◌+◌, ◌≡◌, refl, sym, ap, ◌∙◌, subst, inl, inr, Bool, true, false, List, [], ◌∷◌, ◌++◌, Option,
  none, some, length, length-append, count, count-append, if◌then◌else◌, Bool-cases, ok, >>=-eq-ok,
  ok_injective, arith,
}
use sentio_portfolio.Common.Assoc.{lookup, string_key, nat_key}
use sentio_portfolio.Pages.{Text}
use sentio_portfolio.Pricing.{price_key, text_key}
use sentio_portfolio.Valuation.{
  Float, Component, Group, Snapshot, Summary, price_token, PriceBasis, quoted_price,
  component_price, derived_price, component_value_usd,
}
use sentio_portfolio.Valuation.Totals.{
  Tally, add_value, count_component, count_priced, value_priced, value_component, value_components,
  close_group, value_group, value_groups, close_snapshot, value_snapshot,
}

abbrev pub is_some : {A : Type 0} → Option A → Bool
is_some none = false
is_some (some a) = true

module _ {F : Type 0} (float : Float F) (prices : List (Text × F)) where
  -- A component is priced if the token that prices it is quoted.
  abbrev pub has_price : Component F → Bool
  has_price c = is_some (lookup (price_key (price_token c)) prices)

  abbrev pub components_of : List (Group F) → List (Component F)
  components_of [] = []
  components_of (g ∷ gs) = g.components ++ components_of gs

  -- The components of a protocol's snapshots.
  abbrev pub components_in : String → List (Snapshot F) → List (Component F)
  components_in id [] = []
  components_in id (s ∷ ss) =
      if string_key.beq id s.protocol_id
      then components_of s.groups ++ components_in id ss
      else components_in id ss

  -- How the counts of a summary grow by components.
  abbrev pub Counts : Summary F → List (Component F) → Summary F → Type 0
  Counts before cs after =
      (after.protocol_id ≡ before.protocol_id)
      × (after.component_count ≡ before.component_count + length cs)
      × (after.priced_components ≡ before.priced_components + count has_price cs)

  Counts-append :
      (a b c : Summary F) (cs ds : List (Component F))
      → Counts a cs b
      → Counts b ds c
      → Counts a (cs ++ ds) c
  Counts-append a b c cs ds h k = (
    k.0 ∙ h.0,
    omega (arith, h.1, k.1, length-append cs ds),
    omega (arith, h.2, k.2, count-append has_price cs ds),
  )

  add_value-Counts :
      (kind : String) (value : F) (t : Tally F) (s : Summary F) (cs : List (Component F))
      → Counts s cs t.summary
      → Counts s cs (add_value float kind value t).summary
  add_value-Counts kind value t s cs h = elim (Bool-cases (string_key.beq kind "debt")) [
    | inl debt ↦ rw debt h
    | inr other ↦ rw other (elim (Bool-cases (string_key.beq kind "reward")) [
      | inl reward ↦ rw reward h
      | inr asset ↦ rw asset h
    ])
  ]

  quoted_price-is_some :
      (basis : Option PriceBasis) (quoted price : Option F)
      → quoted_price float basis quoted ≡ ok price
      → is_some price ≡ is_some quoted
  unfolding quoted_price
  quoted_price-is_some basis none price e = ap is_some (sym (ok_injective e))
  quoted_price-is_some none (some p) price e = ap is_some (sym (ok_injective e))
  quoted_price-is_some (some basis) (some p) price e =
      let (derived, made, same) = >>=-eq-ok (derived_price float basis p) _ e in
      ap is_some (sym (ok_injective same))

  component_price-has_price :
      (c : Component F) (price : Option F)
      → component_price float prices c ≡ ok price
      → is_some price ≡ has_price c
  unfolding component_price
  component_price-has_price c price e = quoted_price-is_some c.price_basis _ price e

  value_priced-Counts :
      (c : Component F) (t : Tally F) (price : Option F) {result : Component F × Tally F}
      → is_some price ≡ has_price c
      → value_priced float c (count_component float t) price ≡ ok result
      → Counts t.summary (c ∷ []) result.1.summary
  unfolding value_priced
  value_priced-Counts c t none h e =
      subst (λ r. Counts t.summary (c ∷ []) r.1.summary) (ok_injective e)
        (refl, refl, rw (sym h) (omega arith))
  value_priced-Counts c t (some price) h e =
      let (value, made, same) = >>=-eq-ok (component_value_usd float c price) _ e in
      subst (λ r. Counts t.summary (c ∷ []) r.1.summary) (ok_injective same)
        (add_value-Counts c.kind value (count_priced float (count_component float t)) t.summary
          (c ∷ []) (refl, refl, rw (sym h) (omega arith)))

  value_component-Counts :
      (c : Component F) (t : Tally F) {result : Component F × Tally F}
      → value_component float prices c t ≡ ok result
      → Counts t.summary (c ∷ []) result.1.summary
  unfolding value_component
  value_component-Counts c t e =
      let (price, found, valued) = >>=-eq-ok (component_price float prices c) _ e in
      value_priced-Counts c t price (component_price-has_price c price found) valued

  value_components-Counts :
      (cs : List (Component F)) (t : Tally F) {result : List (Component F) × Tally F}
      → value_components float prices cs t ≡ ok result
      → Counts t.summary cs result.1.summary
  unfolding value_components
  value_components-Counts [] t e =
      subst (λ r. Counts t.summary [] r.1.summary) (ok_injective e) (refl, omega arith, omega arith)
  value_components-Counts (c ∷ cs) t e =
      let (first, one, more) = >>=-eq-ok (value_component float prices c t) _ e in
      let (rest, others, same) = >>=-eq-ok (value_components float prices cs first.1) _ more in
      subst (λ r. Counts t.summary (c ∷ cs) r.1.summary) (ok_injective same)
        (Counts-append t.summary first.1.summary rest.1.summary (c ∷ []) cs
          (value_component-Counts c t one) (value_components-Counts cs first.1 others))

  close_group-summary :
      (g : Group F) (cs : List (Component F)) (t snapshot : Tally F)
      → (close_group float g cs t snapshot).1.summary ≡ t.summary
  close_group-summary g cs t snapshot = elim (Bool-cases t.priced) [
    | inl priced ↦ rw priced refl
    | inr unpriced ↦ rw unpriced refl
  ]

  value_groups-Counts :
      (gs : List (Group F)) (t : Tally F) {result : List (Group F) × Tally F}
      → value_groups float prices gs t ≡ ok result
      → Counts t.summary (components_of gs) result.1.summary
  unfolding value_groups value_group
  value_groups-Counts [] t e =
      subst (λ r. Counts t.summary [] r.1.summary) (ok_injective e) (refl, omega arith, omega arith)
  value_groups-Counts (g ∷ gs) t e =
      let (first, one, more) = >>=-eq-ok (value_group float prices g t) _ e in
      let (valued, made, closed_group) =
        >>=-eq-ok (value_components float prices g.components _) _ one in
      let (rest, others, same) = >>=-eq-ok (value_groups float prices gs first.1) _ more in
      subst (λ r. Counts t.summary (components_of (g ∷ gs)) r.1.summary) (ok_injective same)
        (Counts-append t.summary first.1.summary rest.1.summary g.components (components_of gs)
          (subst (Counts t.summary g.components)
            (sym (close_group-summary g valued.0 valued.1 t)
              ∙ ap (λ r. r.1.summary) (ok_injective closed_group))
            (value_components-Counts g.components _ made))
          (value_groups-Counts gs first.1 others))

  close_snapshot-Counts :
      (s : Snapshot F) (gs : List (Group F)) (t : Tally F) (before : Summary F)
      (cs : List (Component F))
      → Counts before cs t.summary
      → Counts before cs (close_snapshot float s gs t).1
  close_snapshot-Counts s gs t before cs h = elim (Bool-cases t.priced) [
    | inl priced ↦ rw priced h
    | inr unpriced ↦ rw unpriced h
  ]

  pub value_snapshot-Counts :
      (s : Snapshot F) (summary : Summary F) {result : Snapshot F × Summary F}
      → value_snapshot float prices s summary ≡ ok result
      → Counts summary (components_of s.groups) result.1
  unfolding value_snapshot
  value_snapshot-Counts s summary e =
      let (valued, made, same) = >>=-eq-ok (value_groups float prices s.groups _) _ e in
      subst (λ r. Counts summary (components_of s.groups) r.1) (ok_injective same)
        (close_snapshot-Counts s valued.0 valued.1 summary (components_of s.groups)
          (value_groups-Counts s.groups _ made))
