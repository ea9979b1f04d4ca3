-- ===== src/Valuation/Values.antt =====
-- valuation.go, `applyValuations`: what the loops write, against the values that are to be there.
use sentio_portfolio.Common.{
  ◌≡◌, refl, sym, ap, ◌∙◌, subst, inl, inr, List, [], ◌∷◌, some, Each, if◌then◌else◌, Bool-cases,
  ok, ◌||◌, >>=-eq-ok, ok_injective,
}
use sentio_portfolio.Common.Assoc.{lookup, string_key}
use sentio_portfolio.Pages.{Text}
use sentio_portfolio.Valuation.{Float, Component, Group, Snapshot, Summary, apply_floor_zero}
use sentio_portfolio.Valuation.Counts.{is_some}
use sentio_portfolio.Valuation.Net.{
  or_assoc, or_true, or_false, ComponentValued, GroupValued, SnapshotValued, value_of, net_value,
  any_value, group_value, net_groups, any_group_value, value_component-ComponentValued,
}
use sentio_portfolio.Valuation.Totals.{
  Tally, States, Protocol, value_component, value_components, close_group, value_group,
  value_groups, close_snapshot, value_snapshot, state_of, value_snapshots, apply_valuations,
}

module _ {F : Type 0} (float : Float F) (prices : List (Text × F)) where
  -- The components, the total and whether there is a price, after the components of a group.
  abbrev ComponentsValued : Tally F → List (Component F) → List (Component F) × Tally F → Type 0
  ComponentsValued t cs result =
      Each (ComponentValued float prices) cs result.0
      × (result.1.total ≡ net_value float prices t.total cs)
      × (result.1.priced ≡ (t.priced || any_value float prices cs))

  -- After a group.
  abbrev GroupAdds : Tally F → Group F → Tally F → Type 0
  GroupAdds t g t' =
      (t'.total ≡ (
        if any_value float prices g.components
        then float.plus t.total (group_value float prices g)
        else t.total))
      × (t'.priced ≡ (t.priced || any_value float prices g.components))

  abbrev GroupsValued : Tally F → List (Group F) → List (Group F) × Tally F → Type 0
  GroupsValued t gs result =
      Each (GroupValued float prices) gs result.0
      × (result.1.total ≡ net_groups float prices t.total gs)
      × (result.1.priced ≡ (t.priced || any_group_value float prices gs))

  value_components-Each :
      (cs : List (Component F)) (t : Tally F) {result : List (Component F) × Tally F}
      → value_components float prices cs t ≡ ok result
      → ComponentsValued t cs result
  unfolding value_components
  value_components-Each [] t e =
      subst (ComponentsValued t []) (ok_injective e) (tt, refl, or_false t.priced)
  value_components-Each (c ∷ cs) t e =
      let (first, one, more) = >>=-eq-ok (value_component float prices c t) _ e in
      let (rest, others, same) = >>=-eq-ok (value_components float prices cs first.1) _ more in
      let (valued, adds) = value_component-ComponentValued float prices c t one in
      let (all, total, priced) = value_components-Each cs first.1 others in
      subst (ComponentsValued t (c ∷ cs)) (ok_injective same) (
        (valued, all),
        total ∙ ap (λ x. net_value float prices x cs) adds.0,
        priced
            ∙ ap (λ b. b || any_value float prices cs) adds.1
            ∙ or_assoc t.priced (is_some (value_of float prices c)) (any_value float prices cs),
      )

  close_group-GroupValued :
      (g : Group F) (cs : List (Component F)) (t snapshot : Tally F)
      → Each (ComponentValued float prices) g.components cs
      → t.total ≡ net_value float prices float.nought g.components
      → t.priced ≡ any_value float prices g.components
      → GroupValued float prices g (close_group float g cs t snapshot).0
        × GroupAdds snapshot g (close_group float g cs t snapshot).1
  close_group-GroupValued g cs t snapshot h total any = elim (Bool-cases t.priced) [
    | inl priced ↦
        rw (priced, sym any ∙ priced)
          (
            (refl, ap (λ x. some (apply_floor_zero float x g.net_value_policy)) total, h),
            (
              ap (λ x. float.plus snapshot.total (apply_floor_zero float x g.net_value_policy))
                  total,
              or_true snapshot.priced,
            ),
          )
    | inr unpriced ↦
        rw (unpriced, sym any ∙ unpriced) ((refl, refl, h), (refl, or_false snapshot.priced))
  ]

  value_groups-Each :
      (gs : List (Group F)) (t : Tally F) {result : List (Group F) × Tally F}
      → value_groups float prices gs t ≡ ok result
      → GroupsValued t gs result
  unfolding value_groups value_group
  value_groups-Each [] t e =
      subst (GroupsValued t []) (ok_injective e) (tt, refl, or_false t.priced)
  value_groups-Each (g ∷ gs) t e =
      let (first, one, more) = >>=-eq-ok (value_group float prices g t) _ e in
      let (made, is_made, closed) =
        >>=-eq-ok (value_components float prices g.components _) _ one in
      let (rest, others, same) = >>=-eq-ok (value_groups float prices gs first.1) _ more in
      let (each, sum, any) = value_components-Each g.components _ is_made in
      let (valued, adds) =
        subst (λ r. GroupValued float prices g r.0 × GroupAdds t g r.1) (ok_injective closed)
          (close_group-GroupValued g made.0 made.1 t each sum any) in
      let (all, total, priced) = value_groups-Each gs first.1 others in
      subst (GroupsValued t (g ∷ gs)) (ok_injective same) (
        (valued, all),
        total ∙ ap (λ x. net_groups float prices x gs) adds.0,
        priced
            ∙ ap (λ b. b || any_group_value float prices gs) adds.1
            ∙ or_assoc t.priced (any_value float prices g.components)
                (any_group_value float prices gs),
      )

  close_snapshot-SnapshotValued :
      (s : Snapshot F) (gs : List (Group F)) (t : Tally F)
      → Each (GroupValued float prices) s.groups gs
      → t.total ≡ net_groups float prices float.nought s.groups
      → t.priced ≡ any_group_value float prices s.groups
      → SnapshotValued float prices s (close_snapshot float s gs t).0
  close_snapshot-SnapshotValued s gs t h total any = elim (Bool-cases t.priced) [
    | inl priced ↦
        rw (priced, sym any ∙ priced)
          (
            refl,
            refl,
            refl,
            refl,
            ap (λ x. some (apply_floor_zero float x s.net_value_policy)) total,
            h,
          )
    | inr unpriced ↦ rw (unpriced, sym any ∙ unpriced) (refl, refl, refl, refl, refl, h)
  ]

  value_snapshots-Each :
      (ss : List (Snapshot F)) (states : States F) {result : List (Snapshot F) × States F}
      → value_snapshots float prices ss states ≡ ok result
      → Each (SnapshotValued float prices) ss result.0
  unfolding value_snapshots value_snapshot
  value_snapshots-Each [] states e =
      subst (λ r. Each (SnapshotValued float prices) [] r.0) (ok_injective e) tt
  value_snapshots-Each (s ∷ ss) states e =
      let state = state_of float s (lookup s.protocol_id states) in
      let (first, one, more) = >>=-eq-ok (value_snapshot float prices s state.summary) _ e in
      let (made, is_made, closed) = >>=-eq-ok (value_groups float prices s.groups _) _ one in
      let (rest, others, same) = >>=-eq-ok (value_snapshots float prices ss _) _ more in
      let (each, sum, any) = value_groups-Each s.groups _ is_made in
      subst (λ r. Each (SnapshotValued float prices) (s ∷ ss) r.0) (ok_injective same)
        (
          subst (λ r. SnapshotValued float prices s r.0) (ok_injective closed)
              (close_snapshot-SnapshotValued s made.0 made.1 each sum any),
          value_snapshots-Each ss _ others,
        )

  -- Where the valuation succeeds, snapshots, groups and components keep their number, their order and their
  -- parts but for prices and values. A component whose price token is not quoted is unchanged, and each other
  -- has its price and its value. A group keeps its value if none of its components has one; another has the sum of its
  -- components' values, debts subtracted, under its policy. A snapshot has the sum of the values of
  -- its groups that have one, under its own policy, and keeps its value where no group has one.
  pub apply_valuations-SnapshotValued :
      (snapshots : List (Snapshot F)) (protocols : List Protocol) (valued : List (Snapshot F))
      (told : List (Summary F))
      → apply_valuations float snapshots prices protocols ≡ ok (valued, told)
      → Each (SnapshotValued float prices) snapshots valued
  unfolding apply_valuations
  apply_valuations-SnapshotValued snapshots protocols valued told e =
      let (result, made, same) = >>=-eq-ok (value_snapshots float prices snapshots []) _ e in
      subst (λ r. Each (SnapshotValued float prices) snapshots r.0) (ok_injective same)
        (value_snapshots-Each snapshots [] made)
