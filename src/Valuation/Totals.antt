-- ===== src/Valuation/Totals.antt =====
-- valuation.go, `applyValuations`: the loops over the snapshots, their groups and their components. On an error
-- the values that were written until then are left out.
use Prim.Native.String.{String}
use sentio_portfolio.Common.{
  ℕ, ◌+◌, Bool, true, false, List, [], ◌∷◌, ◌++◌, Option, none, some, if◌then◌else◌, Outcome, ok,
  ◌>>=◌,
}
use sentio_portfolio.Common.Assoc.{lookup, insert, contains, string_key, nat_key}
use sentio_portfolio.Engine.{supported_chain_ids}
use sentio_portfolio.Pages.{Text}
use sentio_portfolio.Valuation.{
  Float, Component, Group, Snapshot, Summary, Error, component_price, component_value_usd,
  apply_floor_zero,
}

-- A protocol's summary so far with the total of what is being summed, and whether a price was found for it.
pub record Tally (F : Type 0) : Type 0 where
  pub summary : Summary F
  pub total : F
  pub priced : Bool

-- `summaryState`; the chains are a list.
pub record State (F : Type 0) : Type 0 where
  pub summary : Summary F
  pub chains : List ℕ

pub record Protocol : Type 0 where
  pub id : String
  pub name : String

abbrev pub States : Type 0 → Type 0
States F = List (String × State F)

module _ {F : Type 0} (float : Float F) where
  abbrev pub add_value : String → F → Tally F → Tally F
  add_value kind value t =
      if string_key.beq kind "debt"
      then record t {
        summary = record t.summary { debt_usd = float.plus t.summary.debt_usd value };
        total = float.minus t.total value;
      }
      else if string_key.beq kind "reward"
      then record t {
        summary = record t.summary { reward_usd = float.plus t.summary.reward_usd value };
        total = float.plus t.total value;
      }
      else record t {
        summary = record t.summary { asset_usd = float.plus t.summary.asset_usd value };
        total = float.plus t.total value;
      }

  abbrev pub count_component : Tally F → Tally F
  count_component t = record t {
    summary = record t.summary { component_count = t.summary.component_count + 1 };
  }

  abbrev pub count_priced : Tally F → Tally F
  count_priced t = record t {
    summary = record t.summary { priced_components = t.summary.priced_components + 1 };
    priced = true;
  }

  unfoldable pub value_priced :
      Component F → Tally F → Option F → Outcome Error (Component F × Tally F)
  unfolding component_value_usd
  value_priced c t none = ok (c, t)
  value_priced c t (some price) = do
    value ← component_value_usd float c price
    ok (
      record c { price_usd = some price; value_usd = some value },
      add_value c.kind value (count_priced t),
    )

  unfoldable pub value_component :
      List (Text × F) → Component F → Tally F → Outcome Error (Component F × Tally F)
  unfolding component_price value_priced
  value_component prices c t = do
    price ← component_price float prices c
    value_priced c (count_component t) price

  unfoldable pub value_components :
      List (Text × F) → List (Component F) → Tally F → Outcome Error (List (Component F) × Tally F)
  unfolding value_component
  value_components prices [] t = ok ([], t)
  value_components prices (c ∷ cs) t = do
    (c', t') ← value_component prices c t
    (cs', t'') ← value_components prices cs t'
    ok (c' ∷ cs', t'')

  -- A group that has no price adds nothing.
  abbrev pub close_group : Group F → List (Component F) → Tally F → Tally F → Group F × Tally F
  close_group g cs t snapshot =
      let total = apply_floor_zero float t.total g.net_value_policy in
      if t.priced
      then (
        record g { components = cs; value_usd = some total },
        record { summary = t.summary; total = float.plus snapshot.total total; priced = true },
      )
      else (record g { components = cs }, record snapshot { summary = t.summary })

  unfoldable pub value_group :
      List (Text × F) → Group F → Tally F → Outcome Error (Group F × Tally F)
  unfolding value_components apply_floor_zero
  value_group prices g snapshot = do
    (cs, t) ←
        value_components prices g.components
          (record { summary = snapshot.summary; total = float.nought; priced = false })
    ok (close_group g cs t snapshot)

  unfoldable pub value_groups :
      List (Text × F) → List (Group F) → Tally F → Outcome Error (List (Group F) × Tally F)
  unfolding value_group
  value_groups prices [] t = ok ([], t)
  value_groups prices (g ∷ gs) t = do
    (g', t') ← value_group prices g t
    (gs', t'') ← value_groups prices gs t'
    ok (g' ∷ gs', t'')

  abbrev pub close_snapshot : Snapshot F → List (Group F) → Tally F → Snapshot F × Summary F
  close_snapshot s gs t =
      let total = apply_floor_zero float t.total s.net_value_policy in
      if t.priced
      then (
        record s { groups = gs; value_usd = some total },
        record t.summary { total_usd = float.plus t.summary.total_usd total },
      )
      else (record s { groups = gs }, t.summary)

  unfoldable pub value_snapshot :
      List (Text × F) → Snapshot F → Summary F → Outcome Error (Snapshot F × Summary F)
  unfolding value_groups apply_floor_zero
  value_snapshot prices s summary = do
    (gs, t) ←
        value_groups prices s.groups
          (record { summary = summary; total = float.nought; priced = false })
    ok (close_snapshot s gs t)

  abbrev pub new_state : Snapshot F → State F
  new_state s = record {
    summary = record {
      protocol_id = s.protocol_id;
      protocol_name = s.protocol_name;
      total_usd = float.nought;
      asset_usd = float.nought;
      debt_usd = float.nought;
      reward_usd = float.nought;
      priced_components = 0;
      component_count = 0;
      chain_ids = [];
    };
    chains = [];
  }

  abbrev pub state_of : Snapshot F → Option (State F) → State F
  state_of s none = new_state s
  state_of s (some state) = state

  unfoldable pub value_snapshots :
      List (Text × F) → List (Snapshot F) → States F → Outcome Error (List (Snapshot F) × States F)
  unfolding value_snapshot
  value_snapshots prices [] states = ok ([], states)
  value_snapshots prices (s ∷ ss) states = do
    let state = state_of s (lookup s.protocol_id states)
    (s', summary) ← value_snapshot prices s state.summary
    (ss', states') ← value_snapshots prices ss (
        insert s.protocol_id (record { summary = summary; chains = s.chain_id ∷ state.chains })
          states)
    ok (s' ∷ ss', states')

  -- The served chains of a protocol, in their order.
  abbrev pub chains_in : List ℕ → List ℕ → List ℕ
  chains_in chains [] = []
  chains_in chains (id ∷ rest) =
      if contains id chains then id ∷ chains_in chains rest else chains_in chains rest

  abbrev pub closed : State F → State F
  closed state = record {
    summary = record state.summary {
      chain_ids = state.summary.chain_ids ++ chains_in state.chains supported_chain_ids;
    };
    chains = state.chains;
  }

  unfoldable pub summaries : List Protocol → States F → List (Summary F)
  summaries [] states = []
  summaries (p ∷ ps) states = elim (lookup p.id states) [
    | none ↦ summaries ps states
    | some state ↦ (closed state).summary ∷ summaries ps (insert p.id (closed state) states)
  ]

  unfoldable pub apply_valuations :
      List (Snapshot F)
      → List (Text × F)
      → List Protocol
      → Outcome Error (List (Snapshot F) × List (Summary F))
  unfolding value_snapshots summaries
  apply_valuations snapshots prices protocols = do
    (valued, states) ← value_snapshots prices snapshots []
    ok (valued, summaries protocols states)
