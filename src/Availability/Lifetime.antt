-- ===== src/Availability/Lifetime.antt =====
-- The protocols' windows in protocol_availability.go.
use Prim.Native.String.{String}
use sentio_portfolio.Common.{
  ℕ, ◌≤◌, ◌≡◌, inl, inr, true, none, some, List, [], ◌∷◌, arith, All, Option-cases, Bool-cases,
  Option,
}
use sentio_portfolio.Common.Assoc.{lookup, Key, nat_key, string_key}
use sentio_portfolio.Availability.{
  Window, Availability, Table, available_from_genesis, availability_of, registered_active_at,
}
use sentio_portfolio.Availability.Table.{protocol_availability}
use sentio_portfolio.Availability.Windows.{AllOpen, any_active-stays}

module _ {ℓ κ μ} {K : Type ℓ} {V : Type κ} ⦃k : Key K⦄ (P : V → Type μ) where
  lookup-All :
      (a : K) (m : List (K × V)) (v : V) → All (λ (e : K × V). P e.1) m → lookup a m ≡ some v → P v
  lookup-All a [] v h e = absurd (none_ne e)
    where
      none_ne : {w : V} → ◌≡◌ {A = Option V} none (some w) → ⊥
      none_ne e = cc
  lookup-All a ((b, w) ∷ m) v h e = elim (Bool-cases (k.beq b a)) [
    | inl same ↦ let e' = rw same at e in let q : w ≡ v = cc e' in rw (← q) h.0
    | inr other ↦ lookup-All a m v h.1 (rw other at e)
  ]

abbrev OpenChains : Availability → Type 0
OpenChains = All (λ (e : ℕ × List Window). AllOpen e.1)

table-open : All (λ (e : String × Availability). OpenChains e.1) protocol_availability
unfolding available_from_genesis
table-open = omega arith

active-stays :
    (a : Availability) (chain b b' : ℕ)
    → OpenChains a
    → b ≤ b'
    → registered_active_at a chain b ≡ true
    → registered_active_at a chain b' ≡ true
unfolding registered_active_at
active-stays a chain b b' o le h = elim (Option-cases (lookup chain a)) [
  | inl e ↦ ground arith
  | inr (ws, e) ↦ ground (arith, any_active-stays ws b b' (lookup-All AllOpen chain a ws o e) le)
]

table-stays :
    (t : Table) (id : String) (chain b b' : ℕ)
    → All (λ (e : String × Availability). OpenChains e.1) t
    → b ≤ b'
    → registered_active_at (availability_of id t) chain b ≡ true
    → registered_active_at (availability_of id t) chain b' ≡ true
table-stays t id chain b b' o le h = elim (Option-cases (lookup id t)) [
  | inl e ↦ ground (arith, active-stays [] chain b b' tt le)
  | inr (a, e) ↦ ground (arith, active-stays a chain b b' (lookup-All OpenChains id t a o e) le)
]

-- By the table no protocol ever stops being available on a chain: once active, it is active at every
-- later block.
pub protocol_availability-stays :
    (id : String) (chain b b' : ℕ)
    → b ≤ b'
    → registered_active_at (availability_of id protocol_availability) chain b ≡ true
    → registered_active_at (availability_of id protocol_availability) chain b' ≡ true
protocol_availability-stays id chain b b' =
    table-stays protocol_availability id chain b b' table-open
