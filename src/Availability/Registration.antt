-- ===== src/Availability/Registration.antt =====
-- What a registration that succeeds guarantees of every adapter (adapter.go).
use Prim.Native.String.{String}
use sentio_portfolio.Common.{
  ℕ, ◌≤◌, ◌<◌, ◌≡◌, refl, ◌⊎◌, inl, inr, true, false, none, some, List, [], ◌∷◌, arith, ◌==◌,
  Bool-cases, Option-cases, ok, All, length,
}
use sentio_portfolio.Common.Assoc.{lookup, contains, nat_key, string_key, beq_refl}
use text.Mathlib.Text.{◌==◌ as str_eq}
use text.Mathlib.TextEquality.{eq_iff}
use sentio_portfolio.Availability.{
  Window, Availability, windows_of, any_active, registered_active_at, check_windows, check_chains,
  check_advertised, ProtocolInfo, Registered, Registrations, Table, availability_of, is_registered,
  register_all, check_known, register_adapters,
}
use sentio_portfolio.Availability.Windows.{count_active, count_active-le-one}

check_chains_step :
    (a : Availability) (seen : List ℕ) (chain : ℕ) (chains : List ℕ)
    → check_chains a seen (chain ∷ chains) ≡ ok tt
    → (0 < length (windows_of chain a))
      × (check_windows none (windows_of chain a) ≡ ok tt)
      × (check_chains a (chain ∷ seen) chains ≡ ok tt)
unfolding check_chains
check_chains_step a seen chain chains h = ground arith

check_chains_at :
    (a : Availability) (seen chains : List ℕ) (c : ℕ)
    → check_chains a seen chains ≡ ok tt
    → contains c chains ≡ true
    → (0 < length (windows_of c a)) × (check_windows none (windows_of c a) ≡ ok tt)
check_chains_at a seen [] c h m = cc
check_chains_at a seen (chain ∷ chains) c h m =
    let parts = check_chains_step a seen chain chains h in
    elim (Bool-cases (chain == c)) [
      | inl same ↦ let e : chain ≡ c = ground arith in rw (← e) (parts.0, parts.1)
      | inr other ↦ check_chains_at a (chain ∷ seen) chains c parts.2 (rw other at m)
    ]

check_advertised_at :
    (chains : List ℕ) (a : Availability) (c : ℕ) (ws : List Window)
    → check_advertised chains a ≡ ok tt
    → lookup c a ≡ some ws
    → contains c chains ≡ true
unfolding check_advertised
check_advertised_at chains [] c ws h m = cc
check_advertised_at chains ((chain, vs) ∷ a) c ws h m =
    ground (arith, check_advertised_at chains a c ws)

-- What the checks on one adapter have established.
pub record IsGood (reg : Registered) : Type 0 where
  pub chains_checked : check_chains reg.availability [] reg.info.chains ≡ ok tt
  pub all_advertised : check_advertised reg.info.chains reg.availability ≡ ok tt

abbrev AllGood : Registrations → Type 0
AllGood = All (λ (e : String × Registered). IsGood e.1 × (e.1.info.id ≡ e.0))

AllGood-at :
    (rs : Registrations) (id : String) (reg : Registered)
    → AllGood rs
    → lookup id rs ≡ some reg
    → IsGood reg
AllGood-at [] id reg g h = cc
AllGood-at ((j, r) ∷ rs) id reg g h = elim (Bool-cases (str_eq j id)) [
  | inl same ↦ let h' = rw same at h in let e : r ≡ reg = cc h' in rw (← e) g.0.0
  | inr other ↦ AllGood-at rs id reg g.1 (rw other at h)
]

abbrev pub registered : Table → ProtocolInfo → Registered
registered table info = record { info = info; availability = availability_of info.id table }

register_step :
    (table : Table) (rs : Registrations) (info : ProtocolInfo) (infos : List ProtocolInfo)
    {out : Registrations}
    → register_all table rs (info ∷ infos) ≡ ok out
    → (is_registered info.id rs ≡ false)
      × (check_chains (availability_of info.id table) [] info.chains ≡ ok tt)
      × (check_advertised info.chains (availability_of info.id table) ≡ ok tt)
      × (register_all table ((info.id, registered table info) ∷ rs) infos ≡ ok out)
unfolding register_all
register_step table rs info infos h = ground arith

register_all-AllGood :
    (table : Table) (infos : List ProtocolInfo) (rs : Registrations) {out : Registrations}
    → AllGood rs
    → register_all table rs infos ≡ ok out
    → AllGood out
unfolding register_all
register_all-AllGood table [] rs {out} g h = let e : rs ≡ out = cc in rw (← e) g
register_all-AllGood table (info ∷ infos) rs g h =
    let parts = register_step table rs info infos h in
    register_all-AllGood table infos ((info.id, registered table info) ∷ rs)
      ((record { chains_checked = parts.1; all_advertised = parts.2 }, refl), g) parts.3

register_adapters_parts :
    (infos : List ProtocolInfo) (table : Table) {rs : Registrations}
    → register_adapters infos table ≡ ok rs
    → (register_all table [] infos ≡ ok rs) × (check_known rs table ≡ ok tt)
unfolding register_adapters
register_adapters_parts infos table h = ground arith

no_windows :
    (a : Availability) (chain block : ℕ)
    → lookup chain a ≡ none
    → registered_active_at a chain block ≡ false
unfolding registered_active_at any_active
no_windows a chain block e = ground arith

-- Registration succeeds only if every registered adapter has, on each chain that it advertises, at
-- least one window and at most one active window at every block, and none active on another chain.
pub registered_windows :
    (infos : List ProtocolInfo) (table : Table) (id : String) (chain block : ℕ) {rs : Registrations}
    {reg : Registered}
    → register_adapters infos table ≡ ok rs
    → lookup id rs ≡ some reg
    → ((contains chain reg.info.chains ≡ true)
        × (0 < length (windows_of chain reg.availability))
        × (count_active (windows_of chain reg.availability) block ≤ 1))
      ⊎ ((contains chain reg.info.chains ≡ false)
          × (registered_active_at reg.availability chain block ≡ false))
registered_windows infos table id chain block {rs} {reg} h at_id =
    let all = register_all-AllGood table infos [] tt (register_adapters_parts infos table h).0 in
    let good = AllGood-at rs id reg all at_id in
    elim (Bool-cases (contains chain reg.info.chains)) [
      | inl m ↦
          let parts =
            check_chains_at reg.availability [] reg.info.chains chain good.chains_checked m in
          inl (m, parts.0, count_active-le-one none _ block parts.1)
      | inr m ↦ elim (Option-cases (lookup chain reg.availability)) [
        | inl e ↦ inr (m, no_windows reg.availability chain block e)
        | inr (ws, e) ↦
            let n =
              check_advertised_at reg.info.chains reg.availability chain ws good.all_advertised e in
            cc (n, m)
      ]
    ]

is_registered-none :
    (id : String) (rs : Registrations) → is_registered id rs ≡ false → lookup id rs ≡ none
is_registered-none id rs h = ground arith

-- A registration is never replaced by a later one.
register_all-keeps :
    (table : Table) (infos : List ProtocolInfo) (rs : Registrations) (id : String)
    (reg : Registered) {out : Registrations}
    → register_all table rs infos ≡ ok out
    → lookup id rs ≡ some reg
    → lookup id out ≡ some reg
unfolding register_all
register_all-keeps table [] rs id reg {out} h e = let same : rs ≡ out = cc in rw (← same) e
register_all-keeps table (info ∷ infos) rs id reg h e =
    let parts = register_step table rs info infos h in
    register_all-keeps table infos ((info.id, registered table info) ∷ rs) id reg parts.3
      (ground (arith, eq_iff info.id id, is_registered-none info.id rs parts.0))

register_all-lookup :
    (table : Table) (infos : List ProtocolInfo) (rs : Registrations) {out : Registrations}
    → register_all table rs infos ≡ ok out
    → All (λ info. lookup info.id out ≡ some (registered table info)) infos
register_all-lookup table [] rs h = tt
register_all-lookup table (info ∷ infos) rs h =
    let parts = register_step table rs info infos h in
    (
      register_all-keeps table infos ((info.id, registered table info) ∷ rs) info.id
          (registered table info) parts.3 (rw (beq_refl info.id)),
      register_all-lookup table infos ((info.id, registered table info) ∷ rs) parts.3,
    )

check_known-All :
    (rs : Registrations) (table : Table)
    → check_known rs table ≡ ok tt
    → All (λ (e : String × Availability). is_registered e.0 rs ≡ true) table
unfolding check_known
check_known-All rs [] h = tt
check_known-All rs ((id, a) ∷ table) h = (ground arith, check_known-All rs table (ground arith))

-- Registration succeeds only if every adapter is found under its own ID, with the table's windows
-- for that ID, and every ID of the table belongs to an adapter.
pub register_adapters-lookup :
    (infos : List ProtocolInfo) (table : Table) {rs : Registrations}
    → register_adapters infos table ≡ ok rs
    → All (λ info. lookup info.id rs ≡ some (registered table info)) infos
      × All (λ (e : String × Availability). is_registered e.0 rs ≡ true) table
register_adapters-lookup infos table {rs} h =
    let parts = register_adapters_parts infos table h in
    (register_all-lookup table infos [] parts.0, check_known-All rs table parts.1)
