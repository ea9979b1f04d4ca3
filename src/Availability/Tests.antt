-- ===== src/Availability/Tests.antt =====
-- Runs of the code of adapter.go over the table of protocol_availability.go, and its theorems at
-- concrete arguments.
use sentio_portfolio.Common.{
  ◌≤◌, ◌<◌, ◌≡◌, ◌⊎◌, refl, true, false, none, List, [], ◌∷◌, arith, ok, err, panic, length,
}
use sentio_portfolio.Common.Assoc.{contains, nat_key, string_key}
use sentio_portfolio.Availability.{
  Window, ProtocolInfo, Registrations, Table, between, availability_of, available_from,
  registered_active_at, register_adapters, check_windows, overlap, duplicate_protocol,
  unknown_protocol,
}
use sentio_portfolio.Availability.Table.{protocol_availability, polygon, since}
use sentio_portfolio.Availability.Windows.{count_active}
use sentio_portfolio.Availability.Registration.{registered_windows}
use sentio_portfolio.Availability.Lifetime.{protocol_availability-stays}

-- A migration with a gap.
abbrev migration : List Window
migration = between 100 200 ∷ between 300 0 ∷ []

abbrev old : ProtocolInfo
old = record { id = "old"; name = "Old"; chains = 1 ∷ 56 ∷ [] }

abbrev fresh : ProtocolInfo
fresh = record { id = "new"; name = "New"; chains = 1 ∷ [] }

abbrev table : Table
table = ("new", (1, since 7) ∷ []) ∷ ("old", (56, since 9) ∷ (1, migration) ∷ []) ∷ []

abbrev registrations : Registrations
registrations =
    ("new", record { info = fresh; availability = (1, since 7) ∷ [] })
    ∷ ("old", record { info = old; availability = (56, since 9) ∷ (1, migration) ∷ [] })
    ∷ []

registers : register_adapters (old ∷ fresh ∷ []) table ≡ ok registrations
unfolding register_adapters
registers = refl

registers_twice : register_adapters (old ∷ old ∷ []) table ≡ err duplicate_protocol
unfolding register_adapters
registers_twice = refl

unknown : register_adapters (old ∷ []) table ≡ err unknown_protocol
unfolding register_adapters
unknown = refl

overlapping : check_windows none (between 100 200 ∷ between 200 0 ∷ []) ≡ err overlap
unfolding check_windows
overlapping = refl

ambiguous : available_from 0 ≡ panic
unfolding available_from
ambiguous = refl

registered_windows_example :
    ((contains 1 old.chains ≡ true) × (0 < length migration) × (count_active migration 150 ≤ 1))
    ⊎ ((contains 1 old.chains ≡ false)
        × (registered_active_at ((56, since 9) ∷ (1, migration) ∷ []) 1 150 ≡ false))
registered_windows_example = registered_windows (old ∷ fresh ∷ []) table "old" 1 150 registers refl

protocol_availability-stays_example :
    registered_active_at (availability_of "stader" protocol_availability) polygon 30_000_000 ≡ true
unfolding registered_active_at
protocol_availability-stays_example =
    protocol_availability-stays "stader" polygon 27_403_468 30_000_000 (omega arith) refl
