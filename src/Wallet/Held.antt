-- ===== src/Wallet/Held.antt =====
-- The removal leaves the protocols' snapshots, and so what they hold (wallet.go).
use sentio_portfolio.Common.{
  ◌≡◌, refl, ap, sym, ◌∙◌, true, List, [], ◌∷◌, ◌==◌, length, if◌then◌else◌, Bool-cases, inl, inr,
}
use sentio_portfolio.Wallet.{
  Snapshot, Group, Holding, is_wallet, wallet_held_contracts, suppress, with_groups, kept_groups,
}

-- The snapshots of the protocols other than the wallet.
abbrev pub protocol_snapshots : List Snapshot → List Snapshot
protocol_snapshots [] = []
protocol_snapshots (s ∷ ss) =
    if is_wallet s then protocol_snapshots ss else s ∷ protocol_snapshots ss

with_groups-protocols :
    (s : Snapshot) (gs : List Group) (rest : List Snapshot)
    → is_wallet s ≡ true
    → protocol_snapshots (with_groups s gs rest) ≡ protocol_snapshots rest
with_groups-protocols s [] rest w = refl
with_groups-protocols s (g ∷ gs) rest w = rw w refl

pub suppress-protocols :
    (held : List Holding) (ss : List Snapshot)
    → protocol_snapshots (suppress held ss) ≡ protocol_snapshots ss
unfolding suppress
suppress-protocols held [] = refl
suppress-protocols held (s ∷ ss) = elim (Bool-cases (is_wallet s)) [
  | inr other ↦ rw (other, other, suppress-protocols held ss) refl
  | inl w ↦ elim (Bool-cases (length held == 0)) [
    | inl none_held ↦ rw (w, none_held, w) (suppress-protocols held ss)
    | inr some_held ↦
        rw
          (w, some_held, with_groups-protocols s (kept_groups held s s.groups) (suppress held ss) w)
          (suppress-protocols held ss)
  ]
]

held_of_protocols :
    (ss : List Snapshot) → wallet_held_contracts (protocol_snapshots ss) ≡ wallet_held_contracts ss
unfolding wallet_held_contracts
held_of_protocols [] = refl
held_of_protocols (s ∷ ss) = elim (Bool-cases (is_wallet s)) [
  | inl w ↦ rw w (held_of_protocols ss)
  | inr other ↦ rw (other, other, held_of_protocols ss) refl
]

pub suppress-held :
    (held : List Holding) (ss : List Snapshot)
    → wallet_held_contracts (suppress held ss) ≡ wallet_held_contracts ss
suppress-held held ss =
    sym (held_of_protocols (suppress held ss))
    ∙ ap wallet_held_contracts (suppress-protocols held ss)
    ∙ held_of_protocols ss
