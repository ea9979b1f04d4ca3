-- ===== src/Engine/Tests.antt =====
-- The chains and protocols of a small engine (engine.go).
use sentio_portfolio.Common.{◌≡◌, refl, [], ◌∷◌}
use sentio_portfolio.Common.Int.{pos}
use sentio_portfolio.Availability.{ProtocolInfo}
use sentio_portfolio.Engine.{Engine, chains, enabled_chains, protocols, protocol_of}

abbrev lending : ProtocolInfo
lending = record { id = "aave-v3"; name = "Aave V3"; chains = 1 ∷ 56 ∷ 10 ∷ [] }

abbrev holdings : ProtocolInfo
holdings = record { id = "wallet"; name = "Wallet"; chains = 1 ∷ 56 ∷ [] }

abbrev engine : Engine
engine = record {
  adapters = lending ∷ holdings ∷ [];
  registrations = [];
  disabled_chains = 56 ∷ 10 ∷ 4663 ∷ [];
  scan_workers = pos 0;
}

small_chains : chains engine ≡ 1 ∷ 8453 ∷ 42161 ∷ 137 ∷ 143 ∷ 9745 ∷ 43114 ∷ 999 ∷ []
unfolding chains enabled_chains
small_chains = refl

small_protocols :
    protocols engine engine.adapters
    ≡ record lending { chains = 1 ∷ [] } ∷ record holdings { chains = 1 ∷ [] } ∷ []
unfolding protocols protocol_of enabled_chains
small_protocols = refl
