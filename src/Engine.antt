-- ===== src/Engine.antt =====
-- engine.go: the configuration of an engine, and what a scan's options include. The adapters are those that
-- the engine was made with, by their information.
mod Tests
use Prim.Native.String.{String}
use sentio_portfolio.Common.{
  ℕ, ◌+◌, Bool, true, false, not, ◌&&◌, ◌||◌, List, [], ◌∷◌, ◌++◌, map, Option, none, some, ltb,
  ◌==◌, length, if◌then◌else◌, Outcome, ok, err, panic, ◌>>=◌,
}
use sentio_portfolio.Common.Int.{ℤ, pos, leb_ℤ, pos_part}
use sentio_portfolio.Common.Assoc.{lookup, insert, contains, nat_key, string_key, Key}
use sentio_portfolio.Checkpoint.{BlockRef}
use sentio_portfolio.Availability.{
  ProtocolInfo, Availability, Registered, Registrations, registered_active_at,
}
use sentio_portfolio.Accounts.{Account}
use sentio_portfolio.Wallet.{Group, Snapshot}

abbrev pub supported_chain_ids : List ℕ
supported_chain_ids = 1 ∷ 56 ∷ 8453 ∷ 42161 ∷ 137 ∷ 143 ∷ 9745 ∷ 43114 ∷ 10 ∷ 999 ∷ 4663 ∷ []

abbrev pub default_scan_workers : ℕ
default_scan_workers = 3

-- `ScanOptions`, its filters; an empty filter admits everything.
pub record Options : Type 0 where
  pub protocol_ids : List String
  pub chain_ids : List ℕ

unfoldable pub includes_protocol : Options → String → Bool
includes_protocol o id = (length o.protocol_ids == 0) || contains id o.protocol_ids

unfoldable pub includes_chain : Options → ℕ → Bool
includes_chain o chain = (length o.chain_ids == 0) || contains chain o.chain_ids

pub record Engine : Type 0 where
  pub adapters : List ProtocolInfo
  pub registrations : Registrations
  pub disabled_chains : List ℕ
  pub scan_workers : ℤ

unfoldable pub workers : Engine → ℕ
workers e = if leb_ℤ e.scan_workers (pos 0) then default_scan_workers else pos_part e.scan_workers

abbrev pub chain_disabled : Engine → ℕ → Bool
chain_disabled e chain = contains chain e.disabled_chains

pub enabled_chains : Engine → List ℕ → List ℕ
enabled_chains e [] = []
enabled_chains e (c ∷ cs) =
    if chain_disabled e c then enabled_chains e cs else c ∷ enabled_chains e cs

-- `Engine.Chains`
pub chains : Engine → List ℕ
unfolding enabled_chains
chains e = enabled_chains e supported_chain_ids

-- `Engine.Protocols`, a pass of its loop.
pub protocol_of : Engine → ProtocolInfo → Option ProtocolInfo
unfolding enabled_chains
protocol_of e info =
    if length e.disabled_chains == 0
    then some info
    else let left = enabled_chains e info.chains in
      if length left == 0 then none else some (record info { chains = left })

abbrev pub add_some : {A : Type 0} → Option A → List A → List A
add_some none xs = xs
add_some (some x) xs = x ∷ xs

pub protocols : Engine → List ProtocolInfo → List ProtocolInfo
unfolding protocol_of
protocols e [] = []
protocols e (info ∷ infos) = add_some (protocol_of e info) (protocols e infos)
