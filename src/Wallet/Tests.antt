-- ===== src/Wallet/Tests.antt =====
-- Runs of the code of wallet.go, and its theorem at a concrete scan.
use Prim.Native.String.{String}
use sentio_portfolio.Common.{filter, ℕ, All, ◌≡◌, refl, false, none, some, List, [], ◌∷◌, ◌++◌}
use sentio_portfolio.Wallet.{
  Snapshot, Group, Source, holding_in, balance_of, contains_text, held_contracts,
  suppress_duplicate_holdings,
}
use sentio_portfolio.Wallet.Held.{protocol_snapshots}
use sentio_portfolio.Wallet.Counted.{counted_elsewhere}
use sentio_portfolio.Wallet.Suppress.{is_new, wallet_entries, suppress_duplicate_holdings_lem}

abbrev source : ℕ → Source
source contract = record {
  contract = contract;
  method = b'x' ∷ balance_of ++ (b's' ∷ []);
  holds = none;
}

abbrev token_group : ℕ → Group
token_group address = record {
  attributed_account = none;
  holding = some "token";
  components = record { token_address = address; source = source 0 } ∷ [];
}

abbrev deposit : ℕ → Group
deposit contract = record {
  attributed_account = none;
  holding = none;
  components = record { token_address = 1; source = source contract } ∷ [];
}

abbrev snapshot : String → List Group → Snapshot
snapshot protocol groups = record {
  protocol_id = protocol;
  chain_id = 1;
  account = 9;
  groups = groups;
}

abbrev scan : List Snapshot
scan =
    snapshot "aave" (deposit 77 ∷ [])
    ∷ snapshot "wallet" (token_group 77 ∷ token_group 78 ∷ [])
    ∷ snapshot "wallet" (token_group 77 ∷ [])
    ∷ []

counted_once :
    suppress_duplicate_holdings scan
    ≡ snapshot "aave" (deposit 77 ∷ []) ∷ snapshot "wallet" (token_group 78 ∷ []) ∷ []
unfolding suppress_duplicate_holdings holding_in
counted_once = refl

declared : held_contracts (record { contract = 5; method = balance_of; holds = some [] }) ≡ []
unfolding held_contracts
declared = refl

not_found : contains_text balance_of (b'b' ∷ b'a' ∷ b'l' ∷ []) ≡ false
unfolding contains_text
not_found = refl

suppress_duplicate_holdings_lem_example :
    (protocol_snapshots (suppress_duplicate_holdings scan) ≡ protocol_snapshots scan)
    × (wallet_entries (suppress_duplicate_holdings scan)
        ≡ filter (is_new scan) (wallet_entries scan))
    × All
        (λ e. counted_elsewhere (suppress_duplicate_holdings scan) e ≡ false)
        (wallet_entries (suppress_duplicate_holdings scan))
    × (suppress_duplicate_holdings (suppress_duplicate_holdings scan)
        ≡ suppress_duplicate_holdings scan)
suppress_duplicate_holdings_lem_example = suppress_duplicate_holdings_lem scan
