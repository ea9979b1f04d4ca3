-- ===== src/Provider/Requests.antt =====
-- wallet_provider.go, `configureWalletBalances`: the request to a provider, and all chains after its answer.
use sentio_portfolio.Common.{
  ℕ, Bool, not, List, [], ◌∷◌, ◌++◌, map, Option, none, some, ltb, ◌==◌, length, if◌then◌else◌,
}
use sentio_portfolio.Common.Assoc.{contains, nat_key}
use sentio_portfolio.Common.Sorting.{sort}
use sentio_portfolio.Checkpoint.{BlockRef}
use sentio_portfolio.Engine.{supported_chain_ids}
use sentio_portfolio.Provider.{
  ChainScan, Target, WalletBalanceResult, not_configured, provider_failed, report,
}
use sentio_portfolio.Provider.Answers.{read_chain}

abbrev pub Chains : Type 0
Chains = List (ℕ × ChainScan)

pub record Request : Type 0 where
  pub root_account : ℕ
  pub targets : List Target
  pub pins : List (ℕ × BlockRef)

abbrev pub targets_on : ℕ → List ℕ → List Target
targets_on id accounts = map (λ a. record { chain_id = id; account = a }) accounts

abbrev pub is_supported : ℕ → Bool
is_supported id = contains id supported_chain_ids

abbrev pub all_targets : Chains → List Target
all_targets [] = []
all_targets ((id, c) ∷ rest) =
    if is_supported id then targets_on id c.accounts ++ all_targets rest else all_targets rest

abbrev pub all_pins : Chains → List (ℕ × BlockRef)
all_pins [] = []
all_pins ((id, c) ∷ rest) = if is_supported id then (id, c.block) ∷ all_pins rest else all_pins rest

abbrev pub target_before : Target → Target → Bool
target_before a b =
    if not (a.chain_id == b.chain_id) then ltb a.chain_id b.chain_id else ltb a.account b.account

-- What a request does to the chains: a chain that is not served keeps its state.
abbrev pub each_requested : (ℕ → ChainScan → ChainScan) → Chains → Chains
each_requested f [] = []
each_requested f ((id, c) ∷ rest) =
    (id, if is_supported id then f id c else c) ∷ each_requested f rest

-- The answer of the provider, with `none` for an error.
unfoldable pub read_answer : Option WalletBalanceResult → Chains → Chains
unfolding read_chain
read_answer none chains = each_requested (λ id c. report c provider_failed) chains
read_answer (some result) chains = each_requested (λ id c. read_chain id result c) chains

abbrev pub without_provider : Chains → Chains
without_provider [] = []
without_provider ((id, c) ∷ rest) = (id, report c not_configured) ∷ without_provider rest

unfoldable pub configure_wallet_balances :
    Option (Request → Option WalletBalanceResult) → ℕ → Chains → Chains
unfolding read_answer
configure_wallet_balances none root chains = without_provider chains
configure_wallet_balances (some provider) root chains =
    if length (all_targets chains) == 0
    then chains
    else read_answer
        (provider record {
          root_account = root;
          targets = sort target_before (all_targets chains);
          pins = all_pins chains;
        })
        chains
