-- ===== src/Provider/Tests.antt =====
-- Runs of wallet_provider.go, and its theorems at concrete inputs.
use sentio_portfolio.Common.{
  ℕ, ◌+◌, ◌≤◌, ◌≡◌, ◌≢◌, ◌↔◌, refl, Bool, true, false, List, [], ◌∷◌, Option, none, some, All, Each,
  arith,
}
use sentio_portfolio.Common.Int.{◌-ℤ◌}
use sentio_portfolio.Checkpoint.{BlockRef}
use sentio_portfolio.Provider.{
  WalletBalanceAccount, WalletBalanceChain, WalletBalanceResult, ProviderAccount, ChainScan,
  live_wallet_sample, amounts_usable, duplicate_account, unexpected_account, no_result, reported,
  unspecified,
}
use sentio_portfolio.Provider.Answers.{chain_failed, failed_accounts, results_for, read_chain}
use sentio_portfolio.Provider.Requests.{Chains, configure_wallet_balances}
use sentio_portfolio.Provider.Samples.{live_wallet_sample_iff}
use sentio_portfolio.Provider.Admission.{Kept, read_chain-Kept}
use sentio_portfolio.Provider.Chains.{Covered, configure_wallet_balances-Covered}

abbrev block_at : ℕ → ℕ → BlockRef
block_at n t = record { chain_id = 1; number = n; hash = 7; timestamp = t; fixed = false }

abbrev live_pin : BlockRef
live_pin = block_at 90 1_000

live_wallet_sample_iff_example : (live_wallet_sample (block_at 96 1_072) live_pin ≡ true) ↔ (
    (live_pin.fixed ≡ false)
    × ((block_at 96 1_072).timestamp ≢ 0)
    × (live_pin.timestamp ≢ 0)
    × (1_072 ≤ 1_000 + 120)
    × (1_000 ≤ 1_072 + 120))
live_wallet_sample_iff_example = live_wallet_sample_iff (block_at 96 1_072) live_pin (omega arith)

accepts_a_close_sample : live_wallet_sample (block_at 96 1_120) live_pin ≡ true
unfolding live_wallet_sample
accepts_a_close_sample = refl

refuses_a_far_sample : live_wallet_sample (block_at 96 1_121) live_pin ≡ false
unfolding live_wallet_sample
refuses_a_far_sample = refl

-- A time that is ten thousand million seconds ahead overflows the duration, which becomes negative.
accepts_an_overflow : live_wallet_sample (block_at 96 10_000_001_000) live_pin ≡ true
unfolding live_wallet_sample ◌-ℤ◌
accepts_an_overflow = refl

abbrev account_with : ℕ → Option BlockRef → Bool → WalletBalanceAccount
account_with a block discovery = record {
  block = block;
  discovery_only = discovery;
  account = a;
  balances = [];
}

-- Account 10 is sampled at the pin, 11 later, 12 is given twice, 13 fails, 14 is not asked for.
abbrev small_answer : WalletBalanceChain
small_answer = record {
  block = live_pin;
  accounts =
      account_with 10 none false
      ∷ account_with 11 (some (block_at 95 1_400)) false
      ∷ account_with 12 none false
      ∷ account_with 12 none false
      ∷ account_with 13 none false
      ∷ account_with 14 none false
      ∷ [];
}

abbrev small_result : WalletBalanceResult
small_result = record {
  chains = small_answer ∷ [];
  failures =
      record { chain_id = 1; account = 13; asset = none; message = []; unsupported = false } ∷ [];
}

abbrev small_chain : ChainScan
small_chain = record {
  block = live_pin;
  accounts = 10 ∷ 11 ∷ 12 ∷ 13 ∷ 15 ∷ [];
  provider_errors = [];
  coverage = [];
  provider_accounts = none;
}

abbrev kept_accounts : List (ℕ × ProviderAccount)
kept_accounts =
    (10, record { balances = []; direct = true })
    ∷ (11, record { balances = []; direct = false })
    ∷ []

small_run : read_chain 1 small_result small_chain ≡ record {
  block = live_pin;
  accounts = 10 ∷ 11 ∷ 12 ∷ 13 ∷ 15 ∷ [];
  provider_errors =
      reported 13 none unspecified
      ∷ duplicate_account 12
      ∷ unexpected_account 14
      ∷ no_result 15
      ∷ [];
  coverage = [];
  provider_accounts = some kept_accounts;
}
unfolding read_chain amounts_usable
small_run = refl

read_chain-Kept_example :
    (chain_failed 1 small_result.failures ≡ false)
    × (answer : WalletBalanceChain) × (results_for 1 small_result.chains ≡ answer ∷ [])
    × All
        (Kept 1 small_chain.block small_chain.accounts
          (failed_accounts 1 small_result.failures)
          answer)
        kept_accounts
unfolding read_chain amounts_usable
read_chain-Kept_example = read_chain-Kept 1 small_result small_chain kept_accounts refl refl

abbrev small_chains : Chains
small_chains = (1, small_chain) ∷ (77, small_chain) ∷ []

configure_wallet_balances-Covered_example :
    Each
      (Covered (some (λ request. some small_result)))
      small_chains
      (configure_wallet_balances (some (λ request. some small_result)) 10 small_chains)
configure_wallet_balances-Covered_example =
    configure_wallet_balances-Covered (some (λ request. some small_result)) 10 small_chains
