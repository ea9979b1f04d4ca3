-- ===== src/Provider/Answers.antt =====
-- wallet_provider.go, `configureWalletBalances`: what the answer of a provider makes of a chain.
use sentio_portfolio.Common.{
  ℕ, Bool, false, not, ◌&&◌, ◌||◌, List, [], ◌∷◌, ◌++◌, Option, none, some, ◌==◌, length,
  if◌then◌else◌,
}
use sentio_portfolio.Common.Assoc.{contains, nat_key}
use sentio_portfolio.Checkpoint.{BlockRef}
use sentio_portfolio.Provider.{
  ChainScan, Error, ProviderAccount, WalletBalanceAccount, WalletBalanceChain, WalletBalanceFailure,
  WalletBalanceResult, amounts_usable, duplicate_account, duplicate_chain_results, failure_error,
  foreign_block, historical_gap, no_account_results, no_chain_result, no_result, report,
  unexpected_account,
}

-- The failures of a chain, as its errors and the notes on its coverage.
unfoldable pub note_failures : ℕ → List WalletBalanceFailure → ChainScan → ChainScan
note_failures id [] c = c
note_failures id (f ∷ fs) c =
    let rest = note_failures id fs in
    if not (f.chain_id == id)
    then rest c
    else if f.unsupported
    then rest (record c { coverage = c.coverage ++ failure_error f ∷ [] })
    else rest (report c (failure_error f))

-- Whether a failure is one of the whole chain, and the accounts of the others.
unfoldable pub chain_failed : ℕ → List WalletBalanceFailure → Bool
chain_failed id [] = false
chain_failed id (f ∷ fs) = (f.chain_id == id) && (f.account == 0) || chain_failed id fs

unfoldable pub failed_accounts : ℕ → List WalletBalanceFailure → List ℕ
failed_accounts id [] = []
failed_accounts id (f ∷ fs) =
    if (f.chain_id == id) && not (f.account == 0)
    then f.account ∷ failed_accounts id fs
    else failed_accounts id fs

-- The results for a chain. The first is the one that is read.
unfoldable pub results_for : ℕ → List WalletBalanceChain → List WalletBalanceChain
results_for id [] = []
results_for id (c ∷ cs) =
    if c.block.chain_id == id then c ∷ results_for id cs else results_for id cs

-- `resultAccounts` and `duplicateAccounts`, with the errors of the loop.
pub record Collected : Type 0 where
  pub found : List WalletBalanceAccount
  pub duplicates : List ℕ
  pub errors : List Error

abbrev pub found_account : ℕ → List WalletBalanceAccount → Bool
found_account a [] = false
found_account a (r ∷ rs) = (a == r.account) || found_account a rs

abbrev pub without_account : ℕ → List WalletBalanceAccount → List WalletBalanceAccount
without_account a [] = []
without_account a (r ∷ rs) =
    if a == r.account then without_account a rs else r ∷ without_account a rs

unfoldable pub collect_account : List ℕ → List ℕ → WalletBalanceAccount → Collected → Collected
collect_account targets failed r s =
    if not (contains r.account targets)
    then record s { errors = s.errors ++ unexpected_account r.account ∷ [] }
    else if contains r.account failed || contains r.account s.duplicates
    then s
    else if found_account r.account s.found
    then record s {
      found = without_account r.account s.found;
      duplicates = r.account ∷ s.duplicates;
      errors = s.errors ++ duplicate_account r.account ∷ [];
    }
    else record s { found = s.found ++ r ∷ [] }

unfoldable pub collect_accounts :
    List ℕ → List ℕ → List WalletBalanceAccount → Collected → Collected
unfolding collect_account
collect_accounts targets failed [] s = s
collect_accounts targets failed (r ∷ rs) s =
    collect_accounts targets failed rs (collect_account targets failed r s)

-- Whether an account has no failure and no other report.
abbrev pub any_unhandled : List ℕ → List ℕ → List ℕ → Bool
any_unhandled failed duplicates [] = false
any_unhandled failed duplicates (a ∷ rest) =
    not (contains a failed || contains a duplicates) || any_unhandled failed duplicates rest

-- The block that an account was sampled at, unless it belongs to another chain.
abbrev pub sample_of : ℕ → BlockRef → Option BlockRef → Option BlockRef
sample_of id shared none = some shared
sample_of id shared (some own) = if own.chain_id == id then some own else none

-- `providerAccounts` and `historicalCoverageGap`, with the errors of the loop.
pub record Admitted : Type 0 where
  pub accounts : List (ℕ × ProviderAccount)
  pub gap : Bool
  pub errors : List Error

abbrev pub admit_sample : BlockRef → WalletBalanceAccount → Option BlockRef → Admitted → Admitted
admit_sample pin r none s = record s { errors = s.errors ++ foreign_block ∷ [] }
admit_sample pin r (some sample) s =
    let (usable, errors) = amounts_usable pin sample in
    let direct = usable && not r.discovery_only in
    record {
      accounts = s.accounts ++ (r.account, record { balances = r.balances; direct = direct }) ∷ [];
      gap = s.gap || (pin.fixed && not direct);
      errors = s.errors ++ errors;
    }

unfoldable pub admit_accounts :
    ℕ → BlockRef → BlockRef → List WalletBalanceAccount → Admitted → Admitted
admit_accounts id pin shared [] s = s
admit_accounts id pin shared (r ∷ rs) s =
    admit_accounts id pin shared rs (admit_sample pin r (sample_of id shared r.block) s)

abbrev pub admits : ℕ → List (ℕ × ProviderAccount) → Bool
admits a [] = false
admits a ((b, p) ∷ rest) = (a == b) || admits a rest

-- The accounts of a chain that no result was given for.
unfoldable pub missing_errors : List ℕ → List ℕ → List (ℕ × ProviderAccount) → List ℕ → List Error
missing_errors failed duplicates admitted [] = []
missing_errors failed duplicates admitted (a ∷ rest) =
    if admits a admitted || contains a failed || contains a duplicates
    then missing_errors failed duplicates admitted rest
    else no_result a ∷ missing_errors failed duplicates admitted rest

-- The chain after its accounts were collected.
unfoldable pub admit_chain : ℕ → BlockRef → List ℕ → Collected → ChainScan → ChainScan
unfolding admit_accounts missing_errors
admit_chain id shared failed s c =
    let admitted =
      admit_accounts id c.block shared s.found
        (record { accounts = []; gap = false; errors = [] }) in
    record c {
      provider_errors =
          (c.provider_errors ++ admitted.errors)
          ++ missing_errors failed s.duplicates admitted.accounts c.accounts;
      coverage = if admitted.gap then c.coverage ++ historical_gap ∷ [] else c.coverage;
      provider_accounts = some admitted.accounts;
    }

unfoldable pub read_collected : ℕ → BlockRef → List ℕ → Collected → ChainScan → ChainScan
unfolding admit_chain
read_collected id shared failed s c =
    if length s.found == 0
    then (if any_unhandled failed s.duplicates c.accounts then report c no_account_results else c)
    else admit_chain id shared failed s c

-- The results for a chain whose failures are noted.
unfoldable pub read_results : ℕ → List ℕ → List WalletBalanceChain → ChainScan → ChainScan
unfolding collect_accounts read_collected
read_results id failed [] c =
    if any_unhandled failed [] c.accounts then report c no_chain_result else c
read_results id failed (result ∷ []) c =
    let s =
      collect_accounts c.accounts failed result.accounts
        (record { found = []; duplicates = []; errors = [] }) in
    read_collected id result.block failed s
      (record c { provider_errors = c.provider_errors ++ s.errors })
read_results id failed (result ∷ other ∷ rest) c = report c duplicate_chain_results

unfoldable pub read_chain : ℕ → WalletBalanceResult → ChainScan → ChainScan
unfolding note_failures chain_failed failed_accounts results_for read_results
read_chain id result c =
    let noted = note_failures id result.failures c in
    if chain_failed id result.failures
    then noted
    else read_results id (failed_accounts id result.failures) (results_for id result.chains) noted
