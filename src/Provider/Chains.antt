-- ===== src/Provider/Chains.antt =====
-- wallet_provider.go, `configureWalletBalances`: the chains after the provider's answer.
use sentio_portfolio.Common.{
  ℕ, ◌≡◌, refl, inl, inr, Bool, true, false, List, [], ◌∷◌, ◌++◌, Option, none, some, ◌==◌, length,
  length-append, length-map, Each, if◌then◌else◌, Bool-cases, ==_iff, arith,
}
use sentio_portfolio.Common.Assoc.{contains, nat_key}
use sentio_portfolio.Provider.{
  WalletBalanceAccount, WalletBalanceResult, provider_failed, not_configured, ChainScan, Target,
  report,
}
use sentio_portfolio.Provider.Answers.{results_for, read_chain}
use sentio_portfolio.Provider.Requests.{
  Chains, Request, is_supported, each_requested, read_answer, without_provider, all_targets,
  targets_on, configure_wallet_balances,
}
use sentio_portfolio.Provider.Reports.{told-report}
use sentio_portfolio.Provider.Coverage.{Covers, contains-length}
use sentio_portfolio.Provider.Results.{IsGiven, Keeps-imp, read_chain-Covers}

-- A result that the provider gave for a chain, in its answer to a request.
abbrev pub IsAnswered :
    Option (Request → Option WalletBalanceResult) → ℕ → WalletBalanceAccount → Type 0
IsAnswered none id r = ⊥
IsAnswered (some provider) id r =
    (request : Request) × (result : WalletBalanceResult) × (provider request ≡ some result)
    × IsGiven (results_for id result.chains) r

-- A chain keeps its id, and where it is served each of its accounts is covered.
abbrev pub Covered :
    Option (Request → Option WalletBalanceResult) → (ℕ × ChainScan) → (ℕ × ChainScan) → Type 0
Covered provider before after =
    (before.0 ≡ after.0)
    × ((a : ℕ)
        → is_supported before.0 ≡ true
        → contains a before.1.accounts ≡ true
        → Covers (IsAnswered provider before.0) a before.1 after.1)

module _ (provider : Option (Request → Option WalletBalanceResult)) where
  each_requested-Covered :
      (f : ℕ → ChainScan → ChainScan) (chains : Chains)
      → ((a id : ℕ) (c : ChainScan)
          → contains a c.accounts ≡ true
          → Covers (IsAnswered provider id) a c (f id c))
      → Each (Covered provider) chains (each_requested f chains)
  each_requested-Covered f [] h = tt
  each_requested-Covered f ((id, c) ∷ rest) h =
      ((refl, (λ a served wanted. rw served (h a id c wanted))), each_requested-Covered f rest h)

  without_provider-Covered :
      (chains : Chains) → Each (Covered provider) chains (without_provider chains)
  without_provider-Covered [] = tt
  without_provider-Covered ((id, c) ∷ rest) = (
    (refl, (λ a served wanted. inr (omega (arith, told-report a c not_configured)))),
    without_provider-Covered rest,
  )

no_targets :
    (served : Bool) (id : ℕ) (accounts : List ℕ) (rest : List Target)
    → length (if served then targets_on id accounts ++ rest else rest) ≡ 0
    → (served ≡ true → length accounts ≡ 0) × (length rest ≡ 0)
no_targets true id accounts rest h =
    let total = length-append (targets_on id accounts) rest in
    let same = length-map {B = Target} (λ a. record { chain_id = id; account = a }) accounts in
    ((λ _. omega (arith, h, total, same)), omega (arith, h, total))
no_targets false id accounts rest h = ((λ f. cc), h)

unasked-Covered :
    (provider : Option (Request → Option WalletBalanceResult)) (chains : Chains)
    → length (all_targets chains) ≡ 0
    → Each (Covered provider) chains chains
unasked-Covered provider [] h = tt
unasked-Covered provider ((id, c) ∷ rest) h =
    let (no_accounts, later) = no_targets (is_supported id) id c.accounts (all_targets rest) h in
    (
      (
        refl,
        (λ a served wanted.
            absurd (omega (arith, no_accounts served, contains-length a c.accounts wanted))),
      ),
      unasked-Covered provider rest later,
    )

read_answer-Covered :
    (provider : Request → Option WalletBalanceResult) (request : Request)
    (answer : Option WalletBalanceResult) (chains : Chains)
    → provider request ≡ answer
    → Each (Covered (some provider)) chains (read_answer answer chains)
unfolding read_answer
read_answer-Covered provider request none chains asked =
    each_requested-Covered (some provider) (λ id c. report c provider_failed) chains
      λ a id c wanted. inr (omega (arith, told-report a c provider_failed))
read_answer-Covered provider request (some result) chains asked =
    each_requested-Covered (some provider) (λ id c. read_chain id result c) chains
      λ a id c wanted. elim (read_chain-Covers a id result c wanted) [
        | inl kept ↦ inl (
            Keeps-imp (IsGiven (results_for id result.chains)) (IsAnswered (some provider) id) a _
              (λ r given. (request, result, asked, given)) kept)
        | inr more ↦ inr more
      ]

-- No account is lost in silence: whatever the provider answers, and also without a provider, a chain keeps its
-- place, and for each account of a chain that is served, either balances are kept for it, and they are
-- those of a result for that account in the only result for the chain in the provider's answer, or
-- the chain's errors and notes that tell of this account have become more: those of the account itself and
-- those of the chain as a whole.
pub configure_wallet_balances-Covered :
    (provider : Option (Request → Option WalletBalanceResult)) (root : ℕ) (chains : Chains)
    → Each (Covered provider) chains (configure_wallet_balances provider root chains)
unfolding configure_wallet_balances
configure_wallet_balances-Covered none root chains = without_provider-Covered none chains
configure_wallet_balances-Covered (some provider) root chains =
    elim (Bool-cases (length (all_targets chains) == 0)) [
      | inl unasked ↦ rw unasked (
          unasked-Covered (some provider) chains
            ((==_iff (length (all_targets chains)) 0).0 unasked))
      | inr asked ↦ rw asked (read_answer-Covered provider _ _ chains refl)
    ]
