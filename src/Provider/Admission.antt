-- ===== src/Provider/Admission.antt =====
-- wallet_provider.go, `configureWalletBalances`: whose balances are kept for a chain, and which of them directly.
use mathlib.Core.List.{Memᴰ}
use mathlib.Core.Option.{some-injective}
use sentio_portfolio.Common.{
  ℕ, ◌≡◌, refl, ◌∙◌, subst, inl, inr, Bool, true, false, List, [], ◌∷◌, Option, none, some, ◌==◌,
  length, All, All-snoc, if◌then◌else◌, Bool-cases,
}
use sentio_portfolio.Common.Assoc.{contains, nat_key}
use sentio_portfolio.Checkpoint.{BlockRef}
use sentio_portfolio.Provider.{
  WalletBalanceAccount, WalletBalanceChain, WalletBalanceFailure, WalletBalanceResult, Error,
  ProviderAccount, ChainScan, report, no_chain_result, no_account_results,
}
use sentio_portfolio.Provider.Answers.{
  Collected, any_unhandled, found_account, without_account, collect_account, collect_accounts,
  sample_of, admit_chain, read_collected, read_results, read_chain, note_failures, chain_failed,
  failed_accounts, results_for,
}
use sentio_portfolio.Provider.Samples.{Stands, Entry, admit_accounts-Entry}
use sentio_portfolio.Provider.Coverage.{All-at, note_failures-accounts}

-- A result for an account that was asked for and did not fail.
abbrev pub Wanted : List ℕ → List ℕ → List WalletBalanceAccount → WalletBalanceAccount → Type 0
Wanted targets failed rs r =
    Memᴰ r rs × (contains r.account targets ≡ true) × (contains r.account failed ≡ false)

All-without :
    (P : WalletBalanceAccount → Type 0) (a : ℕ) (rs : List WalletBalanceAccount)
    → All P rs
    → All P (without_account a rs)
All-without P a [] h = tt
All-without P a (r ∷ rs) h = elim (Bool-cases (a == r.account)) [
  | inl same ↦ rw same (All-without P a rs h.1)
  | inr other ↦ rw other (h.0, All-without P a rs h.1)
]

collect_account-Wanted :
    (targets failed : List ℕ) (all : List WalletBalanceAccount) (r : WalletBalanceAccount)
    (s : Collected)
    → Memᴰ r all
    → All (Wanted targets failed all) s.found
    → All (Wanted targets failed all) (collect_account targets failed r s).found
unfolding collect_account
collect_account-Wanted targets failed all r s m h = elim (Bool-cases (contains r.account targets)) [
  | inr unexpected ↦ rw unexpected h
  | inl expected ↦ rw expected (elim (Bool-cases (contains r.account failed)) [
    | inl has_failed ↦ rw has_failed h
    | inr unfailed ↦ rw unfailed (elim (Bool-cases (contains r.account s.duplicates)) [
      | inl skipped ↦ rw skipped h
      | inr new ↦ rw new (elim (Bool-cases (found_account r.account s.found)) [
        | inl again ↦ rw again (All-without (Wanted targets failed all) r.account s.found h)
        | inr first ↦
            rw first (All-snoc (Wanted targets failed all) s.found r h (m, expected, unfailed))
      ])
    ])
  ])
]

pub collect_accounts-Wanted :
    (targets failed : List ℕ) (all rs : List WalletBalanceAccount) (s : Collected)
    → ((r : WalletBalanceAccount) → Memᴰ r rs → Memᴰ r all)
    → All (Wanted targets failed all) s.found
    → All (Wanted targets failed all) (collect_accounts targets failed rs s).found
unfolding collect_accounts
collect_accounts-Wanted targets failed all [] s sub h = h
collect_accounts-Wanted targets failed all (r ∷ rs) s sub h =
    collect_accounts-Wanted targets failed all rs _ (λ x m. sub x (Memᴰ.tail m))
      (collect_account-Wanted targets failed all r s (sub r (Memᴰ.head refl)) h)

-- Balances that are kept for an account of a chain: those of a result for that account.
abbrev pub Kept :
    ℕ → BlockRef → List ℕ → List ℕ → WalletBalanceChain → (ℕ × ProviderAccount) → Type 0
Kept id pin targets failed answer entry =
    (r : WalletBalanceAccount) × Wanted targets failed answer.accounts r
    × (entry.0 ≡ r.account)
    × (entry.1.balances ≡ r.balances)
    × (entry.1.direct ≡ true
        → (r.discovery_only ≡ false)
          × (sample : BlockRef) × (sample_of id answer.block r.block ≡ some sample)
          × Stands pin sample)

All-imp :
    {A : Type 0} (P Q : A → Type 0) (xs : List A) → ((x : A) → P x → Q x) → All P xs → All Q xs
All-imp P Q [] f h = tt
All-imp P Q (x ∷ xs) f h = (f x h.0, All-imp P Q xs f h.1)

if_unkept :
    (b : Bool) (c : ChainScan) (e : Error)
    → c.provider_accounts ≡ none
    → (if b then report c e else c).provider_accounts ≡ none
if_unkept true c e n = n
if_unkept false c e n = n

not_both : {A : Type 0} {o : Option A} {a : A} {P : Type 0} → o ≡ none → o ≡ some a → P
not_both n e = cc

read_collected-Entry :
    (id : ℕ) (shared : BlockRef) (failed : List ℕ) (s : Collected) (c : ChainScan)
    (kept : List (ℕ × ProviderAccount))
    → c.provider_accounts ≡ none
    → (read_collected id shared failed s c).provider_accounts ≡ some kept
    → All (Entry id c.block shared s.found) kept
unfolding read_collected admit_chain
read_collected-Entry id shared failed s c kept n = elim (Bool-cases (length s.found == 0)) [
  | inl none_found ↦ rw none_found λ e.
      not_both (if_unkept (any_unhandled failed s.duplicates c.accounts) c no_account_results n) e
  | inr some_found ↦ rw some_found λ e.
      subst (All (Entry id c.block shared s.found)) (some-injective _ _ e) (
        admit_accounts-Entry id c.block shared s.found s.found
          (record { accounts = []; gap = false; errors = [] }) (λ r m. m) tt)
]

read_results-Kept :
    (id : ℕ) (failed : List ℕ) (results : List WalletBalanceChain) (c : ChainScan)
    (kept : List (ℕ × ProviderAccount))
    → c.provider_accounts ≡ none
    → (read_results id failed results c).provider_accounts ≡ some kept
    → (answer : WalletBalanceChain) × (results ≡ answer ∷ [])
      × All (Kept id c.block c.accounts failed answer) kept
unfolding read_results
read_results-Kept id failed [] c kept n e =
    not_both (if_unkept (any_unhandled failed [] c.accounts) c no_chain_result n) e
read_results-Kept id failed (answer ∷ []) c kept n e =
    let s =
      collect_accounts c.accounts failed answer.accounts
        (record { found = []; duplicates = []; errors = [] }) in
    let wanted =
      collect_accounts-Wanted c.accounts failed answer.accounts answer.accounts
        (record { found = []; duplicates = []; errors = [] }) (λ r m. m) tt in
    (
      answer,
      refl,
      All-imp (Entry id c.block answer.block s.found) (Kept id c.block c.accounts failed answer)
          kept
          (λ entry (r, m, account, balances, direct). (
            r,
            All-at (Wanted c.accounts failed answer.accounts) s.found r wanted m,
            account,
            balances,
            direct,
          ))
          (read_collected-Entry id answer.block failed s _ kept n e),
    )
read_results-Kept id failed (answer ∷ other ∷ rest) c kept n e = not_both n e

note_failures-provider_accounts :
    (id : ℕ) (fs : List WalletBalanceFailure) (c : ChainScan)
    → ((note_failures id fs c).provider_accounts ≡ c.provider_accounts)
      × ((note_failures id fs c).block ≡ c.block)
unfolding note_failures
note_failures-provider_accounts id [] c = (refl, refl)
note_failures-provider_accounts id (f ∷ fs) c = elim (Bool-cases (f.chain_id == id)) [
  | inr other ↦ rw other (note_failures-provider_accounts id fs c)
  | inl same ↦ rw same (elim (Bool-cases f.unsupported) [
    | inl unsupported ↦ rw unsupported (note_failures-provider_accounts id fs _)
    | inr supported ↦ rw supported (note_failures-provider_accounts id fs _)
  ])
]

-- Where balances are kept for a chain, the provider reported no failure of the chain and gave one result for
-- it, and each entry is that of an account which was asked for, did not fail, and is in that result, with its
-- balances. Amounts are used directly only if the provider did not mark them as discovery, and the
-- account's sample is of the pin's number and hash, or the rule for live samples accepts it.
pub read_chain-Kept :
    (id : ℕ) (result : WalletBalanceResult) (c : ChainScan) (kept : List (ℕ × ProviderAccount))
    → c.provider_accounts ≡ none
    → (read_chain id result c).provider_accounts ≡ some kept
    → (chain_failed id result.failures ≡ false)
      × (answer : WalletBalanceChain) × (results_for id result.chains ≡ answer ∷ [])
      × All (Kept id c.block c.accounts (failed_accounts id result.failures) answer) kept
unfolding read_chain
read_chain-Kept id result c kept n =
    let noted = note_failures id result.failures c in
    let (accounts, block) = note_failures-provider_accounts id result.failures c in
    elim (Bool-cases (chain_failed id result.failures)) [
      | inl failed ↦ rw failed λ e. not_both (accounts ∙ n) e
      | inr others ↦ rw others λ e.
          let (answer, one, all) =
            read_results-Kept id (failed_accounts id result.failures) (results_for id result.chains)
              noted kept (accounts ∙ n) e in
          (
            refl,
            answer,
            one,
            subst (λ b. All (Kept id b c.accounts (failed_accounts id result.failures) answer) kept)
                block
                (subst
                  (λ t.
                    All (Kept id noted.block t (failed_accounts id result.failures) answer) kept)
                  (note_failures-accounts id result.failures c) all),
          )
    ]
