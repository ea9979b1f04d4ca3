-- ===== src/Provider/Results.antt =====
-- wallet_provider.go, `configureWalletBalances`: each account of a chain after the provider's answer for it.
use sentio_portfolio.Common.{
  ℕ, count, count-append, ◌+◌, ◌≤◌, ◌≡◌, refl, ap, ◌∙◌, inl, inr, Bool, true, false, ◌||◌, List, [],
  ◌∷◌, ◌++◌, Option, none, some, Bool-cases, arith,
}
use sentio_portfolio.Common.Assoc.{contains, nat_key}
use sentio_portfolio.Provider.{
  WalletBalanceAccount, ProviderAccount, WalletBalanceChain, WalletBalanceResult, Error,
  no_chain_result, duplicate_chain_results, ChainScan,
}
use sentio_portfolio.Provider.Answers.{
  Collected, note_failures, chain_failed, failed_accounts, results_for, collect_accounts,
  any_unhandled, read_results, read_chain,
}
use sentio_portfolio.Provider.Reports.{tells_of, told, told-report, if_reported, note_failures-told}
use sentio_portfolio.Provider.Admission.{Wanted, collect_accounts-Wanted}
use mathlib.Core.List.{Memᴰ}
use sentio_portfolio.Provider.Coverage.{
  Keeps, Covers, All-at, any_unhandled_here, note_failures-accounts, DuplicatesTold,
  collect_accounts-DuplicatesTold, read_collected-Covers,
}

with_errors :
    (a : ℕ) (c : ChainScan) (errors : List Error)
    → told a (record c { provider_errors = c.provider_errors ++ errors })
      ≡ told a c + count (tells_of a) errors
with_errors a c errors = omega (arith, count-append (tells_of a) c.provider_errors errors)

abbrev nothing_collected : Collected
nothing_collected = record { found = []; duplicates = []; errors = [] }

-- A result that is the answer's only one for the chain has this one for an account.
abbrev pub IsGiven : List WalletBalanceChain → WalletBalanceAccount → Type 0
IsGiven results r = (answer : WalletBalanceChain) × (results ≡ answer ∷ []) × Memᴰ r answer.accounts

pub Keeps-imp :
    (P Q : WalletBalanceAccount → Type 0) (a : ℕ) (kept : Option (List (ℕ × ProviderAccount)))
    → ((r : WalletBalanceAccount) → P r → Q r)
    → Keeps P a kept
    → Keeps Q a kept
Keeps-imp P Q a none f h = h
Keeps-imp P Q a (some kept) f (p, r, member, given, account, balances) =
    (p, r, member, f r given, account, balances)

no_duplicates : (a : ℕ) → DuplicatesTold a nothing_collected
no_duplicates a h = cc

found-IsGiven :
    (targets failed : List ℕ) (result : WalletBalanceChain) (r : WalletBalanceAccount)
    → Memᴰ r (collect_accounts targets failed result.accounts nothing_collected).found
    → IsGiven (result ∷ []) r
found-IsGiven targets failed result r m =
    let wanted =
      All-at (Wanted targets failed result.accounts)
        (collect_accounts targets failed result.accounts nothing_collected).found r
        (collect_accounts-Wanted targets failed result.accounts result.accounts nothing_collected
          (λ r m. m) tt)
        m in
    (result, refl, wanted.0)

read_results-Covers :
    (a id : ℕ) (failed : List ℕ) (results : List WalletBalanceChain) (c : ChainScan)
    → (contains a failed ≡ false
        → contains a c.accounts ≡ true
        → Covers (IsGiven results) a c (read_results id failed results c))
      × (told a c ≤ told a (read_results id failed results c))
unfolding read_results
read_results-Covers a id failed [] c = (
  (λ f h.
      rw (any_unhandled_here a failed [] c.accounts f refl h)
        (inr (omega (arith, told-report a c no_chain_result)))),
  if_reported a (any_unhandled failed [] c.accounts) c no_chain_result,
)
read_results-Covers a id failed (result ∷ []) c =
    let s = collect_accounts c.accounts failed result.accounts nothing_collected in
    let c' = record c { provider_errors = c.provider_errors ++ s.errors } in
    let (covers, grows) = read_collected-Covers a id result.block failed s c' in
    let more = with_errors a c s.errors in
    (
      (λ f h. elim (Bool-cases (contains a s.duplicates)) [
        | inl duplicate ↦ inr (
            omega (
              arith,
              more,
              grows,
              collect_accounts-DuplicatesTold a c.accounts failed result.accounts nothing_collected
                  (no_duplicates a) duplicate,
            ))
        | inr single ↦ elim (covers f single h) [
          | inl kept ↦ inl (
              Keeps-imp (λ r. Memᴰ r s.found) (IsGiven (result ∷ [])) a _
                (found-IsGiven c.accounts failed result) kept)
          | inr reported ↦ inr (omega (arith, more, reported))
        ]
      ]),
      omega (arith, more, grows),
    )
read_results-Covers a id failed (result ∷ other ∷ rest) c = (
  (λ f h. inr (omega (arith, told-report a c duplicate_chain_results))),
  omega (arith, told-report a c duplicate_chain_results),
)

or_left : (p q : Bool) → p ≡ true → (p || q) ≡ true
or_left true q h = refl
or_left false q h = cc

or_right : (p q : Bool) → q ≡ true → (p || q) ≡ true
or_right true q h = refl
or_right false q h = h

pub read_chain-Covers :
    (a id : ℕ) (result : WalletBalanceResult) (c : ChainScan)
    → contains a c.accounts ≡ true
    → Covers (IsGiven (results_for id result.chains)) a c (read_chain id result c)
unfolding read_chain
read_chain-Covers a id result c h =
    let noted = note_failures id result.failures c in
    let (grows, reported) = note_failures-told id a result.failures c in
    elim (Bool-cases (chain_failed id result.failures)) [
      | inl all_failed ↦ rw all_failed (inr (reported (or_left _ _ all_failed)))
      | inr others ↦ rw others (
          let (covers, more) =
            read_results-Covers a id (failed_accounts id result.failures)
              (results_for id result.chains) noted in
          elim (Bool-cases (contains a (failed_accounts id result.failures))) [
            | inl failed ↦ inr (omega (arith, more, reported (or_right _ _ failed)))
            | inr unfailed ↦
                elim (covers unfailed
                  (ap (contains a) (note_failures-accounts id result.failures c) ∙ h)) [
                    | inl kept ↦ inl kept
                    | inr later ↦ inr (omega (arith, grows, later))
                  ]
          ])
    ]
