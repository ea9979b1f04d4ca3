-- ===== src/Provider/Reports.antt =====
-- wallet_provider.go: the errors that tell of an account, and the noting of the provider's failures.
use sentio_portfolio.Common.{
  ℕ, count, count-append, one_if, ◌+◌, ◌≤◌, ◌<◌, ◌≡◌, refl, sym, subst, ◌⊎◌, inl, inr, Bool, true,
  false, ◌||◌, List, [], ◌∷◌, ◌++◌, ◌==◌, if◌then◌else◌, Bool-cases, arith,
}
use sentio_portfolio.Common.Assoc.{contains, nat_key}
use sentio_portfolio.Provider.{
  WalletBalanceFailure, Error, not_configured, provider_failed, reported, no_chain_result,
  duplicate_chain_results, foreign_block, incomplete_block, hash_mismatch, timestamp_mismatch,
  unexpected_account, duplicate_account, no_account_results, no_result, historical_gap, ChainScan,
  report, failure_error,
}
use sentio_portfolio.Provider.Answers.{note_failures, chain_failed, failed_accounts}

-- The errors that tell of an account: those of the account, and those of its chain as a whole.
abbrev pub tells_of : ℕ → Error → Bool
tells_of a not_configured = true
tells_of a provider_failed = true
tells_of a (reported b asset message) = (b == 0) || (a == b)
tells_of a no_chain_result = true
tells_of a duplicate_chain_results = true
tells_of a no_account_results = true
tells_of a foreign_block = false
tells_of a incomplete_block = false
tells_of a historical_gap = false
tells_of a (hash_mismatch n) = false
tells_of a (timestamp_mismatch n) = false
tells_of a (unexpected_account b) = false
tells_of a (duplicate_account b) = a == b
tells_of a (no_result b) = a == b

-- How much a chain tells of an account, in its errors and in the notes on its coverage.
abbrev pub told : ℕ → ChainScan → ℕ
told a c = count (tells_of a) c.provider_errors + count (tells_of a) c.coverage

pub count_snoc :
    (a : ℕ) (es : List Error) (e : Error)
    → count (tells_of a) (es ++ e ∷ []) ≡ count (tells_of a) es + one_if (tells_of a e)
count_snoc a es e = omega (arith, count-append (tells_of a) es (e ∷ []))

pub told-report :
    (a : ℕ) (c : ChainScan) (e : Error) → told a (report c e) ≡ told a c + one_if (tells_of a e)
told-report a c e = omega (arith, count_snoc a c.provider_errors e)

pub if_reported :
    (a : ℕ) (b : Bool) (c : ChainScan) (e : Error) → told a c ≤ told a (if b then report c e else c)
if_reported a true c e = omega (arith, told-report a c e)
if_reported a false c e = omega arith

-- A failure tells of the accounts that it is one of.
failure_tells :
    (a : ℕ) (f : WalletBalanceFailure) (later : Bool)
    → ((f.account == 0) ≡ true) ⊎ ((a == f.account) ≡ true) ⊎ (later ≡ true)
    → (tells_of a (failure_error f) ≡ true) ⊎ (later ≡ true)
failure_tells a f later (inl whole) = inl (rw whole refl)
failure_tells a f later (inr (inl own)) = inl (rw own (or_true (f.account == 0)))
  where
    or_true : (b : Bool) → (b || true) ≡ true
    or_true true = refl
    or_true false = refl
failure_tells a f later (inr (inr h)) = inr h

-- Whether a failure is reported for an account: one of the chain, or one of its own.
abbrev pub is_failed : ℕ → ℕ → List WalletBalanceFailure → Bool
is_failed id a fs = chain_failed id fs || contains a (failed_accounts id fs)

failed_first :
    (id a : ℕ) (f : WalletBalanceFailure) (fs : List WalletBalanceFailure)
    → (f.chain_id == id) ≡ true
    → is_failed id a (f ∷ fs) ≡ true
    → ((f.account == 0) ≡ true) ⊎ ((a == f.account) ≡ true) ⊎ (is_failed id a fs ≡ true)
unfolding chain_failed failed_accounts
failed_first id a f fs same h = ground (arith, same, h)

failed_other :
    (id a : ℕ) (f : WalletBalanceFailure) (fs : List WalletBalanceFailure)
    → (f.chain_id == id) ≡ false
    → is_failed id a (f ∷ fs) ≡ is_failed id a fs
unfolding chain_failed failed_accounts
failed_other id a f fs other = rw other refl

one_if-true : (b : Bool) → b ≡ true → one_if b ≡ 1
one_if-true true e = refl
one_if-true false e = cc

-- Noting a failure and then the others, when the first adds to what is told of an account.
noted_more :
    {later told_first : Bool} (before first after : ℕ)
    → first ≡ before + one_if told_first
    → (first ≤ after) × (later ≡ true → first < after)
    → (before ≤ after) × (((told_first ≡ true) ⊎ (later ≡ true)) → before < after)
noted_more {later} {told_first} before first after e (grows, strictly) = (
  omega (arith, e, grows),
  λ h. elim h [
    | inl here ↦ omega (arith, e, grows, one_if-true told_first here)
    | inr there ↦ omega (arith, e, strictly there)
  ],
)

when_failed :
    (id a : ℕ) (f : WalletBalanceFailure) (fs : List WalletBalanceFailure) (before after : ℕ)
    → (f.chain_id == id) ≡ true
    → (before ≤ after)
      × (((tells_of a (failure_error f) ≡ true) ⊎ (is_failed id a fs ≡ true)) → before < after)
    → (before ≤ after) × (is_failed id a (f ∷ fs) ≡ true → before < after)
when_failed id a f fs before after same (grows, strictly) =
    (grows, λ h. strictly (failure_tells a f (is_failed id a fs) (failed_first id a f fs same h)))

nobody_failed : (id a : ℕ) → is_failed id a [] ≡ false
unfolding chain_failed failed_accounts
nobody_failed id a = refl

not_both : {b : Bool} {P : Type 0} → b ≡ false → b ≡ true → P
not_both n e = cc

module _ (id : ℕ) (f : WalletBalanceFailure) (fs : List WalletBalanceFailure) (c : ChainScan) where
  note_other : (f.chain_id == id) ≡ false → note_failures id (f ∷ fs) c ≡ note_failures id fs c
  unfolding note_failures
  note_other other = rw other refl

  note_unsupported :
      (f.chain_id == id) ≡ true
      → f.unsupported ≡ true
      → note_failures id (f ∷ fs) c
        ≡ note_failures id fs (record c { coverage = c.coverage ++ failure_error f ∷ [] })
  unfolding note_failures
  note_unsupported same unsupported = rw (same, unsupported) refl

  note_supported :
      (f.chain_id == id) ≡ true
      → f.unsupported ≡ false
      → note_failures id (f ∷ fs) c ≡ note_failures id fs (report c (failure_error f))
  unfolding note_failures
  note_supported same supported = rw (same, supported) refl

-- What noting failures of which `failed` tells comes to, from a chain to the one after.
abbrev TellsMore : ℕ → Bool → ChainScan → ChainScan → Type 0
TellsMore a failed c after = (told a c ≤ told a after) × (failed ≡ true → told a c < told a after)

nothing_noted :
    (id a : ℕ) (c : ChainScan) → TellsMore a (is_failed id a []) c (note_failures id [] c)
unfolding note_failures
nothing_noted id a c = (omega arith, λ h. not_both (nobody_failed id a) h)

-- A failure of the chain or of an account is reported.
pub note_failures-told :
    (id a : ℕ) (fs : List WalletBalanceFailure) (c : ChainScan)
    → (told a c ≤ told a (note_failures id fs c))
      × (is_failed id a fs ≡ true → told a c < told a (note_failures id fs c))
note_failures-told id a [] c = nothing_noted id a c
note_failures-told id a (f ∷ fs) c = elim (Bool-cases (f.chain_id == id)) [
  | inr other ↦ subst (TellsMore a (is_failed id a (f ∷ fs)) c) (sym (note_other id f fs c other)) (
      subst (λ b. TellsMore a b c (note_failures id fs c)) (sym (failed_other id a f fs other))
        (note_failures-told id a fs c))
  | inl same ↦ elim (Bool-cases f.unsupported) [
    | inl unsupported ↦
        (let noted = record c { coverage = c.coverage ++ failure_error f ∷ [] } in
          subst (TellsMore a (is_failed id a (f ∷ fs)) c)
            (sym (note_unsupported id f fs c same unsupported))
            (when_failed id a f fs (told a c) (told a (note_failures id fs noted)) same (
              noted_more (told a c) (told a noted) (told a (note_failures id fs noted))
                (omega (arith, count_snoc a c.coverage (failure_error f)))
                (note_failures-told id a fs noted))))
    | inr supported ↦
        (let noted = report c (failure_error f) in
          subst (TellsMore a (is_failed id a (f ∷ fs)) c)
            (sym (note_supported id f fs c same supported))
            (when_failed id a f fs (told a c) (told a (note_failures id fs noted)) same (
              noted_more (told a c) (told a noted) (told a (note_failures id fs noted))
                (told-report a c (failure_error f)) (note_failures-told id a fs noted))))
  ]
]
