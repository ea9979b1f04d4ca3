-- ===== src/Provider/Coverage.antt =====
-- wallet_provider.go, `configureWalletBalances`: no account that was asked for is lost without a report.
use sentio_portfolio.Common.{
  ℕ, All, count, count-append, one_if, ap, ◌≤◌, ◌<◌, ◌≡◌, refl, sym, subst, ◌⊎◌, inl, inr, Bool,
  true, false, not, ◌||◌, List, [], ◌∷◌, ◌++◌, Option, none, some, ◌==◌, length, if◌then◌else◌,
  Bool-cases, ==_iff, arith,
}
use sentio_portfolio.Common.Assoc.{contains, nat_key}
use sentio_portfolio.Checkpoint.{BlockRef}
use sentio_portfolio.Provider.{
  WalletBalanceAccount, WalletBalanceFailure, Error, unexpected_account, duplicate_account,
  no_account_results, no_result, historical_gap, ChainScan, ProviderAccount,
}
use sentio_portfolio.Provider.Samples.{Entry, admit_accounts-Entry}
use sentio_portfolio.Provider.Reports.{tells_of, told, count_snoc, told-report, if_reported}
use mathlib.Core.List.{Memᴰ}
use sentio_portfolio.Provider.Answers.{
  Admitted, Collected, note_failures, found_account, collect_account, collect_accounts,
  any_unhandled, admits, admit_accounts, missing_errors, admit_chain, read_collected,
}

pub note_failures-accounts :
    (id : ℕ) (fs : List WalletBalanceFailure) (c : ChainScan)
    → (note_failures id fs c).accounts ≡ c.accounts
unfolding note_failures
note_failures-accounts id [] c = refl
note_failures-accounts id (f ∷ fs) c = elim (Bool-cases (f.chain_id == id)) [
  | inr other ↦ rw other (note_failures-accounts id fs c)
  | inl same ↦ rw same (elim (Bool-cases f.unsupported) [
    | inl unsupported ↦ rw unsupported (note_failures-accounts id fs _)
    | inr supported ↦ rw supported (note_failures-accounts id fs _)
  ])
]

contains_cases :
    (a b : ℕ) (rest : List ℕ) → contains a (b ∷ rest) ≡ true → (a ≡ b) ⊎ (contains a rest ≡ true)
contains_cases a b rest h = ground arith

pub any_unhandled_here :
    (a : ℕ) (failed duplicates accounts : List ℕ)
    → contains a failed ≡ false
    → contains a duplicates ≡ false
    → contains a accounts ≡ true
    → any_unhandled failed duplicates accounts ≡ true
any_unhandled_here a failed duplicates [] f d h = cc
any_unhandled_here a failed duplicates (b ∷ rest) f d h = elim (contains_cases a b rest h) [
  | inl same ↦
      subst
        (λ x.
          (not (contains x failed || contains x duplicates) || any_unhandled failed duplicates rest)
          ≡ true)
        same (rw (f, d) refl)
  | inr later ↦ elim (Bool-cases (not (contains b failed || contains b duplicates))) [
    | inl here ↦ rw here refl
    | inr handled ↦ rw handled (any_unhandled_here a failed duplicates rest f d later)
  ]
]

only_first : (p q r : Bool) → q ≡ false → r ≡ false → (p || q || r) ≡ true → p ≡ true
only_first true q r f d h = refl
only_first false q r f d h = cc

-- Balances of an account that are kept are those of a result that was given for it.
abbrev pub Keeps :
    (WalletBalanceAccount → Type 0) → ℕ → Option (List (ℕ × ProviderAccount)) → Type 0
Keeps Given a none = ⊥
Keeps Given a (some kept) =
    (p : ProviderAccount) × (r : WalletBalanceAccount) × Memᴰ (a, p) kept
    × Given r
    × (r.account ≡ a)
    × (p.balances ≡ r.balances)

-- The balances of an account of the chain are kept, or the chain tells more of the account than before.
abbrev pub Covers : (WalletBalanceAccount → Type 0) → ℕ → ChainScan → ChainScan → Type 0
Covers Given a c after = Keeps Given a after.provider_accounts ⊎ (told a c < told a after)

admits_some :
    (a : ℕ) (kept : List (ℕ × ProviderAccount))
    → admits a kept ≡ true
    → (p : ProviderAccount) × Memᴰ (a, p) kept
admits_some a [] h = cc
admits_some a ((b, p) ∷ kept) h = elim (Bool-cases (a == b)) [
  | inl same ↦ (p, Memᴰ.head (ap (λ x. (x, p)) ((==_iff a b).0 same)))
  | inr other ↦
      (let (q, m) = admits_some a kept (subst (λ t. (t || admits a kept) ≡ true) other h) in
        (q, Memᴰ.tail m))
]

pub All-at : {A : Type 0} (P : A → Type 0) (xs : List A) (x : A) → All P xs → Memᴰ x xs → P x
All-at P [] x h m = elim m [ ]
All-at P (y ∷ xs) x h (Memᴰ.head e) = subst P (sym e) h.0
All-at P (y ∷ xs) x h (Memᴰ.tail m) = All-at P xs x h.1 m

unless_handled :
    {P : Type 0} (a : ℕ) (handled : Bool) (rest : List Error) (e : Error)
    → (handled ≡ true → P ⊎ (0 < count (tells_of a) rest))
    → (handled ≡ false → (tells_of a e ≡ true) ⊎ P ⊎ (0 < count (tells_of a) rest))
    → P ⊎ (0 < count (tells_of a) (if handled then rest else e ∷ rest))
unless_handled a true rest e h k = h refl
unless_handled a false rest e h k = elim (k refl) [
  | inl here ↦ inr (rw here (omega arith))
  | inr (inl p) ↦ inl p
  | inr (inr later) ↦ inr (omega (arith, later))
]

missing_errors_here :
    (a : ℕ) (failed duplicates accounts : List ℕ) (found : List (ℕ × ProviderAccount))
    → contains a failed ≡ false
    → contains a duplicates ≡ false
    → contains a accounts ≡ true
    → (admits a found ≡ true)
      ⊎ (0 < count (tells_of a) (missing_errors failed duplicates found accounts))
unfolding missing_errors
missing_errors_here a failed duplicates [] found f d h = cc
missing_errors_here a failed duplicates (b ∷ rest) found f d h =
    unless_handled a (admits b found || contains b failed || contains b duplicates)
      (missing_errors failed duplicates found rest) (no_result b)
      (λ handled. elim (contains_cases a b rest h) [
        | inr later ↦ missing_errors_here a failed duplicates rest found f d later
        | inl same ↦ inl (
            only_first (admits a found) (contains a failed) (contains a duplicates) f d (
              subst (λ x. (admits x found || contains x failed || contains x duplicates) ≡ true)
                (sym same) handled))
      ])
      λ unhandled. elim (contains_cases a b rest h) [
        | inr later ↦ inr (missing_errors_here a failed duplicates rest found f d later)
        | inl same ↦ inl ((==_iff a b).1 same)
      ]

-- A duplicate account is reported, and by its own error.
abbrev pub DuplicatesTold : ℕ → Collected → Type 0
DuplicatesTold a s = contains a s.duplicates ≡ true → 0 < count (tells_of a) s.errors

collect_account-DuplicatesTold :
    (a : ℕ) (targets failed : List ℕ) (r : WalletBalanceAccount) (s : Collected)
    → DuplicatesTold a s
    → DuplicatesTold a (collect_account targets failed r s)
unfolding collect_account
collect_account-DuplicatesTold a targets failed r s h =
    elim (Bool-cases (not (contains r.account targets))) [
      | inl unexpected ↦
          rw unexpected
            λ d. omega (arith, h d, count_snoc a s.errors (unexpected_account r.account))
      | inr expected ↦
          rw expected
            (elim (Bool-cases (contains r.account failed || contains r.account s.duplicates)) [
              | inl skipped ↦ rw skipped h
              | inr new ↦ rw new (elim (Bool-cases (found_account r.account s.found)) [
                | inl again ↦ rw again λ d. elim (contains_cases a r.account s.duplicates d) [
                  | inl same ↦ omega (
                    arith,
                    count_snoc a s.errors (duplicate_account r.account),
                    ap one_if ((==_iff a r.account).1 same),
                  )
                  | inr before ↦
                      omega (arith, h before, count_snoc a s.errors (duplicate_account r.account))
                ]
                | inr first ↦ rw first h
              ])
            ])
    ]

pub collect_accounts-DuplicatesTold :
    (a : ℕ) (targets failed : List ℕ) (rs : List WalletBalanceAccount) (s : Collected)
    → DuplicatesTold a s
    → DuplicatesTold a (collect_accounts targets failed rs s)
unfolding collect_accounts
collect_accounts-DuplicatesTold a targets failed [] s h = h
collect_accounts-DuplicatesTold a targets failed (r ∷ rs) s h =
    collect_accounts-DuplicatesTold a targets failed rs (collect_account targets failed r s)
      (collect_account-DuplicatesTold a targets failed r s h)

pub contains-length : (a : ℕ) (xs : List ℕ) → contains a xs ≡ true → 0 < length xs
contains-length a [] h = cc
contains-length a (x ∷ xs) h = omega arith

with_gap :
    (a : ℕ) (gap : Bool) (notes : List Error) (e : Error)
    → count (tells_of a) notes ≤ count (tells_of a) (if gap then notes ++ e ∷ [] else notes)
with_gap a true notes e = omega (arith, count_snoc a notes e)
with_gap a false notes e = omega arith

abbrev nothing_admitted : Admitted
nothing_admitted = record { accounts = []; gap = false; errors = [] }

admit_chain-Covers :
    (a id : ℕ) (shared : BlockRef) (failed : List ℕ) (s : Collected) (c : ChainScan)
    → (contains a failed ≡ false
        → contains a s.duplicates ≡ false
        → contains a c.accounts ≡ true
        → Covers (λ r. Memᴰ r s.found) a c (admit_chain id shared failed s c))
      × (told a c ≤ told a (admit_chain id shared failed s c))
unfolding admit_chain
admit_chain-Covers a id shared failed s c =
    let m = admit_accounts id c.block shared s.found nothing_admitted in
    let entries =
      admit_accounts-Entry id c.block shared s.found s.found nothing_admitted (λ r m. m) tt in
    let missing = missing_errors failed s.duplicates m.accounts c.accounts in
    let one = count-append (tells_of a) c.provider_errors m.errors in
    let two = count-append (tells_of a) (c.provider_errors ++ m.errors) missing in
    let three = with_gap a m.gap c.coverage historical_gap in
    (
      (λ f d h. elim (missing_errors_here a failed s.duplicates c.accounts m.accounts f d h) [
        | inl found ↦
            (let (p, member) = admits_some a m.accounts found in
              let (r, given, account, balances, _) =
                All-at (Entry id c.block shared s.found) m.accounts (a, p) entries member in
              inl (p, r, member, given, sym account, balances))
        | inr some_missing ↦ inr (omega (arith, one, two, three, some_missing))
      ]),
      omega (arith, one, two, three),
    )

pub read_collected-Covers :
    (a id : ℕ) (shared : BlockRef) (failed : List ℕ) (s : Collected) (c : ChainScan)
    → (contains a failed ≡ false
        → contains a s.duplicates ≡ false
        → contains a c.accounts ≡ true
        → Covers (λ r. Memᴰ r s.found) a c (read_collected id shared failed s c))
      × (told a c ≤ told a (read_collected id shared failed s c))
unfolding read_collected
read_collected-Covers a id shared failed s c = elim (Bool-cases (length s.found == 0)) [
  | inr some_found ↦ rw some_found (admit_chain-Covers a id shared failed s c)
  | inl none_found ↦ rw none_found (
    (λ f d h.
        rw (any_unhandled_here a failed s.duplicates c.accounts f d h)
          (inr (omega (arith, told-report a c no_account_results)))),
    if_reported a (any_unhandled failed s.duplicates c.accounts) c no_account_results,
  )
]
