-- ===== src/Provider/Samples.antt =====
-- wallet_provider.go: which samples stand for the scan's pin, and the accounts that are admitted with theirs.
use mathlib.Core.List.{Memᴰ}
use sentio_portfolio.Common.{
  ℕ, ◌+◌, ◌*◌, ◌^◌, ◌≤◌, ◌<◌, ◌≡◌, ◌≢◌, ◌↔◌, refl, ◌⊎◌, Bool, true, false, not, ◌&&◌, ◌||◌, List,
  [], ◌∷◌, Option, none, some, ◌==◌, All, All-snoc, if◌then◌else◌, arith,
}
use sentio_portfolio.Common.Int.{pos, leb_ℤ}
use sentio_portfolio.Common.Assoc.{nat_key}
use sentio_portfolio.Checkpoint.{BlockRef, second}
use sentio_portfolio.Checkpoint.Age.{duration_small}
use sentio_portfolio.Provider.{
  WalletBalanceAccount, ProviderAccount, gap_of, live_wallet_sample_window, live_wallet_sample,
  amounts_usable,
}
use sentio_portfolio.Provider.Answers.{Admitted, sample_of, admit_sample, admit_accounts}

within_window :
    (fixed : Bool) (a b : ℕ)
    → ((if fixed || a == 0 || b == 0
          then false
          else leb_ℤ (pos (gap_of a b * second)) (pos live_wallet_sample_window))
        ≡ true)
      ↔ ((fixed ≡ false) × (a ≢ 0) × (b ≢ 0) × (a ≤ b + 120) × (b ≤ a + 120))
within_window true a b = ((λ h. cc), λ h. cc)
within_window false a b = ground arith

-- A sample at another block is accepted exactly if the pin is live, both times are known and they are at most
-- two minutes apart, given that they are not so far apart that a 64-bit duration overflows.
pub live_wallet_sample_iff :
    (block pin : BlockRef)
    → gap_of block.timestamp pin.timestamp < 2 ^ 33
    → (live_wallet_sample block pin ≡ true) ↔ (
        (pin.fixed ≡ false)
        × (block.timestamp ≢ 0)
        × (pin.timestamp ≢ 0)
        × (block.timestamp ≤ pin.timestamp + 120)
        × (pin.timestamp ≤ block.timestamp + 120))
unfolding live_wallet_sample
live_wallet_sample_iff block pin h =
    rw (duration_small (gap_of block.timestamp pin.timestamp) h)
      (within_window pin.fixed block.timestamp pin.timestamp)

-- A sample stands for the pin: it was taken there, or the scan is live and it was taken at about its time.
abbrev pub Stands : BlockRef → BlockRef → Type 0
Stands pin sample =
    ((sample.number ≡ pin.number) × (sample.hash ≡ pin.hash))
    ⊎ (live_wallet_sample sample pin ≡ true)

amounts_usable-Stands :
    (pin sample : BlockRef) → (amounts_usable pin sample).0 ≡ true → Stands pin sample
unfolding amounts_usable
amounts_usable-Stands pin sample h = ground arith

-- A result of the provider that is admitted for an account.
abbrev pub Entry :
    ℕ → BlockRef → BlockRef → List WalletBalanceAccount → (ℕ × ProviderAccount) → Type 0
Entry id pin shared rs entry =
    (r : WalletBalanceAccount) × Memᴰ r rs
    × (entry.0 ≡ r.account)
    × (entry.1.balances ≡ r.balances)
    × (entry.1.direct ≡ true
        → (r.discovery_only ≡ false)
          × (sample : BlockRef) × (sample_of id shared r.block ≡ some sample)
          × Stands pin sample)

direct_parts : (p q : Bool) → (p && not q) ≡ true → (p ≡ true) × (q ≡ false)
direct_parts true false h = (refl, refl)
direct_parts true true h = cc
direct_parts false q h = cc

admit_sample-Entry :
    (id : ℕ) (pin shared : BlockRef) (rs : List WalletBalanceAccount) (r : WalletBalanceAccount)
    (s : Admitted)
    → Memᴰ r rs
    → All (Entry id pin shared rs) s.accounts
    → (sample : Option BlockRef) → sample_of id shared r.block ≡ sample
    → All (Entry id pin shared rs) (admit_sample pin r sample s).accounts
admit_sample-Entry id pin shared rs r s m h none e = h
admit_sample-Entry id pin shared rs r s m h (some sample) e =
    All-snoc (Entry id pin shared rs) s.accounts _ h (
      r,
      m,
      refl,
      refl,
      λ direct.
          let (usable, amounts) = direct_parts _ _ direct in
          (amounts, sample, e, amounts_usable-Stands pin sample usable),
    )

pub admit_accounts-Entry :
    (id : ℕ) (pin shared : BlockRef) (all rs : List WalletBalanceAccount) (s : Admitted)
    → ((r : WalletBalanceAccount) → Memᴰ r rs → Memᴰ r all)
    → All (Entry id pin shared all) s.accounts
    → All (Entry id pin shared all) (admit_accounts id pin shared rs s).accounts
unfolding admit_accounts
admit_accounts-Entry id pin shared all [] s sub h = h
admit_accounts-Entry id pin shared all (r ∷ rs) s sub h =
    admit_accounts-Entry id pin shared all rs _ (λ x m. sub x (Memᴰ.tail m))
      (admit_sample-Entry id pin shared all r s (sub r (Memᴰ.head refl)) h
        (sample_of id shared r.block) refl)
