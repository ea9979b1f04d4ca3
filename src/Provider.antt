-- ===== src/Provider.antt =====
-- wallet_provider.go: the balances that a wallet balance provider gives, and which of them stand for the
-- scan's. The provider is a parameter. A map is a list of entries; addresses are numbers, the zero address 0;
-- errors carry no text but what tells them apart. The request's order is that of the addresses' texts, in
-- lower case, which is the order of the numbers.
pub mod Samples
pub mod Admission
pub mod Reports
pub mod Coverage
pub mod Results
pub mod Chains
pub mod Answers
pub mod Requests
mod Tests
use sentio_portfolio.Common.{
  ℕ, ◌+◌, ◌-◌, ◌*◌, Bool, true, false, not, ◌&&◌, ◌||◌, List, [], ◌∷◌, ◌++◌, Option, ltb, ◌==◌,
  length, if◌then◌else◌,
}
use sentio_portfolio.Common.Int.{pos, leb_ℤ}
use sentio_portfolio.Checkpoint.{BlockRef, second, duration}
use sentio_portfolio.Pages.{Text}
use sentio_portfolio.Pricing.{AssetId}

-- `Token`; a symbol is a list of bytes.
pub record Token : Type 0 where
  pub chain_id : ℕ
  pub address : ℕ
  pub symbol : Text
  pub decimals : ℕ

pub record WalletBalance : Type 0 where
  pub token : Token
  pub amount_raw : Text
  pub native : Bool
  pub metadata_complete : Bool

pub record Target : Type 0 where
  pub chain_id : ℕ
  pub account : ℕ

pub record WalletBalanceAccount : Type 0 where
  pub block : Option BlockRef
  pub discovery_only : Bool
  pub account : ℕ
  pub balances : List WalletBalance

pub record WalletBalanceChain : Type 0 where
  pub block : BlockRef
  pub accounts : List WalletBalanceAccount

pub record WalletBalanceFailure : Type 0 where
  pub chain_id : ℕ
  pub account : ℕ
  pub asset : Option AssetId
  pub message : Text
  pub unsupported : Bool

pub record WalletBalanceResult : Type 0 where
  pub chains : List WalletBalanceChain
  pub failures : List WalletBalanceFailure

pub data Error : Type 0 where
  not_configured provider_failed : Error
  -- The account and the asset of a failure, and its message.
  reported : ℕ → Option AssetId → Text → Error
  no_chain_result duplicate_chain_results no_account_results foreign_block : Error
  incomplete_block historical_gap : Error
  hash_mismatch timestamp_mismatch : ℕ → Error
  unexpected_account duplicate_account no_result : ℕ → Error

-- `walletProviderAccount`
pub record ProviderAccount : Type 0 where
  pub balances : List WalletBalance
  pub direct : Bool

-- The parts of `chainScan` that are read and written here. `accounts` are the addresses.
pub record ChainScan : Type 0 where
  pub block : BlockRef
  pub accounts : List ℕ
  pub provider_errors : List Error
  pub coverage : List Error
  pub provider_accounts : Option (List (ℕ × ProviderAccount))

abbrev pub live_wallet_sample_window : ℕ
live_wallet_sample_window = 2 * 60 * second

abbrev pub gap_of : ℕ → ℕ → ℕ
gap_of a b = if ltb a b then b - a else a - b

-- The window is compared with `time.Duration(gap) * time.Second`, which wraps around.
unfoldable pub live_wallet_sample : BlockRef → BlockRef → Bool
unfolding duration
live_wallet_sample block pin =
    if pin.fixed || block.timestamp == 0 || pin.timestamp == 0
    then false
    else leb_ℤ (duration (gap_of block.timestamp pin.timestamp)) (pos live_wallet_sample_window)

-- Whether the amounts are usable, and the error that tells why they are not.
unfoldable pub amounts_usable : BlockRef → BlockRef → Bool × List Error
unfolding live_wallet_sample
amounts_usable pin block =
    if block.number == 0 || block.hash == 0
    then (false, incomplete_block ∷ [])
    else if not (block.number == pin.number)
    then (live_wallet_sample block pin, [])
    else if not (block.hash == pin.hash)
    then (false, hash_mismatch block.number ∷ [])
    else if not (block.timestamp == 0) && not (block.timestamp == pin.timestamp)
    then (false, timestamp_mismatch block.number ∷ [])
    else (true, [])

abbrev pub unspecified : Text
unspecified =
    b'u' ∷ b'n' ∷ b's' ∷ b'p' ∷ b'e' ∷ b'c' ∷ b'i' ∷ b'f' ∷ b'i' ∷ b'e' ∷ b'd' ∷ b' ' ∷ b'f' ∷ b'a'
    ∷ b'i' ∷ b'l' ∷ b'u' ∷ b'r' ∷ b'e' ∷ []

-- `walletBalanceFailureError`
abbrev pub failure_error : WalletBalanceFailure → Error
failure_error f =
    reported f.account f.asset (if length f.message == 0 then unspecified else f.message)

abbrev pub report : ChainScan → Error → ChainScan
report c e = record c { provider_errors = c.provider_errors ++ e ∷ [] }
