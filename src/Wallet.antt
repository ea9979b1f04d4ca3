-- ===== src/Wallet.antt =====
-- wallet.go: which token contracts the protocols' snapshots already count for an account, and the removal of
-- those tokens from the wallet's snapshots. Addresses are numbers, the zero address is 0; texts are
-- byte lists. A set of contracts per scope is a list of holdings.
pub mod Held
pub mod Counted
pub mod Clean
pub mod Suppress
mod Tests
use Prim.Native.String.{String}
use sentio_portfolio.Common.{
  ℕ, zero, suc, Bool, true, false, not, ◌&&◌, ◌||◌, List, [], ◌∷◌, ◌++◌, Option, none, some, ◌==◌,
  length, if◌then◌else◌, map,
}
use sentio_portfolio.Common.Assoc.{string_key}

pub record Source : Type 0 where
  pub contract : ℕ
  pub method : List ℕ
  -- `none` is a nil slice.
  pub holds : Option (List ℕ)

-- The parts of a component that are read here.
pub record Component : Type 0 where
  pub token_address : ℕ
  pub source : Source

-- Of a group's metadata, the entries "attributedAccount", where it is an address, and "holding".
pub record Group : Type 0 where
  pub attributed_account : Option ℕ
  pub holding : Option String
  pub components : List Component

pub record Snapshot : Type 0 where
  pub protocol_id : String
  pub chain_id : ℕ
  pub account : ℕ
  pub groups : List Group

abbrev pub is_wallet : Snapshot → Bool
is_wallet s = string_key.beq s.protocol_id "wallet"

pub group_account : Snapshot → Group → ℕ
group_account s g = elim g.attributed_account [ none ↦ s.account | some account ↦ account ]

unfoldable pub starts_with : List ℕ → List ℕ → Bool
starts_with [] text = true
starts_with (c ∷ cs) [] = false
starts_with (c ∷ cs) (d ∷ ds) = (c == d) && starts_with cs ds

-- `strings.Contains`
unfoldable pub contains_text : List ℕ → List ℕ → Bool
unfolding starts_with
contains_text part [] = starts_with part []
contains_text part (c ∷ cs) = starts_with part (c ∷ cs) || contains_text part cs

abbrev pub balance_of : List ℕ
balance_of = b'b' ∷ b'a' ∷ b'l' ∷ b'a' ∷ b'n' ∷ b'c' ∷ b'e' ∷ b'O' ∷ b'f' ∷ []

unfoldable pub held_contracts : Source → List ℕ
unfolding contains_text
held_contracts source = elim source.holds [
  | some holds ↦ holds
  | none ↦
      if source.contract == 0 || not (contains_text balance_of source.method)
      then []
      else source.contract ∷ []
]

-- A contract held for an account on a chain: `holdingScope` and an entry of its set.
pub record Holding : Type 0 where
  pub chain_id : ℕ
  pub account : ℕ
  pub contract : ℕ

abbrev pub holding_in : Snapshot → Group → ℕ → Holding
unfolding group_account
holding_in s g contract = record {
  chain_id = s.chain_id;
  account = group_account s g;
  contract = contract;
}

pub component_holdings : Snapshot → Group → List Component → List Holding
unfolding held_contracts
component_holdings s g [] = []
component_holdings s g (c ∷ cs) =
    map (holding_in s g) (held_contracts c.source) ++ component_holdings s g cs

pub group_holdings : Snapshot → List Group → List Holding
unfolding component_holdings
group_holdings s [] = []
group_holdings s (g ∷ gs) = component_holdings s g g.components ++ group_holdings s gs

pub wallet_held_contracts : List Snapshot → List Holding
unfolding group_holdings
wallet_held_contracts [] = []
wallet_held_contracts (s ∷ ss) =
    let rest = wallet_held_contracts ss in
    if is_wallet s then rest else group_holdings s s.groups ++ rest

abbrev pub same_holding : Holding → Holding → Bool
same_holding a b =
    (a.chain_id == b.chain_id) && (a.account == b.account) && (a.contract == b.contract)

pub is_held : Holding → List Holding → Bool
is_held h [] = false
is_held h (k ∷ held) = same_holding k h || is_held h held

-- The one token of a group that is a token holding.
pub held_token : Group → Option ℕ
held_token g = elim g.components [
  | [] ↦ none
  | c ∷ cs ↦
      if length cs == 0 && elim g.holding [ none ↦ false | some h ↦ string_key.beq h "token" ]
      then some c.token_address
      else none
]

pub is_duplicate : List Holding → Snapshot → Group → Bool
unfolding is_held held_token
is_duplicate held s g = elim (held_token g) [
  | none ↦ false
  | some address ↦ is_held (holding_in s g address) held
]

pub kept_groups : List Holding → Snapshot → List Group → List Group
unfolding is_duplicate
kept_groups held s [] = []
kept_groups held s (g ∷ gs) =
    let rest = kept_groups held s gs in if is_duplicate held s g then rest else g ∷ rest

abbrev pub with_groups : Snapshot → List Group → List Snapshot → List Snapshot
with_groups s [] rest = rest
with_groups s (g ∷ gs) rest = record s { groups = g ∷ gs } ∷ rest

-- The loop over the snapshots.
pub suppress : List Holding → List Snapshot → List Snapshot
unfolding kept_groups
suppress held [] = []
suppress held (s ∷ ss) =
    let rest = suppress held ss in
    if not (is_wallet s) || length held == 0
    then s ∷ rest
    else with_groups s (kept_groups held s s.groups) rest

pub suppress_duplicate_holdings : List Snapshot → List Snapshot
unfolding suppress wallet_held_contracts
suppress_duplicate_holdings ss = suppress (wallet_held_contracts ss) ss
