-- ===== src/Balances.antt =====
-- receipt.go and lst.go: positions that are a token balance of the account, as it is or converted by a
-- contract. The contract calls are parameters, with `none` for a call that fails or does not decode.
-- A group has one component here and is modelled with it.
pub mod Receipts
pub mod Provenance
mod Tests
use sentio_portfolio.Common.{
  ℕ, zero, suc, Bool, true, false, not, List, [], ◌∷◌, ◌++◌, map, Option, none, some, ltb, ◌==◌,
  length, if◌then◌else◌, Outcome, ok, err, panic, ◌>>=◌,
}
use sentio_portfolio.Wallet.{Source, balance_of}

pub record Token : Type 0 where
  pub chain_id : ℕ
  pub address : ℕ
  pub symbol : List ℕ
  pub decimals : ℕ

-- A group with its asset component; `shares` is the metadata of a converted balance.
pub record Balance : Type 0 where
  pub id : List ℕ
  pub label : List ℕ
  pub token : Token
  pub amount : ℕ
  pub source : Source
  pub shares : Option ℕ

pub data Error : Type 0 where
  calls_failed balance_failed conversion_failed : Error

-- `receiptPosition`
pub record ReceiptPosition : Type 0 where
  pub id : List ℕ
  pub label : List ℕ
  pub receipt : Token
  pub activation_block : ℕ

pub active_positions : ℕ → List ReceiptPosition → List ReceiptPosition
active_positions block [] = []
active_positions block (p ∷ ps) =
    let rest = active_positions block ps in if ltb block p.activation_block then rest else p ∷ rest

abbrev pub read_balance : ℕ → Source
read_balance contract = record { contract = contract; method = balance_of; holds = none }

abbrev pub receipt_balance : ReceiptPosition → ℕ → Balance
receipt_balance p amount = record {
  id = p.id;
  label = p.label;
  token = p.receipt;
  amount = amount;
  source = read_balance p.receipt.address;
  shares = none;
}

-- The loop over the rows, with the active position of each row's index.
pub row_balances : List (Option ℕ) → List ReceiptPosition → Outcome Error (List Balance)
row_balances [] ps = ok []
row_balances (none ∷ rows) [] = panic
row_balances (none ∷ rows) (p ∷ ps) = err balance_failed
row_balances (some amount ∷ rows) [] = if amount == 0 then row_balances rows [] else panic
row_balances (some amount ∷ rows) (p ∷ ps) = do
  rest ← row_balances rows ps
  ok (if amount == 0 then rest else receipt_balance p amount ∷ rest)

abbrev pub all_rows : Option (List (Option ℕ)) → Outcome Error (List (Option ℕ))
all_rows none = err calls_failed
all_rows (some rows) = ok rows

abbrev pub receipt_address : ReceiptPosition → ℕ
receipt_address p = p.receipt.address

-- `calls` are the `balanceOf` calls of the contracts, made together.
pub read_receipt_positions :
    (List ℕ → Option (List (Option ℕ))) → ℕ → List ReceiptPosition → Outcome Error (List Balance)
unfolding active_positions row_balances
read_receipt_positions calls block positions =
    let active = active_positions block positions in
    if length active == 0
    then ok []
    else (all_rows (calls (map receipt_address active)) >>= λ rows. row_balances rows active)

-- `convertedBalancePosition`
pub record ConvertedPosition : Type 0 where
  pub id : List ℕ
  pub label : List ℕ
  pub balance_contract : ℕ
  pub converter : ℕ
  pub method : List ℕ
  pub token : Token
  pub activation_block : ℕ

pub record Client : Type 0 where
  pub balance : ℕ → Option ℕ
  pub convert : ℕ → List ℕ → ℕ → Option ℕ

abbrev pub or_err : Option ℕ → Error → Outcome Error ℕ
or_err none e = err e
or_err (some n) e = ok n

-- The method's name, with "(balanceOf)" after it.
abbrev pub converted_source : ConvertedPosition → Source
converted_source p = record {
  contract = p.balance_contract;
  method = p.method ++ (b'(' ∷ balance_of) ++ (b')' ∷ []);
  holds = none;
}

-- The balance of a position whose shares are not zero: the shares as they are, or what the converter
-- makes of them when the position names a method.
abbrev pub plain_balance : ConvertedPosition → ℕ → Balance
plain_balance p shares = record {
  id = p.id;
  label = p.label;
  token = p.token;
  amount = shares;
  source = read_balance p.balance_contract;
  shares = none;
}

abbrev pub balance_of_shares : ConvertedPosition → ℕ → ℕ → Balance
balance_of_shares p shares amount = record {
  id = p.id;
  label = p.label;
  token = p.token;
  amount = amount;
  source = converted_source p;
  shares = some shares;
}

pub called_balance : Client → ConvertedPosition → ℕ → Outcome Error Balance
called_balance client p shares = do
  amount ← or_err (client.convert p.converter p.method shares) conversion_failed
  ok (balance_of_shares p shares amount)

pub converted_balance : Client → ConvertedPosition → ℕ → Outcome Error Balance
unfolding called_balance
converted_balance client p shares =
    if length p.method == 0 then ok (plain_balance p shares) else called_balance client p shares

pub read_shares : Client → ConvertedPosition → ℕ → Outcome Error (Option Balance)
unfolding converted_balance
read_shares client p shares =
    if shares == 0 then ok none else (converted_balance client p shares >>= λ b. ok (some b))

-- One pass of the loop: the group that it appends, if any.
pub read_converted : Client → ℕ → ConvertedPosition → Outcome Error (Option Balance)
unfolding read_shares
read_converted client block p =
    if ltb block p.activation_block
    then ok none
    else (or_err (client.balance p.balance_contract) balance_failed >>= read_shares client p)

abbrev pub with_balance : Option Balance → List Balance → List Balance
with_balance none bs = bs
with_balance (some b) bs = b ∷ bs

pub read_converted_balance_positions :
    Client → ℕ → List ConvertedPosition → Outcome Error (List Balance)
unfolding read_converted
read_converted_balance_positions client block [] = ok []
read_converted_balance_positions client block (p ∷ ps) = do
  one ← read_converted client block p
  rest ← read_converted_balance_positions client block ps
  ok (with_balance one rest)
