-- ===== src/Balances/Tests.antt =====
-- Runs of the code of receipt.go and lst.go, and their theorems at concrete positions.
use sentio_portfolio.Common.{
  ℕ, ◌-◌, ◌*◌, ◌≡◌, refl, none, some, Option, [], ◌∷◌, map, ok, err, ltb, if◌then◌else◌, arith,
}
use sentio_portfolio.Balances.{
  Token, ReceiptPosition, ConvertedPosition, Client, conversion_failed, receipt_balance,
  balance_of_shares, read_receipt_positions, read_converted_balance_positions,
}
use sentio_portfolio.Balances.Receipts.{one_by_one, read_receipt_positions_lem}
use sentio_portfolio.Balances.Provenance.{IsReading, read_converted_balance_positions-IsReading}

abbrev token : ℕ → Token
token address = record { chain_id = 1; address = address; symbol = []; decimals = 18 }

abbrev receipt : ℕ → ℕ → ReceiptPosition
receipt address block = record {
  id = b'a' ∷ [];
  label = [];
  receipt = token address;
  activation_block = block;
}

abbrev holder : ℕ → Option ℕ
holder contract = if ltb contract 10 then some (9 - contract) else none

one_held :
    read_receipt_positions
      (λ cs. some (map holder cs))
      50
      (receipt 9 0 ∷ receipt 8 50 ∷ receipt 7 51 ∷ [])
    ≡ ok (receipt_balance (receipt 8 50) 1 ∷ [])
unfolding read_receipt_positions
one_held = refl

read_receipt_positions_lem_example :
    read_receipt_positions (λ cs. some (map holder cs)) 50 (receipt 9 0 ∷ receipt 8 50 ∷ [])
    ≡ one_by_one holder 50 (receipt 9 0 ∷ receipt 8 50 ∷ [])
read_receipt_positions_lem_example =
    read_receipt_positions_lem (λ cs. some (map holder cs)) holder 50
      (receipt 9 0 ∷ receipt 8 50 ∷ []) (λ cs. refl)

abbrev wrapped : ConvertedPosition
wrapped = record {
  id = [];
  label = [];
  balance_contract = 5;
  converter = 6;
  method = b'm' ∷ [];
  token = token 3;
  activation_block = 0;
}

abbrev client : Client
client = record { balance = holder; convert = λ c m shares. some (shares * 2) }

converts :
    read_converted_balance_positions client 1 (wrapped ∷ [])
    ≡ ok (balance_of_shares wrapped 4 8 ∷ [])
unfolding read_converted_balance_positions
converts = refl

fails :
    read_converted_balance_positions
      (record { balance = holder; convert = λ c m s. none })
      1
      (wrapped ∷ [])
    ≡ err conversion_failed
unfolding read_converted_balance_positions
fails = refl

read_converted_balance_positions-IsReading_example :
    IsReading client 1 (wrapped ∷ []) (balance_of_shares wrapped 4 8 ∷ [])
read_converted_balance_positions-IsReading_example =
    read_converted_balance_positions-IsReading client 1 (wrapped ∷ [])
      (balance_of_shares wrapped 4 8 ∷ []) ((λ h. omega arith), tt) converts
