-- ===== src/Balances/Receipts.antt =====
-- The receipts' balances, read together, against reading them one by one (receipt.go).
use sentio_portfolio.Common.{
  ℕ, ◌≡◌, refl, ◌∙◌, List, [], ◌∷◌, map, Option, none, some, ltb, ◌==◌, length, if◌then◌else◌,
  Outcome, ok, err, ◌>>=◌, Bool-cases, Option-cases, inl, inr, arith,
}
use sentio_portfolio.Balances.{
  Balance, ReceiptPosition, Error, balance_failed, active_positions, row_balances, receipt_balance,
  receipt_address, read_receipt_positions,
}

-- The active positions in turn: a balance that cannot be read is an error, a zero balance is left out.
abbrev pub one_by_one : (ℕ → Option ℕ) → ℕ → List ReceiptPosition → Outcome Error (List Balance)
one_by_one balance block [] = ok []
one_by_one balance block (p ∷ ps) =
    let rest = one_by_one balance block ps in
    if ltb block p.activation_block then rest else with_row p (balance p.receipt.address) rest
  where
    with_row :
        ReceiptPosition → Option ℕ → Outcome Error (List Balance) → Outcome Error (List Balance)
    with_row p none rest = err balance_failed
    with_row p (some amount) rest =
        rest >>= λ bs. ok (if amount == 0 then bs else receipt_balance p amount ∷ bs)

rows_of_active :
    (balance : ℕ → Option ℕ) (block : ℕ) (ps : List ReceiptPosition)
    → row_balances
        (map balance (map receipt_address (active_positions block ps)))
        (active_positions block ps)
      ≡ one_by_one balance block ps
unfolding active_positions row_balances
rows_of_active balance block [] = refl
rows_of_active balance block (p ∷ ps) = elim (Bool-cases (ltb block p.activation_block)) [
  | inl early ↦ rw early (rows_of_active balance block ps)
  | inr on ↦ elim (Option-cases (balance p.receipt.address)) [
    | inl e ↦ rw (on, e) refl
    | inr (amount, e) ↦ rw (on, e, rows_of_active balance block ps) refl
  ]
]

none_active :
    (balance : ℕ → Option ℕ) (ps : List ReceiptPosition)
    → (if length ps == 0 then ok [] else row_balances (map balance (map receipt_address ps)) ps)
      ≡ row_balances (map balance (map receipt_address ps)) ps
unfolding row_balances
none_active balance [] = refl
none_active balance (p ∷ ps) = ground arith

-- When the calls made together give each contract's balance in order, the positions read are those that reading
-- one active contract after the other gives, errors included.
pub read_receipt_positions_lem :
    (calls : List ℕ → Option (List (Option ℕ))) (balance : ℕ → Option ℕ) (block : ℕ)
    (positions : List ReceiptPosition)
    → ((contracts : List ℕ) → calls contracts ≡ some (map balance contracts))
    → read_receipt_positions calls block positions ≡ one_by_one balance block positions
unfolding read_receipt_positions
read_receipt_positions_lem calls balance block positions answers =
    let active = active_positions block positions in
    rw (answers (map receipt_address active))
      (none_active balance active ∙ rows_of_active balance block positions)
