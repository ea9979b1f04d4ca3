-- ===== src/Balances/Provenance.antt =====
-- What the read balances tell the wallet of the tokens that they count (receipt.go, lst.go, wallet.go).
use sentio_portfolio.Common.{
  ℕ, ◌≡◌, ◌≢◌, ◌⊎◌, ◌≤◌, ◌<◌, ==_iff, ok_injective, length, refl, ap, ◌∙◌, subst, Bool, true, false,
  List, [], ◌∷◌, ◌++◌, Option, none, some, ltb, ◌==◌, Outcome, ok, ◌>>=◌, >>=-eq-ok, Bool-cases,
  inl, inr, arith, All, ◌||◌,
}
use sentio_portfolio.Wallet.{Source, balance_of, contains_text, held_contracts}
use sentio_portfolio.Balances.{
  Client, Balance, ConvertedPosition, Error, read_balance, converted_source, balance_of_shares,
  called_balance, or_err, conversion_failed, balance_failed, read_shares, read_converted,
  converted_balance, with_balance, read_converted_balance_positions,
}

or_true : (b : Bool) → (b || true) ≡ true
or_true true = refl
or_true false = refl

contains_after :
    (m : List ℕ) → contains_text balance_of (m ++ (b'(' ∷ balance_of) ++ (b')' ∷ [])) ≡ true
unfolding contains_text
contains_after [] = refl
contains_after (c ∷ cs) = rw (contains_after cs) (or_true _)

-- The source tells the wallet of the one contract.
abbrev pub Counts : ℕ → Source → Type 0
Counts contract source = held_contracts source ≡ contract ∷ []

-- What a position's shares are worth: themselves where it names no method, or what its converter answers.
abbrev pub Worth : Client → ConvertedPosition → ℕ → ℕ → Type 0
Worth client p shares amount =
    ((p.method ≡ []) × (amount ≡ shares))
    ⊎ ((p.method ≢ []) × (client.convert p.converter p.method shares ≡ some amount))

-- A balance of a position's shares.
pub record IsBalanceOf (client : Client) (p : ConvertedPosition) (shares : ℕ) (b : Balance)
    : Type 0 where
  pub same_id : b.id ≡ p.id
  pub same_label : b.label ≡ p.label
  pub same_token : b.token ≡ p.token
  pub counts : Counts p.balance_contract b.source
  pub worth : Worth client p shares b.amount

-- Balances that are, in order, those of the positions that are active and have shares.
pub data IsReading (client : Client) (block : ℕ)
    : List ConvertedPosition → List Balance → Type 0 where
  over : IsReading client block [] []
  inactive :
      (p : ConvertedPosition) (ps : List ConvertedPosition) (bs : List Balance)
      → block < p.activation_block
      → IsReading client block ps bs
      → IsReading client block (p ∷ ps) bs
  empty :
      (p : ConvertedPosition) (ps : List ConvertedPosition) (bs : List Balance)
      → client.balance p.balance_contract ≡ some 0
      → IsReading client block ps bs
      → IsReading client block (p ∷ ps) bs
  counted :
      (p : ConvertedPosition) (ps : List ConvertedPosition) (b : Balance) (bs : List Balance)
      (shares : ℕ)
      → p.activation_block ≤ block
      → client.balance p.balance_contract ≡ some shares
      → shares ≢ 0
      → IsBalanceOf client p shares b
      → IsReading client block ps bs
      → IsReading client block (p ∷ ps) (b ∷ bs)

held_read : (contract : ℕ) → contract ≢ 0 → Counts contract (read_balance contract)
unfolding held_contracts contains_text
held_read contract ne = ground arith

held_converted :
    (p : ConvertedPosition)
    → p.balance_contract ≢ 0
    → Counts p.balance_contract (converted_source p)
unfolding held_contracts
held_converted p ne =
    let real : (p.balance_contract == 0) ≡ false = ground arith in
    rw (real, contains_after p.method) refl

no_method : {A : Type 0} (xs : List A) → (length xs == 0) ≡ true → xs ≡ []
no_method [] h = refl
no_method (x ∷ xs) h = absurd (ground arith)

some_method : {A : Type 0} (xs : List A) → (length xs == 0) ≡ false → xs ≢ []
some_method [] h = cc
some_method (x ∷ xs) h = λ e. cc

answered : (o : Option ℕ) (reason : Error) (n : ℕ) → or_err o reason ≡ ok n → o ≡ some n
answered none reason n h = cc
answered (some m) reason n h = cc

abbrev a_balance : Balance → Outcome Error Balance
a_balance b = ok b

module _ (client : Client) (p : ConvertedPosition) (real : p.balance_contract ≢ 0) where
  called_balance-IsBalanceOf :
      (shares : ℕ) (b : Balance)
      → p.method ≢ []
      → called_balance client p shares ≡ ok b
      → IsBalanceOf client p shares b
  unfolding called_balance
  called_balance-IsBalanceOf shares b named h =
      let (amount, converted, same) =
        >>=-eq-ok (or_err (client.convert p.converter p.method shares) conversion_failed)
          (λ n. a_balance (balance_of_shares p shares n)) h in
      subst (IsBalanceOf client p shares) (ok_injective same) (record {
        same_id = refl;
        same_label = refl;
        same_token = refl;
        counts = held_converted p real;
        worth = inr (named, answered _ conversion_failed amount converted);
      })

  converted_balance-IsBalanceOf :
      (shares : ℕ) (b : Balance)
      → converted_balance client p shares ≡ ok b
      → IsBalanceOf client p shares b
  unfolding converted_balance
  converted_balance-IsBalanceOf shares b = elim (Bool-cases (length p.method == 0)) [
    | inl plain ↦ rw plain λ h. subst (IsBalanceOf client p shares) (ok_injective h) (record {
      same_id = refl;
      same_label = refl;
      same_token = refl;
      counts = held_read p.balance_contract real;
      worth = inl (no_method p.method plain, refl);
    })
    | inr named ↦ rw named λ h. called_balance-IsBalanceOf shares b (some_method p.method named) h
  ]

  module _ (block : ℕ) (ps : List ConvertedPosition) (bs : List Balance)
      (rest : IsReading client block ps bs) where
    read_shares-IsReading :
        (shares : ℕ) (o : Option Balance)
        → p.activation_block ≤ block
        → client.balance p.balance_contract ≡ some shares
        → read_shares client p shares ≡ ok o
        → IsReading client block (p ∷ ps) (with_balance o bs)
    unfolding read_shares
    read_shares-IsReading shares o on held = elim (Bool-cases (shares == 0)) [
      | inl none_left ↦ rw none_left λ h.
          subst (λ o. IsReading client block (p ∷ ps) (with_balance o bs)) (ok_injective h)
            (IsReading.empty p ps bs (held ∙ ap some ((==_iff shares 0).0 none_left)) rest)
      | inr left ↦ rw left λ h.
          let (b, made, same) =
            >>=-eq-ok (converted_balance client p shares) (λ b. ok (some b)) h in
          subst (λ o. IsReading client block (p ∷ ps) (with_balance o bs)) (ok_injective same)
            (IsReading.counted p ps b bs shares on held (λ e. ground (arith, left, e))
              (converted_balance-IsBalanceOf shares b made) rest)
    ]

    read_converted-IsReading :
        (o : Option Balance)
        → read_converted client block p ≡ ok o
        → IsReading client block (p ∷ ps) (with_balance o bs)
    unfolding read_converted
    read_converted-IsReading o = elim (Bool-cases (ltb block p.activation_block)) [
      | inl before ↦ rw before λ h.
          subst (λ o. IsReading client block (p ∷ ps) (with_balance o bs)) (ok_injective h)
            (IsReading.inactive p ps bs (ground (arith, before)) rest)
      | inr on ↦ rw on λ h.
          let (shares, read, h1) =
            >>=-eq-ok (or_err (client.balance p.balance_contract) balance_failed)
              (read_shares client p) h in
          read_shares-IsReading shares o (ground (arith, on))
            (answered _ balance_failed shares read) h1
    ]

-- When no position's balance contract is the zero address, a read that succeeds gives, in order, one balance
-- for each position that is active and whose balance contract answers shares other than zero. It has the
-- position's id, label and token, it tells the wallet of the balance contract as held and of no other, and
-- its amount is the shares where the position names no method, and else what the converter answers.
pub read_converted_balance_positions-IsReading :
    (client : Client) (block : ℕ) (positions : List ConvertedPosition) (balances : List Balance)
    → All (λ p. p.balance_contract ≢ 0) positions
    → read_converted_balance_positions client block positions ≡ ok balances
    → IsReading client block positions balances
unfolding read_converted_balance_positions
read_converted_balance_positions-IsReading client block [] bs real h =
    subst (IsReading client block []) (ok_injective h) IsReading.over
read_converted_balance_positions-IsReading client block (p ∷ ps) bs real h =
    let (one, read, h1) =
      >>=-eq-ok (read_converted client block p)
        (λ o. read_converted_balance_positions client block ps >>= λ rest. ok (with_balance o rest))
        h in
    let (rest, others, same) =
      >>=-eq-ok (read_converted_balance_positions client block ps)
        (λ rest. ok (with_balance one rest)) h1 in
    subst (IsReading client block (p ∷ ps)) (ok_injective same) (
      read_converted-IsReading client p real.0 block ps rest
        (read_converted_balance_positions-IsReading client block ps rest real.1 others) one read)
