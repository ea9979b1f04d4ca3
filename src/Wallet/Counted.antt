-- ===== src/Wallet/Counted.antt =====
-- Which of the wallet's groups the protocols' snapshots count already, said directly (wallet.go).
use Prim.Native.String.{String}
use sentio_portfolio.Common.{
  any, ℕ, ◌≡◌, refl, ap, ◌∙◌, Bool, true, false, not, ◌&&◌, ◌||◌, List, [], ◌∷◌, ◌++◌, map, Option,
  none, some, ◌==◌, length, if◌then◌else◌, Bool-cases, inl, inr, arith,
}
use sentio_portfolio.Common.Assoc.{string_key}
use sentio_portfolio.Wallet.{
  contains_text, balance_of, Source, Snapshot, Group, Component, Holding, is_wallet, group_account,
  held_contracts, holding_in, component_holdings, group_holdings, wallet_held_contracts,
  same_holding, is_held, held_token, is_duplicate,
}

-- The account that a group is of, given that of its snapshot.
abbrev pub owner : ℕ → Option ℕ → ℕ
owner account none = account
owner account (some attributed) = attributed

-- A group of one token of the wallet, by its mark and its components.
abbrev pub is_token : Option String → List Component → Bool
is_token none cs = false
is_token (some mark) [] = false
is_token (some mark) (c ∷ []) = string_key.beq mark "token"
is_token (some mark) (c ∷ d ∷ cs) = false

-- Whether a source holds a contract: one that it declares, or else its own where that is not zero and its
-- method reads a balance.
abbrev pub source_counts : Option (List ℕ) → ℕ → List ℕ → ℕ → Bool
source_counts (some declared) own method contract = any (λ k. k == contract) declared
source_counts none own method contract =
    not (own == 0) && (contains_text balance_of method && (own == contract))

abbrev pub holds_in : ℕ → Component → Bool
holds_in contract c = source_counts c.source.holds c.source.contract c.source.method contract

-- Whether a snapshot counts a contract for an account on a chain: it is none of the wallet's, and a component
-- of a group of that account holds the contract.
abbrev pub group_counts : ℕ → ℕ → ℕ → Group → Bool
group_counts snapshot_account account contract g =
    (owner snapshot_account g.attributed_account == account) && any (holds_in contract) g.components

abbrev pub counts : ℕ → ℕ → ℕ → Snapshot → Bool
counts chain_id account contract t =
    not (is_wallet t)
    && ((t.chain_id == chain_id) && any (group_counts t.account account contract) t.groups)

-- A group of the wallet, with the chain and the account of its snapshot.
abbrev pub Entry : Type 0
Entry = ℕ × ℕ × Group

-- Whether some snapshot counts the token of a wallet's group already.
abbrev pub counted_elsewhere : List Snapshot → Entry → Bool
counted_elsewhere ss (chain_id, account, g) =
    is_token g.holding g.components
    && any (λ c. any (counts chain_id (owner account g.attributed_account) c.token_address) ss)
        g.components

owner-account :
    (s : Snapshot) (g : Group) → group_account s g ≡ owner s.account g.attributed_account
unfolding group_account
owner-account s g = at g.attributed_account
  where
    at : (o : Option ℕ) → (elim o [ none ↦ s.account | some a ↦ a ]) ≡ owner s.account o
    at none = refl
    at (some a) = refl

source-counts :
    (source : Source) (contract : ℕ)
    → any (λ k. k == contract) (held_contracts source)
      ≡ source_counts source.holds source.contract source.method contract
unfolding held_contracts
source-counts source contract = at source.holds
  where
    at :
        (declared : Option (List ℕ))
        → any
            (λ k. k == contract)
            (elim declared [
              | some holds ↦ holds
              | none ↦
                  if source.contract == 0 || not (contains_text balance_of source.method)
                  then []
                  else source.contract ∷ []
            ])
          ≡ source_counts declared source.contract source.method contract
    at (some holds) = refl
    at none = ground arith

is_held-append :
    (h : Holding) (xs ys : List Holding) → is_held h (xs ++ ys) ≡ (is_held h xs || is_held h ys)
unfolding is_held
is_held-append h [] ys = refl
is_held-append h (x ∷ xs) ys = rw (is_held-append h xs ys) (or_assoc (same_holding x h) _ _)
  where
    or_assoc : (p q r : Bool) → (p || (q || r)) ≡ ((p || q) || r)
    or_assoc true q r = refl
    or_assoc false q r = refl

both_or : (p q r s : Bool) → ((p && (q && r)) || (p && (q && s))) ≡ (p && (q && (r || s)))
both_or true true r s = refl
both_or true false r s = refl
both_or false q r s = refl

same_or : (p q r s : Bool) → ((p && q && r) || (p && (q && s))) ≡ (p && (q && (r || s)))
same_or true true r s = refl
same_or true false r s = refl
same_or false q r s = refl

one_or : (p r s : Bool) → ((p && r) || (p && s)) ≡ (p && (r || s))
one_or true r s = refl
one_or false r s = refl

none_of : (p q : Bool) → false ≡ (p && (q && false))
none_of true true = refl
none_of true false = refl
none_of false q = refl

none_of_one : (p : Bool) → false ≡ (p && false)
none_of_one true = refl
none_of_one false = refl

module _ (h : Holding) (t : Snapshot) where
  contracts_held :
      (g : Group) (ks : List ℕ)
      → is_held h (map (holding_in t g) ks) ≡ (
          (t.chain_id == h.chain_id)
          && ((group_account t g == h.account) && any (λ k. k == h.contract) ks))
  unfolding is_held holding_in
  contracts_held g [] = none_of (t.chain_id == h.chain_id) (group_account t g == h.account)
  contracts_held g (k ∷ ks) =
      rw (contracts_held g ks)
        (same_or (t.chain_id == h.chain_id) (group_account t g == h.account) (k == h.contract) _)

  components_held :
      (g : Group) (cs : List Component)
      → is_held h (component_holdings t g cs) ≡ (
          (t.chain_id == h.chain_id)
          && ((group_account t g == h.account) && any (holds_in h.contract) cs))
  unfolding component_holdings is_held
  components_held g [] = none_of (t.chain_id == h.chain_id) (group_account t g == h.account)
  components_held g (c ∷ cs) =
      is_held-append h (map (holding_in t g) (held_contracts c.source)) (component_holdings t g cs)
      ∙ rw
          (
            contracts_held g (held_contracts c.source),
            components_held g cs,
            source-counts c.source h.contract,
          )
          (both_or (t.chain_id == h.chain_id) (group_account t g == h.account) _ _)

  groups_held :
      (gs : List Group)
      → is_held h (group_holdings t gs)
        ≡ ((t.chain_id == h.chain_id) && any (group_counts t.account h.account h.contract) gs)
  unfolding group_holdings is_held
  groups_held [] = none_of_one (t.chain_id == h.chain_id)
  groups_held (g ∷ gs) =
      is_held-append h (component_holdings t g g.components) (group_holdings t gs)
      ∙ rw (components_held g g.components, groups_held gs, owner-account t g)
          (one_or (t.chain_id == h.chain_id) (group_counts t.account h.account h.contract g)
            (any (group_counts t.account h.account h.contract) gs))

skip_wallet :
    (t : Snapshot) (ss : List Snapshot)
    → is_wallet t ≡ true
    → wallet_held_contracts (t ∷ ss) ≡ wallet_held_contracts ss
unfolding wallet_held_contracts
skip_wallet t ss w = rw w refl

take_protocol :
    (t : Snapshot) (ss : List Snapshot)
    → is_wallet t ≡ false
    → wallet_held_contracts (t ∷ ss) ≡ group_holdings t t.groups ++ wallet_held_contracts ss
unfolding wallet_held_contracts
take_protocol t ss other = rw other refl

nothing_held : (h : Holding) → is_held h (wallet_held_contracts []) ≡ false
unfolding wallet_held_contracts is_held
nothing_held h = refl

snapshots_held :
    (h : Holding) (ss : List Snapshot)
    → is_held h (wallet_held_contracts ss) ≡ any (counts h.chain_id h.account h.contract) ss
snapshots_held h [] = nothing_held h
snapshots_held h (t ∷ ss) = elim (Bool-cases (is_wallet t)) [
  | inl w ↦ ap (is_held h) (skip_wallet t ss w) ∙ snapshots_held h ss ∙ rw w refl
  | inr other ↦
      ap (is_held h) (take_protocol t ss other)
      ∙ is_held-append h (group_holdings t t.groups) (wallet_held_contracts ss)
      ∙ rw (groups_held h t t.groups, snapshots_held h ss, other) refl
]

-- The token of a group that is a token of the wallet.
abbrev token_of : Option String → List Component → Option ℕ
token_of none cs = none
token_of (some mark) [] = none
token_of (some mark) (c ∷ []) = if string_key.beq mark "token" then some c.token_address else none
token_of (some mark) (c ∷ d ∷ cs) = none

held_token_of : (g : Group) → held_token g ≡ token_of g.holding g.components
unfolding held_token
held_token_of g = at g.holding g.components
  where
    at :
        (mark : Option String) (cs : List Component)
        → (elim cs [
          | [] ↦ none
          | c ∷ cs ↦
              if length cs == 0 && elim mark [ none ↦ false | some h ↦ string_key.beq h "token" ]
              then some c.token_address
              else none
        ])
          ≡ token_of mark cs
    at none [] = refl
    at none (c ∷ []) = refl
    at none (c ∷ d ∷ cs) = ground arith
    at (some mark) [] = refl
    at (some mark) (c ∷ []) = refl
    at (some mark) (c ∷ d ∷ cs) = ground arith

module _ (test : ℕ → Bool) where
  abbrev tested : Option ℕ → Bool
  tested none = false
  tested (some address) = test address

  test_token :
      (mark : Option String) (cs : List Component)
      → tested (token_of mark cs) ≡ (is_token mark cs && any (λ c. test c.token_address) cs)
  test_token none cs = refl
  test_token (some mark) [] = refl
  test_token (some mark) (c ∷ []) = elim (Bool-cases (string_key.beq mark "token")) [
    | inl is ↦ rw is (or_nothing (test c.token_address))
    | inr not_one ↦ rw not_one refl
  ]
    where
      or_nothing : (b : Bool) → b ≡ (b || false)
      or_nothing true = refl
      or_nothing false = refl
  test_token (some mark) (c ∷ d ∷ cs) = refl

duplicate_tested :
    (held : List Holding) (s : Snapshot) (g : Group)
    → is_duplicate held s g
      ≡ tested (λ address. is_held (holding_in s g address) held) (held_token g)
unfolding is_duplicate
duplicate_tested held s g = at (held_token g)
  where
    at :
        (o : Option ℕ)
        → (elim o [ none ↦ false | some address ↦ is_held (holding_in s g address) held ])
          ≡ tested (λ address. is_held (holding_in s g address) held) o
    at none = refl
    at (some address) = refl

any-cong : {A : Type 0} (p q : A → Bool) (xs : List A) → ((x : A) → p x ≡ q x) → any p xs ≡ any q xs
any-cong p q [] same = refl
any-cong p q (x ∷ xs) same = rw (same x, any-cong p q xs same) refl

-- The code's test of a duplicate, against all that the snapshots hold, is that of being counted elsewhere.
pub duplicate-counted :
    (ss : List Snapshot) (s : Snapshot) (g : Group)
    → is_duplicate (wallet_held_contracts ss) s g ≡ counted_elsewhere ss (s.chain_id, s.account, g)
unfolding holding_in
duplicate-counted ss s g =
    let held = wallet_held_contracts ss in
    duplicate_tested held s g
    ∙ ap (tested (λ address. is_held (holding_in s g address) held)) (held_token_of g)
    ∙ test_token (λ address. is_held (holding_in s g address) held) g.holding g.components
    ∙ ap (λ b. is_token g.holding g.components && b)
        (any-cong (λ c. is_held (holding_in s g c.token_address) held)
          (λ c. any (counts s.chain_id (owner s.account g.attributed_account) c.token_address) ss)
          g.components
          λ c.
            snapshots_held (holding_in s g c.token_address) ss
            ∙ ap (λ a. any (counts s.chain_id a c.token_address) ss) (owner-account s g))
