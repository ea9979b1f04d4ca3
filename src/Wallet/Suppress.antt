-- ===== src/Wallet/Suppress.antt =====
-- The wallet's groups after the removal, against those that are counted elsewhere (wallet.go).
use sentio_portfolio.Common.{
  filter, ◌≡◌, refl, sym, ◌∙◌, subst, Bool, true, false, not, List, map, [], ◌∷◌, ◌++◌, ◌==◌,
  length, if◌then◌else◌, Bool-cases, inl, inr, All,
}
use sentio_portfolio.Wallet.{
  Snapshot, Group, Holding, is_wallet, is_duplicate, suppress, with_groups, kept_groups,
  wallet_held_contracts, suppress_duplicate_holdings,
}
use sentio_portfolio.Wallet.Held.{protocol_snapshots, suppress-protocols, suppress-held}
use sentio_portfolio.Wallet.Counted.{Entry, counted_elsewhere, duplicate-counted}
use sentio_portfolio.Wallet.Clean.{Clean, none_duplicates, suppress-Clean, kept-All, suppress_again}

-- The groups of the wallet's snapshots, in order, each with its chain and account.
abbrev entries_of : Snapshot → List Group → List Entry
entries_of s gs = map (λ g. (s.chain_id, s.account, g)) gs

abbrev pub wallet_entries : List Snapshot → List Entry
wallet_entries [] = []
wallet_entries (s ∷ ss) =
    if is_wallet s then entries_of s s.groups ++ wallet_entries ss else wallet_entries ss

-- Those that the code keeps.
abbrev new_entries : List Holding → List Snapshot → List Entry
new_entries held [] = []
new_entries held (s ∷ ss) =
    if is_wallet s
    then entries_of s (kept_groups held s s.groups) ++ new_entries held ss
    else new_entries held ss

with_groups-entries :
    (s : Snapshot) (gs : List Group) (rest : List Snapshot)
    → is_wallet s ≡ true
    → wallet_entries (with_groups s gs rest) ≡ entries_of s gs ++ wallet_entries rest
with_groups-entries s [] rest w = refl
with_groups-entries s (g ∷ gs) rest w = rw w refl

suppress-entries :
    (held : List Holding) (ss : List Snapshot)
    → wallet_entries (suppress held ss) ≡ new_entries held ss
unfolding suppress
suppress-entries held [] = refl
suppress-entries held (s ∷ ss) = elim (Bool-cases (is_wallet s)) [
  | inr other ↦ rw (other, other) (suppress-entries held ss)
  | inl w ↦ elim (Bool-cases (length held == 0)) [
    | inl none_held ↦
        rw
          (
            w,
            none_held,
            w,
            suppress-entries held ss,
            kept-All held s s.groups s.groups (none_duplicates held s s.groups none_held),
          )
          refl
    | inr some_held ↦
        rw
          (
            w,
            some_held,
            with_groups-entries s (kept_groups held s s.groups) (suppress held ss) w,
            suppress-entries held ss,
          )
          refl
  ]
]

-- An entry that no snapshot counts elsewhere.
abbrev pub is_new : List Snapshot → Entry → Bool
is_new ss e = not (counted_elsewhere ss e)

filter-append :
    {A : Type 0} (p : A → Bool) (xs ys : List A) → filter p (xs ++ ys) ≡ filter p xs ++ filter p ys
filter-append p [] ys = refl
filter-append p (x ∷ xs) ys = elim (Bool-cases (p x)) [
  | inl kept ↦ rw (kept, filter-append p xs ys) refl
  | inr dropped ↦ rw (dropped, filter-append p xs ys) refl
]

All-append : {A : Type 0} (P : A → Type 0) (xs ys : List A) → All P xs → All P ys → All P (xs ++ ys)
All-append P [] ys h k = k
All-append P (x ∷ xs) ys h k = (h.0, All-append P xs ys h.1 k)

module _ (all : List Snapshot) where
  kept_entries :
      (s : Snapshot) (gs : List Group)
      → entries_of s (kept_groups (wallet_held_contracts all) s gs)
        ≡ filter (is_new all) (entries_of s gs)
  unfolding kept_groups
  kept_entries s [] = refl
  kept_entries s (g ∷ gs) = elim (Bool-cases (is_duplicate (wallet_held_contracts all) s g)) [
    | inl again ↦ rw (again, sym (duplicate-counted all s g) ∙ again) (kept_entries s gs)
    | inr once ↦ rw (once, sym (duplicate-counted all s g) ∙ once, kept_entries s gs) refl
  ]

  new_entries-filter :
      (ss : List Snapshot)
      → new_entries (wallet_held_contracts all) ss ≡ filter (is_new all) (wallet_entries ss)
  new_entries-filter [] = refl
  new_entries-filter (s ∷ ss) = elim (Bool-cases (is_wallet s)) [
    | inr other ↦ rw other (new_entries-filter ss)
    | inl w ↦
        rw
          (
            w,
            filter-append (is_new all) (entries_of s s.groups) (wallet_entries ss),
            kept_entries s s.groups,
            new_entries-filter ss,
          )
          refl
  ]

  entries_uncounted :
      (s : Snapshot) (gs : List Group)
      → All (λ g. is_duplicate (wallet_held_contracts all) s g ≡ false) gs
      → All (λ e. counted_elsewhere all e ≡ false) (entries_of s gs)
  entries_uncounted s [] h = tt
  entries_uncounted s (g ∷ gs) h =
      (sym (duplicate-counted all s g) ∙ h.0, entries_uncounted s gs h.1)

  Clean-uncounted :
      (ss : List Snapshot)
      → Clean (wallet_held_contracts all) ss
      → All (λ e. counted_elsewhere all e ≡ false) (wallet_entries ss)
  Clean-uncounted [] h = tt
  Clean-uncounted (s ∷ ss) h = elim (Bool-cases (is_wallet s)) [
    | inr other ↦ rw other (Clean-uncounted ss h.1)
    | inl w ↦ rw w (
        All-append (λ e. counted_elsewhere all e ≡ false) (entries_of s s.groups)
          (wallet_entries ss) (entries_uncounted s s.groups (h.0 w)) (Clean-uncounted ss h.1))
  ]

-- The removal leaves the snapshots of the other protocols as they are and in their order, and keeps, in their
-- order, exactly the wallet's groups that are not counted elsewhere: a group is when it is marked as a token,
-- has one component, and in a snapshot of another protocol on its chain a group of its account has a
-- component that holds the token's contract, which it declares or else reads a balance of. No group of
-- the wallet that is left is counted elsewhere in the result, and a second removal changes nothing.
pub suppress_duplicate_holdings_lem :
    (ss : List Snapshot)
    → let out = suppress_duplicate_holdings ss in
      (protocol_snapshots out ≡ protocol_snapshots ss)
      × (wallet_entries out ≡ filter (is_new ss) (wallet_entries ss))
      × All (λ e. counted_elsewhere out e ≡ false) (wallet_entries out)
      × (suppress_duplicate_holdings out ≡ out)
unfolding suppress_duplicate_holdings
suppress_duplicate_holdings_lem ss =
    let held = wallet_held_contracts ss in
    (
      suppress-protocols held ss,
      suppress-entries held ss ∙ new_entries-filter ss ss,
      Clean-uncounted (suppress held ss) (suppress held ss) (
          subst (λ k. Clean k (suppress held ss)) (sym (suppress-held held ss))
            (suppress-Clean held ss)),
      rw (suppress-held held ss) (suppress_again held ss),
    )
