-- ===== src/Wallet/Clean.antt =====
-- The removal leaves no duplicate by the code's own test, and a second one changes nothing (wallet.go).
use sentio_portfolio.Common.{
  ◌≡◌, refl, Bool, true, false, not, ◌||◌, List, [], ◌∷◌, ◌==◌, length, Bool-cases, Option-cases,
  inl, inr, All, arith,
}
use sentio_portfolio.Wallet.{
  Snapshot, Group, Holding, is_wallet, is_duplicate, holding_in, held_token, suppress, with_groups,
  kept_groups,
}

-- No wallet snapshot has a group of a token that is already held.
abbrev pub Clean : List Holding → List Snapshot → Type 0
Clean held = All (λ s. is_wallet s ≡ true → All (λ g. is_duplicate held s g ≡ false) s.groups)

same_duplicate :
    (held : List Holding) (s : Snapshot) (gs : List Group) (g : Group)
    → is_duplicate held (record s { groups = gs }) g ≡ is_duplicate held s g
unfolding is_duplicate holding_in
same_duplicate held s gs g = refl

kept_clean :
    (held : List Holding) (s : Snapshot) (gs hs : List Group)
    → All (λ g. is_duplicate held (record s { groups = hs }) g ≡ false) (kept_groups held s gs)
unfolding kept_groups is_duplicate holding_in
kept_clean held s [] hs = tt
kept_clean held s (g ∷ gs) hs = elim (Bool-cases (is_duplicate held s g)) [
  | inl dup ↦ rw dup (kept_clean held s gs hs)
  | inr new ↦ rw new (new, kept_clean held s gs hs)
]

none_duplicate :
    (held : List Holding) (s : Snapshot) (g : Group)
    → (length held == 0) ≡ true
    → is_duplicate held s g ≡ false
unfolding is_duplicate
none_duplicate [] s g h = elim (Option-cases (held_token g)) [
  | inl e ↦ rw (is_duplicate, e) refl
  | inr (address, e) ↦ rw (is_duplicate, e) refl
]
none_duplicate (k ∷ held) s g h = ground arith

pub none_duplicates :
    (held : List Holding) (s : Snapshot) (gs : List Group)
    → (length held == 0) ≡ true
    → All (λ g. is_duplicate held s g ≡ false) gs
none_duplicates held s [] h = tt
none_duplicates held s (g ∷ gs) h = (none_duplicate held s g h, none_duplicates held s gs h)

with_groups-Clean :
    (held : List Holding) (s : Snapshot) (gs : List Group) (rest : List Snapshot)
    → All (λ g. is_duplicate held (record s { groups = gs }) g ≡ false) gs
    → Clean held rest
    → Clean held (with_groups s gs rest)
with_groups-Clean held s [] rest h clean = clean
with_groups-Clean held s (g ∷ gs) rest h clean = (λ w. h, clean)

true_not_false : {b : Bool} → b ≡ true → b ≡ false → ⊥
true_not_false h k = cc

pub suppress-Clean : (held : List Holding) (ss : List Snapshot) → Clean held (suppress held ss)
unfolding suppress
suppress-Clean held [] = tt
suppress-Clean held (s ∷ ss) = elim (Bool-cases (is_wallet s)) [
  | inr other ↦ rw other (λ w. absurd (true_not_false w other), suppress-Clean held ss)
  | inl w ↦ elim (Bool-cases (length held == 0)) [
    | inl none_held ↦
        rw (w, none_held) (λ w. none_duplicates held s s.groups none_held, suppress-Clean held ss)
    | inr some_held ↦
        rw (w, some_held)
          (with_groups-Clean held s (kept_groups held s s.groups) (suppress held ss)
            (kept_clean held s s.groups (kept_groups held s s.groups)) (suppress-Clean held ss))
  ]
]

pub kept-All :
    (held : List Holding) (s : Snapshot) (gs hs : List Group)
    → All (λ g. is_duplicate held (record s { groups = hs }) g ≡ false) gs
    → kept_groups held (record s { groups = hs }) gs ≡ gs
unfolding kept_groups
kept-All held s [] hs h = refl
kept-All held s (g ∷ gs) hs h = rw (h.0, kept-All held s gs hs h.1) refl

with_groups_again :
    (held : List Holding) (s : Snapshot) (gs : List Group) (rest : List Snapshot)
    → All (λ g. is_duplicate held (record s { groups = gs }) g ≡ false) gs
    → suppress held rest ≡ rest
    → suppress held (with_groups s gs rest) ≡ with_groups s gs rest
unfolding suppress
with_groups_again held s [] rest h again = again
with_groups_again held s (g ∷ gs) rest h again =
    elim (Bool-cases (not (is_wallet s) || length held == 0)) [
      | inl whole ↦ rw (whole, again) refl
      | inr part ↦ rw (part, again, kept-All held s (g ∷ gs) (g ∷ gs) h) refl
    ]

pub suppress_again :
    (held : List Holding) (ss : List Snapshot) → suppress held (suppress held ss) ≡ suppress held ss
unfolding suppress
suppress_again held [] = refl
suppress_again held (s ∷ ss) = elim (Bool-cases (not (is_wallet s) || length held == 0)) [
  | inl whole ↦ rw (whole, whole, suppress_again held ss) refl
  | inr part ↦ rw part (
      with_groups_again held s (kept_groups held s s.groups) (suppress held ss)
        (kept_clean held s s.groups (kept_groups held s s.groups)) (suppress_again held ss))
]
