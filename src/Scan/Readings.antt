-- ===== src/Scan/Readings.antt =====
-- The accounts that a deployment reads, and what it makes of them (engine.go).
use Prim.Native.String.{String}
use sentio_portfolio.Common.{
  ℕ, ◌≡◌, refl, ◌∙◌, Bool, true, false, List, [], ◌∷◌, ◌++◌, Option, none, some, if◌then◌else◌,
  Option-cases, inl, inr,
}
use mathlib.Core.List.{append-nil, append_assoc}
use sentio_portfolio.Accounts.{Account}
use sentio_portfolio.Wallet.{Group}
use sentio_portfolio.Scan.{attributed_groups, join, read_accounts}

module _ (wallet : Bool) (read : Account → List Group × Option String) where
  -- The accounts up to the first that fails, or all for the wallet.
  abbrev pub reached : List Account → List Account
  reached [] = []
  reached (a ∷ accounts) =
      let rest = reached accounts in
      a ∷ elim (read a).1 [ none ↦ rest | some e ↦ if wallet then rest else [] ]

module _ (read : Account → List Group × Option String) (root : ℕ) where
  abbrev pub groups_of : List Account → List Group
  groups_of [] = []
  groups_of (a ∷ accounts) = attributed_groups (read a).0 a root ++ groups_of accounts

  abbrev pub first_failure : List Account → Option String
  first_failure [] = none
  first_failure (a ∷ accounts) = elim (read a).1 [ none ↦ first_failure accounts | some e ↦ some e ]

  abbrev or_later : Option String → Option String → Option String
  or_later none later = later
  or_later (some e) later = some e

  or_later-none : (f : Option String) → or_later f none ≡ f
  or_later-none none = refl
  or_later-none (some e) = refl

  or_later-join :
      (f : Option String) (e : String) (later : Option String)
      → or_later (join f e) later ≡ or_later f (some e)
  or_later-join none e later = refl
  or_later-join (some d) e later = refl

  or_later_one : (f : Option String) (e : String) → join f e ≡ or_later f (some e)
  or_later_one none e = refl
  or_later_one (some d) e = refl

  loop_lem :
      (wallet : Bool) (accounts : List Account) (groups : List Group) (failed : Option String)
      → read_accounts wallet read root accounts groups failed ≡ (
        groups ++ groups_of (reached wallet read accounts),
        or_later failed (first_failure (reached wallet read accounts)),
      )
  unfolding read_accounts
  loop_lem wallet [] groups failed = cc (append-nil groups, or_later-none failed)
  loop_lem true (a ∷ accounts) groups failed = elim (Option-cases (read a).1) [
    | inl fine ↦
        rw (read_accounts, fine)
          (loop_lem true accounts (groups ++ attributed_groups (read a).0 a root) failed
            ∙ cc (
                append_assoc groups (attributed_groups (read a).0 a root)
                  (groups_of (reached true read accounts))))
    | inr (e, fails) ↦
        rw (read_accounts, fails)
          (loop_lem true accounts (groups ++ attributed_groups (read a).0 a root) (join failed e)
            ∙ cc (
              append_assoc groups (attributed_groups (read a).0 a root)
                  (groups_of (reached true read accounts)),
              or_later-join failed e (first_failure (reached true read accounts)),
            ))
  ]
  loop_lem false (a ∷ accounts) groups failed = elim (Option-cases (read a).1) [
    | inl fine ↦
        rw (read_accounts, fine)
          (loop_lem false accounts (groups ++ attributed_groups (read a).0 a root) failed
            ∙ cc (
                append_assoc groups (attributed_groups (read a).0 a root)
                  (groups_of (reached false read accounts))))
    | inr (e, fails) ↦
        rw (read_accounts, fails)
          (cc (append-nil (attributed_groups (read a).0 a root), or_later_one failed e))
  ]

-- A deployment's groups and its error. The groups are those of the accounts that are reached, in their order and each
-- attributed to its account, and the error is the first failure among them. The wallet reaches every account;
-- another protocol reaches those up to the first that fails, whose groups it keeps.
pub read_accounts_lem :
    (wallet : Bool) (read : Account → List Group × Option String) (root : ℕ)
    (accounts : List Account)
    → read_accounts wallet read root accounts [] none ≡ (
      groups_of read root (reached wallet read accounts),
      first_failure read root (reached wallet read accounts),
    )
read_accounts_lem wallet read root accounts = loop_lem read root wallet accounts [] none
