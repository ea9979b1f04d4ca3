-- ===== src/Accounts/Tests.antt =====
-- Runs of the code of accounts.go, and its theorem at a concrete list.
use sentio_portfolio.Common.{
  ℕ, ◌≡◌, ◌↔◌, refl, true, some, Option, List, [], ◌∷◌, arith, ok, err, map,
}
use sentio_portfolio.Common.Assoc.{lookup, nat_key}
use sentio_portfolio.Checkpoint.{BlockRef}
use sentio_portfolio.Accounts.{
  Client, Node, direct, derived, resolve_account_scope, wrong_tail, duplicate_address,
  inconsistent_edge,
}
use sentio_portfolio.Accounts.Scope.{IsList, resolve_account_scope_iff}

abbrev pin : ℕ → BlockRef
pin number = record { chain_id = 1; number = number; hash = 0; timestamp = 0; fixed = true }

-- Two accounts, of the ids 4 and 9.
abbrev node_of : ℕ → Option Node
node_of id = lookup id (
    (4, record { address = 77; previous = 0; next = 9 })
    ∷ (9, record { address = 88; previous = 4; next = 0 })
    ∷ [])

abbrev client : ℕ × ℕ × ℕ → Client
client header = record { user_link = some header; node = node_of }

two :
    resolve_account_scope (client (4, 9, 2)) (pin 10_000_000) 5
    ≡ ok (direct 5 ∷ derived 77 ∷ derived 88 ∷ [])
unfolding resolve_account_scope
two = refl

before : resolve_account_scope (client (4, 9, 2)) (pin 9_747_257) 5 ≡ ok (direct 5 ∷ [])
unfolding resolve_account_scope
before = refl

short : resolve_account_scope (client (4, 9, 1)) (pin 10_000_000) 5 ≡ err wrong_tail
unfolding resolve_account_scope
short = refl

own : resolve_account_scope (client (4, 9, 2)) (pin 10_000_000) 88 ≡ err duplicate_address
unfolding resolve_account_scope
own = refl

middle : resolve_account_scope (client (9, 9, 1)) (pin 10_000_000) 5 ≡ err inconsistent_edge
unfolding resolve_account_scope
middle = refl

resolve_account_scope_iff_example :
    (resolve_account_scope (client (4, 9, 2)) (pin 10_000_000) 5
      ≡ ok (direct 5 ∷ derived 77 ∷ derived 88 ∷ []))
    ↔ ((xs : List ℕ) × ((direct 5 ∷ derived 77 ∷ derived 88 ∷ []) ≡ direct 5 ∷ map derived xs)
        × IsList (client (4, 9, 2)) 5 (4, 9, 2) xs)
resolve_account_scope_iff_example =
    resolve_account_scope_iff (client (4, 9, 2)) (pin 10_000_000) 5 4 9 2
      (direct 5 ∷ derived 77 ∷ derived 88 ∷ []) refl (omega arith) refl
