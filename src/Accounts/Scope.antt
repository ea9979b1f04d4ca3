-- ===== src/Accounts/Scope.antt =====
-- The accounts that an owner's scan reads (accounts.go).
use sentio_portfolio.Common.{
  ℕ, ◌≡◌, ◌≢◌, ◌≤◌, ◌<◌, refl, subst, sym, ap, ◌∙◌, false, some, List, [], ◌∷◌, arith, ok,
  Bool-cases, length, ◌==◌, ◌||◌, ◌↔◌, inl, inr, map, >>=-eq-ok, ◌>>=◌, fail_if-passed,
  if◌then◌else◌, not, ltb,
}
use sentio_portfolio.Checkpoint.{BlockRef}
use sentio_portfolio.Availability.{active_at}
use sentio_portfolio.Availability.Table.{ethereum}
use sentio_portfolio.Accounts.{
  Client, Account, direct, derived, walk, linked, list_deployment, resolve_account_scope,
  linked_list, empty_list, too_many, empty_endpoint,
}
use sentio_portfolio.Accounts.Walk.{Links, Fresh, walk_sound, walk_complete, ok-injective, the_ok}

-- The list that the contract declares for the owner: `count` entries from `first` to `last`, whose
-- addresses are not zero and differ from each other and from the owner.
abbrev pub IsList : Client → ℕ → ℕ × ℕ × ℕ → List ℕ → Type 0
IsList client owner (first, last, count) xs =
    (count ≤ 256)
    × (length xs ≡ count)
    × (0 < count → 0 < last)
    × Links client last 0 first xs
    × Fresh client last (owner ∷ []) xs

list_complete :
    (client : Client) (owner first last : ℕ) (xs : List ℕ)
    → first ≢ 0
    → 0 < last
    → Links client last 0 first xs
    → Fresh client last (owner ∷ []) xs
    → linked_list client owner first last (length xs) ≡ ok (direct owner ∷ map derived xs)
unfolding linked_list
list_complete client owner first last xs present some_last links fresh =
    let ends : (first == 0 || last == 0) ≡ false = ground arith in
    rw (ends, walk_complete client last xs [] (owner ∷ []) 0 first (λ id h. cc) links fresh) refl

linked_complete :
    (client : Client) (owner first last : ℕ) (xs : List ℕ)
    → IsList client owner (first, last, length xs) xs
    → linked client owner (first, last, length xs) ≡ ok (direct owner ∷ map derived xs)
unfolding linked empty_list
linked_complete client owner first last [] (few, count, ends, links, fresh) = ground arith
linked_complete client owner first last (x ∷ xs) (few, count, ends, links, fresh) =
    ground (
      arith,
      list_complete client owner first last (x ∷ xs) links.0 (ends (omega arith)) links fresh,
    )

list_sound :
    (client : Client) (owner first last count : ℕ) (out : List Account)
    → linked_list client owner first last count ≡ ok out
    → (0 < last)
      × (xs : List ℕ) × (out ≡ direct owner ∷ map derived xs)
      × (length xs ≡ count)
      × Links client last 0 first xs
      × Fresh client last (owner ∷ []) xs
unfolding linked_list
list_sound client owner first last count out h =
    let (ends, h1) =
      fail_if-passed (first == 0 || last == 0) empty_endpoint
        (walk client last count [] (owner ∷ []) 0 first >>= λ rest. ok (direct owner ∷ rest)) h in
    let (rest, went, same) =
      >>=-eq-ok (walk client last count [] (owner ∷ []) 0 first) (λ rest. ok (direct owner ∷ rest))
        h1 in
    let (xs, shape, size, links, fresh) =
      walk_sound client last count [] (owner ∷ []) 0 first rest went in
    (
      ground arith,
      xs,
      sym (ok-injective same) ∙ ap (λ r. direct owner ∷ r) shape,
      size,
      links,
      fresh,
    )

linked_sound :
    (client : Client) (owner first last count : ℕ) (out : List Account)
    → linked client owner (first, last, count) ≡ ok out
    → (xs : List ℕ) × (out ≡ direct owner ∷ map derived xs)
      × IsList client owner (first, last, count) xs
unfolding linked empty_list
linked_sound client owner first last count out h =
    let (few, h1) =
      fail_if-passed (ltb 256 count) too_many
        (if count == 0
          then empty_list owner first last
          else linked_list client owner first last count)
        h in
    elim (Bool-cases (count == 0)) [
      | inl e ↦ (
        [],
        ground arith,
        (ground arith, ground arith, λ pos. ground arith, (ground arith, ground arith), tt),
      )
      | inr ne ↦
          (let went : linked_list client owner first last count ≡ ok out = ground arith in
            let (some_last, xs, shape, size, links, fresh) =
              list_sound client owner first last count out went in
            (xs, shape, (ground arith, size, λ pos. some_last, links, fresh)))
    ]

reads_list :
    (client : Client) (block : BlockRef) (owner : ℕ) (header : ℕ × ℕ × ℕ)
    → block.chain_id ≡ ethereum
    → 9_747_258 ≤ block.number
    → client.user_link ≡ some header
    → resolve_account_scope client block owner ≡ linked client owner header
unfolding resolve_account_scope active_at
reads_list client block owner header e le found =
    let here : (not (block.chain_id == ethereum) || not (active_at list_deployment block.number))
        ≡ false =
      ground arith in
    rw (here, found) refl

-- On Ethereum, from the block on where the list contract was deployed, the scan succeeds exactly when the
-- list that the contract declares for the owner is well formed: it has at most 256 entries, as many as declared,
-- each linked back to the one before it, from the declared first to the declared last, and
-- the addresses are not zero and differ from each other and from the owner. The accounts are then the
-- owner's and those of the list, in its order.
pub resolve_account_scope_iff :
    (client : Client) (block : BlockRef) (owner first last count : ℕ) (out : List Account)
    → block.chain_id ≡ ethereum
    → 9_747_258 ≤ block.number
    → client.user_link ≡ some (first, last, count)
    → (resolve_account_scope client block owner ≡ ok out) ↔ (
        (xs : List ℕ) × (out ≡ direct owner ∷ map derived xs)
        × IsList client owner (first, last, count) xs)
resolve_account_scope_iff client block owner first last count out e le found =
    let reads = reads_list client block owner (first, last, count) e le found in
    (
      λ h. linked_sound client owner first last count out (sym reads ∙ h),
      λ (xs, shape, list). reads ∙ complete xs shape list,
    )
  where
    complete :
        (xs : List ℕ)
        → out ≡ direct owner ∷ map derived xs
        → IsList client owner (first, last, count) xs
        → linked client owner (first, last, count) ≡ ok out
    complete xs shape list =
        subst
          (λ n.
            IsList client owner (first, last, n) xs → linked client owner (first, last, n) ≡ ok out)
          list.1 (λ l. linked_complete client owner first last xs l ∙ sym (ap the_ok shape)) list
