-- ===== src/Pricing/Queries.antt =====
-- The queries of a scan name each asset that it must quote once (pricing.go).
use sentio_portfolio.Common.{
  ℕ, ◌+◌, ◌≡◌, refl, sym, ap, ◌∙◌, Bool, true, false, not, ◌&&◌, ◌||◌, List, [], ◌∷◌, map, arith,
  ◌==◌, Bool-cases, inl, inr, count, one_if, count-append, All, ==_iff,
}
use sentio_portfolio.Common.Int.{ℤ}
use sentio_portfolio.Common.Sorting.{
  count-sort, sort-IsSorted, IsSorted, All-sort, sum_of, sum_of-sort,
}
use sentio_portfolio.Pricing.{
  AssetId, same_asset, Component, Snapshot, Collected, is_seen, append_at, add_token, is_nothing,
  price_token, add_component, add_components, add_groups, add_snapshots, Query, query_of, before,
  key_before, same_instant, valuation_instant, collect_price_queries,
}
use sentio_portfolio.Pricing.Keys.{key_before_asymm, key_before_trans, before_asymm, before_trans}

-- Whether some component that is not nothing is quoted by an asset.
abbrev pub quoted_in : AssetId → List Component → Bool
quoted_in a [] = false
quoted_in a (c ∷ cs) = not (is_nothing c) && same_asset a (price_token c) || quoted_in a cs

abbrev pub quoted_by : AssetId → List (List Component) → Bool
quoted_by a [] = false
quoted_by a (g ∷ gs) = quoted_in a g || quoted_by a gs

abbrev pub is_quoted : AssetId → List Snapshot → Bool
is_quoted a [] = false
is_quoted a (s ∷ ss) = quoted_by a s.groups || is_quoted a ss

abbrev entry_count : (AssetId → Bool) → ℤ × List AssetId → ℕ
entry_count p (at, tokens) = count p tokens

same_asset_lem : (a b : AssetId) → same_asset a b ≡ true → a ≡ b
same_asset_lem a b h = elim (Bool-cases (a.chain_id == b.chain_id)) [
  | inl same ↦ elim (Bool-cases (a.address == b.address)) [
    | inl also ↦ cc ((==_iff a.chain_id b.chain_id).0 same, (==_iff a.address b.address).0 also)
    | inr apart ↦ absurd cc
  ]
  | inr apart ↦ absurd cc
]

append_at_count :
    (p : AssetId → Bool) (at : ℤ) (a : AssetId) (m : List (ℤ × List AssetId))
    → sum_of (entry_count p) (append_at at a m) ≡ sum_of (entry_count p) m + one_if (p a)
unfolding append_at
append_at_count p at a [] = omega arith
append_at_count p at a ((time, tokens) ∷ m) = elim (Bool-cases (same_instant time at)) [
  | inl now ↦ rw now (omega (arith, count-append p tokens (a ∷ [])))
  | inr other ↦ rw other (omega (arith, append_at_count p at a m))
]

-- Each asset that is seen stands once among the tokens, and no other does.
abbrev IsOnce : Collected → Type 0
IsOnce c =
    (a : AssetId) → sum_of (entry_count (same_asset a)) c.by_instant ≡ one_if (is_seen a c.seen)

-- What adding tokens does: assets of some kind are seen too.
record Sees (c d : Collected) (also : AssetId → Bool) : Type 0 where
  once : IsOnce c → IsOnce d
  seen : (a : AssetId) → is_seen a d.seen ≡ (is_seen a c.seen || also a)

or_false : (b : Bool) → (b || false) ≡ b
or_false true = refl
or_false false = refl

or_true : (b : Bool) → (b || true) ≡ true
or_true true = refl
or_true false = refl

or_assoc : (a b c : Bool) → ((a || b) || c) ≡ (a || (b || c))
or_assoc true b c = refl
or_assoc false b c = refl

Sees-none : (c : Collected) → Sees c c (λ a. false)
Sees-none c = record { once = λ k. k; seen = λ a. sym (or_false (is_seen a c.seen)) }

Sees-both :
    (c d e : Collected) (p q : AssetId → Bool)
    → Sees c d p
    → Sees d e q
    → Sees c e (λ a. p a || q a)
Sees-both c d e p q s t = record {
  once = λ k. t.once (s.once k);
  seen = λ a. t.seen a ∙ ap (λ b. b || q a) (s.seen a) ∙ or_assoc (is_seen a c.seen) (p a) (q a);
}

seen_again :
    (a token : AssetId) (seen : List AssetId)
    → is_seen token seen ≡ true
    → is_seen a seen ≡ (is_seen a seen || same_asset a token)
seen_again a token seen h = elim (Bool-cases (same_asset a token)) [
  | inl same ↦
      rw same (
        ap (λ x. is_seen x seen) (same_asset_lem a token same) ∙ h ∙ sym (or_true (is_seen a seen)))
  | inr other ↦ rw other (sym (or_false (is_seen a seen)))
]

seen_first :
    (a token : AssetId) (seen : List AssetId)
    → is_seen token seen ≡ false
    → (is_seen a (token ∷ seen) ≡ (is_seen a seen || same_asset a token))
      × (one_if (is_seen a (token ∷ seen)) ≡ one_if (is_seen a seen) + one_if (same_asset a token))
unfolding is_seen
seen_first a token seen h = elim (Bool-cases (same_asset a token)) [
  | inl same ↦
      let not_yet = ap (λ x. is_seen x seen) (same_asset_lem a token same) ∙ h in
      rw (same, not_yet) (refl, refl)
  | inr other ↦ rw other (sym (or_false (is_seen a seen)), omega arith)
]

add_token-Sees :
    (at : ℤ) (token : AssetId) (c : Collected)
    → Sees c (add_token at token c) (λ a. same_asset a token)
unfolding add_token
add_token-Sees at token c = elim (Bool-cases (is_seen token c.seen)) [
  | inl again ↦ rw again (record { once = λ k. k; seen = λ a. seen_again a token c.seen again })
  | inr new ↦ rw new (record {
    once = λ k a. omega (
      arith,
      append_at_count (same_asset a) at token c.by_instant,
      k a,
      (seen_first a token c.seen new).1,
    );
    seen = λ a. (seen_first a token c.seen new).0;
  })
]

add_component-Sees :
    (at : ℤ) (x : Component) (c : Collected)
    → Sees c (add_component at x c) (λ a. not (is_nothing x) && same_asset a (price_token x))
unfolding add_component
add_component-Sees at x c = elim (Bool-cases (is_nothing x)) [
  | inl nothing ↦ rw nothing (Sees-none c)
  | inr something ↦ rw something (add_token-Sees at (price_token x) c)
]

add_components-Sees :
    (at : ℤ) (xs : List Component) (c : Collected)
    → Sees c (add_components at xs c) (λ a. quoted_in a xs)
unfolding add_components
add_components-Sees at [] c = Sees-none c
add_components-Sees at (x ∷ xs) c =
    Sees-both c (add_component at x c) _ _ _ (add_component-Sees at x c)
      (add_components-Sees at xs (add_component at x c))

add_groups-Sees :
    (at : ℤ) (gs : List (List Component)) (c : Collected)
    → Sees c (add_groups at gs c) (λ a. quoted_by a gs)
unfolding add_groups
add_groups-Sees at [] c = Sees-none c
add_groups-Sees at (g ∷ gs) c =
    Sees-both c (add_components at g c) _ _ _ (add_components-Sees at g c)
      (add_groups-Sees at gs (add_components at g c))

add_snapshots-Sees :
    (ss : List Snapshot) (c : Collected) → Sees c (add_snapshots ss c) (λ a. is_quoted a ss)
unfolding add_snapshots
add_snapshots-Sees [] c = Sees-none c
add_snapshots-Sees (s ∷ ss) c =
    let d = add_groups (valuation_instant s.block) s.groups c in
    Sees-both c d _ _ _ (add_groups-Sees (valuation_instant s.block) s.groups c)
      (add_snapshots-Sees ss d)

-- How often a query names an asset of some kind.
abbrev pub query_count : (AssetId → Bool) → Query → ℕ
query_count p q = count p q.tokens

query_count-map :
    (p : AssetId → Bool) (m : List (ℤ × List AssetId))
    → sum_of (query_count p) (map query_of m) ≡ sum_of (entry_count p) m
query_count-map p [] = refl
query_count-map p ((at, tokens) ∷ m) =
    omega (arith, count-sort key_before p tokens, query_count-map p m)

tokens-IsSorted :
    (m : List (ℤ × List AssetId)) → All (λ q. IsSorted key_before q.tokens) (map query_of m)
tokens-IsSorted [] = tt
tokens-IsSorted ((at, tokens) ∷ m) =
    (sort-IsSorted key_before key_before_asymm key_before_trans tokens, tokens-IsSorted m)

abbrev nothing_yet : Collected
nothing_yet = record { seen = []; by_instant = [] }

nothing-IsOnce : IsOnce nothing_yet
unfolding is_seen
nothing-IsOnce a = refl

nothing_seen : (a : AssetId) (b : Bool) → (is_seen a [] || b) ≡ b
unfolding is_seen
nothing_seen a b = refl

-- The queries of a scan. An asset is named once in all of them if some component that is not nothing is quoted by
-- it, and otherwise never; the queries stand in the order of their instants, and the tokens of each in
-- the order of their price keys.
pub collect_price_queries_lem :
    (snapshots : List Snapshot)
    → ((a : AssetId)
        → sum_of (query_count (same_asset a)) (collect_price_queries snapshots)
          ≡ one_if (is_quoted a snapshots))
      × IsSorted before (collect_price_queries snapshots)
      × All (λ q. IsSorted key_before q.tokens) (collect_price_queries snapshots)
unfolding collect_price_queries
collect_price_queries_lem snapshots =
    let s = add_snapshots-Sees snapshots nothing_yet in
    let m = (add_snapshots snapshots nothing_yet).by_instant in
    let once = s.once nothing-IsOnce in
    (
      λ a.
          sum_of-sort before (query_count (same_asset a)) (map query_of m)
          ∙ query_count-map (same_asset a) m
          ∙ once a
          ∙ ap one_if (s.seen a ∙ nothing_seen a (is_quoted a snapshots)),
      sort-IsSorted before before_asymm before_trans (map query_of m),
      All-sort before (λ q. IsSorted key_before q.tokens) (map query_of m) (tokens-IsSorted m),
    )
