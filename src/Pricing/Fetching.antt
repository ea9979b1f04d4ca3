-- ===== src/Pricing/Fetching.antt =====
-- Where the prices of a scan come from (pricing.go).
use sentio_portfolio.Common.{
  ◌≡◌, refl, sym, ◌∙◌, subst, Bool, true, false, List, [], ◌∷◌, map, ◌==◌, if◌then◌else◌,
  Bool-cases, Option, none, some, inl, inr, All, All-snoc, length,
}
use mathlib.Core.List.{Memᴰ}
use sentio_portfolio.Common.Assoc.{lookup, insert, lookup-insert, lookup-insert_other}
use sentio_portfolio.Common.Int.{ℤ}
use sentio_portfolio.Common.Sorting.{All-sort}
use sentio_portfolio.Pages.{Text}
use sentio_portfolio.Scan.{ScanError}
use sentio_portfolio.Pricing.{
  AssetId, Component, Snapshot, Collected, is_seen, append_at, add_token, is_nothing, price_token,
  add_component, add_components, add_groups, add_snapshots, price_key, text_key, Query, query_of,
  before, key_before, same_instant, valuation_instant, collect_price_queries, Provider, Result,
  take_price, take_prices, answer_of, fetch_all, fetch_prices, zero_time,
}
use sentio_portfolio.Pricing.Keys.{same_instant_lem}

-- A fact about each token that is collected and the instant that it is valued at.
module _ (W : ℤ → AssetId → Type 0) where
  abbrev AllBy : List (ℤ × List AssetId) → Type 0
  AllBy m = All (λ e. All (W e.0) e.1) m

  AllBy-append_at :
      (at : ℤ) (a : AssetId) (m : List (ℤ × List AssetId))
      → W at a
      → AllBy m
      → AllBy (append_at at a m)
  unfolding append_at
  AllBy-append_at at a [] w h = ((w, tt), tt)
  AllBy-append_at at a ((time, tokens) ∷ m) w h = elim (Bool-cases (same_instant time at)) [
    | inl now ↦ rw now (
      All-snoc (W time) tokens a h.0 (subst (λ t. W t a) (sym (same_instant_lem time at now)) w),
      h.1,
    )
    | inr other ↦ rw other (h.0, AllBy-append_at at a m w h.1)
  ]

  AllBy-add_component :
      (at : ℤ) (x : Component) (c : Collected)
      → (is_nothing x ≡ false → W at (price_token x))
      → AllBy c.by_instant
      → AllBy (add_component at x c).by_instant
  unfolding add_component add_token
  AllBy-add_component at x c w h = elim (Bool-cases (is_nothing x)) [
    | inl nothing ↦ rw nothing h
    | inr something ↦ rw something (chosen (is_seen (price_token x) c.seen) (w something))
  ]
    where
      chosen :
          (b : Bool)
          → W at (price_token x)
          → AllBy
              (if b then c else record {
                seen = price_token x ∷ c.seen;
                by_instant = append_at at (price_token x) c.by_instant;
              }).by_instant
      chosen true v = h
      chosen false v = AllBy-append_at at (price_token x) c.by_instant v h

  AllBy-add_components :
      (at : ℤ) (xs : List Component) (c : Collected)
      → ((x : Component) → Memᴰ x xs → is_nothing x ≡ false → W at (price_token x))
      → AllBy c.by_instant
      → AllBy (add_components at xs c).by_instant
  unfolding add_components
  AllBy-add_components at [] c w h = h
  AllBy-add_components at (x ∷ xs) c w h =
      AllBy-add_components at xs (add_component at x c) (λ y m. w y (Memᴰ.tail m))
        (AllBy-add_component at x c (w x (Memᴰ.head refl)) h)

  AllBy-add_groups :
      (at : ℤ) (gs : List (List Component)) (c : Collected)
      → ((g : List Component)
          → Memᴰ g gs
          → (x : Component) → Memᴰ x g
          → is_nothing x ≡ false
          → W at (price_token x))
      → AllBy c.by_instant
      → AllBy (add_groups at gs c).by_instant
  unfolding add_groups
  AllBy-add_groups at [] c w h = h
  AllBy-add_groups at (g ∷ gs) c w h =
      AllBy-add_groups at gs (add_components at g c) (λ f m. w f (Memᴰ.tail m))
        (AllBy-add_components at g c (w g (Memᴰ.head refl)) h)

  AllBy-add_snapshots :
      (ss : List Snapshot) (c : Collected)
      → ((s : Snapshot)
          → Memᴰ s ss
          → (g : List Component) → Memᴰ g s.groups
          → (x : Component) → Memᴰ x g
          → is_nothing x ≡ false
          → W (valuation_instant s.block) (price_token x))
      → AllBy c.by_instant
      → AllBy (add_snapshots ss c).by_instant
  unfolding add_snapshots
  AllBy-add_snapshots [] c w h = h
  AllBy-add_snapshots (s ∷ ss) c w h =
      AllBy-add_snapshots ss (add_groups (valuation_instant s.block) s.groups c)
        (λ t m. w t (Memᴰ.tail m))
        (AllBy-add_groups (valuation_instant s.block) s.groups c (w s (Memᴰ.head refl)) h)

  abbrev AllIn : List Query → Type 0
  AllIn queries = All (λ q. All (W q.at) q.tokens) queries

  AllIn-map : (m : List (ℤ × List AssetId)) → AllBy m → AllIn (map query_of m)
  AllIn-map [] h = tt
  AllIn-map ((at, tokens) ∷ m) h = (All-sort key_before (W at) tokens h.0, AllIn-map m h.1)

  AllIn-collect :
      (ss : List Snapshot)
      → ((s : Snapshot)
          → Memᴰ s ss
          → (g : List Component) → Memᴰ g s.groups
          → (x : Component) → Memᴰ x g
          → is_nothing x ≡ false
          → W (valuation_instant s.block) (price_token x))
      → AllIn (collect_price_queries ss)
  unfolding collect_price_queries
  AllIn-collect ss w =
      All-sort before (λ q. All (W q.at) q.tokens) _
        (AllIn-map _ (AllBy-add_snapshots ss (record { seen = []; by_instant = [] }) w tt))

-- A fact about each price of a map.
module _ {F : Type 0} (V : Text → F → Type 0) where
  abbrev Holds : List (Text × F) → Type 0
  Holds prices = (k : Text) (f : F) → lookup k prices ≡ some f → V k f

  take_price-Holds :
      (key : Text) (o : Option F) (prices : List (Text × F))
      → ((f : F) → o ≡ some f → V key f)
      → Holds prices
      → Holds (take_price key o prices)
  take_price-Holds key none prices v h k f found = h k f found
  take_price-Holds key (some price) prices v h k f found = elim (Bool-cases (text_key.beq key k)) [
    | inl same ↦
        let is_key = (text_key.beq_iff key k).0 same in
        let its = subst (λ x. lookup x (insert key price prices) ≡ some f) (sym is_key) found in
        subst (λ x. V x f) is_key (v f (sym (lookup-insert key price prices) ∙ its))
    | inr other ↦ h k f (sym (lookup-insert_other key k price prices other) ∙ found)
  ]

  take_prices-Holds :
      (result : Result F) (tokens : List AssetId) (prices : List (Text × F))
      → All (λ a. (f : F) → result.prices a ≡ some f → V (price_key a) f) tokens
      → Holds prices
      → Holds (take_prices result tokens prices)
  unfolding take_prices
  take_prices-Holds result [] prices v h = h
  take_prices-Holds result (a ∷ tokens) prices v h =
      take_prices-Holds result tokens (take_price (price_key a) (result.prices a) prices) v.1
        (take_price-Holds (price_key a) (result.prices a) prices v.0 h)

  fetch_all-Holds :
      (provider : Provider F) (queries : List Query) (prices : List (Text × F))
      (errors : List ScanError)
      → All
          (λ q.
            All
              (λ a. (f : F) → (answer_of provider q).prices a ≡ some f → V (price_key a) f)
              q.tokens)
          queries
      → Holds prices
      → Holds (fetch_all provider queries prices errors).0
  unfolding fetch_all
  fetch_all-Holds provider [] prices errors v h = h
  fetch_all-Holds provider (q ∷ queries) prices errors v h =
      fetch_all-Holds provider queries (take_prices (answer_of provider q) q.tokens prices) _ v.1
        (take_prices-Holds (answer_of provider q) q.tokens prices v.0 h)

-- A component of a scan, not nothing, that is valued at an instant and quoted by an asset.
pub record IsHeld (ss : List Snapshot) (at : ℤ) (a : AssetId) : Type 0 where
  pub snapshot : Snapshot
  pub group : List Component
  pub component : Component
  pub in_scan : Memᴰ snapshot ss
  pub in_snapshot : Memᴰ group snapshot.groups
  pub in_group : Memᴰ component group
  pub not_nothing : is_nothing component ≡ false
  pub valued : at ≡ valuation_instant snapshot.block
  pub quoted : price_token component ≡ a

All-map :
    {A : Type 0} {P Q : A → Type 0} → ((a : A) → P a → Q a) → (xs : List A) → All P xs → All Q xs
All-map f [] h = tt
All-map f (x ∷ xs) h = (f x h.0, All-map f xs h.1)

-- Every price has its origin. A price that a scan has for a key was given by the provider for an asset of that key:
-- an asset that quotes a component of the scan's snapshots, other than one of amount "0", and in answer
-- to a question about some tokens at the instant that the component's snapshot is valued at, which is
-- the question for latest prices only if that instant is the zero time.
pub fetch_prices_sound :
    {F : Type 0} (provider : Provider F) (snapshots : List Snapshot) (key : Text) (price : F)
    → lookup key (fetch_prices (some provider) snapshots).0 ≡ some price
    → (at : ℤ) × ((a : AssetId) × ((tokens : List AssetId) × (IsHeld snapshots at a
            × ((price_key a ≡ key)
                × ((if same_instant at zero_time
                        then provider.usd_prices tokens
                        else provider.usd_prices_at tokens at).prices
                      a
                    ≡ some price)))))
unfolding fetch_prices
fetch_prices_sound {F = F} provider snapshots key price found =
    holds (length (collect_price_queries snapshots) == 0) key price found
  where
    Origin : Text → F → Type 0
    Origin key price =
        (at : ℤ) × ((a : AssetId) × ((tokens : List AssetId) × (IsHeld snapshots at a
              × ((price_key a ≡ key)
                  × ((if same_instant at zero_time
                          then provider.usd_prices tokens
                          else provider.usd_prices_at tokens at).prices
                        a
                      ≡ some price)))))

    answered :
        (queries : List Query)
        → All (λ q. All (IsHeld snapshots q.at) q.tokens) queries
        → All
            (λ q.
              All
                (λ a. (f : F) → (answer_of provider q).prices a ≡ some f → Origin (price_key a) f)
                q.tokens)
            queries
    answered queries h =
        All-map
          (λ q k. All-map (λ a held f e. (q.at, (a, (q.tokens, (held, (refl, e)))))) q.tokens k)
          queries h

    none_held : Holds Origin []
    none_held k f e = absurd cc

    held : All (λ q. All (IsHeld snapshots q.at) q.tokens) (collect_price_queries snapshots)
    held = AllIn-collect (IsHeld snapshots) snapshots (λ s m g n x o p. record {
      snapshot = s;
      group = g;
      component = x;
      in_scan = m;
      in_snapshot = n;
      in_group = o;
      not_nothing = p;
      valued = refl;
      quoted = refl;
    })

    holds :
        (b : Bool)
        → Holds Origin
            (if b then ([], []) else fetch_all provider (collect_price_queries snapshots) [] []).0
    holds true = none_held
    holds false =
        fetch_all-Holds Origin provider (collect_price_queries snapshots) [] []
          (answered (collect_price_queries snapshots) held) none_held
