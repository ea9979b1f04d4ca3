-- ===== src/Pricing.antt =====
-- pricing.go: the tokens that a scan must quote, by the instant that they are valued at, and the prices that a
-- provider gives for them. A time is its seconds since 1970; the zero time is the first second of the year 1.
-- Prices are of any type: nothing is calculated with them here. An address has 20 bytes. A failure is given
-- with its public message.
pub mod Keys
pub mod Queries
pub mod Fetching
mod Tests
use Prim.Native.String.{String}
use sentio_portfolio.Common.{
  ◌≡◌, refl, sym, ap, ◌∙◌, subst, ==_iff, Bool-cases, inl, inr, ℕ, zero, suc, ◌+◌, ◌-◌, ◌/◌, ◌%◌,
  Bool, true, false, not, ◌&&◌, ◌||◌, List, [], ◌∷◌, ◌++◌, map, Option, none, some, ltb, ◌==◌,
  length, if◌then◌else◌,
}
use sentio_portfolio.Common.Int.{ℤ, pos, negsuc, leb_ℤ, ltb_ℤ}
use sentio_portfolio.Common.Assoc.{lookup, insert, nat_key, string_key, Key}
use sentio_portfolio.Common.Sorting.{sort}
use sentio_portfolio.Checkpoint.{BlockRef, signed64}
use sentio_portfolio.Pages.{Text, text_lt}
use sentio_portfolio.Scan.{ScanError, pricing_scope}

-- The parts of a token that identify it: `AssetID`.
pub record AssetId : Type 0 where
  pub chain_id : ℕ
  pub address : ℕ

abbrev pub same_asset : AssetId → AssetId → Bool
same_asset a b = (a.chain_id == b.chain_id) && (a.address == b.address)

abbrev pub chain_price_names : List (ℕ × Text)
chain_price_names =
    (1, b'e' ∷ b't' ∷ b'h' ∷ b'e' ∷ b'r' ∷ b'e' ∷ b'u' ∷ b'm' ∷ [])
    ∷ (56, b'b' ∷ b's' ∷ b'c' ∷ [])
    ∷ (8453, b'b' ∷ b'a' ∷ b's' ∷ b'e' ∷ [])
    ∷ (42161, b'a' ∷ b'r' ∷ b'b' ∷ b'i' ∷ b't' ∷ b'r' ∷ b'u' ∷ b'm' ∷ [])
    ∷ (137, b'p' ∷ b'o' ∷ b'l' ∷ b'y' ∷ b'g' ∷ b'o' ∷ b'n' ∷ [])
    ∷ (143, b'm' ∷ b'o' ∷ b'n' ∷ b'a' ∷ b'd' ∷ [])
    ∷ (9745, b'p' ∷ b'l' ∷ b'a' ∷ b's' ∷ b'm' ∷ b'a' ∷ [])
    ∷ (43114, b'a' ∷ b'v' ∷ b'a' ∷ b'l' ∷ b'a' ∷ b'n' ∷ b'c' ∷ b'h' ∷ b'e' ∷ [])
    ∷ (10, b'o' ∷ b'p' ∷ b't' ∷ b'i' ∷ b'm' ∷ b'i' ∷ b's' ∷ b'm' ∷ [])
    ∷ (999, b'h' ∷ b'y' ∷ b'p' ∷ b'e' ∷ b'r' ∷ b'e' ∷ b'v' ∷ b'm' ∷ [])
    ∷ (4663, b'r' ∷ b'o' ∷ b'b' ∷ b'i' ∷ b'n' ∷ b'h' ∷ b'o' ∷ b'o' ∷ b'd' ∷ [])
    ∷ []

-- A name that is missing is the empty text.
abbrev pub name_or_empty : Option Text → Text
name_or_empty none = []
name_or_empty (some name) = name

abbrev pub hex_digit : ℕ → ℕ
hex_digit d = if ltb d 10 then b'0' + d else b'a' + (d - 10)

-- The last digits of a number in hexadecimal, as many as asked for.
unfoldable pub hex : ℕ → ℕ → Text
hex zero n = []
hex (suc digits) n = hex digits (n / 16) ++ (hex_digit (n % 16) ∷ [])

-- `PriceKey`
unfoldable pub price_key : AssetId → Text
unfolding hex
price_key a =
    name_or_empty (lookup a.chain_id chain_price_names) ++ (b':' ∷ b'0' ∷ b'x' ∷ hex 40 a.address)

-- The parts of a component that are read here, with the token of its price basis.
pub record Component : Type 0 where
  pub amount_raw : String
  pub token : AssetId
  pub price_basis : Option AssetId

pub price_token : Component → AssetId
price_token c = elim c.price_basis [ none ↦ c.token | some basis ↦ basis ]

pub record Snapshot : Type 0 where
  pub block : BlockRef
  pub groups : List (List Component)

abbrev pub zero_time : ℤ
zero_time = negsuc 62_135_596_799

-- `valuationInstant`
pub valuation_instant : BlockRef → ℤ
valuation_instant block = if block.fixed then signed64 block.timestamp else zero_time

abbrev pub same_instant : ℤ → ℤ → Bool
same_instant s t = leb_ℤ s t && leb_ℤ t s

-- The two maps of `collectPriceQueries`.
pub record Collected : Type 0 where
  pub seen : List AssetId
  pub by_instant : List (ℤ × List AssetId)

pub is_seen : AssetId → List AssetId → Bool
is_seen a [] = false
is_seen a (b ∷ bs) = if same_asset a b then true else is_seen a bs

-- `byInstant[at] = append(byInstant[at], token)`
pub append_at : ℤ → AssetId → List (ℤ × List AssetId) → List (ℤ × List AssetId)
append_at at token [] = (at, token ∷ []) ∷ []
append_at at token ((time, tokens) ∷ m) =
    let rest = append_at at token m in
    if same_instant time at then (time, tokens ++ (token ∷ [])) ∷ m else (time, tokens) ∷ rest

pub add_token : ℤ → AssetId → Collected → Collected
unfolding is_seen append_at
add_token at token c =
    if is_seen token c.seen
    then c
    else record { seen = token ∷ c.seen; by_instant = append_at at token c.by_instant }

abbrev pub is_nothing : Component → Bool
is_nothing component = string_key.beq component.amount_raw "0"

pub add_component : ℤ → Component → Collected → Collected
unfolding add_token price_token
add_component at component c =
    if is_nothing component then c else add_token at (price_token component) c

pub add_components : ℤ → List Component → Collected → Collected
unfolding add_component
add_components at [] c = c
add_components at (component ∷ components) c =
    add_components at components (add_component at component c)

pub add_groups : ℤ → List (List Component) → Collected → Collected
unfolding add_components
add_groups at [] c = c
add_groups at (group ∷ groups) c = add_groups at groups (add_components at group c)

pub add_snapshots : List Snapshot → Collected → Collected
unfolding add_groups valuation_instant
add_snapshots [] c = c
add_snapshots (s ∷ snapshots) c =
    add_snapshots snapshots (add_groups (valuation_instant s.block) s.groups c)

-- `priceQuery`
pub record Query : Type 0 where
  pub at : ℤ
  pub tokens : List AssetId

abbrev pub key_before : AssetId → AssetId → Bool
key_before a b = text_lt (price_key a) (price_key b)

abbrev pub before : Query → Query → Bool
before q r = ltb_ℤ q.at r.at

abbrev pub query_of : ℤ × List AssetId → Query
query_of (at, tokens) = record { at = at; tokens = sort key_before tokens }

pub collect_price_queries : List Snapshot → List Query
unfolding add_snapshots price_key
collect_price_queries snapshots =
    sort before
      (map query_of (add_snapshots snapshots (record { seen = []; by_instant = [] })).by_instant)

-- `PriceResult`; a failure may name no asset.
pub record Result (F : Type 0) : Type 0 where
  pub prices : AssetId → Option F
  pub failures : List (Option AssetId × String)

-- `PriceProvider`
pub record Provider (F : Type 0) : Type 0 where
  pub usd_prices : List AssetId → Result F
  pub usd_prices_at : List AssetId → ℤ → Result F

abbrev pub failure_error : Option AssetId × String → ScanError
failure_error (asset, message) = record {
  scope = pricing_scope;
  chain_id = elim asset [ none ↦ 0 | some a ↦ a.chain_id ];
  protocol_id = "";
  protocol_name = "";
  message = message;
}

unfoldable pub text_beq : Text → Text → Bool
text_beq [] [] = true
text_beq [] (d ∷ ds) = false
text_beq (c ∷ cs) [] = false
text_beq (c ∷ cs) (d ∷ ds) = (c == d) && text_beq cs ds

pub text_beq_refl : (s : Text) → text_beq s s ≡ true
unfolding text_beq
text_beq_refl [] = refl
text_beq_refl (c ∷ cs) = rw ((==_iff c c).1 refl) (text_beq_refl cs)

pub text_beq_sound : (s t : Text) → text_beq s t ≡ true → s ≡ t
unfolding text_beq
text_beq_sound [] [] h = refl
text_beq_sound [] (d ∷ ds) h = cc
text_beq_sound (c ∷ cs) [] h = cc
text_beq_sound (c ∷ cs) (d ∷ ds) h = elim (Bool-cases (c == d)) [
  | inl same ↦
      cc (
        (==_iff c d).0 same,
        text_beq_sound cs ds (subst (λ b. (b && text_beq cs ds) ≡ true) same h),
      )
  | inr apart ↦ absurd (impossible (subst (λ b. (b && text_beq cs ds) ≡ true) apart h))
]
  where
    impossible : false ≡ true → ⊥
    impossible e = cc

instance abbrev pub text_key : Key Text
text_key = record {
  beq = text_beq;
  beq_iff = λ s t. (text_beq_sound s t, λ e. ap (text_beq s) (sym e) ∙ text_beq_refl s);
}

abbrev pub not_configured : ScanError
not_configured = failure_error (none, "price provider is not configured")

module _ {F : Type 0} where
  -- The price of a token, if the provider gave one.
  abbrev pub take_price : Text → Option F → List (Text × F) → List (Text × F)
  take_price key none prices = prices
  take_price key (some price) prices = insert key price prices

  pub take_prices : Result F → List AssetId → List (Text × F) → List (Text × F)
  unfolding price_key
  take_prices result [] prices = prices
  take_prices result (a ∷ tokens) prices =
      take_prices result tokens (take_price (price_key a) (result.prices a) prices)

  -- The provider's answer for a query.
  abbrev pub answer_of : Provider F → Query → Result F
  answer_of provider q =
      if same_instant q.at zero_time
      then provider.usd_prices q.tokens
      else provider.usd_prices_at q.tokens q.at

  -- The loop over the queries.
  pub fetch_all :
      Provider F → List Query → List (Text × F) → List ScanError → List (Text × F) × List ScanError
  unfolding take_prices
  fetch_all provider [] prices errors = (prices, errors)
  fetch_all provider (q ∷ queries) prices errors =
      let result = answer_of provider q in
      fetch_all provider queries (take_prices result q.tokens prices)
        (errors ++ map failure_error result.failures)

  pub fetch_prices : Option (Provider F) → List Snapshot → List (Text × F) × List ScanError
  unfolding collect_price_queries fetch_all
  fetch_prices provider snapshots =
      let queries = collect_price_queries snapshots in
      if length queries == 0
      then ([], [])
      else elim provider [ none ↦ ([], not_configured ∷ []) | some p ↦ fetch_all p queries [] [] ]
