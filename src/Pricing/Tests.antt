-- ===== src/Pricing/Tests.antt =====
-- The prices of a small scan: a snapshot at a fixed block and one at the head (pricing.go).
use Prim.Native.String.{String}
use sentio_portfolio.Common.{
  ℕ, ◌≡◌, refl, Bool, true, false, List, [], ◌∷◌, ◌++◌, none, some, if◌then◌else◌, one_if, All,
}
use sentio_portfolio.Common.Assoc.{lookup}
use sentio_portfolio.Common.Int.{ℤ, pos}
use sentio_portfolio.Common.Sorting.{sum_of, IsSorted}
use sentio_portfolio.Checkpoint.{BlockRef, signed64}
use sentio_portfolio.Pricing.{
  AssetId, same_asset, Component, Snapshot, Provider, collect_price_queries, add_snapshots,
  add_groups, add_components, add_component, add_token, is_seen, append_at, price_token,
  valuation_instant, price_key, hex, text_beq, text_key, key_before, before, zero_time,
  same_instant, fetch_prices, fetch_all, take_prices,
}
use sentio_portfolio.Pricing.Queries.{query_count, is_quoted, collect_price_queries_lem}
use sentio_portfolio.Pricing.Fetching.{IsHeld, fetch_prices_sound}

abbrev usdc : AssetId
usdc = record { chain_id = 1; address = 11 }

abbrev weth : AssetId
weth = record { chain_id = 1; address = 5 }

abbrev cake : AssetId
cake = record { chain_id = 56; address = 7 }

abbrev block_at : ℕ → Bool → BlockRef
block_at chain fixed = record {
  chain_id = chain;
  number = 100;
  hash = 0;
  timestamp = 5_000;
  fixed = fixed;
}

abbrev holding : String → AssetId → Component
holding amount token = record { amount_raw = amount; token = token; price_basis = none }

-- Another token that is quoted through `weth`, and one of which nothing is held.
abbrev snapshots : List Snapshot
snapshots =
    record { block = block_at 56 true; groups = (holding "3" cake ∷ []) ∷ [] }
    ∷ record {
      block = block_at 1 false;
      groups =
          (holding "9" usdc ∷ holding "0" cake ∷ [])
          ∷ (record {
            amount_raw = "4";
            token = record { chain_id = 1; address = 6 };
            price_basis = some weth;
          }
              ∷ holding "2" usdc
              ∷ [])
          ∷ [];
    }
    ∷ []

-- Latest prices first, and in a query the tokens by their addresses.
small_queries :
    collect_price_queries snapshots
    ≡ record { at = zero_time; tokens = weth ∷ usdc ∷ [] }
      ∷ record { at = pos 5_000; tokens = cake ∷ [] }
      ∷ []
unfolding collect_price_queries add_snapshots add_groups add_components add_component add_token
    is_seen append_at price_token valuation_instant signed64 price_key hex
small_queries = refl

usdc_key :
    price_key usdc
    ≡ b'e'
      ∷ b't'
      ∷ b'h'
      ∷ b'e'
      ∷ b'r'
      ∷ b'e'
      ∷ b'u'
      ∷ b'm'
      ∷ b':'
      ∷ b'0'
      ∷ b'x'
      ∷ (hex 39 0 ++ (b'b' ∷ []))
unfolding price_key hex
usdc_key = refl

collect_price_queries_lem_example :
    ((a : AssetId)
      → sum_of (query_count (same_asset a)) (collect_price_queries snapshots)
        ≡ one_if (is_quoted a snapshots))
    × IsSorted before (collect_price_queries snapshots)
    × All (λ q. IsSorted key_before q.tokens) (collect_price_queries snapshots)
collect_price_queries_lem_example = collect_price_queries_lem snapshots

-- Latest prices are 2, those of the past 3.
abbrev provider : Provider ℕ
provider = record {
  usd_prices = λ tokens. record { prices = λ a. some 2; failures = [] };
  usd_prices_at = λ tokens at. record { prices = λ a. some 3; failures = [] };
}

cake_priced : lookup (price_key cake) (fetch_prices (some provider) snapshots).0 ≡ some 3
unfolding fetch_prices fetch_all take_prices text_beq collect_price_queries add_snapshots add_groups
    add_components add_component add_token is_seen append_at price_token valuation_instant signed64
    price_key hex
cake_priced = refl

fetch_prices_sound_example :
    (at : ℤ) × ((a : AssetId) × ((tokens : List AssetId) × (IsHeld snapshots at a
          × ((price_key a ≡ price_key cake)
              × ((if same_instant at zero_time
                      then provider.usd_prices tokens
                      else provider.usd_prices_at tokens at).prices
                    a
                  ≡ some 3)))))
fetch_prices_sound_example = fetch_prices_sound provider snapshots (price_key cake) 3 cake_priced
