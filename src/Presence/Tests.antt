-- ===== src/Presence/Tests.antt =====
-- Runs of the code of sentio_presence.go, and its theorems at concrete arguments. An answer's value is no
-- row, one row, or a checkpoint.
use Prim.Native.String.{String}
use sentio_portfolio.Common.{ℕ, ◌≡◌, refl, Bool, true, false, none, some, Option, List, [], ◌∷◌}
use sentio_portfolio.Common.Assoc.{lookup, nat_key, string_key}
use sentio_portfolio.Checkpoint.{
  BlockRef, ChainStatus, Statuses, check_index_checkpoint, index_query_block,
}
use sentio_portfolio.Presence.{
  Decoder, Alias, checkpoint_alias, field_alias, presence_targets, presence_chain_empty,
}
use sentio_portfolio.Presence.Targets.{served, presence_targets-lookup}
use sentio_portfolio.Presence.Empty.{ProvenEmpty, presence_chain_empty_sound}

abbrev pin : ℕ → Bool → BlockRef
pin chain fixed = record {
  chain_id = chain;
  number = 200;
  hash = 0;
  timestamp = 1_000;
  fixed = fixed;
}

abbrev status_at : ℕ → ChainStatus
status_at block = record {
  state = "PROCESSING_LATEST";
  processed_block = block;
  estimated_latest = 0;
  has_err = false;
}

abbrev statuses : Statuses
statuses = (1, status_at 150) ∷ (56, status_at 300) ∷ []

targets :
    lookup 1 (presence_targets (56 ∷ 1 ∷ []) ((1, pin 1 true) ∷ (56, pin 56 true) ∷ []) statuses [])
    ≡ none
unfolding presence_targets
targets = refl

presence_targets-lookup_example :
    lookup 1 (presence_targets (56 ∷ 1 ∷ []) ((1, pin 1 false) ∷ []) statuses [])
    ≡ served (pin 1 false) (index_query_block (pin 1 false) (λ _. some statuses))
presence_targets-lookup_example =
    presence_targets-lookup (56 ∷ 1 ∷ []) ((1, pin 1 false) ∷ []) statuses (pin 1 false)
      (status_at 150) refl refl refl refl

data Value : Type 0 where
  nothing row : Value
  checkpoint_value : String → String → Value

abbrev checkpoint_rows : Value → Option (List (String × String))
checkpoint_rows (checkpoint_value b m) = some ((b, m) ∷ [])
checkpoint_rows nothing = none
checkpoint_rows row = none

abbrev rows_of : Value → Option (List Value)
rows_of (checkpoint_value b m) = none
rows_of nothing = some []
rows_of row = some (row ∷ [])

abbrev decoder : Decoder Value
decoder = record {
  checkpoint_rows = checkpoint_rows;
  rows = rows_of;
  parse_uint64 = λ s. lookup s (("140", 140) ∷ ("900000", 900_000) ∷ []);
}

abbrev answer : Alias → Option Value
answer (checkpoint_alias c) = some (checkpoint_value "140" "900000")
answer (field_alias i c) = some nothing

empty :
    presence_chain_empty decoder answer 2 1 (record { block = pin 1 false; query_block = 150 })
    ≡ some (140, 900_000)
unfolding presence_chain_empty check_index_checkpoint
empty = refl

too_early :
    presence_chain_empty decoder answer 2 1 (record { block = pin 1 false; query_block = 139 })
    ≡ none
unfolding presence_chain_empty
too_early = refl

presence_chain_empty_sound_example :
    ProvenEmpty decoder answer 2 1
      (record { block = pin 1 false; query_block = 150 })
      (140, 900_000)
      (answer (checkpoint_alias 1))
presence_chain_empty_sound_example =
    presence_chain_empty_sound decoder answer 2 1
      (record { block = pin 1 false; query_block = 150 }) (140, 900_000) empty
