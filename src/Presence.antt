-- ===== src/Presence.antt =====
-- sentio_presence.go and the checkpoint rows of sentio_index.go: which chains the presence probe asks
-- about, and when its answer proves that a chain holds nothing. The JSON decoder and
-- `strconv.ParseUint` are parameters, gathered in `Decoder`.
pub mod Targets
pub mod Empty
mod Tests
use Prim.Native.String.{String}
use sentio_portfolio.Common.{
  ℕ, zero, suc, ◌+◌, ◌≤◌, Bool, true, false, not, ◌&&◌, ◌||◌, List, [], ◌∷◌, Option, none, some,
  ltb, ◌==◌, length, if◌then◌else◌, Outcome, ok, err, panic, fail_if, ◌>>=◌, ◌>>◌,
}
use sentio_portfolio.Common.Assoc.{lookup, insert, nat_key, Key}
use sentio_portfolio.Checkpoint.{
  BlockRef, ChainStatus, Statuses, LagNote, lower_of, is_latest, trails, check_index_checkpoint,
}
use sentio_portfolio.Checkpoint.{Error as CheckpointError}

abbrev pub presence_min_chains : ℕ
presence_min_chains = 3

-- `presenceTarget`
pub record Target : Type 0 where
  pub block : BlockRef
  pub query_block : ℕ

abbrev pub Pinned : Type 0
Pinned = List (ℕ × BlockRef)

abbrev pub Targets : Type 0
Targets = List (ℕ × Target)

-- One pass of the loop over the required chains, with what the two maps hold for the chain.
pub target_of : Option BlockRef → Option ChainStatus → Option Target
target_of none status = none
target_of (some block) none = none
target_of (some block) (some status) =
    if status.has_err || not (is_latest status)
    then none
    else if trails block status
    then none
    else some (record { block = block; query_block = lower_of block.number status.processed_block })

abbrev pub add_target : ℕ → Option Target → Targets → Targets
add_target chain none targets = targets
add_target chain (some t) targets = insert chain t targets

pub presence_targets : List ℕ → Pinned → Statuses → Targets → Targets
unfolding target_of
presence_targets [] pinned statuses targets = targets
presence_targets (chain ∷ chains) pinned statuses targets =
    presence_targets chains pinned statuses
      (add_target chain (target_of (lookup chain pinned) (lookup chain statuses)) targets)

-- `indexCheckpoint`
pub record IndexCheckpoint : Type 0 where
  pub written : Bool
  pub block : ℕ
  pub ms : ℕ

pub data Error : Type 0 where
  malformed_checkpoints several_checkpoints invalid_block invalid_timestamp : Error

-- What `json.Unmarshal` gives for checkpoint rows and for rows of any kind, and `strconv.ParseUint`.
pub record Decoder (Raw : Type 0) : Type 0 where
  pub checkpoint_rows : Raw → Option (List (String × String))
  pub rows : Raw → Option (List Raw)
  pub parse_uint64 : String → Option ℕ

abbrev pub or_err : {A : Type 0} → Option A → Error → Outcome Error A
or_err none e = err e
or_err (some a) e = ok a

module _ {Raw : Type 0} (decoder : Decoder Raw) where
  unfoldable pub parse_checkpoint_rows : List (String × String) → Outcome Error IndexCheckpoint
  parse_checkpoint_rows [] = ok (record { written = false; block = 0; ms = 0 })
  parse_checkpoint_rows ((block_text, ms_text) ∷ []) = do
    block ← or_err (decoder.parse_uint64 block_text) invalid_block
    ms ← or_err (decoder.parse_uint64 ms_text) invalid_timestamp
    ok (record { written = true; block = block; ms = ms })
  parse_checkpoint_rows (row ∷ other ∷ rows) = err several_checkpoints

  unfoldable pub parse_index_checkpoint : Raw → Outcome Error IndexCheckpoint
  unfolding parse_checkpoint_rows
  parse_index_checkpoint raw = do
    rows ← or_err (decoder.checkpoint_rows raw) malformed_checkpoints
    parse_checkpoint_rows rows

-- The aliases of a chain's fields in the answer: `cp<chain>` and `f<index>_<chain>`.
pub data Alias : Type 0 where
  checkpoint_alias : ℕ → Alias
  field_alias : ℕ → ℕ → Alias

abbrev pub without_note : Outcome CheckpointError (Option LagNote) → ℕ × ℕ → Option (ℕ × ℕ)
without_note (ok none) proof = some proof
without_note (ok (some note)) proof = none
without_note (err e) proof = none
without_note panic proof = none

-- A checkpoint that the probe accepts: written, no later than the query block, and one that a page would
-- accept without a note.
pub accept_checkpoint : Target → Outcome Error IndexCheckpoint → Option (ℕ × ℕ)
accept_checkpoint target (err e) = none
accept_checkpoint target panic = none
accept_checkpoint target (ok c) =
    if not c.written || ltb target.query_block c.block
    then none
    else without_note (check_index_checkpoint target.block c.block c.ms) (c.block, c.ms)

abbrev pub if_empty : Option (ℕ × ℕ) → Bool → Option (ℕ × ℕ)
if_empty none nothing = none
if_empty (some proof) nothing = if nothing then some proof else none

abbrev pub no_rows : {Raw : Type 0} → Option (List Raw) → Bool
no_rows none = false
no_rows (some rows) = length rows == 0

module _ {Raw : Type 0} (decoder : Decoder Raw) (data_at : Alias → Option Raw) where
  abbrev pub field_empty : Option Raw → Bool
  field_empty none = false
  field_empty (some raw) = no_rows (decoder.rows raw)

  -- The loop over the fields, from the one at `index` on.
  pub fields_empty : ℕ → ℕ → ℕ → Bool
  fields_empty chain index zero = true
  fields_empty chain index (suc left) =
      field_empty (data_at (field_alias index chain)) && fields_empty chain (suc index) left

  -- `presenceChainEmpty`, for a probe of `fields` fields, first given the checkpoint's entry.
  pub chain_empty_with : ℕ → ℕ → Target → Option Raw → Option (ℕ × ℕ)
  unfolding parse_index_checkpoint accept_checkpoint fields_empty
  chain_empty_with fields chain target none = none
  chain_empty_with fields chain target (some raw) =
      if_empty (accept_checkpoint target (parse_index_checkpoint decoder raw))
        (fields_empty chain 0 fields)

  pub presence_chain_empty : ℕ → ℕ → Target → Option (ℕ × ℕ)
  unfolding chain_empty_with
  presence_chain_empty fields chain target =
      chain_empty_with fields chain target (data_at (checkpoint_alias chain))

-- `presenceProof`
pub record Proof : Type 0 where
  pub query_block : ℕ
  pub checkpoint : ℕ
  pub checkpoint_ms : ℕ

-- The check of `chainProvenEmpty` on a proof, which may be of an earlier block of a live read.
pub usable_proof : BlockRef → Option Proof → Option Proof
usable_proof block none = none
usable_proof block (some proof) =
    if ltb block.number proof.query_block
      || (block.fixed && not (proof.query_block == block.number))
    then none
    else some proof
