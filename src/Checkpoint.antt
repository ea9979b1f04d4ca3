-- ===== src/Checkpoint.antt =====
-- sentio_checkpoint.go: the block an index read queries at, and the checkpoint that certifies it.
-- A timestamp is a 64-bit count of seconds and a duration a signed 64-bit count of nanoseconds; the
-- wrap-around of both is written out. The errors carry no text.
pub mod Query
pub mod Age
mod Tests
use Prim.Native.String.{String}
use sentio_portfolio.Common.{
  ℕ, ◌+◌, ◌-◌, ◌*◌, ◌/◌, ◌%◌, ◌^◌, Bool, true, false, not, ◌&&◌, List, Option, none, some, ltb, leb,
  if◌then◌else◌, Outcome, ok, err, fail_if, ◌>>=◌, ◌>>◌,
}
use sentio_portfolio.Common.Int.{ℤ, pos, ◌-ℤ◌, ltb_ℤ}
use sentio_portfolio.Common.Assoc.{lookup, nat_key, string_key}

-- `BlockRef`; the hash is a number.
pub record BlockRef : Type 0 where
  pub chain_id : ℕ
  pub number : ℕ
  pub hash : ℕ
  pub timestamp : ℕ
  pub fixed : Bool

-- `sentioChainStatus`; `has_err` tells whether it carries an error.
pub record ChainStatus : Type 0 where
  pub state : String
  pub processed_block : ℕ
  pub estimated_latest : ℕ
  pub has_err : Bool

abbrev pub Statuses : Type 0
Statuses = List (ℕ × ChainStatus)

pub data Error : Type 0 where
  read_failed omitted_chain backfill_incomplete short_of_pin : Error
  checkpoint_ahead timestamp_ahead stale : Error

abbrev pub second : ℕ
second = 1_000_000_000

abbrev pub index_max_lag : ℕ
index_max_lag = 3600 * second

abbrev pub index_backfill_max_lag : ℕ
index_backfill_max_lag = (7 * 24 * 3600 + 30 * 60) * second

abbrev pub lower_of : ℕ → ℕ → ℕ
lower_of a b = if ltb b a then b else a

abbrev pub is_latest : ChainStatus → Bool
is_latest s = string_key.beq s.state "PROCESSING_LATEST"

-- A read at a fixed pin that the processor has not reached.
abbrev pub trails : BlockRef → ChainStatus → Bool
trails block s = block.fixed && ltb s.processed_block block.number

-- `read`, given its result, with `none` for an error.
abbrev pub read_result : Option Statuses → Outcome Error Statuses
read_result none = err read_failed
read_result (some ss) = ok ss

-- The tests on the status that was read last.
unfoldable pub accept_status :
    BlockRef → Statuses → Option ChainStatus → Outcome Error (Statuses × ℕ)
accept_status block ss none = err omitted_chain
accept_status block ss (some s) = do
  fail_if (not (is_latest s)) backfill_incomplete
  fail_if (trails block s) short_of_pin
  ok (ss, lower_of block.number s.processed_block)

abbrev pub trails_at : BlockRef → Option ChainStatus → Bool
trails_at block none = false
trails_at block (some s) = trails block s

-- The argument of `read` forces a refresh.
unfoldable pub index_query_block :
    BlockRef → (Bool → Option Statuses) → Outcome Error (Statuses × ℕ)
unfolding accept_status
index_query_block block read = do
  ss ← read_result (read false)
  last ← (if trails_at block (lookup block.chain_id ss) then read_result (read true) else ok ss)
  accept_status block last (lookup block.chain_id last)

-- A 64-bit word read as a signed integer.
unfoldable pub signed64 : ℕ → ℤ
signed64 w = if ltb w (2 ^ 63) then pos w else pos w -ℤ pos (2 ^ 64)

-- `time.Duration(seconds) * time.Second`
unfoldable pub duration : ℕ → ℤ
unfolding signed64
duration seconds = signed64 (seconds * second % 2 ^ 64)

pub record LagNote : Type 0 where
  pub checkpoint : ℕ
  pub lag : ℤ

pub check_lag : BlockRef → ℕ → ℤ → Outcome Error (Option LagNote)
check_lag block checkpoint_block lag =
    if block.fixed
    then (if ltb_ℤ (pos index_backfill_max_lag) lag then err stale else ok none)
    else if ltb_ℤ (pos index_max_lag) lag
    then ok (some (record { checkpoint = checkpoint_block; lag = lag }))
    else ok none

unfoldable pub check_index_checkpoint : BlockRef → ℕ → ℕ → Outcome Error (Option LagNote)
unfolding duration check_lag
check_index_checkpoint block checkpoint_block checkpoint_ms = do
  fail_if (ltb block.number checkpoint_block) checkpoint_ahead
  let seconds = checkpoint_ms / 1_000
  fail_if (ltb ((block.timestamp + 60) % 2 ^ 64) seconds) timestamp_ahead
  (if leb block.timestamp seconds
      then ok none
      else check_lag block checkpoint_block (duration (block.timestamp - seconds)))
