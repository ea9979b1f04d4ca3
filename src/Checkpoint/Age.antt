-- ===== src/Checkpoint/Age.antt =====
-- Which checkpoints certify a read (sentio_checkpoint.go).
use sentio_portfolio.Common.{
  ℕ, ◌+◌, ◌-◌, ◌*◌, ◌/◌, ◌^◌, ◌<◌, ◌≡◌, Bool, true, false, none, some, Option, arith, ltb, ok, err,
  Outcome, if◌then◌else◌,
}
use sentio_portfolio.Common.Int.{pos, ◌-ℤ◌}
use sentio_portfolio.Checkpoint.{
  BlockRef, Error, LagNote, second, check_index_checkpoint, check_lag, duration, checkpoint_ahead,
  timestamp_ahead, stale,
}

pub duration_small : (s : ℕ) → s < 2 ^ 33 → duration s ≡ pos (s * second)
unfolding duration ◌-ℤ◌
duration_small s h = ground arith

-- The rule in seconds, without machine integers: `age` is how far the checkpoint lies behind the pin.
abbrev pub verdict : Bool → ℕ → ℕ → Outcome Error (Option LagNote)
verdict true checkpoint age = if ltb 606_600 age then err stale else ok none
verdict false checkpoint age =
    if ltb 3600 age
    then ok (some (record { checkpoint = checkpoint; lag = pos (age * second) }))
    else ok none

-- For timestamps below 2 ^ 33 seconds no machine integer wraps around: a checkpoint is refused when it is
-- ahead of the pin by block, or by more than a minute, or, at a fixed pin, more than a week and half an
-- hour behind; a live read further than an hour behind gets a note with its lag.
pub check_index_checkpoint_lem :
    (block : BlockRef) (checkpoint ms : ℕ)
    → block.timestamp < 2 ^ 33
    → check_index_checkpoint block checkpoint ms ≡ (
        if ltb block.number checkpoint
        then err checkpoint_ahead
        else if ltb (block.timestamp + 60) (ms / 1_000)
        then err timestamp_ahead
        else verdict block.fixed checkpoint (block.timestamp - ms / 1_000))
unfolding check_index_checkpoint check_lag
check_index_checkpoint_lem block c ms h =
    ground (arith, duration_small (block.timestamp - ms / 1_000) (omega (arith, h)))
