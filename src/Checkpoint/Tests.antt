-- ===== src/Checkpoint/Tests.antt =====
-- Runs of the code of sentio_checkpoint.go, and its theorems at concrete arguments.
use sentio_portfolio.Common.{
  ℕ, ◌+◌, ◌-◌, ◌*◌, ◌/◌, ◌≡◌, refl, Bool, true, false, some, Option, [], ◌∷◌, arith, ltb, ok, err,
  if◌then◌else◌,
}
use sentio_portfolio.Common.Assoc.{lookup, nat_key}
use sentio_portfolio.Common.Int.{pos}
use sentio_portfolio.Checkpoint.{
  BlockRef, ChainStatus, Statuses, index_query_block, check_index_checkpoint, short_of_pin,
  omitted_chain, stale, checkpoint_ahead, timestamp_ahead, second,
}
use sentio_portfolio.Checkpoint.Query.{Serves, LastRead, index_query_block_sound}
use sentio_portfolio.Checkpoint.Age.{verdict, check_index_checkpoint_lem}

abbrev pin : Bool → BlockRef
pin fixed = record { chain_id = 1; number = 200; hash = 0; timestamp = 1_000_000; fixed = fixed }

abbrev latest : ℕ → Statuses
latest block =
    (
      1,
      record {
        state = "PROCESSING_LATEST";
        processed_block = block;
        estimated_latest = 0;
        has_err = false;
      },
    )
    ∷ []

-- The second read finds the processor further on.
abbrev catching_up : Bool → Option Statuses
catching_up false = some (latest 150)
catching_up true = some (latest 210)

rereads : index_query_block (pin true) catching_up ≡ ok (latest 210, 200)
unfolding index_query_block
rereads = refl

live : index_query_block (pin false) catching_up ≡ ok (latest 150, 150)
unfolding index_query_block
live = refl

still_behind : index_query_block (pin true) (λ _. some (latest 150)) ≡ err short_of_pin
unfolding index_query_block
still_behind = refl

omitted : index_query_block (pin false) (λ _. some []) ≡ err omitted_chain
unfolding index_query_block
omitted = refl

too_old : check_index_checkpoint (pin true) 150 300_000_000 ≡ err stale
unfolding check_index_checkpoint
too_old = refl

late :
    check_index_checkpoint (pin false) 150 300_000_000
    ≡ ok (some (record { checkpoint = 150; lag = pos (700_000 * second) }))
unfolding check_index_checkpoint
late = refl

index_query_block_sound_example :
    (s : ChainStatus) × (lookup 1 (latest 210) ≡ some s)
    × Serves (pin true) s 200
    × LastRead (pin true) catching_up (latest 210)
index_query_block_sound_example =
    index_query_block_sound (pin true) catching_up (latest 210) 200 rereads

check_index_checkpoint_lem_example : check_index_checkpoint (pin true) 150 300_000_000 ≡ (
    if ltb 200 150
    then err checkpoint_ahead
    else if ltb (1_000_000 + 60) (300_000_000 / 1_000)
    then err timestamp_ahead
    else verdict true 150 (1_000_000 - 300_000_000 / 1_000))
check_index_checkpoint_lem_example =
    check_index_checkpoint_lem (pin true) 150 300_000_000 (omega arith)
