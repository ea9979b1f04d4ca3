-- ===== src/Dispatch/Measure.antt =====
-- The steps that are left to a scan (engine.go).
use sentio_portfolio.Common.{
  ℕ, ◌+◌, ◌*◌, ◌≤◌, ◌≡◌, ap, Bool, true, false, List, [], ◌∷◌, some, length, arith, count, one_if,
}
use mathlib.Core.Option.{some-injective}
use sentio_portfolio.Scan.{Chains, Reader}
use sentio_portfolio.Dispatch.{
  State, Event, Phase, looping, selecting, closed, stop, check, send, abort, discovered, finish,
  wallet_finish, run,
}
use sentio_portfolio.Dispatch.Counting.{length-remove_at}
use sentio_portfolio.Dispatch.Stepping.{
  Stepped, step-Stepped, stopping, ending, going_on, sending, giving_up, leaving_wallet,
  reading_wallet, finishing, finishing_wallet,
}
use sentio_portfolio.Dispatch.Runs.{run-steps}

-- Every event but the stop, which may come at any time and any number of times.
abbrev pub moves : Event → Bool
moves stop = false
moves check = true
moves send = true
moves abort = true
moves discovered = true
moves (finish i) = true
moves (wallet_finish i) = true

-- The steps left to the sender.
abbrev pub to_send_left : Phase → ℕ → ℕ
to_send_left looping n = 3 * n + 2
to_send_left selecting n = 3 * n + 1
to_send_left closed n = 0

abbrev pub steps_left : State → ℕ
steps_left s =
    to_send_left s.phase (length s.pending)
    + length s.running
    + (2 * length s.wallet + one_if s.discovering + length s.wallet_running)

module _ {P : Type 0} (reader : Reader P) (root : ℕ) (scans : Chains P) (workers : ℕ) where
  step_fewer :
      (e : Event) (s t : State)
      → Stepped reader root scans workers e s t
      → one_if (moves e) + steps_left t ≤ steps_left s
  step_fewer e s t (stopping s') = omega arith
  step_fewer e s t (ending s' looped over) =
      let was = ap (λ p. to_send_left p (length s'.pending)) looped in omega (arith, was)
  step_fewer e s t (going_on s' looped more) =
      let was = ap (λ p. to_send_left p (length s'.pending)) looped in omega (arith, was)
  step_fewer e s t (sending s' d ds chosen there free) =
      let was = ap (λ p. to_send_left p (length s'.pending)) chosen in
      let len = ap length there in omega (arith, was, len)
  step_fewer e s t (giving_up s' chosen stopped) =
      let was = ap (λ p. to_send_left p (length s'.pending)) chosen in omega (arith, was)
  step_fewer e s t (leaving_wallet s' found stopped) =
      let was = ap one_if found in omega (arith, was)
  step_fewer e s t (reading_wallet s' found going) = let was = ap one_if found in omega (arith, was)
  step_fewer e s t (finishing s' i d found) = omega (arith, length-remove_at i s'.running d found)
  step_fewer e s t (finishing_wallet s' i d found) =
      omega (arith, length-remove_at i s'.wallet_running d found)

  pub run_fewer :
      (events : List Event) (s t : State)
      → run reader root scans workers events s ≡ some t
      → count moves events + steps_left t ≤ steps_left s
  unfolding run
  run_fewer [] s t h = let same = ap steps_left (some-injective _ _ h) in omega (arith, same)
  run_fewer (e ∷ events) s t h =
      let (u, went, rest) = run-steps reader root scans workers e events s t h in
      omega (
        arith,
        step_fewer e s u (step-Stepped reader root scans workers e s u went),
        run_fewer events u t rest,
      )
