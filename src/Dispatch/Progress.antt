-- ===== src/Dispatch/Progress.antt =====
-- A scan is never stuck and never goes on forever (engine.go).
use Prim.Native.String.{String}
use sentio_portfolio.Common.{
  ℕ, ◌+◌, ◌*◌, ◌≤◌, ◌<◌, ◌≡◌, refl, ap, ◌∙◌, Bool, true, false, ◌||◌, List, [], ◌∷◌, none, some,
  ltb, ◌==◌, length, get_elem?, if◌then◌else◌, arith, Bool-cases, ◌⊎◌, inl, inr, count, not_ltb→le,
}
use sentio_portfolio.Common.Int.{ℤ, pos, negsuc, leb_ℤ, pos_part}
use sentio_portfolio.Scan.{Deployment, Chains, Reader}
use sentio_portfolio.Engine.{Engine, workers, default_scan_workers}
use sentio_portfolio.Dispatch.{
  State, Event, Phase, looping, selecting, closed, check, send, discovered, finish, wallet_finish,
  step, run, start, close, check_context, send_job, end_discovery, remove_at, finish_job,
  finish_wallet, end_reading, is_over,
}
use sentio_portfolio.Dispatch.Runs.{run_keeps}
use sentio_portfolio.Dispatch.Invariant.{IsOrdered, step_IsOrdered, start_IsOrdered}
use sentio_portfolio.Dispatch.Measure.{moves, run_fewer}

module _ {P : Type 0} (reader : Reader P) (root : ℕ) (scans : Chains P) (workers : ℕ) where
  -- A step other than the stop that the scan can take.
  abbrev pub CanMove : State → Type 0
  CanMove s =
      (e : Event) × ((t : State) × ((moves e ≡ true)
          × (step reader root scans workers e s ≡ some t)))

  finish_CanMove :
      (s : State) (d : Deployment) (ds : List Deployment) → s.running ≡ d ∷ ds → CanMove s
  unfolding step finish_job
  finish_CanMove s d ds h = (
    finish 0,
    (
      end_reading reader root scans d (record s { running = remove_at 0 s.running }),
      (
        refl,
        ap
            (λ o. elim o [
              | none ↦ none
              | some d ↦
                  some
                    (end_reading reader root scans d (record s { running = remove_at 0 s.running }))
            ])
            (ap (λ r. get_elem? r 0) h),
      ),
    ),
  )

  wallet_finish_CanMove :
      (s : State) (d : Deployment) (ds : List Deployment) → s.wallet_running ≡ d ∷ ds → CanMove s
  unfolding step finish_wallet
  wallet_finish_CanMove s d ds h = (
    wallet_finish 0,
    (
      end_reading reader root scans d (record s { wallet_running = remove_at 0 s.wallet_running }),
      (
        refl,
        ap
            (λ o. elim o [
              | none ↦ none
              | some d ↦ some (
                  end_reading reader root scans d
                    (record s { wallet_running = remove_at 0 s.wallet_running }))
            ])
            (ap (λ r. get_elem? r 0) h),
      ),
    ),
  )

  check_CanMove : (s : State) → s.phase ≡ looping → CanMove s
  unfolding step check_context
  check_CanMove s h = (
    check,
    (
      (if length s.pending == 0 || s.stopped then close s else record s { phase = selecting }),
      (
        refl,
        ap
            (λ p. elim p [
              | looping ↦ some (
                  if length s.pending == 0 || s.stopped
                  then close s
                  else record s { phase = selecting })
              | selecting ↦ none
              | closed ↦ none
            ])
            h,
      ),
    ),
  )

  discovered_CanMove : (s : State) → s.discovering ≡ true → CanMove s
  unfolding step end_discovery
  discovered_CanMove s h =
      let next =
        if s.stopped
        then record s { discovering = false; wallet = []; wallet_unread = s.wallet }
        else record s { discovering = false; wallet = []; wallet_running = s.wallet } in
      (discovered, (next, (refl, ap (λ b. if b then some next else none) h)))

  send_CanMove :
      (s : State) (d : Deployment) (ds : List Deployment)
      → s.phase ≡ selecting
      → s.pending ≡ d ∷ ds
      → ltb (length s.running) workers ≡ true
      → CanMove s
  unfolding step send_job
  send_CanMove s d ds h there free = (
    send,
    (
      record s { pending = ds; phase = looping; running = d ∷ s.running },
      (
        refl,
        ap
              (λ p. elim p [
                | looping ↦ none
                | selecting ↦ elim s.pending [
                  | [] ↦ none
                  | d ∷ ds ↦
                      if ltb (length s.running) workers
                      then some
                          (record s { pending = ds; phase = looping; running = d ∷ s.running })
                      else none
                ]
                | closed ↦ none
              ])
              h
            ∙ ap
                (λ l. elim l [
                  | [] ↦ none
                  | d ∷ ds ↦
                      if ltb (length s.running) workers
                      then some
                          (record s { pending = ds; phase = looping; running = d ∷ s.running })
                      else none
                ])
                there
            ∙ ap
                (λ b.
                  if b
                  then some (record s { pending = ds; phase = looping; running = d ∷ s.running })
                  else none)
                free,
      ),
    ),
  )

  -- A select sends its job, unless every worker reads; then one of them can end.
  select_CanMove : (s : State) → IsOrdered workers s → 0 < workers → s.phase ≡ selecting → CanMove s
  select_CanMove s o some_worker h =
      go s.pending s.running refl refl (Bool-cases (ltb (length s.running) workers))
    where
      go :
          (ds rs : List Deployment)
          → s.pending ≡ ds
          → s.running ≡ rs
          → ((ltb (length s.running) workers ≡ true) ⊎ (ltb (length s.running) workers ≡ false))
          → CanMove s
      go [] rs e f free = absurd (impossible (ap (λ l. length l == 0) e) (o.to_send h))
        where
          impossible : {b : Bool} → b ≡ true → b ≡ false → ⊥
          impossible p q = cc
      go (d ∷ ds) rs e f (inl free) = send_CanMove s d ds h e free
      go (d ∷ ds) [] e f (inr busy) =
          absurd
            (omega (arith, not_ltb→le (length s.running) workers busy, ap length f, some_worker))
      go (d ∷ ds) (r ∷ rs) e f (inr busy) = finish_CanMove s r rs f

  can_move : (s : State) → IsOrdered workers s → 0 < workers → is_over s ≡ false → CanMove s
  can_move s o some_worker more =
      go s.phase s.running s.discovering s.wallet_running refl refl refl refl
    where
      go :
          (p : Phase) (rs : List Deployment) (b : Bool) (ws : List Deployment)
          → s.phase ≡ p
          → s.running ≡ rs
          → s.discovering ≡ b
          → s.wallet_running ≡ ws
          → CanMove s
      go looping rs b ws h f g k = check_CanMove s h
      go selecting rs b ws h f g k = select_CanMove s o some_worker h
      go closed (r ∷ rs) b ws h f g k = finish_CanMove s r rs f
      go closed [] true ws h f g k = discovered_CanMove s g
      go closed [] false (w ∷ ws) h f g k = wallet_finish_CanMove s w ws k
      go closed [] false [] h f g k = absurd cc

workers_lem : (e : Engine) → 0 < workers e
unfolding workers
workers_lem e = positive e.scan_workers
  where
    positive : (n : ℤ) → 0 < (if leb_ℤ n (pos 0) then default_scan_workers else pos_part n)
    positive (pos n) = ground arith
    positive (negsuc n) = ground arith

-- A scan comes to its end. With the engine's workers, in any run of a scan of `jobs` and of the wallet's
-- `wallet`: at most as many deployments are read at once, beside the wallet's, as there are workers; the
-- events other than a stop number at most three for each job, two for each of the wallet's and three
-- more; and as long as the scan is not over, one of them can happen.
pub run_ends :
    {P : Type 0} (reader : Reader P) (root : ℕ) (scans : Chains P) (e : Engine)
    (jobs wallet : List Deployment) (counts : List (String × ℕ)) (probed : List String)
    (events : List Event) (s : State)
    → run reader root scans (workers e) events (start jobs wallet counts probed) ≡ some s
    → (length s.running ≤ workers e)
      × (count moves events ≤ 3 * length jobs + 2 * length wallet + 3)
      × (is_over s ≡ false
          → (event : Event) × ((t : State) × ((moves event ≡ true)
                × (step reader root scans (workers e) event s ≡ some t))))
unfolding start
run_ends reader root scans e jobs wallet counts probed events s h =
    let o =
      run_keeps reader root scans (workers e) (IsOrdered (workers e))
        (step_IsOrdered reader root scans (workers e)) events (start jobs wallet counts probed) s
        (start_IsOrdered (workers e) jobs wallet counts probed) h in
    (
      o.few,
      ground (
        arith,
        run_fewer reader root scans (workers e) events (start jobs wallet counts probed) s h,
      ),
      can_move reader root scans (workers e) s o (workers_lem e),
    )
