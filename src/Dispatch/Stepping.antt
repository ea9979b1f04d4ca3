-- ===== src/Dispatch/Stepping.antt =====
-- The steps of a scan as a relation (engine.go).
use sentio_portfolio.Common.{
  ℕ, ◌<◌, Bool, true, false, ◌||◌, ◌∷◌, ltb, ◌==◌, ltb→lt, length, get_elem?, if◌then◌else◌, ◌≡◌,
  refl, subst, List, [], Option, none, some,
}
use mathlib.Core.Option.{some-injective}
use sentio_portfolio.Scan.{Deployment, Chains, Reader}
use sentio_portfolio.Dispatch.{
  State, Event, step, Phase, looping, selecting, closed, stop, check, send, abort, discovered,
  finish, wallet_finish, close, check_context, send_job, abort_send, end_discovery, remove_at,
  finish_job, finish_wallet, end_reading,
}

module _ {P : Type 0} (reader : Reader P) (root : ℕ) (scans : Chains P) (workers : ℕ) where
  -- The steps, each with what it needs.
  pub data Stepped : Event → State → State → Type 0 where
    stopping : (s : State) → Stepped stop s (record s { stopped = true })
    ending :
        (s : State)
        → s.phase ≡ looping
        → (length s.pending == 0 || s.stopped) ≡ true
        → Stepped check s (close s)
    going_on :
        (s : State)
        → s.phase ≡ looping
        → (length s.pending == 0 || s.stopped) ≡ false
        → Stepped check s (record s { phase = selecting })
    sending :
        (s : State) (d : Deployment) (ds : List Deployment)
        → s.phase ≡ selecting
        → s.pending ≡ d ∷ ds
        → length s.running < workers
        → Stepped send s (record s { pending = ds; phase = looping; running = d ∷ s.running })
    giving_up : (s : State) → s.phase ≡ selecting → s.stopped ≡ true → Stepped abort s (close s)
    leaving_wallet :
        (s : State)
        → s.discovering ≡ true
        → s.stopped ≡ true
        → Stepped discovered s
            (record s { discovering = false; wallet = []; wallet_unread = s.wallet })
    reading_wallet :
        (s : State)
        → s.discovering ≡ true
        → s.stopped ≡ false
        → Stepped discovered s
            (record s { discovering = false; wallet = []; wallet_running = s.wallet })
    finishing :
        (s : State) (i : ℕ) (d : Deployment)
        → get_elem? s.running i ≡ some d
        → Stepped
            (finish i)
            s
            (end_reading reader root scans d (record s { running = remove_at i s.running }))
    finishing_wallet :
        (s : State) (i : ℕ) (d : Deployment)
        → get_elem? s.wallet_running i ≡ some d
        → Stepped (wallet_finish i) s (
            end_reading reader root scans d
              (record s { wallet_running = remove_at i s.wallet_running }))

  check-Stepped : (s t : State) → check_context s ≡ some t → Stepped check s t
  unfolding check_context
  check-Stepped s t h = go s.phase refl h
    where
      decide :
          (b : Bool)
          → s.phase ≡ looping
          → (length s.pending == 0 || s.stopped) ≡ b
          → some (if b then close s else record s { phase = selecting }) ≡ some t
          → Stepped check s t
      decide true e f k = subst (Stepped check s) (some-injective _ _ k) (ending s e f)
      decide false e f k = subst (Stepped check s) (some-injective _ _ k) (going_on s e f)

      go :
          (p : Phase)
          → s.phase ≡ p
          → (elim p [
            | looping ↦ some (
                if length s.pending == 0 || s.stopped
                then close s
                else record s { phase = selecting })
            | selecting ↦ none
            | closed ↦ none
          ])
            ≡ some t
          → Stepped check s t
      go looping e k = decide (length s.pending == 0 || s.stopped) e refl k
      go selecting e k = absurd cc
      go closed e k = absurd cc

  send-Stepped : (s t : State) → send_job workers s ≡ some t → Stepped send s t
  unfolding send_job
  send-Stepped s t h = go s.phase s.pending refl refl h
    where
      decide :
          (b : Bool) (d : Deployment) (ds : List Deployment)
          → s.phase ≡ selecting
          → s.pending ≡ d ∷ ds
          → ltb (length s.running) workers ≡ b
          → (if b
              then some (record s { pending = ds; phase = looping; running = d ∷ s.running })
              else none)
            ≡ some t
          → Stepped send s t
      decide true d ds e f free k =
          subst (Stepped send s) (some-injective _ _ k)
            (sending s d ds e f (ltb→lt (length s.running) workers free))
      decide false d ds e f free k = absurd cc

      go :
          (p : Phase) (ds : List Deployment)
          → s.phase ≡ p
          → s.pending ≡ ds
          → (elim p [
            | looping ↦ none
            | selecting ↦ elim ds [
              | [] ↦ none
              | d ∷ ds ↦
                  if ltb (length s.running) workers
                  then some (record s { pending = ds; phase = looping; running = d ∷ s.running })
                  else none
            ]
            | closed ↦ none
          ])
            ≡ some t
          → Stepped send s t
      go looping ds e f k = absurd cc
      go selecting [] e f k = absurd cc
      go selecting (d ∷ ds) e f k = decide (ltb (length s.running) workers) d ds e f refl k
      go closed ds e f k = absurd cc

  abort-Stepped : (s t : State) → abort_send s ≡ some t → Stepped abort s t
  unfolding abort_send
  abort-Stepped s t h = go s.phase s.stopped refl refl h
    where
      go :
          (p : Phase) (b : Bool)
          → s.phase ≡ p
          → s.stopped ≡ b
          → (elim p [
            | looping ↦ none
            | selecting ↦ if b then some (close s) else none
            | closed ↦ none
          ])
            ≡ some t
          → Stepped abort s t
      go looping b e f k = absurd cc
      go selecting true e f k = subst (Stepped abort s) (some-injective _ _ k) (giving_up s e f)
      go selecting false e f k = absurd cc
      go closed b e f k = absurd cc

  discovered-Stepped : (s t : State) → end_discovery s ≡ some t → Stepped discovered s t
  unfolding end_discovery
  discovered-Stepped s t h = go s.discovering s.stopped refl refl h
    where
      go :
          (a b : Bool)
          → s.discovering ≡ a
          → s.stopped ≡ b
          → (if a
              then some (
                  if b
                  then record s { discovering = false; wallet = []; wallet_unread = s.wallet }
                  else record s { discovering = false; wallet = []; wallet_running = s.wallet })
              else none)
            ≡ some t
          → Stepped discovered s t
      go true true e f k =
          subst (Stepped discovered s) (some-injective _ _ k) (leaving_wallet s e f)
      go true false e f k =
          subst (Stepped discovered s) (some-injective _ _ k) (reading_wallet s e f)
      go false b e f k = absurd cc

  finish-Stepped :
      (i : ℕ) (s t : State) → finish_job reader root scans i s ≡ some t → Stepped (finish i) s t
  unfolding finish_job
  finish-Stepped i s t h = go (get_elem? s.running i) refl h
    where
      go :
          (o : Option Deployment)
          → get_elem? s.running i ≡ o
          → (elim o [
            | none ↦ none
            | some d ↦
                some
                  (end_reading reader root scans d (record s { running = remove_at i s.running }))
          ])
            ≡ some t
          → Stepped (finish i) s t
      go none e k = absurd cc
      go (some d) e k = subst (Stepped (finish i) s) (some-injective _ _ k) (finishing s i d e)

  wallet_finish-Stepped :
      (i : ℕ) (s t : State)
      → finish_wallet reader root scans i s ≡ some t
      → Stepped (wallet_finish i) s t
  unfolding finish_wallet
  wallet_finish-Stepped i s t h = go (get_elem? s.wallet_running i) refl h
    where
      go :
          (o : Option Deployment)
          → get_elem? s.wallet_running i ≡ o
          → (elim o [
            | none ↦ none
            | some d ↦ some (
                end_reading reader root scans d
                  (record s { wallet_running = remove_at i s.wallet_running }))
          ])
            ≡ some t
          → Stepped (wallet_finish i) s t
      go none e k = absurd cc
      go (some d) e k =
          subst (Stepped (wallet_finish i) s) (some-injective _ _ k) (finishing_wallet s i d e)

  pub step-Stepped :
      (e : Event) (s t : State) → step reader root scans workers e s ≡ some t → Stepped e s t
  unfolding step
  step-Stepped stop s t h = subst (Stepped stop s) (some-injective _ _ h) (stopping s)
  step-Stepped check s t h = check-Stepped s t h
  step-Stepped send s t h = send-Stepped s t h
  step-Stepped abort s t h = abort-Stepped s t h
  step-Stepped discovered s t h = discovered-Stepped s t h
  step-Stepped (finish i) s t h = finish-Stepped i s t h
  step-Stepped (wallet_finish i) s t h = wallet_finish-Stepped i s t h
