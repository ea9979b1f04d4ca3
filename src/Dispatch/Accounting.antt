-- ===== src/Dispatch/Accounting.antt =====
-- Every deployment of a scan is read or reported as not read (engine.go).
use sentio_portfolio.Common.{
  map, filter, Bool-cases, inl, inr, count, count-append, ℕ, ◌+◌, ◌≡◌, refl, sym, ap, ◌∙◌, Bool,
  true, false, List, [], ◌∷◌, ◌++◌, some, arith,
}
use mathlib.Core.List.{append-nil, append_assoc}
use Prim.Native.String.{String}
use sentio_portfolio.Wallet.{suppress_duplicate_holdings}
use sentio_portfolio.Scan.{
  ScanError, error_of, incomplete_scope, not_read_message, Deployment, Chains, Reader, Report, read,
  no_report, add_report,
}
use sentio_portfolio.Dispatch.{
  State, Event, run, start, is_over, collected, active_in, not_read_errors,
}
use sentio_portfolio.Dispatch.Counting.{count-remove_at}
use sentio_portfolio.Dispatch.Runs.{run_keeps}
use sentio_portfolio.Dispatch.Invariant.{IsOrdered, step_IsOrdered, start_IsOrdered, over_left}
use sentio_portfolio.Dispatch.Stepping.{
  Stepped, stopping, ending, going_on, sending, giving_up, leaving_wallet, reading_wallet,
  finishing, finishing_wallet,
}

-- The deployments of some kind, wherever they are.
abbrev total : (Deployment → Bool) → State → ℕ
total p s =
    count (λ r. p r.0) s.finished
    + count p s.running
    + count p s.pending
    + (count p s.wallet + count p s.wallet_running + count p s.wallet_unread)

module _ {P : Type 0} (reader : Reader P) (root : ℕ) (scans : Chains P) where
  -- What readings add to the response, in the order in which they end.
  abbrev pub reports : List (Deployment × Bool) → Report
  reports [] = no_report
  reports ((d, stopped) ∷ rs) = add_report (read reader root scans stopped d) (reports rs)

  add_report_assoc :
      (a b c : Report) → add_report (add_report a b) c ≡ add_report a (add_report b c)
  add_report_assoc a b c =
      rw (append_assoc a.errors b.errors c.errors, append_assoc a.snapshots b.snapshots c.snapshots)
        refl

  add_report_none : (a : Report) → add_report a no_report ≡ a
  add_report_none a = cc (append-nil a.errors, append-nil a.snapshots)

  reports_snoc :
      (rs : List (Deployment × Bool)) (d : Deployment) (stopped : Bool)
      → reports (rs ++ ((d, stopped) ∷ []))
        ≡ add_report (reports rs) (read reader root scans stopped d)
  reports_snoc [] d stopped = add_report_none (read reader root scans stopped d)
  reports_snoc ((e, b) ∷ rs) d stopped =
      ap (add_report (read reader root scans b e)) (reports_snoc rs d stopped)
      ∙ sym (
          add_report_assoc (read reader root scans b e) (reports rs)
            (read reader root scans stopped d))

module _ {P : Type 0} (reader : Reader P) (root : ℕ) (scans : Chains P) (workers : ℕ) where
  step_total :
      (p : Deployment → Bool) (e : Event) (s t : State)
      → IsOrdered workers s
      → Stepped reader root scans workers e s t
      → total p t ≡ total p s
  step_total p e s t o (stopping s') = refl
  step_total p e s t o (ending s' looped over) = refl
  step_total p e s t o (going_on s' looped more) = refl
  step_total p e s t o (sending s' d ds chosen there free) =
      let all = ap (count p) there in omega (arith, all)
  step_total p e s t o (giving_up s' chosen stopped) = refl
  step_total p e s t o (leaving_wallet s' found stopped) =
      let none_yet = ap (count p) (o.waiting found).1 in omega (arith, none_yet)
  step_total p e s t o (reading_wallet s' found going) =
      let none_yet = ap (count p) (o.waiting found).0 in omega (arith, none_yet)
  step_total p e s t o (finishing s' i d found) =
      let had = count-remove_at p i s'.running d found in
      let now = count-append (λ r. p r.0) s'.finished ((d, s'.stopped) ∷ []) in
      omega (arith, had, now)
  step_total p e s t o (finishing_wallet s' i d found) =
      let had = count-remove_at p i s'.wallet_running d found in
      let now = count-append (λ r. p r.0) s'.finished ((d, s'.stopped) ∷ []) in
      omega (arith, had, now)

  step_report :
      (e : Event) (s t : State)
      → s.report ≡ reports reader root scans s.finished
      → Stepped reader root scans workers e s t
      → t.report ≡ reports reader root scans t.finished
  step_report e s t r (stopping s') = r
  step_report e s t r (ending s' looped over) = r
  step_report e s t r (going_on s' looped more) = r
  step_report e s t r (sending s' d ds chosen there free) = r
  step_report e s t r (giving_up s' chosen stopped) = r
  step_report e s t r (leaving_wallet s' found stopped) = r
  step_report e s t r (reading_wallet s' found going) = r
  step_report e s t r (finishing s' i d found) =
      ap (λ q. add_report q (read reader root scans s'.stopped d)) r
      ∙ sym (reports_snoc reader root scans s'.finished d s'.stopped)
  step_report e s t r (finishing_wallet s' i d found) =
      ap (λ q. add_report q (read reader root scans s'.stopped d)) r
      ∙ sym (reports_snoc reader root scans s'.finished d s'.stopped)

  -- What holds of a state between the steps of a scan of `jobs` and of the wallet's `wallet`.
  abbrev Accounts : List Deployment → List Deployment → State → Type 0
  Accounts jobs wallet s =
      IsOrdered workers s
      × (s.report ≡ reports reader root scans s.finished)
      × ((p : Deployment → Bool) → total p s ≡ count p jobs + count p wallet)

  step_Accounts :
      (jobs wallet : List Deployment) (e : Event) (s t : State)
      → Accounts jobs wallet s
      → Stepped reader root scans workers e s t
      → Accounts jobs wallet t
  step_Accounts jobs wallet e s t (o, r, all) went = (
    step_IsOrdered reader root scans workers e s t o went,
    step_report e s t r went,
    λ p. step_total p e s t o went ∙ all p,
  )

  start_Accounts :
      (jobs wallet : List Deployment) (counts : List (String × ℕ)) (probed : List String)
      → Accounts jobs wallet (start jobs wallet counts probed)
  unfolding start
  start_Accounts jobs wallet counts probed =
      (start_IsOrdered workers jobs wallet counts probed, refl, λ p. omega arith)

-- The error for a deployment that was not read.
abbrev pub not_read : Deployment → ScanError
not_read d = error_of d incomplete_scope not_read_message

not_read_errors-map :
    {P : Type 0} (scans : Chains P) (ds : List Deployment)
    → not_read_errors scans ds ≡ map not_read (filter (active_in scans) ds)
unfolding not_read_errors
not_read_errors-map scans [] = refl
not_read_errors-map scans (d ∷ ds) = elim (Bool-cases (active_in scans d)) [
  | inl active ↦ rw (active, not_read_errors-map scans ds) refl
  | inr inactive ↦ rw inactive (not_read_errors-map scans ds)
]

-- Every deployment is accounted for. When both waits of a scan are over, after whatever events in whatever order,
-- each deployment was read to its end exactly as often as it was planned, or else was left unread: for any
-- test on deployments, as many pass among those read and those left as among those planned. The errors
-- are those of the readings, in the order in which they ended, and then one for each deployment left that
-- is active at its chain's pin; the snapshots are those of the readings, without duplicate holdings.
-- Nothing is left unread if collection has not stopped.
pub run_accounts :
    {P : Type 0} (reader : Reader P) (root : ℕ) (scans : Chains P) (workers : ℕ)
    (jobs wallet : List Deployment) (counts : List (String × ℕ)) (probed : List String)
    (events : List Event) (s : State)
    → run reader root scans workers events (start jobs wallet counts probed) ≡ some s
    → is_over s ≡ true
    → ((p : Deployment → Bool)
        → count (λ r. p r.0) s.finished + count p (s.pending ++ s.wallet_unread)
          ≡ count p jobs + count p wallet)
      × ((collected scans s).errors
          ≡ (reports reader root scans s.finished).errors
            ++ map not_read (filter (active_in scans) (s.pending ++ s.wallet_unread)))
      × ((collected scans s).snapshots
          ≡ suppress_duplicate_holdings (reports reader root scans s.finished).snapshots)
      × (s.stopped ≡ false → s.pending ++ s.wallet_unread ≡ [])
unfolding collected
run_accounts reader root scans workers jobs wallet counts probed events s h over =
    let (o, r, all) =
      run_keeps reader root scans workers (Accounts reader root scans workers jobs wallet)
        (step_Accounts reader root scans workers jobs wallet) events
        (start jobs wallet counts probed) s
        (start_Accounts reader root scans workers jobs wallet counts probed) h in
    let (ended, (idle, (found, wallet_idle))) = over_left s over in
    (
      λ p. omega (
        arith,
        all p,
        count-append p s.pending s.wallet_unread,
        ap (count p) idle,
        ap (count p) wallet_idle,
        ap (count p) (o.left found),
      ),
      ap (λ q. q.errors ++ not_read_errors scans (s.pending ++ s.wallet_unread)) r
          ∙ ap (λ es. (reports reader root scans s.finished).errors ++ es)
              (not_read_errors-map scans (s.pending ++ s.wallet_unread)),
      ap (λ q. suppress_duplicate_holdings q.snapshots) r,
      λ going. cc (o.all_sent ended going, o.wallet_read going),
    )
