-- ===== src/Dispatch/Ending.antt =====
-- The presence probes of a protocol over a scan (engine.go).
use Prim.Native.String.{String}
use sentio_portfolio.Common.{
  ℕ, ◌+◌, ◌≡◌, refl, ap, ◌∙◌, subst, true, false, List, some, get_elem?, arith, count, one_if, ok,
}
use sentio_portfolio.Common.Assoc.{string_key}
use sentio_portfolio.Availability.{ProtocolInfo, Registrations}
use sentio_portfolio.Scan.{Deployment, Chains, Reader, Plan, plan, empty_plan, is_of}
use sentio_portfolio.Engine.{Options}
use sentio_portfolio.Scan.Plans.{planned, IsCounted, plan-IsCounted}
use sentio_portfolio.Dispatch.{
  new_lifetimes, done_all, State, Event, Phase, looping, selecting, closed, run, start, remove_at,
  is_over,
}
use sentio_portfolio.Dispatch.Counting.{count-remove_at}
use sentio_portfolio.Dispatch.Stepping.{
  Stepped, stopping, ending, going_on, sending, giving_up, leaving_wallet, reading_wallet,
  finishing, finishing_wallet,
}
use sentio_portfolio.Dispatch.Runs.{run_keeps}
use sentio_portfolio.Dispatch.Invariant.{over_left}
use sentio_portfolio.Dispatch.Probes.{
  HasLeft, none_left, endings, done-HasLeft, done_all-HasLeft, new_lifetimes-HasLeft,
}

abbrev pub in_use_at : String → Phase → List Deployment → List Deployment → ℕ
in_use_at id looping pending running = count (is_of id) pending + count (is_of id) running
in_use_at id selecting pending running = count (is_of id) pending + count (is_of id) running
in_use_at id closed pending running = count (is_of id) running

-- The deployments of a protocol that are still to be read or being read.
abbrev pub in_use : String → State → ℕ
in_use id s = in_use_at id s.phase s.pending s.running

in_use-remove_at :
    (id : String) (p : Phase) (pending running : List Deployment) (i : ℕ) (d : Deployment)
    → get_elem? running i ≡ some d
    → in_use_at id p pending running
      ≡ one_if (is_of id d) + in_use_at id p pending (remove_at i running)
in_use-remove_at id looping pending running i d h =
    omega (arith, count-remove_at (is_of id) i running d h)
in_use-remove_at id selecting pending running i d h =
    omega (arith, count-remove_at (is_of id) i running d h)
in_use-remove_at id closed pending running i d h = count-remove_at (is_of id) i running d h

-- A protocol other than the wallet, with its probes.
record IsTracked (id : String) (s : State) : Type 0 where
  probes : HasLeft id (in_use id s) s.probes
  wallet : count (is_of id) s.wallet ≡ 0
  wallet_running : count (is_of id) s.wallet_running ≡ 0

module _ {P : Type 0} (reader : Reader P) (root : ℕ) (scans : Chains P) (workers : ℕ)
    (id : String) where
  closing :
      (s : State)
      → HasLeft id (count (is_of id) s.pending + count (is_of id) s.running) s.probes
      → HasLeft id (count (is_of id) s.running) (done_all s.pending s.probes)
  closing s h = done_all-HasLeft id s.pending (count (is_of id) s.running) s.probes h

  in_use_open :
      (s : State) (p : Phase) → s.phase ≡ p → in_use id s ≡ in_use_at id p s.pending s.running
  in_use_open s p h = ap (λ p. in_use_at id p s.pending s.running) h

  step_IsTracked :
      (e : Event) (s t : State)
      → IsTracked id s
      → Stepped reader root scans workers e s t
      → IsTracked id t
  step_IsTracked e s t k (stopping s') = record {
    probes = k.probes;
    wallet = k.wallet;
    wallet_running = k.wallet_running;
  }
  step_IsTracked e s t k (ending s' looped over) = record {
    probes =
        closing s' (subst (λ n. HasLeft id n s'.probes) (in_use_open s' looping looped) k.probes);
    wallet = k.wallet;
    wallet_running = k.wallet_running;
  }
  step_IsTracked e s t k (going_on s' looped more) = record {
    probes = subst (λ n. HasLeft id n s'.probes) (in_use_open s' looping looped) k.probes;
    wallet = k.wallet;
    wallet_running = k.wallet_running;
  }
  step_IsTracked e s t k (sending s' d ds chosen there free) = record {
    probes =
        subst (λ n. HasLeft id n s'.probes)
          (omega (arith, in_use_open s' selecting chosen, ap (count (is_of id)) there)) k.probes;
    wallet = k.wallet;
    wallet_running = k.wallet_running;
  }
  step_IsTracked e s t k (giving_up s' chosen stopped) = record {
    probes =
        closing s' (subst (λ n. HasLeft id n s'.probes) (in_use_open s' selecting chosen) k.probes);
    wallet = k.wallet;
    wallet_running = k.wallet_running;
  }
  step_IsTracked e s t k (leaving_wallet s' found stopped) = record {
    probes = k.probes;
    wallet = refl;
    wallet_running = k.wallet_running;
  }
  step_IsTracked e s t k (reading_wallet s' found going) = record {
    probes = k.probes;
    wallet = refl;
    wallet_running = k.wallet;
  }
  step_IsTracked e s t k (finishing s' i d found) = record {
    probes = done-HasLeft id d.info.id _ s'.probes (
        subst (λ n. HasLeft id n s'.probes)
          (in_use-remove_at id s'.phase s'.pending s'.running i d found) k.probes);
    wallet = k.wallet;
    wallet_running = k.wallet_running;
  }
  step_IsTracked e s t k (finishing_wallet s' i d found) = record {
    probes = done-HasLeft id d.info.id _ s'.probes (
        subst (λ n. HasLeft id n s'.probes)
          (omega (arith, k.wallet_running, count-remove_at (is_of id) i s'.wallet_running d found))
          k.probes);
    wallet = k.wallet;
    wallet_running =
        omega (arith, k.wallet_running, count-remove_at (is_of id) i s'.wallet_running d found);
  }

start_IsTracked :
    (id : String) (p : Plan) (probed : List String)
    → IsCounted p
    → string_key.beq id "wallet" ≡ false
    → count (string_key.beq id) probed ≡ 1
    → IsTracked id (start p.jobs p.wallet p.counts probed)
unfolding start
start_IsTracked id p probed c other once = record {
  probes =
      subst (λ n. HasLeft id n (new_lifetimes probed p.counts))
        (omega (arith, c.counted id, c.only_wallet id other))
        (new_lifetimes-HasLeft id probed p.counts once);
  wallet = c.only_wallet id other;
  wallet_running = refl;
}

-- Presence probes end in time and not before. Take the scan of a plan, and a protocol other than the wallet
-- whose probes are prefetched, once. After any events they have been ended once if none of the protocol's
-- deployments is left to be sent to a worker or is being read, and otherwise not at all; so when the
-- scan is over they have been ended, once.
pub run_ends_probes :
    {P : Type 0} (reader : Reader P) (root : ℕ) (scans : Chains P) (workers : ℕ) (o : Options)
    (rs : Registrations) (infos : List ProtocolInfo) (p : Plan) (probed : List String) (id : String)
    (events : List Event) (s : State)
    → plan o scans rs infos empty_plan ≡ ok p
    → string_key.beq id "wallet" ≡ false
    → count (string_key.beq id) probed ≡ 1
    → run reader root scans workers events (start p.jobs p.wallet p.counts probed) ≡ some s
    → (endings id s.probes ≡ none_left (in_use id s)) × (is_over s ≡ true → endings id s.probes ≡ 1)
run_ends_probes reader root scans workers o rs infos p probed id events s planned other once h =
    let k =
      run_keeps reader root scans workers (IsTracked id)
        (step_IsTracked reader root scans workers id) events (start p.jobs p.wallet p.counts probed)
        s (start_IsTracked id p probed (plan-IsCounted o scans rs infos p planned) other once) h in
    (
      k.probes.once,
      λ over.
          let (ended, (idle, _)) = over_left s over in
          k.probes.once
          ∙ ap none_left
              (ap (λ q. in_use_at id q s.pending s.running) ended ∙ ap (count (is_of id)) idle),
    )
