-- ===== src/Dispatch/Tests.antt =====
-- A small scan with one worker, stopped before its second job (engine.go).
use sentio_portfolio.Common.{
  ℕ, ◌+◌, ◌*◌, ◌≤◌, ◌≡◌, refl, Bool, true, false, List, [], ◌∷◌, ◌++◌, none, some, ok, count,
  length, map, filter,
}
use sentio_portfolio.Common.Assoc.{string_key}
use sentio_portfolio.Common.Int.{pos}
use sentio_portfolio.Availability.{ProtocolInfo, Registrations, Availability, between}
use sentio_portfolio.Accounts.{wallet}
use sentio_portfolio.Wallet.{suppress_duplicate_holdings}
use sentio_portfolio.Scan.{
  Chains, ChainScan, Deployment, Plan, Reader, plan, empty_plan, plan_chains, read, add_report,
  no_report,
}
use sentio_portfolio.Engine.{Options, Engine, includes_protocol, includes_chain, workers}
use sentio_portfolio.Dispatch.{
  State, Event, stop, check, send, discovered, finish, wallet_finish, closed, step, run, start,
  is_over, collected, active_in, check_context, send_job, end_discovery, finish_job, finish_wallet,
  remove_at, done, done_all, remove, new_lifetimes,
}
use sentio_portfolio.Dispatch.Accounting.{not_read, reports, run_accounts}
use sentio_portfolio.Dispatch.Measure.{moves}
use sentio_portfolio.Dispatch.Progress.{run_ends}
use sentio_portfolio.Dispatch.Probes.{endings, none_left}
use sentio_portfolio.Dispatch.Ending.{in_use, run_ends_probes}

abbrev morpho : ProtocolInfo
morpho = record { id = "morpho-blue"; name = "Morpho Blue"; chains = 1 ∷ 8453 ∷ [] }

abbrev holdings : ProtocolInfo
holdings = record { id = "wallet"; name = "Wallet"; chains = 1 ∷ [] }

abbrev everywhere : Availability
everywhere = (1, between 0 0 ∷ []) ∷ (8453, between 0 0 ∷ []) ∷ []

abbrev registrations : Registrations
registrations =
    ("morpho-blue", record { info = morpho; availability = everywhere })
    ∷ ("wallet", record { info = holdings; availability = everywhere })
    ∷ []

abbrev chain_at : ℕ → ChainScan ℕ
chain_at chain = record {
  block = record { chain_id = chain; number = 100; hash = 0; timestamp = 5_000; fixed = false };
  accounts = record { address = 7; attribution = wallet } ∷ [];
  wallet_provider_accounts = [];
  wallet_provider_errors = [];
  wallet_coverage = [];
}

abbrev scans : Chains ℕ
scans = (1, chain_at 1) ∷ (8453, chain_at 8453) ∷ []

abbrev everything : Options
everything = record { protocol_ids = []; chain_ids = [] }

abbrev deployment : ProtocolInfo → ℕ → Deployment
deployment info chain = record { info = info; availability = everywhere; chain_id = chain }

abbrev small_plan : Plan
small_plan = record {
  wallet = deployment holdings 1 ∷ [];
  jobs = deployment morpho 1 ∷ deployment morpho 8453 ∷ [];
  counts = ("morpho-blue", 2) ∷ ("wallet", 1) ∷ [];
}

small_plan_made :
    plan everything scans registrations (morpho ∷ holdings ∷ []) empty_plan ≡ ok small_plan
unfolding plan plan_chains includes_protocol includes_chain
small_plan_made = refl

abbrev reader : Reader ℕ
reader = record {
  positions = λ d block account.
      (record { attributed_account = none; holding = none; components = [] } ∷ [], none);
  provider_groups = λ d block account provided. ([], some "provider");
  notes = λ d. [];
}

abbrev engine : Engine
engine = record {
  adapters = morpho ∷ holdings ∷ [];
  registrations = registrations;
  disabled_chains = [];
  scan_workers = pos 1;
}

abbrev events : List Event
events = check ∷ send ∷ discovered ∷ wallet_finish 0 ∷ stop ∷ check ∷ finish 0 ∷ []

abbrev begun : State
begun = start small_plan.jobs small_plan.wallet small_plan.counts ("morpho-blue" ∷ [])

-- The second job is left unread.
abbrev last : State
last = record {
  pending = deployment morpho 8453 ∷ [];
  phase = closed;
  running = [];
  discovering = false;
  wallet = [];
  wallet_running = [];
  wallet_unread = [];
  stopped = true;
  probes = record { remaining = []; canceled = "morpho-blue" ∷ [] };
  finished = (deployment holdings 1, false) ∷ (deployment morpho 1, true) ∷ [];
  report =
      add_report (add_report no_report (read reader 7 scans false (deployment holdings 1)))
        (read reader 7 scans true (deployment morpho 1));
}

run_last : run reader 7 scans (workers engine) events begun ≡ some last
unfolding run step start new_lifetimes check_context send_job end_discovery finish_job finish_wallet
    remove_at done done_all remove workers
run_last = refl

-- The worker is busy with the first job.
second_send_blocks : run reader 7 scans 1 (check ∷ send ∷ check ∷ send ∷ []) begun ≡ none
unfolding run step start new_lifetimes check_context send_job done_all
second_send_blocks = refl

run_accounts_example :
    ((p : Deployment → Bool)
      → count (λ r. p r.0) last.finished + count p (last.pending ++ last.wallet_unread)
        ≡ count p small_plan.jobs + count p small_plan.wallet)
    × ((collected scans last).errors
        ≡ (reports reader 7 scans last.finished).errors
          ++ map not_read (filter (active_in scans) (last.pending ++ last.wallet_unread)))
    × ((collected scans last).snapshots
        ≡ suppress_duplicate_holdings (reports reader 7 scans last.finished).snapshots)
    × (last.stopped ≡ false → last.pending ++ last.wallet_unread ≡ [])
run_accounts_example =
    run_accounts reader 7 scans (workers engine) small_plan.jobs small_plan.wallet small_plan.counts
      ("morpho-blue" ∷ []) events last run_last refl

run_ends_example :
    (length last.running ≤ workers engine)
    × (count moves events ≤ 3 * length small_plan.jobs + 2 * length small_plan.wallet + 3)
    × (is_over last ≡ false
        → (event : Event) × ((t : State) × ((moves event ≡ true)
              × (step reader 7 scans (workers engine) event last ≡ some t))))
run_ends_example =
    run_ends reader 7 scans engine small_plan.jobs small_plan.wallet small_plan.counts
      ("morpho-blue" ∷ []) events last run_last

run_ends_probes_example :
    (endings "morpho-blue" last.probes ≡ none_left (in_use "morpho-blue" last))
    × (is_over last ≡ true → endings "morpho-blue" last.probes ≡ 1)
run_ends_probes_example =
    run_ends_probes reader 7 scans (workers engine) everything registrations
      (morpho ∷ holdings ∷ []) small_plan ("morpho-blue" ∷ []) "morpho-blue" events last
      small_plan_made refl refl run_last
