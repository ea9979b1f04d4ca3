-- ===== src/Dispatch.antt =====
-- engine.go: the deployments of a scan on their way through its workers, and the lifetimes of the presence
-- probes. What its goroutines do is a sequence of events, each a step that the code can take, or `none`
-- where it would block. The end of a reading is one step, with the call of `done` and the report that
-- it makes under the scan's mutex; so are the calls of `done` for the deployments never dispatched.
pub mod Probes
pub mod Ending
pub mod Counting
pub mod Stepping
pub mod Runs
pub mod Invariant
pub mod Measure
pub mod Progress
pub mod Accounting
mod Tests
use Prim.Native.String.{String}
use sentio_portfolio.Common.{
  ℕ, zero, suc, ◌+◌, ◌-◌, Bool, true, false, not, ◌&&◌, ◌||◌, List, [], ◌∷◌, ◌++◌, map, Option,
  none, some, ltb, ◌==◌, length, get_elem?, if◌then◌else◌,
}
use sentio_portfolio.Common.Assoc.{lookup, insert, contains, nat_key, string_key, Key}
use sentio_portfolio.Availability.{registered_active_at}
use sentio_portfolio.Scan.{
  Deployment, Chains, ChainScan, Report, Reader, ScanError, read, no_report, add_report, error_of,
  incomplete_scope, not_read_message, count_of,
}
use sentio_portfolio.Wallet.{Snapshot, suppress_duplicate_holdings}

-- `presenceLifetimes`: the deployments left for each protocol that is tracked, and the protocols whose
-- probes were ended, one entry for each call of a cancel function.
pub record Lifetimes : Type 0 where
  pub remaining : List (String × ℕ)
  pub canceled : List String

-- `delete(m, id)`
pub remove : {V : Type 0} → String → List (String × V) → List (String × V)
remove id [] = []
remove id ((b, v) ∷ m) = if string_key.beq b id then remove id m else (b, v) ∷ remove id m

-- A pass of the loop of `newPresenceLifetimes`.
abbrev pub track : String → ℕ → Lifetimes → Lifetimes
track id n l =
    if n == 0
    then record l { canceled = id ∷ l.canceled }
    else record l { remaining = insert id n l.remaining }

pub new_lifetimes : List String → List (String × ℕ) → Lifetimes
new_lifetimes [] counts = record { remaining = []; canceled = [] }
new_lifetimes (id ∷ ids) counts = track id (count_of id counts) (new_lifetimes ids counts)

-- `presenceLifetimes.done`, given what `remaining` holds.
abbrev pub done_with : String → Option ℕ → Lifetimes → Lifetimes
done_with id none l = l
done_with id (some n) l =
    if ltb 1 n
    then record l { remaining = insert id (n - 1) l.remaining }
    else record { remaining = remove id l.remaining; canceled = id ∷ l.canceled }

pub done : String → Lifetimes → Lifetimes
unfolding remove
done id l = done_with id (lookup id l.remaining) l

pub done_all : List Deployment → Lifetimes → Lifetimes
unfolding done
done_all [] l = l
done_all (d ∷ ds) l = done_all ds (done d.info.id l)

-- The loop that sends the jobs: before its check of the context, in its `select`, or past its end.
pub data Phase : Type 0 where
  looping selecting closed : Phase

-- A scan between the start of its workers and their end. `finished` lists the readings that have ended, each
-- with whether collection had stopped by then.
pub record State : Type 0 where
  pub pending : List Deployment
  pub phase : Phase
  pub running : List Deployment
  pub discovering : Bool
  pub wallet : List Deployment
  pub wallet_running : List Deployment
  pub wallet_unread : List Deployment
  pub stopped : Bool
  pub probes : Lifetimes
  pub finished : List (Deployment × Bool)
  pub report : Report

pub data Event : Type 0 where
  -- The collection deadline, or the caller's cancellation.
  stop : Event
  -- The sender's check of the context, a send, and the end of the context in the `select`.
  check send abort : Event
  -- The end of wallet discovery.
  discovered : Event
  -- The end of the reading of a worker, and of one of the wallet's.
  finish wallet_finish : ℕ → Event

abbrev pub close : State → State
close s = record s { phase = closed; probes = done_all s.pending s.probes }

-- The check at the top of the loop, whose end is the end of the jobs.
pub check_context : State → Option State
unfolding done_all
check_context s = elim s.phase [
  | looping ↦
      some (if length s.pending == 0 || s.stopped then close s else record s { phase = selecting })
  | selecting ↦ none
  | closed ↦ none
]

-- A send on the channel of jobs, which a worker that reads nothing receives.
pub send_job : ℕ → State → Option State
send_job workers s = elim s.phase [
  | looping ↦ none
  | selecting ↦ elim s.pending [
    | [] ↦ none
    | d ∷ ds ↦
        if ltb (length s.running) workers
        then some (record s { pending = ds; phase = looping; running = d ∷ s.running })
        else none
  ]
  | closed ↦ none
]

pub abort_send : State → Option State
unfolding done_all
abort_send s = elim s.phase [
  | looping ↦ none
  | selecting ↦ if s.stopped then some (close s) else none
  | closed ↦ none
]

-- Discovery has ended: the wallet's readings all start, unless collection has stopped.
pub end_discovery : State → Option State
end_discovery s =
    if s.discovering
    then some (
        if s.stopped
        then record s { discovering = false; wallet = []; wallet_unread = s.wallet }
        else record s { discovering = false; wallet = []; wallet_running = s.wallet })
    else none

pub remove_at : ℕ → List Deployment → List Deployment
remove_at i [] = []
remove_at zero (d ∷ ds) = ds
remove_at (suc i) (d ∷ ds) = d ∷ remove_at i ds

module _ {P : Type 0} (reader : Reader P) (root : ℕ) (scans : Chains P) where
  -- What the end of a reading changes.
  abbrev pub end_reading : Deployment → State → State
  end_reading d s = record s {
    probes = done d.info.id s.probes;
    finished = s.finished ++ ((d, s.stopped) ∷ []);
    report = add_report s.report (read reader root scans s.stopped d);
  }

  pub finish_job : ℕ → State → Option State
  unfolding remove_at
  finish_job i s = elim (get_elem? s.running i) [
    | none ↦ none
    | some d ↦ some (end_reading d (record s { running = remove_at i s.running }))
  ]

  pub finish_wallet : ℕ → State → Option State
  unfolding remove_at
  finish_wallet i s = elim (get_elem? s.wallet_running i) [
    | none ↦ none
    | some d ↦ some (end_reading d (record s { wallet_running = remove_at i s.wallet_running }))
  ]

  pub step : ℕ → Event → State → Option State
  unfolding check_context send_job abort_send end_discovery finish_job finish_wallet
  step workers stop s = some (record s { stopped = true })
  step workers check s = check_context s
  step workers send s = send_job workers s
  step workers abort s = abort_send s
  step workers discovered s = end_discovery s
  step workers (finish i) s = finish_job i s
  step workers (wallet_finish i) s = finish_wallet i s

  pub run : ℕ → List Event → State → Option State
  unfolding step
  run workers [] s = some s
  run workers (e ∷ es) s = elim (step workers e s) [ none ↦ none | some t ↦ run workers es t ]

-- The start, with the protocols whose probes are prefetched.
pub start : List Deployment → List Deployment → List (String × ℕ) → List String → State
unfolding new_lifetimes
start jobs wallet counts probed = record {
  pending = jobs;
  phase = looping;
  running = [];
  discovering = not (length wallet == 0);
  wallet = wallet;
  wallet_running = [];
  wallet_unread = [];
  stopped = false;
  probes = new_lifetimes probed counts;
  finished = [];
  report = no_report;
}

-- The end of both waits.
abbrev pub is_over : State → Bool
is_over s = elim s.phase [
  | looping ↦ false
  | selecting ↦ false
  | closed ↦ (length s.running == 0) && not s.discovering && (length s.wallet_running == 0)
]

abbrev pub active_in : {P : Type 0} → Chains P → Deployment → Bool
active_in scans d = elim (lookup d.chain_id scans) [
  | none ↦ false
  | some scan ↦ registered_active_at d.availability d.chain_id scan.block.number
]

-- The errors for the deployments that were not read and would have run.
pub not_read_errors : {P : Type 0} → Chains P → List Deployment → List ScanError
not_read_errors scans [] = []
not_read_errors scans (d ∷ ds) =
    let rest = not_read_errors scans ds in
    if active_in scans d then error_of d incomplete_scope not_read_message ∷ rest else rest

-- What positions give the response, when both waits are over.
pub collected : {P : Type 0} → Chains P → State → Report
unfolding not_read_errors
collected scans s = record {
  errors = s.report.errors ++ not_read_errors scans (s.pending ++ s.wallet_unread);
  snapshots = suppress_duplicate_holdings s.report.snapshots;
}
