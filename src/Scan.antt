-- ===== src/Scan.antt =====
-- engine.go: what a scan reads and what a deployment's reading puts into the response. A deployment is a
-- protocol on a chain. The adapters and the provider's groups are the record `Reader`; each gives the groups
-- and, when it fails, the public message of its error. Of several joined errors the public message is
-- the first one's. Block numbers, deadlines and observations are left out.
pub mod Plans
pub mod Selection
pub mod Readings
mod Tests
use Prim.Native.String.{String}
use sentio_portfolio.Common.{
  ℕ, ◌+◌, Bool, true, false, not, ◌&&◌, ◌||◌, List, [], ◌∷◌, ◌++◌, map, Option, none, some, ltb,
  ◌==◌, length, if◌then◌else◌, Outcome, ok, err, panic, ◌>>=◌,
}
use sentio_portfolio.Common.Int.{ℤ, pos, leb_ℤ, pos_part}
use sentio_portfolio.Common.Assoc.{lookup, insert, contains, nat_key, string_key, Key}
use sentio_portfolio.Checkpoint.{BlockRef}
use sentio_portfolio.Availability.{
  ProtocolInfo, Availability, Registered, Registrations, registered_active_at,
}
use sentio_portfolio.Accounts.{Account}
use sentio_portfolio.Engine.{Options, includes_protocol, includes_chain}
use sentio_portfolio.Wallet.{Group, Snapshot}

-- `chainScan`; `Provided` is the provider's account.
pub record ChainScan (Provided : Type 0) : Type 0 where
  pub block : BlockRef
  pub accounts : List Account
  pub wallet_provider_accounts : List (ℕ × Provided)
  pub wallet_provider_errors : List String
  pub wallet_coverage : List String

abbrev pub Chains : Type 0 → Type 0
Chains Provided = List (ℕ × ChainScan Provided)

pub record Deployment : Type 0 where
  pub info : ProtocolInfo
  pub availability : Availability
  pub chain_id : ℕ

abbrev pub is_wallet : Deployment → Bool
is_wallet d = string_key.beq d.info.id "wallet"

abbrev pub is_of : String → Deployment → Bool
is_of id d = string_key.beq id d.info.id

abbrev pub is_pinned : {P : Type 0} → Chains P → ℕ → Bool
is_pinned scans chain = elim (lookup chain scans) [ none ↦ false | some _ ↦ true ]

-- The deployments of a scan: those of the wallet, the others, and how many each protocol has.
pub record Plan : Type 0 where
  pub wallet : List Deployment
  pub jobs : List Deployment
  pub counts : List (String × ℕ)

abbrev pub count_of : String → List (String × ℕ) → ℕ
count_of id counts = elim (lookup id counts) [ none ↦ 0 | some n ↦ n ]

abbrev pub add_job : Deployment → Plan → Plan
add_job d p =
    let counts = insert d.info.id (count_of d.info.id p.counts + 1) p.counts in
    if is_wallet d
    then record p { wallet = p.wallet ++ (d ∷ []); counts = counts }
    else record p { jobs = p.jobs ++ (d ∷ []); counts = counts }

module _ {P : Type 0} (o : Options) (scans : Chains P) where
  -- The loop over an adapter's chains.
  unfoldable pub plan_chains : Registered → List ℕ → Plan → Plan
  unfolding includes_chain
  plan_chains r [] p = p
  plan_chains r (c ∷ cs) p = plan_chains r cs (
      if not (includes_chain o c) || not (is_pinned scans c)
      then p
      else add_job (record { info = r.info; availability = r.availability; chain_id = c }) p)

  abbrev pub plan_registered : ProtocolInfo → Option Registered → Plan → Outcome Unit Plan
  plan_registered info none p = panic
  plan_registered info (some r) p = ok (plan_chains r info.chains p)

  -- The loop over the adapters. An adapter that is not registered panics.
  unfoldable pub plan : Registrations → List ProtocolInfo → Plan → Outcome Unit Plan
  unfolding includes_protocol plan_chains
  plan rs [] p = ok p
  plan rs (info ∷ infos) p =
      (if includes_protocol o info.id then plan_registered info (lookup info.id rs) p else ok p)
      >>= plan rs infos

abbrev pub empty_plan : Plan
empty_plan = record { wallet = []; jobs = []; counts = [] }

pub data Scope : Type 0 where
  chain_scope protocol_scope coverage_scope incomplete_scope pricing_scope : Scope

pub record ScanError : Type 0 where
  pub scope : Scope
  pub chain_id : ℕ
  pub protocol_id : String
  pub protocol_name : String
  pub message : String

abbrev pub stopped_message : String
stopped_message = "stopped before it finished reading"

abbrev pub not_read_message : String
not_read_message = "not read before the scan stopped"

abbrev pub error_of : Deployment → Scope → String → ScanError
error_of d scope message = record {
  scope = scope;
  chain_id = d.chain_id;
  protocol_id = d.info.id;
  protocol_name = d.info.name;
  message = message;
}

-- What reads a deployment for an account, and the coverage notes that are recorded meanwhile.
pub record Reader (P : Type 0) : Type 0 where
  pub positions : Deployment → BlockRef → ℕ → List Group × Option String
  pub provider_groups : Deployment → BlockRef → ℕ → P → List Group × Option String
  pub notes : Deployment → List String

abbrev pub attributed_to : Account → Group → Group
attributed_to account g = record g { attributed_account = some account.address }

-- `attributedGroups`, of a group's metadata the account.
pub attributed_groups : List Group → Account → ℕ → List Group
attributed_groups groups account root =
    if account.address == root then groups else map (attributed_to account) groups

-- `errors.Join`, of which the first message is public.
abbrev pub join : Option String → String → Option String
join none message = some message
join (some first) message = some first

-- The loop over the accounts, given how one is read. A failure ends it, except for the wallet.
pub read_accounts :
    Bool
    → (Account → List Group × Option String)
    → ℕ
    → List Account
    → List Group
    → Option String
    → List Group × Option String
unfolding attributed_groups
read_accounts wallet read root [] groups failed = (groups, failed)
read_accounts wallet read root (a ∷ accounts) groups failed =
    let groups' = groups ++ attributed_groups (read a).0 a root in
    elim (read a).1 [
      | none ↦ read_accounts wallet read root accounts groups' failed
      | some e ↦ elim wallet [
        | true ↦ read_accounts wallet read root accounts groups' (join failed e)
        | false ↦ (groups', join failed e)
      ]
    ]

-- What a reading adds to the response.
pub record Report : Type 0 where
  pub errors : List ScanError
  pub snapshots : List Snapshot

abbrev pub no_report : Report
no_report = record { errors = []; snapshots = [] }

abbrev pub add_report : Report → Report → Report
add_report r s = record { errors = r.errors ++ s.errors; snapshots = r.snapshots ++ s.snapshots }

module _ {P : Type 0} (reader : Reader P) (root : ℕ) where
  -- How a deployment reads an account: only the wallet looks at what discovery found.
  pub read_account : Deployment → ChainScan P → Account → List Group × Option String
  read_account d scan a =
      elim (if is_wallet d then lookup a.address scan.wallet_provider_accounts else none) [
        | some provided ↦ reader.provider_groups d scan.block a.address provided
        | none ↦ reader.positions d scan.block a.address
      ]

  -- The error of a deployment whose adapter failed, with whether collection has stopped.
  abbrev pub position_errors : Bool → Deployment → Option String → List ScanError
  position_errors stopped d none = []
  position_errors stopped d (some message) =
      (if stopped
        then error_of d incomplete_scope stopped_message
        else error_of d protocol_scope message)
      ∷ []

  -- The coverage notes, each message once; `noted` are those reported.
  pub coverage_errors : Deployment → List String → List String → List ScanError
  coverage_errors d noted [] = []
  coverage_errors d noted (note ∷ notes) =
      if contains note noted
      then coverage_errors d noted notes
      else error_of d coverage_scope note ∷ coverage_errors d (note ∷ noted) notes

  abbrev pub wallet_errors : Deployment → ChainScan P → List ScanError
  wallet_errors d scan =
      if is_wallet d
      then map (error_of d protocol_scope) scan.wallet_provider_errors
        ++ map (error_of d coverage_scope) scan.wallet_coverage
      else []

  abbrev pub snapshot_of : Deployment → List Group → List Snapshot
  snapshot_of d groups =
      if length groups == 0
      then []
      else record {
        protocol_id = d.info.id;
        chain_id = d.chain_id;
        account = root;
        groups = groups;
      }
        ∷ []

  -- What the reading of an active deployment adds.
  pub report_of : Bool → Deployment → ChainScan P → Report
  unfolding read_accounts read_account coverage_errors
  report_of stopped d scan =
      let (groups, failed) =
        read_accounts (is_wallet d) (read_account d scan) root scan.accounts [] none in
      record {
        errors =
            position_errors stopped d failed
            ++ coverage_errors d [] (reader.notes d)
            ++ wallet_errors d scan;
        snapshots = snapshot_of d groups;
      }

  -- `read`; a chain that is not there and a deployment that is not active at the pin add nothing.
  pub read : Chains P → Bool → Deployment → Report
  unfolding report_of
  read scans stopped d = elim (lookup d.chain_id scans) [
    | none ↦ no_report
    | some scan ↦
        if registered_active_at d.availability d.chain_id scan.block.number
        then report_of stopped d scan
        else no_report
  ]
