-- ===== src/Scan/Tests.antt =====
-- A small scan, planned and read (engine.go).
use Prim.Native.String.{String}
use sentio_portfolio.Common.{
  ℕ, ◌+◌, ◌≡◌, refl, Bool, true, false, not, List, [], ◌∷◌, Option, none, some, ok, count,
  if◌then◌else◌, ◌==◌,
}
use sentio_portfolio.Availability.{ProtocolInfo, Registrations, Availability, between}
use sentio_portfolio.Accounts.{Account, wallet, instadapp_dsa}
use sentio_portfolio.Wallet.{Group}
use sentio_portfolio.Scan.{
  Chains, ChainScan, Deployment, Plan, is_wallet, plan, empty_plan, plan_chains, read_accounts,
  attributed_groups,
}
use sentio_portfolio.Engine.{Options, includes_protocol, includes_chain}
use sentio_portfolio.Scan.Selection.{selected, plan_selects}
use sentio_portfolio.Scan.Readings.{reached, groups_of, first_failure, read_accounts_lem}

abbrev lending : ProtocolInfo
lending = record { id = "aave-v3"; name = "Aave V3"; chains = 1 ∷ 56 ∷ 10 ∷ [] }

abbrev holdings : ProtocolInfo
holdings = record { id = "wallet"; name = "Wallet"; chains = 1 ∷ 56 ∷ [] }

abbrev everywhere : Availability
everywhere = (1, between 0 0 ∷ []) ∷ (56, between 0 0 ∷ []) ∷ (10, between 0 0 ∷ []) ∷ []

abbrev registrations : Registrations
registrations =
    ("aave-v3", record { info = lending; availability = everywhere })
    ∷ ("wallet", record { info = holdings; availability = everywhere })
    ∷ []

abbrev chain_at : ℕ → ChainScan ℕ
chain_at chain = record {
  block = record { chain_id = chain; number = 100; hash = 0; timestamp = 5_000; fixed = false };
  accounts = record { address = 7; attribution = wallet } ∷ [];
  wallet_provider_accounts = [];
  wallet_provider_errors = [];
  wallet_coverage = [];
}

-- Chain 10 was not set up.
abbrev scans : Chains ℕ
scans = (1, chain_at 1) ∷ (56, chain_at 56) ∷ []

abbrev two_chains : Options
two_chains = record { protocol_ids = []; chain_ids = 1 ∷ 10 ∷ [] }

abbrev deployment : ProtocolInfo → ℕ → Deployment
deployment info chain = record { info = info; availability = everywhere; chain_id = chain }

abbrev small_plan : Plan
small_plan = record {
  wallet = deployment holdings 1 ∷ [];
  jobs = deployment lending 1 ∷ [];
  counts = ("aave-v3", 1) ∷ ("wallet", 1) ∷ [];
}

small_plan_made :
    plan two_chains scans registrations (lending ∷ holdings ∷ []) empty_plan ≡ ok small_plan
unfolding plan plan_chains includes_protocol includes_chain
small_plan_made = refl

plan_selects_example :
    ((test : Deployment → Bool)
      → count test small_plan.jobs + count test small_plan.wallet
        ≡ count test (selected two_chains scans registrations (lending ∷ holdings ∷ [])))
    × (count is_wallet small_plan.jobs ≡ 0)
    × (count (λ d. not (is_wallet d)) small_plan.wallet ≡ 0)
plan_selects_example =
    plan_selects two_chains scans registrations (lending ∷ holdings ∷ []) small_plan small_plan_made

abbrev one_group : Group
one_group = record { attributed_account = none; holding = none; components = [] }

-- The owner's account is read, the second fails after a group.
abbrev read_second_fails : Account → List Group × Option String
read_second_fails a =
    if a.address == 8 then (one_group ∷ [], some "reverted") else (one_group ∷ [], none)

abbrev three_accounts : List Account
three_accounts =
    record { address = 7; attribution = wallet }
    ∷ record { address = 8; attribution = instadapp_dsa }
    ∷ record { address = 9; attribution = instadapp_dsa }
    ∷ []

read_accounts_lem_example : read_accounts false read_second_fails 7 three_accounts [] none ≡ (
  groups_of read_second_fails 7 (reached false read_second_fails three_accounts),
  first_failure read_second_fails 7 (reached false read_second_fails three_accounts),
)
read_accounts_lem_example = read_accounts_lem false read_second_fails 7 three_accounts

-- The other accounts of a protocol are not read after a failure.
second_fails : read_accounts false read_second_fails 7 three_accounts [] none ≡ (
  one_group ∷ record { attributed_account = some 8; holding = none; components = [] } ∷ [],
  some "reverted",
)
unfolding read_accounts attributed_groups
second_fails = refl

-- The wallet's are.
second_fails_wallet : read_accounts true read_second_fails 7 three_accounts [] none ≡ (
  one_group
      ∷ record { attributed_account = some 8; holding = none; components = [] }
      ∷ record { attributed_account = some 9; holding = none; components = [] }
      ∷ [],
  some "reverted",
)
unfolding read_accounts attributed_groups
second_fails_wallet = refl
