-- ===== src/Scan/Selection.antt =====
-- A scan plans the deployments that its options select (engine.go).
use sentio_portfolio.Common.{
  ℕ, ◌+◌, ◌≡◌, refl, sym, ap, subst, Bool, true, false, not, ◌&&◌, ◌||◌, List, [], ◌∷◌, ◌++◌,
  Option, none, some, arith, if◌then◌else◌, ok, >>=-eq-ok, ok_injective, count, one_if,
  count-append, Bool-cases, inl, inr,
}
use sentio_portfolio.Common.Assoc.{lookup, string_key}
use sentio_portfolio.Availability.{ProtocolInfo, Registered, Registrations}
use sentio_portfolio.Scan.{
  Chains, Deployment, Plan, is_wallet, is_pinned, add_job, plan_chains, plan_registered, plan,
  empty_plan,
}
use sentio_portfolio.Engine.{Options, includes_protocol, includes_chain}
use sentio_portfolio.Scan.Plans.{planned, planned-add_job}

abbrev is_other : Deployment → Bool
is_other d = not (is_wallet d)

-- The wallet's deployments and the others are kept apart.
record IsApart (p : Plan) : Type 0 where
  jobs : count is_wallet p.jobs ≡ 0
  wallet : count is_other p.wallet ≡ 0

add_job-IsApart : (d : Deployment) (p : Plan) → IsApart p → IsApart (add_job d p)
add_job-IsApart d p a = elim (Bool-cases (is_wallet d)) [
  | inl own ↦ rw own (record {
    jobs = a.jobs;
    wallet =
        omega
          (arith, a.wallet, count-append is_other p.wallet (d ∷ []), ap (λ b. one_if (not b)) own);
  })
  | inr not_own ↦ rw not_own (record {
    jobs = omega (arith, a.jobs, count-append is_wallet p.jobs (d ∷ []), ap one_if not_own);
    wallet = a.wallet;
  })
]

module _ {P : Type 0} (o : Options) (scans : Chains P) where
  abbrev pub at_chain : Registered → ℕ → Deployment
  at_chain r c = record { info = r.info; availability = r.availability; chain_id = c }

  -- A protocol's deployments on the chains that the options include and the scan has pinned.
  abbrev pub selected_chains : Registered → List ℕ → List Deployment
  selected_chains r [] = []
  selected_chains r (c ∷ cs) =
      let rest = selected_chains r cs in
      if includes_chain o c && is_pinned scans c then at_chain r c ∷ rest else rest

  abbrev pub selected_of : ProtocolInfo → Option Registered → List Deployment
  selected_of info none = []
  selected_of info (some r) = selected_chains r info.chains

  -- Those of the protocols that the options include.
  abbrev pub selected : Registrations → List ProtocolInfo → List Deployment
  selected rs [] = []
  selected rs (info ∷ infos) =
      let rest = selected rs infos in
      if includes_protocol o info.id then selected_of info (lookup info.id rs) ++ rest else rest

  -- What planning some deployments more keeps and adds.
  record Adds (p q : Plan) (ds : List Deployment) : Type 0 where
    apart : IsApart p → IsApart q
    all : (test : Deployment → Bool) → planned test q ≡ planned test p + count test ds

  Adds-refl : (p : Plan) → Adds p p []
  Adds-refl p = record { apart = λ a. a; all = λ test. omega arith }

  Adds-trans :
      (p q r : Plan) (ds es : List Deployment) → Adds p q ds → Adds q r es → Adds p r (ds ++ es)
  Adds-trans p q r ds es a b = record {
    apart = λ k. b.apart (a.apart k);
    all = λ test. omega (arith, a.all test, b.all test, count-append test ds es);
  }

  Adds-add_job : (d : Deployment) (p : Plan) → Adds p (add_job d p) (d ∷ [])
  Adds-add_job d p = record {
    apart = add_job-IsApart d p;
    all = λ test. omega (arith, planned-add_job test d p);
  }

  plan_chains-Adds :
      (r : Registered) (cs : List ℕ) (p : Plan)
      → Adds p (plan_chains o scans r cs p) (selected_chains r cs)
  unfolding plan_chains
  plan_chains-Adds r [] p = Adds-refl p
  plan_chains-Adds r (c ∷ cs) p =
      go (includes_chain o c) (is_pinned scans c) (plan_chains-Adds r cs)
    where
      go :
          (a b : Bool)
          → ((q : Plan) → Adds q (plan_chains o scans r cs q) (selected_chains r cs))
          → Adds p
              (plan_chains o scans r cs (if not a || not b then p else add_job (at_chain r c) p))
              (if a && b then at_chain r c ∷ selected_chains r cs else selected_chains r cs)
      go true true later =
          Adds-trans p (add_job (at_chain r c) p) _ (at_chain r c ∷ []) (selected_chains r cs)
            (Adds-add_job (at_chain r c) p) (later (add_job (at_chain r c) p))
      go true false later = later p
      go false b later = later p

  plan-Adds :
      (rs : Registrations) (infos : List ProtocolInfo) (p q : Plan)
      → plan o scans rs infos p ≡ ok q
      → Adds p q (selected rs infos)
  unfolding plan
  plan-Adds rs [] p q h = subst (λ q. Adds p q []) (ok_injective h) (Adds-refl p)
  plan-Adds rs (info ∷ infos) p q h =
      let (next, one, rest) =
        >>=-eq-ok
          (if includes_protocol o info.id
            then plan_registered o scans info (lookup info.id rs) p
            else ok p)
          (plan o scans rs infos) h in
      go (includes_protocol o info.id) (lookup info.id rs) next one (plan-Adds rs infos next q rest)
    where
      go :
          (b : Bool) (r : Option Registered) (next : Plan)
          → (if b then plan_registered o scans info r p else ok p) ≡ ok next
          → Adds next q (selected rs infos)
          → Adds p q (if b then selected_of info r ++ selected rs infos else selected rs infos)
      go true none next e later = absurd cc
      go true (some r) next e later =
          let here =
            subst (λ n. Adds p n (selected_chains r info.chains)) (ok_injective e)
              (plan_chains-Adds r info.chains p) in
          Adds-trans p next q (selected_chains r info.chains) (selected rs infos) here later
      go false r next e later =
          subst (λ n. Adds n q (selected rs infos)) (sym (ok_injective e)) later

-- A plan that is made holds the deployments that the options select: for any test, as many pass in the plan as
-- among the protocols that the options include, each on the chains of its own that they include and that
-- the scan has pinned. The wallet's deployments are in the wallet's list and the others are not.
pub plan_selects :
    {P : Type 0} (o : Options) (scans : Chains P) (rs : Registrations) (infos : List ProtocolInfo)
    (p : Plan)
    → plan o scans rs infos empty_plan ≡ ok p
    → ((test : Deployment → Bool)
        → count test p.jobs + count test p.wallet ≡ count test (selected o scans rs infos))
      × (count is_wallet p.jobs ≡ 0)
      × (count (λ d. not (is_wallet d)) p.wallet ≡ 0)
plan_selects o scans rs infos p h =
    let a = plan-Adds o scans rs infos empty_plan p h in
    let apart = a.apart (record { jobs = refl; wallet = refl }) in
    (λ test. omega (arith, a.all test), apart.jobs, apart.wallet)
