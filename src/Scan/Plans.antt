-- ===== src/Scan/Plans.antt =====
-- The deployments that a scan plans (engine.go).
use Prim.Native.String.{String}
use sentio_portfolio.Common.{
  ℕ, ◌+◌, ◌≡◌, refl, sym, ap, ◌∙◌, subst, Bool, true, false, not, ◌||◌, List, [], ◌∷◌, Option, none,
  some, arith, if◌then◌else◌, ok, >>=-eq-ok, ok_injective, count, one_if, count-append, Bool-cases,
  inl, inr,
}
use sentio_portfolio.Common.Assoc.{
  lookup, insert, string_key, beq_refl, lookup-insert, lookup-insert_other,
}
use sentio_portfolio.Availability.{ProtocolInfo, Registered, Registrations}
use sentio_portfolio.Scan.{
  Chains, Deployment, Plan, is_wallet, is_of, is_pinned, count_of, add_job, plan_chains,
  plan_registered, plan, empty_plan,
}
use sentio_portfolio.Engine.{Options, includes_protocol, includes_chain}

-- The deployments of a plan that pass a test.
abbrev pub planned : (Deployment → Bool) → Plan → ℕ
planned test p = count test p.jobs + count test p.wallet

-- The counts of a plan are those of its deployments, and the wallet's list holds the wallet only.
pub record IsCounted (p : Plan) : Type 0 where
  pub counted : (id : String) → count_of id p.counts ≡ planned (is_of id) p
  pub only_wallet :
      (id : String) → string_key.beq id "wallet" ≡ false → count (is_of id) p.wallet ≡ 0

count_of-insert_same :
    (id : String) (n : ℕ) (m : List (String × ℕ)) → count_of id (insert id n m) ≡ n
count_of-insert_same id n m = rw (count_of, lookup-insert id n m) refl

count_of-insert_other :
    (id other : String) (n : ℕ) (m : List (String × ℕ))
    → string_key.beq other id ≡ false
    → count_of id (insert other n m) ≡ count_of id m
count_of-insert_other id other n m h =
    ap (λ o. elim o [ none ↦ 0 | some k ↦ k ]) (lookup-insert_other other id n m h)

counts-add_job :
    (d : Deployment) (p : Plan)
    → (add_job d p).counts ≡ insert d.info.id (count_of d.info.id p.counts + 1) p.counts
counts-add_job d p = elim (Bool-cases (is_wallet d)) [
  | inl own ↦ rw own refl
  | inr not_own ↦ rw not_own refl
]

pub planned-add_job :
    (test : Deployment → Bool) (d : Deployment) (p : Plan)
    → planned test (add_job d p) ≡ planned test p + one_if (test d)
planned-add_job test d p = elim (Bool-cases (is_wallet d)) [
  | inl own ↦ rw own (omega (arith, count-append test p.wallet (d ∷ [])))
  | inr not_own ↦ rw not_own (omega (arith, count-append test p.jobs (d ∷ [])))
]

only_wallet-add_job :
    (id : String) (d : Deployment) (p : Plan)
    → string_key.beq id "wallet" ≡ false
    → count (is_of id) p.wallet ≡ 0
    → count (is_of id) (add_job d p).wallet ≡ 0
only_wallet-add_job id d p other h = elim (Bool-cases (is_wallet d)) [
  | inl own ↦
      let its_id = (string_key.beq_iff d.info.id "wallet").0 own in
      let differs : is_of id d ≡ false = ap (string_key.beq id) its_id ∙ other in
      rw own (omega (arith, count-append (is_of id) p.wallet (d ∷ []), h, ap one_if differs))
  | inr not_own ↦ rw not_own h
]

pub beq_other : (a b : String) → string_key.beq a b ≡ false → string_key.beq b a ≡ false
beq_other a b h = elim (Bool-cases (string_key.beq b a)) [
  | inl same ↦ absurd (
      impossible (ap (λ x. string_key.beq x b) (sym ((string_key.beq_iff b a).0 same)) ∙ beq_refl b)
        h)
  | inr other ↦ other
]
  where
    impossible : {c : Bool} → c ≡ true → c ≡ false → ⊥
    impossible h k = cc

counted-add_job :
    (id : String) (d : Deployment) (p : Plan)
    → ((other : String) → count_of other p.counts ≡ planned (is_of other) p)
    → count_of id (add_job d p).counts ≡ planned (is_of id) (add_job d p)
counted-add_job id d p c = elim (Bool-cases (is_of id d)) [
  | inl same ↦
      let its_id = (string_key.beq_iff id d.info.id).0 same in
      let now : count_of id (add_job d p).counts ≡ count_of d.info.id p.counts + 1 =
        ap (count_of id) (counts-add_job d p)
        ∙ ap (λ x. count_of x (insert d.info.id (count_of d.info.id p.counts + 1) p.counts)) its_id
        ∙ count_of-insert_same d.info.id (count_of d.info.id p.counts + 1) p.counts in
      let before : count_of d.info.id p.counts ≡ planned (is_of id) p =
        ap (λ x. count_of x p.counts) (sym its_id) ∙ c id in
      omega (arith, now, before, planned-add_job (is_of id) d p, ap one_if same)
  | inr other ↦
      let now : count_of id (add_job d p).counts ≡ count_of id p.counts =
        ap (count_of id) (counts-add_job d p)
        ∙ count_of-insert_other id d.info.id (count_of d.info.id p.counts + 1) p.counts
            (beq_other id d.info.id other) in
      omega (arith, now, c id, planned-add_job (is_of id) d p, ap one_if other)
]

add_job-IsCounted : (d : Deployment) (p : Plan) → IsCounted p → IsCounted (add_job d p)
add_job-IsCounted d p c = record {
  counted = λ id. counted-add_job id d p c.counted;
  only_wallet = λ id other. only_wallet-add_job id d p other (c.only_wallet id other);
}

module _ {P : Type 0} (o : Options) (scans : Chains P) where
  plan_chains-IsCounted :
      (r : Registered) (cs : List ℕ) (p : Plan)
      → IsCounted p
      → IsCounted (plan_chains o scans r cs p)
  unfolding plan_chains
  plan_chains-IsCounted r [] p k = k
  plan_chains-IsCounted r (c ∷ cs) p k =
      plan_chains-IsCounted r cs _ (chosen (not (includes_chain o c) || not (is_pinned scans c)))
    where
      chosen :
          (b : Bool)
          → IsCounted (
              if b
              then p
              else add_job
                  (record { info = r.info; availability = r.availability; chain_id = c })
                  p)
      chosen true = k
      chosen false =
          add_job-IsCounted (record { info = r.info; availability = r.availability; chain_id = c })
            p k

  plan-keeps :
      (rs : Registrations) (infos : List ProtocolInfo) (p q : Plan)
      → IsCounted p
      → plan o scans rs infos p ≡ ok q
      → IsCounted q
  unfolding plan
  plan-keeps rs [] p q k h = subst IsCounted (ok_injective h) k
  plan-keeps rs (info ∷ infos) p q k h =
      let (next, one, rest) =
        >>=-eq-ok
          (if includes_protocol o info.id
            then plan_registered o scans info (lookup info.id rs) p
            else ok p)
          (plan o scans rs infos) h in
      plan-keeps rs infos next q (chosen (includes_protocol o info.id) (lookup info.id rs) next one)
        rest
    where
      chosen :
          (b : Bool) (r : Option Registered) (next : Plan)
          → (if b then plan_registered o scans info r p else ok p) ≡ ok next
          → IsCounted next
      chosen true none next e = absurd cc
      chosen true (some r) next e =
          subst IsCounted (ok_injective e) (plan_chains-IsCounted r info.chains p k)
      chosen false r next e = subst IsCounted (ok_injective e) k

  pub plan-IsCounted :
      (rs : Registrations) (infos : List ProtocolInfo) (p : Plan)
      → plan o scans rs infos empty_plan ≡ ok p
      → IsCounted p
  plan-IsCounted rs infos p h =
      plan-keeps rs infos empty_plan p
        (record { counted = λ id. refl; only_wallet = λ id other. refl }) h
