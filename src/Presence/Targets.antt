-- ===== src/Presence/Targets.antt =====
-- The chains that the presence probe asks about (sentio_presence.go).
use sentio_portfolio.Common.{
  ℕ, ◌≡◌, inl, inr, refl, subst, ◌∙◌, Bool, true, false, none, some, Option, List, [], ◌∷◌, ok, err,
  panic, Outcome, if◌then◌else◌, Bool-cases, ==_iff, ◌==◌,
}
use sentio_portfolio.Common.Assoc.{
  lookup, contains, nat_key, lookup-insert, lookup-insert_other, beq_refl,
}
use sentio_portfolio.Checkpoint.{
  BlockRef, ChainStatus, Statuses, is_latest, trails, index_query_block, accept_status,
}
use sentio_portfolio.Checkpoint as Checkpoint
use sentio_portfolio.Presence.{Target, Targets, Pinned, target_of, add_target, presence_targets}

-- The verdict on one chain, whatever is done with the others.
abbrev verdict : Pinned → Statuses → ℕ → Option Target
verdict pinned statuses chain = target_of (lookup chain pinned) (lookup chain statuses)

abbrev or_else : Option Target → Option Target → Option Target
or_else none d = d
or_else (some t) d = some t

add_same :
    (chain : ℕ) (o : Option Target) (ts : Targets)
    → lookup chain (add_target chain o ts) ≡ or_else o (lookup chain ts)
add_same chain none ts = refl
add_same chain (some t) ts = lookup-insert chain t ts

add_other :
    (a chain : ℕ) (o : Option Target) (ts : Targets)
    → (a == chain) ≡ false
    → lookup chain (add_target a o ts) ≡ lookup chain ts
add_other a chain none ts ne = refl
add_other a chain (some t) ts ne = lookup-insert_other a chain t ts ne

again :
    (b : Bool) (o d : Option Target)
    → (if b then or_else o (or_else o d) else or_else o d) ≡ or_else o d
again true none d = refl
again true (some t) d = refl
again false o d = refl

targets_lookup :
    (chains : List ℕ) (pinned : Pinned) (statuses : Statuses) (ts : Targets) (chain : ℕ)
    → lookup chain (presence_targets chains pinned statuses ts) ≡ (
        if contains chain chains
        then or_else (verdict pinned statuses chain) (lookup chain ts)
        else lookup chain ts)
unfolding presence_targets
targets_lookup [] pinned statuses ts chain = refl
targets_lookup (a ∷ chains) pinned statuses ts chain =
    let t = add_target a (verdict pinned statuses a) ts in
    elim (Bool-cases (a == chain)) [
      | inl e ↦
          subst
            (λ c. lookup c (presence_targets chains pinned statuses t) ≡ (
              if (if a == c then true else contains c chains)
              then or_else (verdict pinned statuses c) (lookup c ts)
              else lookup c ts))
            ((==_iff a chain).0 e)
            (rw
              (
                beq_refl a,
                targets_lookup chains pinned statuses t a,
                add_same a (verdict pinned statuses a) ts,
              )
              (again (contains a chains) (verdict pinned statuses a) (lookup a ts)))
      | inr ne ↦
          rw
            (
              ne,
              targets_lookup chains pinned statuses t chain,
              add_other a chain (verdict pinned statuses a) ts ne,
            )
            refl
    ]

or_none : (o : Option Target) → or_else o none ≡ o
or_none none = refl
or_none (some t) = refl

either : {A : Type 0} (b : Bool) (x : A) → (if b then x else x) ≡ x
either true x = refl
either false x = refl

abbrev pub served : BlockRef → Outcome Checkpoint.Error (Statuses × ℕ) → Option Target
served block (ok (ss, q)) = some (record { block = block; query_block = q })
served block (err e) = none
served block panic = none

target_of_lem :
    (block : BlockRef) (ss : Statuses) (s : ChainStatus)
    → s.has_err ≡ false
    → target_of (some block) (some s) ≡ served block (accept_status block ss (some s))
unfolding target_of accept_status
target_of_lem block ss s fine = elim (Bool-cases (is_latest s)) [
  | inl up ↦ elim (Bool-cases (trails block s)) [
    | inl behind ↦ rw (fine, up, behind) refl
    | inr reached ↦ rw (fine, up, reached) refl
  ]
  | inr old ↦ rw (fine, old) refl
]

-- For a chain that the probe may ask about and whose status carries no error, the probe asks exactly when the
-- chain's own read would be accepted on the same statuses, and at the block that the read would query.
pub presence_targets-lookup :
    (chains : List ℕ) (pinned : Pinned) (statuses : Statuses) (block : BlockRef) (s : ChainStatus)
    → contains block.chain_id chains ≡ true
    → lookup block.chain_id pinned ≡ some block
    → lookup block.chain_id statuses ≡ some s
    → s.has_err ≡ false
    → lookup block.chain_id (presence_targets chains pinned statuses [])
      ≡ served block (index_query_block block (λ _. some statuses))
unfolding index_query_block
presence_targets-lookup chains pinned statuses block s listed at_pin status fine =
    rw
      (
        targets_lookup chains pinned statuses [] block.chain_id,
        listed,
        at_pin,
        status,
        either {A = Outcome Checkpoint.Error Statuses} (trails block s) (ok statuses),
        status,
      )
      (or_none (target_of (some block) (some s)) ∙ target_of_lem block statuses s fine)
