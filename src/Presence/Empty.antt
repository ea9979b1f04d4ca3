-- ===== src/Presence/Empty.antt =====
-- When the probe's answer proves that a chain holds nothing (sentio_presence.go).
use sentio_portfolio.Common.{
  ℕ, zero, suc, ◌+◌, ◌<◌, ◌≤◌, ◌≡◌, refl, ap, ◌↔◌, Bool, true, false, none, some, Option, List, [],
  ◌∷◌, arith, ok, err, Outcome, panic, Bool-cases, ◌==◌, ==_iff, subst, inl, inr,
}
use mathlib.Core.Bool.{and-eq-true_iff}
use mathlib.Core.Option.{some-injective}
use sentio_portfolio.Checkpoint.{BlockRef, LagNote, check_index_checkpoint}
use sentio_portfolio.Checkpoint.{Error as CheckpointError}
use sentio_portfolio.Presence.{
  Target, Decoder, Error, Alias, checkpoint_alias, field_alias, without_note, no_rows, if_empty,
  chain_empty_with, IndexCheckpoint, parse_index_checkpoint, accept_checkpoint, fields_empty,
  field_empty, presence_chain_empty, Proof, usable_proof,
}

-- The checkpoint that a proof stands on.
abbrev pub Certified : Target → ℕ × ℕ → Type 0
Certified target (block, ms) =
    (block ≤ target.query_block) × (check_index_checkpoint target.block block ms ≡ ok none)

without_note-some :
    (o : Outcome CheckpointError (Option LagNote)) (p proof : ℕ × ℕ)
    → without_note o p ≡ some proof
    → (o ≡ ok none) × (p ≡ proof)
without_note-some (ok none) p proof h = (refl, some-injective _ _ h)
without_note-some (ok (some note)) p proof h = cc
without_note-some (err e) p proof h = cc
without_note-some panic p proof h = cc

written_in_time :
    (c : IndexCheckpoint) (target : Target) (proof : ℕ × ℕ)
    → accept_checkpoint target (ok c) ≡ some proof
    → (c.written ≡ true)
      × (c.block ≤ target.query_block)
      × (without_note (check_index_checkpoint target.block c.block c.ms) (c.block, c.ms)
          ≡ some proof)
unfolding accept_checkpoint
written_in_time c target proof h = ground arith

abbrev SameOutcome : Outcome Error IndexCheckpoint → Outcome Error IndexCheckpoint → Type 0
SameOutcome a b = a ≡ b

accept-Certified :
    (target : Target) (o : Outcome Error IndexCheckpoint) (proof : ℕ × ℕ)
    → accept_checkpoint target o ≡ some proof
    → (o ≡ ok (record { written = true; block = proof.0; ms = proof.1 })) × Certified target proof
unfolding accept_checkpoint
accept-Certified target (err e) proof h = cc
accept-Certified target panic proof h = cc
accept-Certified target (ok c) proof h =
    let (fine, early, late) = written_in_time c target proof h in
    let (certified, same) =
      without_note-some (check_index_checkpoint target.block c.block c.ms) (c.block, c.ms) proof
        late in
    subst
      (λ p.
        (SameOutcome (ok c) (ok (record { written = true; block = p.0; ms = p.1 })))
        × Certified target p)
      same
      (ap (λ w. ok (record { written = w; block = c.block; ms = c.ms })) fine, (early, certified))

module _ {Raw : Type 0} (decoder : Decoder Raw) (data_at : Alias → Option Raw) where
  -- The answer holds the field of a chain, and it has no rows.
  abbrev pub Nothing : ℕ → ℕ → Type 0
  Nothing chain index =
      (raw : Raw) × (data_at (field_alias index chain) ≡ some raw) × (decoder.rows raw ≡ some [])

  rows_none : (o : Option (List Raw)) → no_rows o ≡ true → o ≡ some []
  rows_none none h = cc
  rows_none (some []) h = refl
  rows_none (some (r ∷ rs)) h = ground arith

  raw_nothing :
      (o : Option Raw)
      → field_empty decoder data_at o ≡ true
      → (raw : Raw) × (o ≡ some raw) × (decoder.rows raw ≡ some [])
  raw_nothing none h = cc
  raw_nothing (some raw) h = (raw, refl, rows_none (decoder.rows raw) h)

  fields-Nothing :
      (chain left index i : ℕ)
      → fields_empty decoder data_at chain index left ≡ true
      → index ≤ i
      → i < index + left
      → Nothing chain i
  unfolding fields_empty
  fields-Nothing chain zero index i h ge lt = absurd (omega (arith, ge, lt))
  fields-Nothing chain (suc left) index i h ge lt =
      let (here, later) = (and-eq-true_iff _ _).0 h in
      elim (Bool-cases (index == i)) [
        | inl e ↦
            subst (Nothing chain) ((==_iff index i).0 e)
              (raw_nothing (data_at (field_alias index chain)) here)
        | inr ne ↦ fields-Nothing chain left (suc index) i later (ground arith) (omega (arith, lt))
      ]

  if_empty-some :
      (o : Option (ℕ × ℕ)) (nothing : Bool) (proof : ℕ × ℕ)
      → if_empty o nothing ≡ some proof
      → (o ≡ some proof) × (nothing ≡ true)
  if_empty-some none nothing proof h = cc
  if_empty-some (some p) true proof h = (h, refl)
  if_empty-some (some p) false proof h = cc

  -- What the answer holds for a chain with a proof.
  abbrev pub ProvenEmpty : ℕ → ℕ → Target → ℕ × ℕ → Option Raw → Type 0
  ProvenEmpty fields chain target proof o =
      (raw : Raw) × (o ≡ some raw)
      × (parse_index_checkpoint decoder raw
          ≡ ok (record { written = true; block = proof.0; ms = proof.1 }))
      × Certified target proof
      × ((i : ℕ) → i < fields → Nothing chain i)

  empty_with :
      (fields chain : ℕ) (target : Target) (proof : ℕ × ℕ) (o : Option Raw)
      → chain_empty_with decoder data_at fields chain target o ≡ some proof
      → ProvenEmpty fields chain target proof o
  unfolding chain_empty_with
  empty_with fields chain target proof none h = cc
  empty_with fields chain target proof (some raw) h =
      let (accepted, nothing) =
        if_empty-some (accept_checkpoint target (parse_index_checkpoint decoder raw))
          (fields_empty decoder data_at chain 0 fields) proof h in
      let (written, certified) =
        accept-Certified target (parse_index_checkpoint decoder raw) proof accepted in
      (
        raw,
        refl,
        written,
        certified,
        λ i lt. fields-Nothing chain fields 0 i nothing (omega arith) (omega (arith, lt)),
      )

  -- A chain is proven empty only when the answer holds a written checkpoint, no later than the query block,
  -- that a page would have been accepted with and without a lag note, and every field of the
  -- probe with no rows.
  pub presence_chain_empty_sound :
      (fields chain : ℕ) (target : Target) (proof : ℕ × ℕ)
      → presence_chain_empty decoder data_at fields chain target ≡ some proof
      → ProvenEmpty fields chain target proof (data_at (checkpoint_alias chain))
  unfolding presence_chain_empty
  presence_chain_empty_sound fields chain target proof h =
      empty_with fields chain target proof (data_at (checkpoint_alias chain)) h

-- A proof is used at a fixed pin only when it is at the pin, and otherwise for any block from its own on.
pub usable_proof_iff :
    (block : BlockRef) (proof : Proof)
    → (usable_proof block (some proof) ≡ some proof) ↔ (
        (proof.query_block ≤ block.number)
        × (block.fixed ≡ true → proof.query_block ≡ block.number))
unfolding usable_proof
usable_proof_iff block proof = ground arith
