-- ===== src/Dispatch/Runs.antt =====
-- What every step keeps, a run keeps (engine.go).
use sentio_portfolio.Common.{
  ℕ, ◌≡◌, refl, sym, ◌∙◌, subst, List, [], ◌∷◌, none, some, Option-cases, inl, inr,
}
use mathlib.Core.Option.{some-injective}
use sentio_portfolio.Scan.{Chains, Reader}
use sentio_portfolio.Dispatch.{State, Event, step, run}
use sentio_portfolio.Dispatch.Stepping.{Stepped, step-Stepped}

module _ {P : Type 0} (reader : Reader P) (root : ℕ) (scans : Chains P) (workers : ℕ) where
  first_blocked :
      (s : State) (e : Event) (es : List Event)
      → step reader root scans workers e s ≡ none
      → run reader root scans workers (e ∷ es) s ≡ none
  unfolding run
  first_blocked s e es h = rw (run, h) refl

  first_went :
      (s t : State) (e : Event) (es : List Event)
      → step reader root scans workers e s ≡ some t
      → run reader root scans workers (e ∷ es) s ≡ run reader root scans workers es t
  unfolding run
  first_went s t e es h = rw (run, h) refl

  -- The first step of a run that goes through, and the rest of it.
  pub run-steps :
      (e : Event) (es : List Event) (s t : State)
      → run reader root scans workers (e ∷ es) s ≡ some t
      → (u : State) × (step reader root scans workers e s ≡ some u)
        × (run reader root scans workers es u ≡ some t)
  run-steps e es s t h = elim (Option-cases (step reader root scans workers e s)) [
    | inl blocked ↦ absurd (none_not_some (sym (first_blocked s e es blocked) ∙ h))
    | inr (u, went) ↦ (u, went, sym (first_went s u e es went) ∙ h)
  ]
    where
      none_not_some : none ≡ some t → ⊥
      none_not_some k = cc

  pub run_keeps {ℓ} :
      (K : State → Type ℓ)
      → ((e : Event) (s t : State) → K s → Stepped reader root scans workers e s t → K t)
      → (es : List Event) (s t : State) → K s
      → run reader root scans workers es s ≡ some t
      → K t
  unfolding run
  run_keeps K keep [] s t k h = subst K (some-injective _ _ h) k
  run_keeps K keep (e ∷ es) s t k h =
      let (u, went, rest) = run-steps e es s t h in
      run_keeps K keep es u t (keep e s u k (step-Stepped reader root scans workers e s u went))
        rest
