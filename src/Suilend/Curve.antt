-- ===== src/Suilend/Curve.antt =====
-- The interest curve of a Suilend reserve (suilend_math.go).
use sentio_portfolio.Common.{
  ℕ, suc, ◌+◌, ◌-◌, ◌*◌, ◌/◌, ◌≤◌, ◌<◌, ◌≡◌, inl, inr, true, List, [], ◌∷◌, arith, leb, length,
  Bool-cases, ok, leb→le, le→leb, not_leb→lt, ap, ◌==◌,
}
use sentio_portfolio.Common.Division.{div-le, mul_mono}
use sentio_portfolio.Suilend.{
  wad, bps, percent, Reserve, mul, div, interpolate, apr_from, apr_at, net_available, utilization,
  rises, last_of, check_curve,
}

mul-le : (w d : ℕ) → w ≤ wad → mul w d ≤ d
unfolding mul
mul-le w d h = div-le (w * d) wad d (omega arith) (grind (arith, mul_mono w wad d d))

-- Inside a segment the rate lies between those of its ends.
interpolate_range :
    (util left right a a' : ℕ)
    → left ≤ util
    → util ≤ right
    → left < right
    → a ≤ a'
    → (x : ℕ) × (interpolate util left right a a' ≡ ok x) × (a * bps ≤ x) × (x ≤ a' * bps)
unfolding interpolate div
interpolate_range util left right a a' lo hi lt le =
    let w : ℕ = (util - left) * wad / (right - left) in
    let w-le : w ≤ wad =
      div-le _ (right - left) wad (omega arith)
        (grind (arith, mul_mono (util - left) (right - left) wad wad)) in
    (
      a * bps + mul w ((a' - a) * bps),
      ground arith,
      omega arith,
      omega (arith, mul-le w ((a' - a) * bps) w-le),
    )

rises_cons :
    (u a u' a' : ℕ) (us as' : List ℕ)
    → rises u a (u' ∷ us) (a' ∷ as') ≡ true
    → (u < u') × (a ≤ a') × (rises u' a' us as' ≡ true)
unfolding rises
rises_cons u a u' a' us as' h = ground arith

rises_last :
    (u a : ℕ) (us as' : List ℕ)
    → length us ≡ length as'
    → rises u a us as' ≡ true
    → a ≤ last_of a as'
unfolding last_of
rises_last u a [] [] e h = omega arith
rises_last u a [] (a' ∷ as') e h = absurd (omega arith)
rises_last u a (u' ∷ us) [] e h = absurd (omega arith)
rises_last u a (u' ∷ us) (a' ∷ as') e h =
    let parts = rises_cons u a u' a' us as' h in
    omega (arith, rises_last u' a' us as' (omega arith) parts.2)

abbrev Rate : ℕ → ℕ → List ℕ → List ℕ → ℕ → Type 0
Rate util u us as' a =
    (x : ℕ) × (apr_from util u a us as' ≡ ok x) × (a * bps ≤ x) × (x ≤ last_of a as' * bps)

-- In the first segment, or else in the later ones.
apr_from_step :
    (util u a u' a' : ℕ) (us as' : List ℕ)
    → length us ≡ length as'
    → rises u a (u' ∷ us) (a' ∷ as') ≡ true
    → u * percent ≤ util
    → (u' * percent < util → Rate util u' us as' a')
    → Rate util u (u' ∷ us) (a' ∷ as') a
unfolding apr_from last_of
apr_from_step util u a u' a' us as' e h lo later = elim (Bool-cases (leb util (u' * percent))) [
  | inl here ↦
      let parts = rises_cons u a u' a' us as' h in
      let got =
        interpolate_range util (u * percent) (u' * percent) a a' lo (leb→le _ _ here) (omega arith)
          parts.1 in
      (
        got.0,
        rw (le→leb _ _ lo, here) got.1,
        got.2,
        omega (arith, got.3, rises_last u' a' us as' e parts.2),
      )
  | inr beyond ↦
      let got = later (not_leb→lt _ _ beyond) in
      let parts = rises_cons u a u' a' us as' h in
      (got.0, rw (le→leb _ _ lo, beyond) got.1, omega (arith, got.2, parts.1), got.3)
]

-- Along a rising curve every utilization up to its last has a rate, between the first and the last.
apr_from_range :
    (util u a u' a' : ℕ) (us as' : List ℕ)
    → length us ≡ length as'
    → rises u a (u' ∷ us) (a' ∷ as') ≡ true
    → u * percent ≤ util
    → util ≤ last_of u' us * percent
    → Rate util u (u' ∷ us) (a' ∷ as') a
unfolding last_of
apr_from_range util u a u' a' [] [] e h lo hi =
    apr_from_step util u a u' a' [] [] e h lo (λ b. absurd (omega arith))
apr_from_range util u a u' a' [] (a'' ∷ as') e h lo hi = absurd (omega arith)
apr_from_range util u a u' a' (u'' ∷ us) [] e h lo hi = absurd (omega arith)
apr_from_range util u a u' a' (u'' ∷ us) (a'' ∷ as') e h lo hi =
    apr_from_step util u a u' a' (u'' ∷ us) (a'' ∷ as') e h lo (λ b.
      apr_from_range util u' a' u'' a'' us as' (omega arith) (rises_cons u a u' a' _ _ h).2
        (omega arith) hi)

-- What parseSuilendReserve has checked.
abbrev pub IsCurve : List ℕ → List ℕ → Type 0
IsCurve utils aprs = check_curve utils aprs ≡ ok tt

abbrev pub first_or : ℕ → List ℕ → ℕ
first_or d [] = d
first_or d (x ∷ xs) = x

abbrev pub final_or : ℕ → List ℕ → ℕ
final_or d [] = d
final_or d (x ∷ xs) = last_of x xs

check_parts :
    (u a u' : ℕ) (us as' : List ℕ)
    → check_curve (u ∷ u' ∷ us) (a ∷ as') ≡ ok tt
    → (suc (length us) ≡ length as')
      × (u ≡ 0)
      × (last_of u' us ≡ 100)
      × (rises u a (u' ∷ us) as' ≡ true)
unfolding check_curve
check_parts u a u' us as' h = ground arith

-- On a curve that parsing accepts, every utilization up to 100 percent has a rate, no less than the
-- curve's first rate and no more than its last.
pub apr_at_range :
    (util : ℕ) (utils aprs : List ℕ)
    → IsCurve utils aprs
    → util ≤ wad
    → (x : ℕ) × (apr_at util utils aprs ≡ ok x)
      × (first_or 0 aprs * bps ≤ x)
      × (x ≤ final_or 0 aprs * bps)
unfolding apr_at check_curve last_of
apr_at_range util (u ∷ u' ∷ us) (a ∷ a' ∷ as') c le =
    let parts = check_parts u a u' us (a' ∷ as') c in
    apr_from_range util u a u' a' us as' (omega arith) parts.3
      (omega (arith, ap (λ (t : ℕ). t * percent) parts.1)) (omega (arith, parts.2))
apr_at_range util (u ∷ u' ∷ us) (a ∷ []) c le = absurd (omega (arith, check_parts u a u' us [] c))
apr_at_range util [] aprs c le = cc
apr_at_range util (u ∷ []) aprs c le = cc
apr_at_range util (u ∷ u' ∷ us) [] c le = cc

-- The utilization never passes 100 percent, whatever the unclaimed spread is.
pub utilization-le : (r : Reserve) → (u : ℕ) × (utilization r ≡ ok u) × (u ≤ wad)
unfolding utilization div
utilization-le r = elim (Bool-cases (net_available r + r.borrowed == 0)) [
  | inl empty ↦ (0, rw empty, omega arith)
  | inr some_supply ↦ (
    r.borrowed * wad / (net_available r + r.borrowed),
    rw some_supply,
    div-le _ (net_available r + r.borrowed) wad (ground arith) (omega arith),
  )
]
