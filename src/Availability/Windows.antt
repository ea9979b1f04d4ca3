-- ===== src/Availability/Windows.antt =====
-- The windows of a chain that pass registration (adapter.go).
use sentio_portfolio.Common.{
  ℕ, suc, ◌≤◌, ◌<◌, ◌≡◌, refl, ◌≢◌, ◌⊎◌, ◌↔◌, inl, inr, true, false, Option, none, some, List, [],
  ◌∷◌, arith, if◌then◌else◌, Bool-cases, ok, All,
}
use sentio_portfolio.Availability.{
  DeploymentWindow, Window, active_at, window_active_at, any_active, check_window, check_order,
  check_windows,
}

-- Both bounds are inclusive, and a last block of zero means no end.
abbrev pub Covers : DeploymentWindow → ℕ → Type 0
Covers d block =
    (d.activation_block ≤ block) × ((d.deactivation_block ≡ 0) ⊎ (block ≤ d.deactivation_block))

-- A window is active exactly on the blocks that its bounds cover.
active_at_iff : (d : DeploymentWindow) (block : ℕ) → (active_at d block ≡ true) ↔ Covers d block
unfolding active_at
active_at_iff d block = ground arith

-- How many windows are active at a block.
pub count_active : List Window → ℕ → ℕ
count_active [] block = 0
count_active (w ∷ ws) block =
    let rest = count_active ws block in if window_active_at w block then suc rest else rest

pub count_active-pos :
    (ws : List Window) (block : ℕ) → (any_active ws block ≡ true) ↔ (0 < count_active ws block)
unfolding any_active count_active
count_active-pos [] block = ground arith
count_active-pos (w ∷ ws) block = ground (arith, count_active-pos ws block)

check_step :
    (w v : Window) (vs : List Window)
    → check_windows (some w) (v ∷ vs) ≡ ok tt
    → (w.deployment.activation_block < v.deployment.activation_block)
      × (w.deployment.deactivation_block ≢ 0)
      × (w.deployment.deactivation_block < v.deployment.activation_block)
      × (check_windows (some v) vs ≡ ok tt)
unfolding check_windows check_window check_order
check_step w v vs h = ground arith

inactive_before :
    (w : Window) (block : ℕ)
    → block < w.deployment.activation_block
    → window_active_at w block ≡ false
unfolding window_active_at active_at
inactive_before w block h = ground arith

none_before :
    (w : Window) (ws : List Window) (block : ℕ)
    → check_windows (some w) ws ≡ ok tt
    → block < w.deployment.activation_block
    → count_active ws block ≡ 0
unfolding count_active
none_before w [] block h lt = refl
none_before w (v ∷ vs) block h lt =
    let parts = check_step w v vs h in
    rw (inactive_before v block (omega (arith, parts.0)))
      (none_before v vs block parts.3 (omega (arith, parts.0)))

active_end :
    (w : Window) (block : ℕ)
    → window_active_at w block ≡ true
    → w.deployment.deactivation_block ≢ 0
    → block ≤ w.deployment.deactivation_block
unfolding window_active_at active_at
active_end w block h ne = ground arith

none_after :
    (w : Window) (ws : List Window) (block : ℕ)
    → check_windows (some w) ws ≡ ok tt
    → window_active_at w block ≡ true
    → count_active ws block ≡ 0
unfolding count_active
none_after w [] block h on = refl
none_after w (v ∷ vs) block h on =
    let parts = check_step w v vs h in
    let before : block < v.deployment.activation_block =
      omega (arith, parts.2, active_end w block on parts.1) in
    rw (inactive_before v block before) (none_before v vs block parts.3 before)

check_first :
    (p : Option Window) (w : Window) (ws : List Window)
    → check_windows p (w ∷ ws) ≡ ok tt
    → check_windows (some w) ws ≡ ok tt
unfolding check_windows check_window check_order
check_first none w ws h = ground arith
check_first (some p) w ws h = ground arith

-- At every block at most one of the windows that pass the checks is active.
pub count_active-le-one :
    (previous : Option Window) (ws : List Window) (block : ℕ)
    → check_windows previous ws ≡ ok tt
    → count_active ws block ≤ 1
unfolding count_active
count_active-le-one p [] block h = omega arith
count_active-le-one p (w ∷ ws) block h = elim (Bool-cases (window_active_at w block)) [
  | inl on ↦ rw on (omega (arith, none_after w ws block (check_first p w ws h) on))
  | inr off ↦ rw off (count_active-le-one (some w) ws block (check_first p w ws h))
]

-- A window without an end stays active once it is.
open_stays :
    (w : Window) (b b' : ℕ)
    → w.deployment.deactivation_block ≡ 0
    → b ≤ b'
    → window_active_at w b ≡ true
    → window_active_at w b' ≡ true
unfolding window_active_at active_at
open_stays w b b' e le h = ground arith

abbrev pub AllOpen : List Window → Type 0
AllOpen = All (λ w. w.deployment.deactivation_block ≡ 0)

pub any_active-stays :
    (ws : List Window) (b b' : ℕ)
    → AllOpen ws
    → b ≤ b'
    → any_active ws b ≡ true
    → any_active ws b' ≡ true
unfolding any_active
any_active-stays [] b b' o le h = h
any_active-stays (w ∷ ws) b b' o le h =
    ground (arith, open_stays w b b' o.0 le, any_active-stays ws b b' o.1 le)
