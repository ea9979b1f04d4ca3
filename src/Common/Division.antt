-- ===== src/Common/Division.antt =====
-- Rounding: what the libraries' `/` on natural numbers gives the fixed-point code.
use Prim.Native.Nat.{ℕ, ◌+◌, ◌*◌, ◌/◌, ◌≤◌, ◌<◌}
use native.Mathlib.Omega.{arith}
use native.Mathlib.Nat.{div-add-mod, mod-lt}

-- The quotient is the floor.
pub div_floor : (n d : ℕ) → 0 < d → (d * (n / d) ≤ n) × (n < d * (n / d) + d)
div_floor n d h = grind (arith, div-add-mod n d, mod-lt n h)

pub div-le : (n d q : ℕ) → 0 < d → n ≤ d * q → n / d ≤ q
div-le n d q h le = grind (arith, div_floor n d h)

pub le-div : (n d q : ℕ) → 0 < d → d * q ≤ n → q ≤ n / d
le-div n d q h le = grind (arith, div_floor n d h)

pub div_mono : (m n d : ℕ) → 0 < d → m ≤ n → m / d ≤ n / d
div_mono m n d h le = grind (arith, div_floor m d h, div_floor n d h)

pub mul_mono : (a b c d : ℕ) → a ≤ b → c ≤ d → a * c ≤ b * d
mul_mono a b c d h k = grind arith

pub div_anti : (n c d : ℕ) → 0 < c → c ≤ d → n / d ≤ n / c
div_anti n c d h le =
    le-div n c (n / d) h (grind (arith, div_floor n d, mul_mono c d (n / d) (n / d)))
