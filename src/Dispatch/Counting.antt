-- ===== src/Dispatch/Counting.antt =====
-- How often a deployment of some kind occurs in the lists of a scan (engine.go).
use sentio_portfolio.Common.{
  one_if, count, ℕ, zero, suc, ◌+◌, ◌≡◌, refl, Bool, List, [], ◌∷◌, some, arith, get_elem?, length,
}
use sentio_portfolio.Scan.{Deployment}
use sentio_portfolio.Dispatch.{remove_at}

pub count-remove_at :
    (p : Deployment → Bool) (i : ℕ) (ds : List Deployment) (d : Deployment)
    → get_elem? ds i ≡ some d
    → count p ds ≡ one_if (p d) + count p (remove_at i ds)
unfolding remove_at
count-remove_at p i [] d h = cc
count-remove_at p zero (e ∷ ds) d h = cc
count-remove_at p (suc i) (e ∷ ds) d h = omega (arith, count-remove_at p i ds d h)

pub length-remove_at :
    (i : ℕ) (ds : List Deployment) (d : Deployment)
    → get_elem? ds i ≡ some d
    → length ds ≡ suc (length (remove_at i ds))
unfolding remove_at
length-remove_at i [] d h = cc
length-remove_at zero (e ∷ ds) d h = refl
length-remove_at (suc i) (e ∷ ds) d h = omega (arith, length-remove_at i ds d h)
