-- ===== src/Navi/Index.antt =====
-- NAVI's ray multiplication and interest index (navi_math.go).
use sentio_portfolio.Common.{
  ℕ, ◌+◌, ◌-◌, ◌*◌, ◌/◌, ◌≤◌, ◌<◌, ◌≡◌, ◌⊎◌, inl, inr, Bool, true, false, ltb, arith, ok, err,
  Outcome, Bool-cases, ltb→lt, not_ltb→le, if◌then◌else◌,
}
use sentio_portfolio.Common.Int.{ℤ, pos, pos_part, ◌≤ℤ◌, leb_ℤ, ltb_ℤ}
use sentio_portfolio.Common.Division.{div_floor, div_mono, mul_mono, le-div}
use sentio_portfolio.Navi.{
  ray, seconds_per_year, ray_mul, supply_interest, borrow_interest, interest, index_at, Error,
  invalid_interest_inputs,
}

-- Half-up rounding: the result is within half a unit of the exact product of two rays.
pub ray_mul_rounds :
    (a b : ℕ)
    → (2 * (ray * ray_mul a b) ≤ 2 * (a * b) + ray) × (2 * (a * b) < 2 * (ray * ray_mul a b) + ray)
unfolding ray_mul
ray_mul_rounds a b = omega (arith, div_floor (a * b + ray / 2) ray)

ray_mul_mono : (a b c d : ℕ) → a ≤ b → c ≤ d → ray_mul a c ≤ ray_mul b d
unfolding ray_mul
ray_mul_mono a b c d h k = div_mono _ _ ray (omega arith) (omega (arith, mul_mono a b c d h k))

ray_mul-ge : (a b : ℕ) → ray ≤ b → a ≤ ray_mul a b
unfolding ray_mul
ray_mul-ge a b h = le-div _ ray a (omega arith) (omega (arith, mul_mono a a ray b (omega arith) h))

supply_interest_mono : (rate m n : ℕ) → m ≤ n → supply_interest rate m ≤ supply_interest rate n
unfolding supply_interest
supply_interest_mono rate m n h = omega (
  arith,
  div_mono (rate * m) (rate * n) seconds_per_year (omega arith)
      (mul_mono rate rate m n (omega arith) h),
)

-- The three factors of the cubic term, which stop at zero as the code makes them.
triple_mono :
    (m n c : ℕ)
    → m ≤ n
    → m * (m - 1) * (if ltb 2 m then m - 2 else 0) * c
      ≤ n * (n - 1) * (if ltb 2 n then n - 2 else 0) * c
triple_mono m n c h =
    mul_mono _ _ c c
      (mul_mono _ _ _ _ (mul_mono m n (m - 1) (n - 1) h (omega arith)) (ground arith)) (omega arith)

borrow_interest_mono : (rate m n : ℕ) → m ≤ n → borrow_interest rate m ≤ borrow_interest rate n
unfolding borrow_interest
borrow_interest_mono rate m n h =
    let p = rate / seconds_per_year in
    let linear : p * m ≤ p * n = mul_mono p p m n (omega arith) h in
    let square : m * (m - 1) * ray_mul p p / 2 ≤ n * (n - 1) * ray_mul p p / 2 =
      div_mono _ _ 2 (omega arith)
        (mul_mono _ _ _ _ (mul_mono m n (m - 1) (n - 1) h (omega arith)) (omega arith)) in
    let cube = div_mono _ _ 6 (omega arith) (triple_mono m n (ray_mul (ray_mul p p) p) h) in
    omega (arith, cube)

borrow_interest-ge : (rate n : ℕ) → ray ≤ borrow_interest rate n
unfolding borrow_interest
borrow_interest-ge rate n = omega arith

interest-ge : (rate n : ℕ) (borrow : Bool) → ray ≤ interest rate n borrow
unfolding interest supply_interest
interest-ge rate n false = omega arith
interest-ge rate n true = ground (arith, borrow_interest-ge rate n)

interest_mono :
    (rate m n : ℕ) (borrow : Bool) → m ≤ n → interest rate m borrow ≤ interest rate n borrow
unfolding interest
interest_mono rate m n false h = supply_interest_mono rate m n h
interest_mono rate m n true h =
    ground (arith, borrow_interest_mono rate m n h, borrow_interest-ge rate n)

abbrev at_seconds : ℕ → ℕ → ℕ → Bool → ℕ
at_seconds index rate seconds borrow = ray_mul index (interest rate seconds borrow)

index_at_lem :
    (index rate : ℤ) (last target : ℕ) (borrow : Bool)
    → 0 < pos_part index
    → pos 0 ≤ℤ rate
    → last ≤ target
    → index_at index rate last target borrow
      ≡ ok (at_seconds (pos_part index) (pos_part rate) ((target - last) / 1000) borrow)
unfolding index_at
index_at_lem index rate last target borrow h k le = ground arith

index_at_err :
    (index rate : ℤ) (last target : ℕ) (borrow : Bool)
    → (index ≤ℤ pos 0) ⊎ ¬ (pos 0 ≤ℤ rate) ⊎ (target < last)
    → index_at index rate last target borrow ≡ err invalid_interest_inputs
unfolding index_at
index_at_err index rate last target borrow (inl h) = ground arith
index_at_err index rate last target borrow (inr (inl h)) = ground arith
index_at_err index rate last target borrow (inr (inr h)) = ground arith

-- What the outcome of the index is, and when.
abbrev pub Indexed : ℤ → ℤ → ℕ → ℕ → Outcome Error ℕ → Type 0
Indexed index rate last target o =
    (((index ≤ℤ pos 0) ⊎ ¬ (pos 0 ≤ℤ rate) ⊎ (target < last)) × (o ≡ err invalid_interest_inputs))
    ⊎ ((0 < pos_part index)
        × (pos 0 ≤ℤ rate)
        × (last ≤ target)
        × (r : ℕ) × (o ≡ ok r)
        × (pos_part index ≤ r))

-- The index is refused exactly for an index that is not positive, a negative rate, or a target before
-- the last update, and otherwise is no less than the stored one.
pub index_at_cases :
    (index rate : ℤ) (last target : ℕ) (borrow : Bool)
    → Indexed index rate last target (index_at index rate last target borrow)
index_at_cases index rate last target borrow = elim (Bool-cases (leb_ℤ index (pos 0))) [
  | inl a ↦ refused (inl (ground arith))
  | inr a ↦ elim (Bool-cases (ltb_ℤ rate (pos 0))) [
    | inl b ↦ refused (inr (inl (ground arith)))
    | inr b ↦ elim (Bool-cases (ltb target last)) [
      | inl c ↦ refused (inr (inr (ltb→lt _ _ c)))
      | inr c ↦ accepted (ground arith) (ground arith) (not_ltb→le _ _ c)
    ]
  ]
]
  where
    o : Outcome Error ℕ
    o = index_at index rate last target borrow

    refused :
        (index ≤ℤ pos 0) ⊎ ¬ (pos 0 ≤ℤ rate) ⊎ (target < last) → Indexed index rate last target o
    refused w = inl (w, index_at_err index rate last target borrow w)

    accepted : 0 < pos_part index → pos 0 ≤ℤ rate → last ≤ target → Indexed index rate last target o
    accepted h k le = inr (
      h,
      k,
      le,
      _,
      index_at_lem index rate last target borrow h k le,
      ray_mul-ge (pos_part index) _ (interest-ge (pos_part rate) ((target - last) / 1000) borrow),
    )

-- Interest never runs backwards: for one rate a later target gives no smaller index, for supplies and
-- for borrows.
pub index_at_mono :
    (index rate last early late : ℕ) (borrow : Bool)
    → 0 < index
    → last ≤ early
    → early ≤ late
    → (r r' : ℕ) × (index_at (pos index) (pos rate) last early borrow ≡ ok r)
      × (index_at (pos index) (pos rate) last late borrow ≡ ok r')
      × (index ≤ r)
      × (r ≤ r')
index_at_mono index rate last early late borrow h le le' =
    let m = (early - last) / 1000 in
    let n = (late - last) / 1000 in
    (
      at_seconds index rate m borrow,
      at_seconds index rate n borrow,
      index_at_lem (pos index) (pos rate) last early borrow h (omega arith) le,
      index_at_lem (pos index) (pos rate) last late borrow h (omega arith) (omega arith),
      ray_mul-ge index _ (interest-ge rate m borrow),
      ray_mul_mono index index _ _ (omega arith) (interest_mono rate m n borrow (omega arith)),
    )
