-- ===== src/Clmm/Growth.antt =====
-- Fee growth inside a range, and what is owed (sui_clmm_math.go): counters modulo 2 ^ 128.
use sentio_portfolio.Common.{
  ℕ, ◌+◌, ◌-◌, ◌*◌, ◌/◌, ◌%◌, ◌^◌, ◌<◌, ◌≡◌, ap, arith, ok, err, leb, if◌then◌else◌,
}
use sentio_portfolio.Common.Int.{ℤ, ◌-ℤ◌, mod_ℤ, ltb_ℤ, leb_ℤ}
use sentio_portfolio.Clmm.{q64, mod128, sub, inside, owed_amount, owed_exceeds_u64}

sub_value :
    (a b : ℕ) → a < mod128 → b < mod128 → sub a b ≡ (if leb b a then a - b else a + mod128 - b)
unfolding sub mod_ℤ ◌-ℤ◌
sub_value a b h k = ground arith

sub-lt : (a b : ℕ) → a < mod128 → b < mod128 → sub a b < mod128
sub-lt a b h k = ground (arith, sub_value a b h k)

sub-sub : (g x : ℕ) → g < mod128 → x < mod128 → sub g (sub g x) ≡ x
sub-sub g x h k = ground (arith, sub_value g x h k, sub_value g (sub g x) h (sub-lt g x h k))

telescope :
    (a b c : ℕ) → a < mod128 → b < mod128 → c < mod128 → (sub a b + sub b c) % mod128 ≡ sub a c
telescope a b c ha hb hc =
    ground (arith, sub_value a b ha hb, sub_value b c hb hc, sub_value a c ha hc)

-- The growth on the far side of a boundary, whichever side the current tick is on.
beyond : ℕ → ℕ → ℤ → ℤ → ℕ
beyond g x current tick = if leb_ℤ tick current then sub g x else x

beyond-lt :
    (g x : ℕ) (current tick : ℤ) → g < mod128 → x < mod128 → beyond g x current tick < mod128
unfolding beyond
beyond-lt g x current tick h k = ground (arith, sub-lt g x h k)

below_lem :
    (g x : ℕ) (current tick : ℤ)
    → g < mod128
    → x < mod128
    → sub g (if ltb_ℤ current tick then sub g x else x) ≡ beyond g x current tick
unfolding beyond
below_lem g x current tick h k = ground (arith, sub-sub g x h k)

inside_lem :
    (g lower upper : ℕ) (current lo hi : ℤ)
    → g < mod128
    → lower < mod128
    → inside g lower upper current lo hi
      ≡ sub (beyond g lower current lo) (beyond g upper current hi)
unfolding inside beyond
inside_lem g lower upper current lo hi h k =
    ap (λ x. sub x (beyond g upper current hi)) (below_lem g lower current lo h k)

-- Two neighbouring ranges together have the growth of their union, modulo 2 ^ 128, wherever the
-- current tick is.
pub inside-append :
    (global lower middle upper : ℕ) (current lo mid hi : ℤ)
    → global < mod128
    → lower < mod128
    → middle < mod128
    → upper < mod128
    → (inside global lower middle current lo mid + inside global middle upper current mid hi)
        % mod128
      ≡ inside global lower upper current lo hi
inside-append g l m u c lo mid hi hg hl hm hu =
    rw
      (
        inside_lem g l m c lo mid hg hl,
        inside_lem g m u c mid hi hg hm,
        inside_lem g l u c lo hi hg hl,
      )
      (telescope (beyond g l c lo) (beyond g m c mid) (beyond g u c hi) (beyond-lt g l c lo hg hl)
        (beyond-lt g m c mid hg hm) (beyond-lt g u c hi hg hu))

advance : (last d : ℕ) → last < mod128 → d < mod128 → sub ((last + d) % mod128) last ≡ d
advance last d h k = ground (arith, sub_value ((last + d) % mod128) last (omega arith) h)

-- What is owed is the old amount and the position's share of the growth since, also where the counter
-- wrapped around; the only refusal is an amount of 2 ^ 64 or more.
pub owed_amount_wraps :
    (owed last d liquidity : ℕ)
    → last < mod128
    → d < mod128
    → owed_amount owed last ((last + d) % mod128) liquidity ≡ (
        if leb (2 ^ 64) (d * liquidity / q64 + owed)
        then err owed_exceeds_u64
        else ok (d * liquidity / q64 + owed))
unfolding owed_amount
owed_amount_wraps owed last d liquidity h k = rw (advance last d h k)
