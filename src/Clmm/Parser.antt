-- ===== src/Clmm/Parser.antt =====
-- The parser of sui_clmm_math.go, which keeps the first error.
use sentio_portfolio.Common.{
  ℕ, ◌-◌, ◌^◌, ◌≤◌, ◌<◌, ◌≡◌, ◌↔◌, ◌∙◌, ap, sym, subst, refl, none, some, arith,
}
use sentio_portfolio.Common.Int.{ℤ, pos, negsuc, ◌-ℤ◌}
use sentio_portfolio.Clmm.{Error, Field, read, failed, parse_uint, parse_tick}

-- Once there is an error it is never replaced.
pub parse_tick-keeps :
    (first : Error) (field : Field) (bits : ℕ)
    → ((parse_uint (some first) field bits).0 ≡ some first)
      × ((parse_tick (some first) field).0 ≡ some first)
unfolding parse_tick
parse_tick-keeps first (read v) bits = ground arith
parse_tick-keeps first (failed e) bits = ground arith

-- The bit pattern of a 32-bit integer.
abbrev pub pattern32 : ℤ → ℕ
pattern32 (pos n) = n
pattern32 (negsuc n) = 2 ^ 32 - 1 - n

abbrev pub IsTick : ℤ → Type 0
IsTick (pos n) = n ≤ 443636
IsTick (negsuc n) = n < 443636

ticks_pattern :
    (v : ℕ) (tick : ℤ) → parse_tick none (read v) ≡ (none, tick) → IsTick tick → v ≡ pattern32 tick
unfolding parse_tick ◌-ℤ◌
ticks_pattern v (pos n) e h = ground arith
ticks_pattern v (negsuc n) e h = ground arith

tick_read : (tick : ℤ) → IsTick tick → parse_tick none (read (pattern32 tick)) ≡ (none, tick)
unfolding parse_tick ◌-ℤ◌
tick_read (pos n) h = ground arith
tick_read (negsuc n) h = ground arith

-- A tick that is returned without an error is in the supported range, and the field was a number of
-- at most 32 bits.
parse_tick_sound :
    (field : Field) (tick : ℤ)
    → parse_tick none field ≡ (none, tick)
    → IsTick tick × (bits : ℕ) × (field ≡ read bits) × (bits < 2 ^ 32)
unfolding parse_tick ◌-ℤ◌
parse_tick_sound (failed e) tick h = cc
parse_tick_sound (read v) tick h = (sound tick h, v, refl, ground arith)
  where
    sound : (tick : ℤ) → parse_tick none (read v) ≡ (none, tick) → IsTick tick
    sound (pos n) e = ground arith
    sound (negsuc n) e = ground arith

-- A field is read as a tick without an error exactly if the tick is in the supported range and the field
-- is the tick's 32-bit pattern.
pub parse_tick-pattern :
    (field : Field) (tick : ℤ)
    → (parse_tick none field ≡ (none, tick)) ↔ (IsTick tick × (field ≡ read (pattern32 tick)))
parse_tick-pattern field tick = (
  (λ h.
      let (good, v, same, _) = parse_tick_sound field tick h in
      let at_v = subst (λ f. parse_tick none f ≡ (none, tick)) same h in
      (good, same ∙ ap read (ticks_pattern v tick at_v good))),
  (λ k. subst (λ f. parse_tick none f ≡ (none, tick)) (sym k.1) (tick_read tick k.0)),
)
