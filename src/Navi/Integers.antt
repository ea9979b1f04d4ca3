-- ===== src/Navi/Integers.antt =====
-- Reading Move integers from their decimal text (navi_math.go, suiFields.uint).
use mathlib.Core.WellFounded.{Acc}
use mathlib.Core.WellFounded
use mathlib.Core.Logic.{dite, dif_pos, dif_neg}
use native.Mathlib.Bridge.{le_prop}
use sentio_portfolio.Common.{
  ℕ, ◌+◌, ◌-◌, ◌*◌, ◌/◌, ◌%◌, ◌^◌, ◌≤◌, ◌<◌, ◌≡◌, refl, ◌∙◌, ◌⊎◌, inl, inr, true, false, List, [],
  ◌∷◌, ◌++◌, leb, arith, ok, err, if◌then◌else◌, dec_lt,
}
use sentio_portfolio.Common.Order.{lt_wf}
use sentio_portfolio.Navi.{
  string, number, text, is_digit, all_digits, digits_value, badly_started, uint, exceeds_u256,
}

-- The decimal text of a number, the shortest one.
digits_acc : (n : ℕ) → Acc ◌<◌ n → List ℕ
digits_acc n (Acc.intro _ smaller) =
    dite (dec_lt n 10) (λ _. (b'0' + n) ∷ [])
      (λ h. digits_acc (n / 10) (smaller (n / 10) (omega arith)) ++ (b'0' + n % 10) ∷ [])

pub decimal : ℕ → List ℕ
unfolding digits_acc lt_wf dec_lt
decimal n = digits_acc n (lt_wf.apply n)

digits_value-append :
    (acc c : ℕ) (cs : List ℕ)
    → digits_value acc (cs ++ c ∷ []) ≡ digits_value acc cs * 10 + (c - b'0')
unfolding digits_value
digits_value-append acc c [] = refl
digits_value-append acc c (d ∷ cs) = digits_value-append (acc * 10 + (d - b'0')) c cs

all_digits-append :
    (c : ℕ) (cs : List ℕ)
    → all_digits cs ≡ true
    → is_digit c ≡ true
    → all_digits (cs ++ c ∷ []) ≡ true
unfolding all_digits
all_digits-append c [] h k = ground arith
all_digits-append c (d ∷ cs) h k = ground (arith, all_digits-append c cs)

-- A text that the reader accepts: digits, of the given value, with no leading zero before others.
record Reads (n : ℕ) (s : List ℕ) : Type 0 where
  first : ℕ
  others : List ℕ
  shape : s ≡ first ∷ others
  digits : all_digits s ≡ true
  value : digits_value 0 s ≡ n
  no_zero : (b'0' < first) ⊎ (others ≡ [])
  nonzero : 0 < n → b'0' < first

one_digit : (n : ℕ) → n < 10 → Reads n ((b'0' + n) ∷ [])
unfolding all_digits digits_value
one_digit n h = record {
  first = b'0' + n;
  others = [];
  shape = refl;
  digits = ground arith;
  value = omega arith;
  no_zero = inr refl;
  nonzero = λ p. omega arith;
}

more_digits : (n : ℕ) (s : List ℕ) → 10 ≤ n → Reads (n / 10) s → Reads n (s ++ (b'0' + n % 10) ∷ [])
more_digits n s h r = record {
  first = r.first;
  others = r.others ++ (b'0' + n % 10) ∷ [];
  shape = rw r.shape;
  digits = all_digits-append (b'0' + n % 10) s r.digits (ground arith);
  value = digits_value-append 0 (b'0' + n % 10) s ∙ omega (arith, r.value);
  no_zero = inl (r.nonzero (omega arith));
  nonzero = λ p. r.nonzero (omega arith);
}

abbrev DigitsRead : ℕ → Type 0
DigitsRead n = (w : Acc ◌<◌ n) → Reads n (digits_acc n w)

digits_step : (n : ℕ) → ((y : ℕ) → y < n → DigitsRead y) → DigitsRead n
unfolding digits_acc
digits_step n ih (Acc.intro _ smaller) = elim (dec_lt n 10) [
  | yes h ↦ rw (dif_pos _ le_prop h) (one_digit n h)
  | no h ↦
      rw (dif_neg _ h)
        (more_digits n _ (omega arith) (ih (n / 10) (omega arith) (smaller (n / 10) (omega arith))))
]

decimal-Reads : (n : ℕ) → Reads n (decimal n)
unfolding decimal
decimal-Reads n = WellFounded.induction lt_wf {C = DigitsRead} n digits_step (lt_wf.apply n)

started : (n : ℕ) (s : List ℕ) → Reads n s → badly_started s ≡ false
unfolding badly_started
started n [] r = cc r.shape
started n (c ∷ []) r = refl
started n (c ∷ d ∷ cs) r = ground arith

-- Every number below 2 ^ 256 is read back from its decimal text, be it given as a JSON string or as a JSON
-- number, and every larger one is refused as too large in both forms.
pub uint-decimal :
    (n : ℕ)
    → (uint (string (decimal n)) ≡ (if leb (2 ^ 256) n then err exceeds_u256 else ok n))
      × (uint (number (decimal n)) ≡ (if leb (2 ^ 256) n then err exceeds_u256 else ok n))
unfolding uint text
uint-decimal n =
    let r = decimal-Reads n in
    let open_up = started n (decimal n) r in
    (rw (open_up, r.digits, r.value) (ground arith), rw (open_up, r.digits, r.value) (ground arith))
