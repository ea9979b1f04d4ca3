-- ===== src/Pricing/Keys.antt =====
-- The order of price keys, and instants (pricing.go).
use sentio_portfolio.Common.{◌≡◌, refl, true, false, [], ◌∷◌, arith}
use sentio_portfolio.Common.Int.{ℤ, eq_of_parts}
use sentio_portfolio.Pages.{Text, text_lt}
use sentio_portfolio.Pricing.{AssetId, Query, same_instant, key_before, before, price_key}
use sentio_portfolio.Pages.Order.{text_lt_asymm}

text_ge_trans : (r s t : Text) → text_lt s r ≡ false → text_lt t s ≡ false → text_lt t r ≡ false
text_ge_trans [] s [] h k = refl
text_ge_trans [] [] (e ∷ t) h k = refl
text_ge_trans [] (d ∷ s) (e ∷ t) h k = refl
text_ge_trans (c ∷ r) [] t h k = cc
text_ge_trans (c ∷ r) (d ∷ s) [] h k = cc
text_ge_trans (c ∷ r) (d ∷ s) (e ∷ t) h k = ground (arith, text_ge_trans r s t)

pub key_before_asymm : (a b : AssetId) → key_before a b ≡ true → key_before b a ≡ false
key_before_asymm a b h = text_lt_asymm (price_key a) (price_key b) h

pub key_before_trans :
    (a b c : AssetId) → key_before b a ≡ false → key_before c b ≡ false → key_before c a ≡ false
key_before_trans a b c h k = text_ge_trans (price_key a) (price_key b) (price_key c) h k

pub before_asymm : (q r : Query) → before q r ≡ true → before r q ≡ false
before_asymm q r h = ground (arith, h)

pub before_trans : (q r s : Query) → before r q ≡ false → before s r ≡ false → before s q ≡ false
before_trans q r s h k = ground (arith, h, k)

pub same_instant_lem : (s t : ℤ) → same_instant s t ≡ true → s ≡ t
same_instant_lem s t h = eq_of_parts s t (ground (arith, h))
