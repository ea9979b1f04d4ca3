-- ===== src/Pages/Order.antt =====
-- The order of row ids, and the rows of an ordered table after an id (sentio_index.go).
use sentio_portfolio.Common.{
  ◌≡◌, refl, Bool, true, false, List, [], ◌∷◌, ◌++◌, arith, if◌then◌else◌, inl, inr, Bool-cases,
}
use sentio_portfolio.Pages.{Text, text_lt}

pub text_lt_irrefl : (s : Text) → text_lt s s ≡ false
text_lt_irrefl [] = refl
text_lt_irrefl (c ∷ s) = ground (arith, text_lt_irrefl s)

pub text_lt_trans : (r s t : Text) → text_lt r s ≡ true → text_lt s t ≡ true → text_lt r t ≡ true
text_lt_trans [] [] t h k = k
text_lt_trans [] (d ∷ s) [] h k = cc
text_lt_trans [] (d ∷ s) (e ∷ t) h k = refl
text_lt_trans (c ∷ r) [] t h k = cc
text_lt_trans (c ∷ r) (d ∷ s) [] h k = cc
text_lt_trans (c ∷ r) (d ∷ s) (e ∷ t) h k = ground (arith, text_lt_trans r s t)

pub text_lt_asymm : (s t : Text) → text_lt s t ≡ true → text_lt t s ≡ false
text_lt_asymm s t h = elim (Bool-cases (text_lt t s)) [
  | inl back ↦ absurd (impossible (text_lt_trans s t s h back) (text_lt_irrefl s))
  | inr fine ↦ fine
]
  where
    impossible : {b : Bool} → b ≡ true → b ≡ false → ⊥
    impossible p q = cc

-- An entry of an index: the row as it is sent, its id, and what the stream makes of it.
pub record Entry (Raw T : Type 0) : Type 0 where
  pub raw : Raw
  pub id : Text
  pub value : T

module _ {Raw T : Type 0} where
  -- The ids ascend, from one above `after`.
  abbrev pub IsAscending : Text → List (Entry Raw T) → Type 0
  IsAscending after [] = Unit
  IsAscending after (e ∷ es) = (text_lt after e.id ≡ true) × IsAscending e.id es

  -- What an ordered index answers for a cursor, before the limit of the page.
  abbrev pub rows_after : Text → List (Entry Raw T) → List (Entry Raw T)
  rows_after after [] = []
  rows_after after (e ∷ es) =
      if text_lt after e.id then e ∷ rows_after after es else rows_after after es

  abbrev pub last_id : Text → List (Entry Raw T) → Text
  last_id after [] = after
  last_id after (e ∷ es) = last_id e.id es

  IsAscending-lower :
      (a b : Text) (es : List (Entry Raw T))
      → text_lt a b ≡ true
      → IsAscending b es
      → IsAscending a es
  IsAscending-lower a b [] h k = tt
  IsAscending-lower a b (e ∷ es) h k = (text_lt_trans a b e.id h k.0, k.1)

  rows_after_all :
      (after : Text) (es : List (Entry Raw T)) → IsAscending after es → rows_after after es ≡ es
  rows_after_all after [] h = refl
  rows_after_all after (e ∷ es) h =
      rw (h.0, rows_after_all after es (IsAscending-lower after e.id es h.0 h.1)) refl

  last_id-gt :
      (a b : Text) (es : List (Entry Raw T))
      → text_lt a b ≡ true
      → IsAscending b es
      → text_lt a (last_id b es) ≡ true
  last_id-gt a b [] h k = h
  last_id-gt a b (e ∷ es) h k = last_id-gt a e.id es (text_lt_trans a b e.id h k.0) k.1

  last_id-ge :
      (a : Text) (es : List (Entry Raw T)) → IsAscending a es → text_lt (last_id a es) a ≡ false
  last_id-ge a [] h = text_lt_irrefl a
  last_id-ge a (e ∷ es) h = text_lt_asymm a (last_id e.id es) (last_id-gt a e.id es h.0 h.1)

  pub IsAscending-left :
      (after : Text) (seen rest : List (Entry Raw T))
      → IsAscending after (seen ++ rest)
      → IsAscending after seen
  IsAscending-left after [] rest h = tt
  IsAscending-left after (e ∷ seen) rest h = (h.0, IsAscending-left e.id seen rest h.1)

  pub IsAscending-right :
      (after : Text) (seen rest : List (Entry Raw T))
      → IsAscending after (seen ++ rest)
      → IsAscending (last_id after seen) rest
  IsAscending-right after [] rest h = h
  IsAscending-right after (e ∷ seen) rest h = IsAscending-right e.id seen rest h.1

  pub last_id-append :
      (after : Text) (seen more : List (Entry Raw T))
      → last_id after (seen ++ more) ≡ last_id (last_id after seen) more
  last_id-append after [] more = refl
  last_id-append after (e ∷ seen) more = last_id-append e.id seen more

  -- In an ordered table the rows after the last of the first part are the second part.
  pub rows_after-append :
      (after : Text) (seen rest : List (Entry Raw T))
      → IsAscending after (seen ++ rest)
      → rows_after (last_id after seen) (seen ++ rest) ≡ rest
  rows_after-append after [] rest h = rows_after_all after rest h
  rows_after-append after (e ∷ seen) rest h =
      rw (last_id-ge e.id seen (IsAscending-left e.id seen rest h.1))
        (rows_after-append e.id seen rest h.1)
