-- ===== src/Pages/Opening.antt =====
-- The checks on the streams of an index read before its first page (sentio_index.go).
use sentio_portfolio.Common.{
  suc, ◌≡◌, refl, sym, ap, ◌∙◌, subst, true, false, not, List, [], ◌∷◌, map, ◌==◌, ◌⊎◌, All, length,
  Option, none, some, ok, inl, inr, Bool-cases, ◌>>=◌, fail_if, ok_injective, fail_if-passed,
  >>=-eq-ok,
}
use sentio_portfolio.Common.Assoc.{contains, string_key, beq_refl}
use sentio_portfolio.Checkpoint.{LagNote}
use sentio_portfolio.Presence.{IndexCheckpoint}
use Prim.Native.String.{String}
use sentio_portfolio.Pages.{
  Stream, Cursor, Source, Place, open_parts, settle, page_loop, pages, open_streams, open_cursors,
  held_to, enough, begin, same_checkpoint, or_err, checkpoint_changed, entity_twice, no_row_bound,
  no_json_name,
}
use sentio_portfolio.Pages.Order.{Entry}
use sentio_portfolio.Pages.Paging.{IsTable}
use sentio_portfolio.Pages.Round.{IsDistinct, cursor_name, stream_of, Reads}

-- What the checks give: the cursors, of entities that are distinct and none of those seen.
abbrev pub IsOpened :
    {Raw T : Type 0} → List String → List (Stream Raw T) → List (Cursor Raw T) → Type 0
IsOpened seen ss cs =
    (cs ≡ map begin ss)
    × IsDistinct (map cursor_name cs)
    × ((e : String) → contains e seen ≡ true → contains e (map cursor_name cs) ≡ false)

begin-IsOpened :
    {Raw T : Type 0} (seen : List String) (s : Stream Raw T) (ss : List (Stream Raw T))
    (rest : List (Cursor Raw T))
    → contains s.entity seen ≡ false
    → IsOpened (s.entity ∷ seen) ss rest
    → IsOpened seen (s ∷ ss) (begin s ∷ rest)
begin-IsOpened seen s ss rest new (same, distinct, apart) =
    (ap (λ r. begin s ∷ r) same, (apart s.entity (rw (beq_refl s.entity) refl), distinct), others)
  where
    others :
        (e : String) → contains e seen ≡ true → contains e (s.entity ∷ map cursor_name rest) ≡ false
    others e k = elim (Bool-cases (string_key.beq s.entity e)) [
      | inl eq ↦ absurd (
          impossible
            (subst (λ x. contains x seen ≡ true) (sym ((string_key.beq_iff s.entity e).0 eq)) k))
      | inr ne ↦ rw ne (apart e (rw ne k))
    ]
      where
        impossible : contains s.entity seen ≡ true → ⊥
        impossible h = cc

pub open_cursors-IsOpened :
    {Raw T : Type 0} (seen : List String) (ss : List (Stream Raw T)) (cs : List (Cursor Raw T))
    → open_cursors seen ss ≡ ok cs
    → IsOpened seen ss cs
unfolding open_cursors
open_cursors-IsOpened seen [] cs h =
    subst (IsOpened seen []) (ok_injective h) (refl, tt, λ e k. refl)
open_cursors-IsOpened seen (s ∷ ss) cs h =
    let (new, h1) =
      fail_if-passed (contains s.entity seen) entity_twice
        (fail_if (s.max_rows == 0) no_row_bound >>= λ _. or_err s.fields no_json_name >>= λ _.
          open_cursors (s.entity ∷ seen) ss >>= λ rest. ok (begin s ∷ rest))
        h in
    let (_, h2) =
      fail_if-passed (s.max_rows == 0) no_row_bound
        (or_err s.fields no_json_name >>= λ _.
          open_cursors (s.entity ∷ seen) ss >>= λ rest. ok (begin s ∷ rest))
        h1 in
    let (_, _, h3) =
      >>=-eq-ok (or_err s.fields no_json_name)
        (λ _. open_cursors (s.entity ∷ seen) ss >>= λ rest. ok (begin s ∷ rest)) h2 in
    let (rest, later, h4) =
      >>=-eq-ok (open_cursors (s.entity ∷ seen) ss) (λ rest. ok (begin s ∷ rest)) h3 in
    subst (IsOpened seen (s ∷ ss)) (ok_injective h4)
      (begin-IsOpened seen s ss rest new (open_cursors-IsOpened (s.entity ∷ seen) ss rest later))

pub begin-Reads :
    {Raw T : Type 0} (source : Source Raw) (table : String → List (Entry Raw T))
    (ss : List (Stream Raw T))
    → All (λ s. IsTable source.id_of s (table s.entity)) ss
    → All (Reads source table) (map begin ss)
begin-Reads source table [] h = tt
begin-Reads source table (s ∷ ss) h = (
  (
    h.0,
    record {
      seen = [];
      rest = table s.entity;
      split = refl;
      last = refl;
      count = refl;
      values = refl;
      whole = λ d. cc;
    },
  ),
  begin-Reads source table ss h.1,
)

pub stream_of-begin :
    {Raw T : Type 0} (ss : List (Stream Raw T)) → map stream_of (map begin ss) ≡ ss
stream_of-begin [] = refl
stream_of-begin (s ∷ ss) = ap (λ r. s ∷ r) (stream_of-begin ss)

open_parts-begin :
    {Raw T : Type 0} (ss : List (Stream Raw T)) → length (open_parts (map begin ss)) ≡ length ss
open_parts-begin [] = refl
open_parts-begin (s ∷ ss) = ap suc (open_parts-begin ss)

-- A read that is held to a checkpoint already has it; one that is not starts with an open cursor.
pub held_or_open :
    {Raw T : Type 0} (at : Place) (c : IndexCheckpoint) (lag : Option LagNote)
    (want : Option IndexCheckpoint) (ss : List (Stream Raw T)) (cs : List (Cursor Raw T))
    → cs ≡ map begin ss
    → (length ss == 0) ≡ false
    → settle at (held_to want) c ≡ ok (c, lag)
    → (held_to want ≡ some (c, lag)) ⊎ ((length (open_parts cs) == 0) ≡ false)
unfolding settle
held_or_open at c lag none ss cs begun more settled =
    inr
      (ap (λ cs. length (open_parts cs) == 0) begun ∙ ap (λ n. n == 0) (open_parts-begin ss) ∙ more)
held_or_open at c lag (some w) ss cs begun more settled =
    let (_, kept) =
      fail_if-passed (not (same_checkpoint c w)) checkpoint_changed (ok (w, none)) settled in
    inl (ap some (ok_injective kept))

pub pages_opened :
    {Raw T : Type 0} (source : Source Raw) (at : Place) (want : Option IndexCheckpoint)
    (streams : List (Stream Raw T)) (cursors : List (Cursor Raw T))
    → open_streams streams ≡ ok cursors
    → pages source at want streams ≡ page_loop source at (enough cursors) 0 (held_to want) cursors
unfolding pages
pages_opened source at want streams cursors opened = rw (pages, opened) refl
