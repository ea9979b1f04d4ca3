-- ===== src/Pages/Round.antt =====
-- One round of an index read against an index that answers from ordered tables (sentio_index.go).
use sentio_portfolio.Common.{
  ◌≡◌, refl, sym, subst, true, false, List, [], ◌∷◌, map, arith, if◌then◌else◌, All, take, Option,
  some, ok, inl, inr, Bool-cases,
}
use sentio_portfolio.Common.Assoc.{contains, string_key}
use sentio_portfolio.Presence.{IndexCheckpoint}
use Prim.Native.String.{String}
use sentio_portfolio.Pages.{
  Stream, Cursor, Part, Source, part_of, page, page_all, open_parts, same_checkpoint,
}
use sentio_portfolio.Pages.Order.{Entry, rows_after}
use sentio_portfolio.Pages.Paging.{IsAt, IsTable, page_good}

abbrev pub IsDistinct : List String → Type 0
IsDistinct [] = Unit
IsDistinct (e ∷ es) = (contains e es ≡ false) × IsDistinct es

abbrev pub part_name : Part → String
part_name p = p.entity

abbrev pub cursor_name : {Raw T : Type 0} → Cursor Raw T → String
cursor_name c = c.stream.entity

abbrev pub stream_of : {Raw T : Type 0} → Cursor Raw T → Stream Raw T
stream_of c = c.stream

open_parts_apart :
    {Raw T : Type 0} (e : String) (cs : List (Cursor Raw T))
    → contains e (map cursor_name cs) ≡ false
    → contains e (map part_name (open_parts cs)) ≡ false
open_parts_apart e [] h = refl
open_parts_apart e (c ∷ cs) h = ground (arith, open_parts_apart e cs)

pub open_parts-IsDistinct :
    {Raw T : Type 0} (cs : List (Cursor Raw T))
    → IsDistinct (map cursor_name cs)
    → IsDistinct (map part_name (open_parts cs))
open_parts-IsDistinct [] h = tt
open_parts-IsDistinct (c ∷ cs) h = elim (Bool-cases c.done) [
  | inl over ↦ rw over (open_parts-IsDistinct cs h.1)
  | inr more ↦ rw more (open_parts_apart c.stream.entity cs h.0, open_parts-IsDistinct cs h.1)
]

module _ {Raw T : Type 0} (source : Source Raw) (table : String → List (Entry Raw T)) where
  -- What an ordered index sends for a part: the first rows of the entity after the cursor.
  abbrev pub rows_for : Part → List Raw
  rows_for p = map (λ e. e.raw) (take p.first (rows_after p.after (table p.entity)))

  abbrev pub Serves : (String → Option Raw) → Part → Type 0
  Serves answer p =
      (raw : Raw) × (answer p.entity ≡ some raw) × (source.decoder.rows raw ≡ some (rows_for p))

  -- A cursor within its table.
  abbrev pub Reads : Cursor Raw T → Type 0
  Reads c = IsTable source.id_of c.stream (table c.stream.entity) × IsAt (table c.stream.entity) c

  page-Serves :
      (answer : String → Option Raw) (c : Cursor Raw T)
      → Reads c
      → Serves answer (part_of c)
      → (c' : Cursor Raw T) × (page source answer c ≡ ok c') × (c'.stream ≡ c.stream) × Reads c'
  unfolding page
  page-Serves answer c r (raw, found, decoded) =
      let (c', paged, same, a) = page_good source.id_of c (table c.stream.entity) r.0 r.1 in
      (
        c',
        rw (found, decoded) paged,
        same,
        (
          subst (λ s. IsTable source.id_of s (table s.entity)) (sym same) r.0,
          subst (λ s. IsAt (table s.entity) c') (sym same) a,
        ),
      )

  -- A cursor's turn in a round.
  turn_Serves :
      (answer : String → Option Raw) (c : Cursor Raw T)
      → Reads c
      → (c.done ≡ false → Serves answer (part_of c))
      → (c' : Cursor Raw T) × ((if c.done then ok c else page source answer c) ≡ ok c')
        × (c'.stream ≡ c.stream)
        × Reads c'
  turn_Serves answer c r s = elim (Bool-cases c.done) [
    | inl over ↦ (c, rw over refl, refl, r)
    | inr more ↦
        let (c', paged, same, r') = page-Serves answer c r (s more) in
        (
          c',
          subst (λ b. (if b then ok c else page source answer c) ≡ ok c') (sym more) paged,
          same,
          r',
        )
  ]

  pub page_all-Serves :
      (answer : String → Option Raw) (cs : List (Cursor Raw T))
      → All Reads cs
      → All (Serves answer) (open_parts cs)
      → (cs' : List (Cursor Raw T)) × (page_all source answer cs ≡ ok cs')
        × (map stream_of cs' ≡ map stream_of cs)
        × All Reads cs'
  unfolding page_all
  page_all-Serves answer [] r s = ([], refl, refl, tt)
  page_all-Serves answer (c ∷ cs) r s =
      let (c', one, same, r') = turn_Serves answer c r.0 (λ more.
        (subst (λ b. All (Serves answer) (if b then open_parts cs else part_of c ∷ open_parts cs))
          more s).0) in
      let (cs', rest, sames, rs') = page_all-Serves answer cs r.1 (later c cs s) in
      (c' ∷ cs', rw (one, rest) refl, cc, (r', rs'))
    where
      later :
          (c : Cursor Raw T) (cs : List (Cursor Raw T))
          → All (Serves answer) (open_parts (c ∷ cs))
          → All (Serves answer) (open_parts cs)
      later c cs s = elim (Bool-cases c.done) [
        | inl over ↦
            subst
              (λ b. All (Serves answer) (if b then open_parts cs else part_of c ∷ open_parts cs))
              over s
        | inr more ↦
            (subst
              (λ b. All (Serves answer) (if b then open_parts cs else part_of c ∷ open_parts cs))
              more s).1
      ]

pub same_checkpoint_refl : (c : IndexCheckpoint) → same_checkpoint c c ≡ true
same_checkpoint_refl c = ground arith
