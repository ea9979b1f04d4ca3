-- ===== src/Pages/Fuel.antt =====
-- The loop of an index read ends whatever the index answers (sentio_index.go).
use sentio_portfolio.Common.{
  ℕ, zero, suc, ◌+◌, ◌-◌, ◌≤◌, ◌<◌, ◌≡◌, refl, ◌∙◌, subst, true, false, List, [], ◌∷◌, arith, ◌==◌,
  if◌then◌else◌, All, length, Option, none, some, Outcome, ok, err, panic, inl, inr, Bool-cases,
  ◌>>=◌, fail_if, fail_if-passed, >>=-eq-ok,
}
use sentio_portfolio.Common.Assoc.{contains, string_key}
use sentio_portfolio.Checkpoint.{LagNote}
use sentio_portfolio.Presence.{IndexCheckpoint}
use Prim.Native.String.{String}
use sentio_portfolio.Pages.Steps.{page_rows-steps, page-steps, request_round-steps}
use sentio_portfolio.Pages.{
  Text, no_stream, entity_twice, no_row_bound, no_json_name, Stream, Cursor, Error, Source, Place,
  Read, first, take_row, take_rows, page_rows, page, page_all, open_parts, request_round, page_loop,
  pages, open_cursors, open_streams, begin, enough, held_to, finish, or_err,
}

-- The rows that a cursor may still take, and one more page, until it is done.
abbrev left : {Raw T : Type 0} → Cursor Raw T → ℕ
left c = if c.done then 0 else c.stream.max_rows + 1 - c.rows

abbrev total_left : {Raw T : Type 0} → List (Cursor Raw T) → ℕ
total_left [] = 0
total_left (c ∷ cs) = left c + total_left cs

abbrev IsWithin : {Raw T : Type 0} → Cursor Raw T → Type 0
IsWithin c = c.rows ≤ c.stream.max_rows

module _ {Raw T : Type 0} (id_of : Raw → Option Text) where
  abbrev Taken : Cursor Raw T → ℕ → Cursor Raw T → Type 0
  Taken c n c' = (c'.rows ≡ c.rows + n) × (c'.stream.max_rows ≡ c.stream.max_rows)

  take_row-Taken :
      (c c' : Cursor Raw T) (raw : Raw) (id : Option Text)
      → take_row c raw id ≡ ok c'
      → Taken c 1 c'
  unfolding take_row
  take_row-Taken c c' raw none h = ground arith
  take_row-Taken c c' raw (some id) h = ground arith

  take_rows-Taken :
      (c c' : Cursor Raw T) (raws : List Raw)
      → take_rows id_of c raws ≡ ok c'
      → Taken c (length raws) c'
  unfolding take_rows
  take_rows-Taken c c' [] h = ground arith
  take_rows-Taken c c' (raw ∷ raws) h =
      let (d, one, rest) = >>=-eq-ok (take_row c raw (id_of raw)) (λ d. take_rows id_of d raws) h in
      let a = take_row-Taken c d raw (id_of raw) one in
      let b = take_rows-Taken d c' raws rest in (omega (arith, a.0, b.0), b.1 ∙ a.1)

  -- A page that is accepted takes a row or ends the cursor.
  page_rows-left :
      (c c' : Cursor Raw T) (raws : List Raw)
      → c.done ≡ false
      → IsWithin c
      → page_rows id_of c raws ≡ ok c'
      → IsWithin c' × (left c' < left c)
  unfolding first
  page_rows-left c c' raws more within h =
      let (short, (d, taken, few, e)) = page_rows-steps id_of c c' raws h in
      let t = take_rows-Taken c d raws taken in
      subst (λ e. IsWithin e × (left e < left c)) e (ground (arith, t.0, t.1))

module _ {Raw T : Type 0} (source : Source Raw) where
  page-left :
      (answer : String → Option Raw) (c c' : Cursor Raw T)
      → c.done ≡ false
      → IsWithin c
      → page source answer c ≡ ok c'
      → IsWithin c' × (left c' < left c)
  page-left answer c c' more within h =
      let (raws, paged, _, _, _) = page-steps source answer c c' h in
      page_rows-left source.id_of c c' raws more within paged

  -- A cursor's turn in a round.
  abbrev turn : (String → Option Raw) → Cursor Raw T → Outcome Error (Cursor Raw T)
  turn answer c = if c.done then ok c else page source answer c

  turn-left :
      (answer : String → Option Raw) (c c' : Cursor Raw T)
      → IsWithin c
      → turn answer c ≡ ok c'
      → IsWithin c' × ((left c' ≤ left c) × (c.done ≡ false → left c' < left c))
  turn-left answer c c' within h = elim (Bool-cases c.done) [
    | inl over ↦ stays over (subst (λ b. (if b then ok c else page source answer c) ≡ ok c') over h)
    | inr more ↦
        let a =
          page-left answer c c' more within
            (subst (λ b. (if b then ok c else page source answer c) ≡ ok c') more h) in
        (a.0, (omega (arith, a.1), λ _. a.1))
  ]
    where
      stays :
          c.done ≡ true
          → (if true then ok c else page source answer c) ≡ ok c'
          → IsWithin c' × ((left c' ≤ left c) × (c.done ≡ false → left c' < left c))
      stays over e = ground arith

  -- A round keeps every cursor within its bound, and takes from each that is open.
  page_all-left :
      (answer : String → Option Raw) (cs cs' : List (Cursor Raw T))
      → All IsWithin cs
      → page_all source answer cs ≡ ok cs'
      → All IsWithin cs'
        × ((total_left cs' ≤ total_left cs)
            × ((length (open_parts cs) == 0) ≡ false → total_left cs' < total_left cs))
  unfolding page_all
  page_all-left answer [] cs' within h = ground arith
  page_all-left answer (c ∷ cs) cs' within h =
      let (d, one, h1) =
        >>=-eq-ok (turn answer c) (λ d. page_all source answer cs >>= λ ds. ok (d ∷ ds)) h in
      let (ds, rest, h2) = >>=-eq-ok (page_all source answer cs) (λ ds. ok (d ∷ ds)) h1 in
      let a = turn-left answer c d within.0 one in
      let b = page_all-left answer cs ds within.1 rest in
      ground (arith, a.0, a.1.0, a.1.1, b.0, b.1.0, b.1.1)

  module _ (at : Place) where
    request_round-left :
        (n : ℕ) (want : Option (IndexCheckpoint × Option LagNote))
        (settled : IndexCheckpoint × Option LagNote) (cs cs' : List (Cursor Raw T))
        → All IsWithin cs
        → (length (open_parts cs) == 0) ≡ false
        → request_round source at n want cs ≡ ok (settled, cs')
        → All IsWithin cs' × (total_left cs' < total_left cs)
    request_round-left n want settled cs cs' within more h =
        let (answer, (c, _, paged, _)) = request_round-steps source at n want settled cs cs' h in
        let a = page_all-left answer cs cs' within paged in (a.0, a.1.1 more)

    -- The loop ends, with fuel for more rounds than are left.
    page_loop_ends :
        (fuel n : ℕ) (want : Option (IndexCheckpoint × Option LagNote)) (cs : List (Cursor Raw T))
        → All IsWithin cs
        → total_left cs < fuel
        → (r : Outcome Error (Read Raw T)) × (page_loop source at fuel n want cs ≡ some r)
    unfolding page_loop
    page_loop_ends zero n want cs within h = absurd (omega (arith, h))
    page_loop_ends (suc fuel) n want cs within h = elim (Bool-cases (length (open_parts cs) == 0)) [
      | inl over ↦ (finish source at want cs, rw over refl)
      | inr more ↦ rw more (
          after (request_round source at n want cs) refl more
            (λ settled ds within' few. page_loop_ends fuel (n + 1) (some settled) ds within' few))
    ]
      where
        after :
            (o : Outcome Error ((IndexCheckpoint × Option LagNote) × List (Cursor Raw T)))
            → request_round source at n want cs ≡ o
            → (length (open_parts cs) == 0) ≡ false
            → ((settled : IndexCheckpoint × Option LagNote) (ds : List (Cursor Raw T))
                → All IsWithin ds
                → total_left ds < fuel
                → (r : Outcome Error (Read Raw T)) × (page_loop source at fuel
                      (n + 1)
                      (some settled)
                      ds
                    ≡ some r))
            → (r : Outcome Error (Read Raw T)) × ((elim o [
              | ok (settled, cursors') ↦ page_loop source at fuel (n + 1) (some settled) cursors'
              | err e ↦ some (err e)
              | panic ↦ some panic
            ])
                ≡ some r)
        after panic e more next = (panic, refl)
        after (err reason) e more next = (err reason, refl)
        after (ok (settled, ds)) e more next =
            let a = request_round-left n want settled cs ds within more e in
            next settled ds a.0 (omega (arith, a.1, h))

-- The cursors before the first page.
open_cursors-left :
    {Raw T : Type 0} (entities : List String) (ss : List (Stream Raw T)) (cs : List (Cursor Raw T))
    → open_cursors entities ss ≡ ok cs
    → All IsWithin cs × (total_left cs < enough cs)
unfolding open_cursors
open_cursors-left entities [] cs h = ground arith
open_cursors-left entities (s ∷ ss) cs h =
    let (_, h1) =
      fail_if-passed (contains s.entity entities) entity_twice
        (fail_if (s.max_rows == 0) no_row_bound >>= λ _. or_err s.fields no_json_name >>= λ _.
          open_cursors (s.entity ∷ entities) ss >>= λ rest. ok (begin s ∷ rest))
        h in
    let (_, h2) =
      fail_if-passed (s.max_rows == 0) no_row_bound
        (or_err s.fields no_json_name >>= λ _.
          open_cursors (s.entity ∷ entities) ss >>= λ rest. ok (begin s ∷ rest))
        h1 in
    let (_, _, h3) =
      >>=-eq-ok (or_err s.fields no_json_name)
        (λ _. open_cursors (s.entity ∷ entities) ss >>= λ rest. ok (begin s ∷ rest)) h2 in
    let (rest, later, h4) =
      >>=-eq-ok (open_cursors (s.entity ∷ entities) ss) (λ rest. ok (begin s ∷ rest)) h3 in
    let a = open_cursors-left (s.entity ∷ entities) ss rest later in ground (arith, h4, a.0, a.1)

-- An index read ends, whatever the index answers: the rounds that the model allows are enough for any
-- streams and any source.
pub pages_ends :
    {Raw T : Type 0} (source : Source Raw) (at : Place) (want : Option IndexCheckpoint)
    (streams : List (Stream Raw T))
    → (r : Outcome Error (Read Raw T)) × (pages source at want streams ≡ some r)
unfolding pages open_streams
pages_ends {Raw = Raw} {T = T} source at want streams = go (open_streams streams) refl
  where
    go :
        (o : Outcome Error (List (Cursor Raw T)))
        → open_streams streams ≡ o
        → (r : Outcome Error (Read Raw T)) × ((elim o [
          | ok cursors ↦ page_loop source at (enough cursors) 0 (held_to want) cursors
          | err e ↦ some (err e)
          | panic ↦ some panic
        ])
            ≡ some r)
    go panic e = (panic, refl)
    go (err reason) e = (err reason, refl)
    go (ok cs) e =
        let (_, opened) =
          fail_if-passed (length streams == 0) no_stream (open_cursors [] streams) e in
        let a = open_cursors-left [] streams cs opened in
        page_loop_ends source at (enough cs) 0 (held_to want) cs a.0 a.1
