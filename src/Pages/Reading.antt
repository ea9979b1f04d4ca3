-- ===== src/Pages/Reading.antt =====
-- A whole index read against an index that answers from ordered tables (sentio_index.go).
use sentio_portfolio.Common.{
  ℕ, zero, suc, ◌+◌, ◌≡◌, refl, sym, ap, ◌∙◌, subst, true, false, List, [], ◌∷◌, ◌++◌, map, arith,
  ◌==◌, ◌⊎◌, if◌then◌else◌, All, length, Option, some, Outcome, ok, inl, inr, Bool-cases,
  fail_if-passed,
}
use sentio_portfolio.Common.Assoc.{string_key}
use sentio_portfolio.Checkpoint.{LagNote}
use sentio_portfolio.Presence.{IndexCheckpoint}
use Prim.Native.String.{String}
use mathlib.Core.List.{append-nil}
use mathlib.Core.Option.{some-injective}
use sentio_portfolio.Pages.{
  part_of, Stream, Cursor, Part, Error, Source, Place, Read, open_parts, page_checkpoint, settle,
  round, request_round, page_loop, finish, pages, open_streams, open_cursors, held_to, enough,
  no_stream,
}
use sentio_portfolio.Pages.Order.{Entry}
use sentio_portfolio.Pages.Paging.{IsTable}
use sentio_portfolio.Pages.Fuel.{pages_ends}
use sentio_portfolio.Pages.Opening.{
  open_cursors-IsOpened, begin-Reads, stream_of-begin, held_or_open, pages_opened,
}
use sentio_portfolio.Pages.Steps.{loop_over, loop_more}
use sentio_portfolio.Pages.Round.{
  IsDistinct, cursor_name, part_name, stream_of, open_parts-IsDistinct, Serves, Reads,
  page_all-Serves, same_checkpoint_refl,
}

abbrev pub table_values : {Raw T : Type 0} → List (Entry Raw T) → List T
table_values es = map (λ e. e.value) es

-- An index that answers every request from ordered tables, with one checkpoint.
pub record IsHonest {Raw T : Type 0} (source : Source Raw) (table : String → List (Entry Raw T))
    (c : IndexCheckpoint) : Type 0 where
  pub answers : ℕ → List Part → String → Option Raw
  pub asked : (n : ℕ) (parts : List Part) → source.ask n parts ≡ some (answers n parts)
  pub same : (n : ℕ) (parts : List Part) → page_checkpoint source (answers n parts) ≡ ok c
  pub serves :
      (n : ℕ) (parts : List Part)
      → IsDistinct (map part_name parts)
      → All (Serves source table (answers n parts)) parts

module _ {Raw T : Type 0} (source : Source Raw) (table : String → List (Entry Raw T)) (at : Place)
    (c : IndexCheckpoint) (lag : Option LagNote) (honest : IsHonest source table c) where
  settled_again : settle at (some (c, lag)) c ≡ ok (c, lag)
  unfolding settle
  settled_again = rw (same_checkpoint_refl c) refl

  round_good :
      (n : ℕ) (want : Option (IndexCheckpoint × Option LagNote)) (cs : List (Cursor Raw T))
      → settle at want c ≡ ok (c, lag)
      → IsDistinct (map cursor_name cs)
      → All (Reads source table) cs
      → (cs' : List (Cursor Raw T)) × (request_round source at n want cs ≡ ok ((c, lag), cs'))
        × (map stream_of cs' ≡ map stream_of cs)
        × All (Reads source table) cs'
  unfolding request_round round
  round_good n want cs settled distinct r =
      let parts = open_parts cs in
      let (cs', paged, same, r') =
        page_all-Serves source table (honest.answers n parts) cs r
          (honest.serves n parts (open_parts-IsDistinct cs distinct)) in
      (cs', rw (honest.asked n parts, honest.same n parts, settled, paged) refl, same, r')

  done_taken :
      (d : Cursor Raw T)
      → Reads source table d
      → d.done ≡ true
      → d.taken ≡ table_values (table d.stream.entity)
  done_taken d (_, a) over =
      let all : table d.stream.entity ≡ a.seen =
        a.split ∙ ap (λ r. a.seen ++ r) (a.whole over) ∙ append-nil a.seen in
      a.values ∙ ap table_values (sym all)

  -- Once every cursor is done, each has taken its whole table.
  cursors_taken :
      (cs : List (Cursor Raw T))
      → (length (open_parts cs) == 0) ≡ true
      → All (Reads source table) cs
      → map (λ d. d.taken) cs ≡ map (λ s. table_values (table s.entity)) (map stream_of cs)
  cursors_taken [] over r = refl
  cursors_taken (d ∷ cs) over r = elim (Bool-cases d.done) [
    | inl end ↦
        let here = done_taken d r.0 end in
        let rest =
          cursors_taken cs
            (subst
              (λ b. (length (if b then open_parts cs else part_of d ∷ open_parts cs) == 0) ≡ true)
              end over)
            r.1 in
        cc
    | inr more ↦ absurd (
        impossible (length (open_parts cs)) (
          subst (λ b. (length (if b then open_parts cs else part_of d ∷ open_parts cs) == 0) ≡ true)
            more over))
  ]
    where
      impossible : (n : ℕ) → (suc n == 0) ≡ true → ⊥
      impossible n h = ground (arith, h)

  names_of :
      (cs : List (Cursor Raw T)) → map cursor_name cs ≡ map (λ s. s.entity) (map stream_of cs)
  names_of [] = refl
  names_of (d ∷ cs) = ap (λ es. d.stream.entity ∷ es) (names_of cs)

  -- What a read of `streams` gives.
  abbrev Good : List (Stream Raw T) → Outcome Error (Read Raw T) → Type 0
  Good streams o =
      (read : Read Raw T) × (o ≡ ok read)
      × (map (λ d. d.taken) read.cursors ≡ map (λ s. table_values (table s.entity)) streams)
      × (read.checkpoint ≡ c)
      × (read.lag ≡ lag)

  finish-Good :
      (want : Option (IndexCheckpoint × Option LagNote)) (cs : List (Cursor Raw T))
      (o : Outcome Error (Read Raw T))
      → want ≡ some (c, lag)
      → (length (open_parts cs) == 0) ≡ true
      → All (Reads source table) cs
      → finish source at want cs ≡ o
      → Good (map stream_of cs) o
  finish-Good want cs o held over r h = (
    record { cursors = cs; checkpoint = c; lag = lag },
    sym h ∙ ap (λ w. finish source at w cs) held,
    cursors_taken cs over r,
    refl,
    refl,
  )

  page_loop-Good :
      (fuel n : ℕ) (want : Option (IndexCheckpoint × Option LagNote)) (cs : List (Cursor Raw T))
      (o : Outcome Error (Read Raw T))
      → settle at want c ≡ ok (c, lag)
      → (want ≡ some (c, lag)) ⊎ ((length (open_parts cs) == 0) ≡ false)
      → IsDistinct (map cursor_name cs)
      → All (Reads source table) cs
      → page_loop source at fuel n want cs ≡ some o
      → Good (map stream_of cs) o
  unfolding page_loop
  page_loop-Good zero n want cs o settled held distinct r h = cc
  page_loop-Good (suc fuel) n want cs o settled held distinct r h =
      elim (Bool-cases (length (open_parts cs) == 0)) [
        | inl over ↦ elim held [
          | inl first ↦
              finish-Good want cs o first over r
                (some-injective _ _ (sym (loop_over source at fuel n want cs over) ∙ h))
          | inr more ↦ absurd cc
        ]
        | inr more ↦
            let (cs', one, same, r') = round_good n want cs settled distinct r in
            subst (λ ss. Good ss o) same
              (page_loop-Good fuel (n + 1) (some (c, lag)) cs' o settled_again (inl refl)
                (subst IsDistinct
                  (names_of cs ∙ ap (map (λ s. s.entity)) (sym same) ∙ sym (names_of cs')) distinct)
                r' (sym (loop_more source at fuel n want cs (c, lag) cs' more one) ∙ h))
      ]

-- A read is complete. Say that an index answers every request from tables whose rows the streams accept, in
-- ascending order and within the streams' bounds, always with one checkpoint `c`; that the streams pass
-- the checks before the first page; and that `c` certifies with `lag`, or is the one that the read is held
-- to. Then the read succeeds with every row of every stream's table, decoded and in order, with `c` and with
-- `lag`, however the rows are spread over pages.
pub pages_table :
    {Raw T : Type 0} (source : Source Raw) (table : String → List (Entry Raw T)) (at : Place)
    (c : IndexCheckpoint) (lag : Option LagNote) (want : Option IndexCheckpoint)
    (streams : List (Stream Raw T)) (cursors : List (Cursor Raw T))
    → IsHonest source table c
    → All (λ s. IsTable source.id_of s (table s.entity)) streams
    → open_streams streams ≡ ok cursors
    → settle at (held_to want) c ≡ ok (c, lag)
    → (read : Read Raw T) × (pages source at want streams ≡ some (ok read))
      × (map (λ d. d.taken) read.cursors ≡ map (λ s. table_values (table s.entity)) streams)
      × (read.checkpoint ≡ c)
      × (read.lag ≡ lag)
unfolding open_streams
pages_table source table at c lag want streams cursors honest tables opened settled =
    let (some_stream, opened') =
      fail_if-passed (length streams == 0) no_stream (open_cursors [] streams) opened in
    let (begun, distinct, _) = open_cursors-IsOpened [] streams cursors opened' in
    let (o, ended) = pages_ends source at want streams in
    let (read, good, values, same, noted) =
      page_loop-Good source table at c lag honest (enough cursors) 0 (held_to want) cursors o
        settled (held_or_open at c lag want streams cursors begun some_stream settled) distinct
        (subst (All (Reads source table)) (sym begun) (begin-Reads source table streams tables))
        (sym (pages_opened source at want streams cursors opened) ∙ ended) in
    (
      read,
      ended ∙ ap some good,
      values
          ∙ ap (map (λ s. table_values (table s.entity)))
              (ap (map stream_of) begun ∙ stream_of-begin streams),
      same,
      noted,
    )
