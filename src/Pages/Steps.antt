-- ===== src/Pages/Steps.antt =====
-- The steps behind each stage of an index read that succeeds (sentio_index.go).
use sentio_portfolio.Common.{
  ℕ, suc, ◌+◌, ◌≡◌, refl, ap, ◌∙◌, subst, true, false, List, ltb, ◌==◌, if◌then◌else◌, length,
  Option, none, some, Outcome, ok, err, panic, ◌>>=◌, fail_if, ok_injective, fail_if-passed,
  >>=-eq-ok,
}
use sentio_portfolio.Checkpoint.{LagNote}
use sentio_portfolio.Presence.{IndexCheckpoint}
use Prim.Native.String.{String}
use sentio_portfolio.Pages.{
  Text, Cursor, Error, Source, Place, take_rows, page_rows, first, page, page_all, open_parts,
  page_checkpoint, settle, Read, finish, page_loop, round, request_round, or_err, request_failed,
  long_page, too_many_rows, omitted_entity, malformed_rows,
}

pub or_err-some : {A : Type 0} (o : Option A) {a : A} (e : Error) → or_err o e ≡ ok a → o ≡ some a
or_err-some none reason e = cc
or_err-some (some b) reason e = ap some (ok_injective e)

pub page_rows-steps :
    {Raw T : Type 0} (id_of : Raw → Option Text) (c c' : Cursor Raw T) (raws : List Raw)
    → page_rows id_of c raws ≡ ok c'
    → (ltb (first c) (length raws) ≡ false)
      × ((d : Cursor Raw T) × (take_rows id_of c raws ≡ ok d)
          × (ltb d.stream.max_rows d.rows ≡ false)
          × (record d { done = ltb (length raws) (first c) } ≡ c'))
unfolding page_rows
page_rows-steps id_of c c' raws h =
    let (short, h1) =
      fail_if-passed (ltb (first c) (length raws)) long_page
        (take_rows id_of c raws >>= λ d.
          fail_if (ltb d.stream.max_rows d.rows) too_many_rows >>= λ _.
          ok (record d { done = ltb (length raws) (first c) }))
        h in
    let (d, taken, h2) =
      >>=-eq-ok (take_rows id_of c raws)
        (λ d. fail_if (ltb d.stream.max_rows d.rows) too_many_rows >>= λ _.
          ok (record d { done = ltb (length raws) (first c) }))
        h1 in
    let (few, h3) =
      fail_if-passed (ltb d.stream.max_rows d.rows) too_many_rows
        (ok (record d { done = ltb (length raws) (first c) })) h2 in
    (short, (d, taken, few, ok_injective h3))

module _ {Raw T : Type 0} (source : Source Raw) where
  pub page-steps :
      (answer : String → Option Raw) (c c' : Cursor Raw T)
      → page source answer c ≡ ok c'
      → (raws : List Raw) × (page_rows source.id_of c raws ≡ ok c')
        × (sent : Raw) × (answer c.stream.entity ≡ some sent)
        × (source.decoder.rows sent ≡ some raws)
  unfolding page
  page-steps answer c c' h =
      let (raw, given, h1) =
        >>=-eq-ok (or_err (answer c.stream.entity) omitted_entity)
          (λ raw. or_err (source.decoder.rows raw) malformed_rows >>= page_rows source.id_of c) h in
      let (raws, decoded, h2) =
        >>=-eq-ok (or_err (source.decoder.rows raw) malformed_rows) (page_rows source.id_of c) h1 in
      (
        raws,
        h2,
        raw,
        or_err-some (answer c.stream.entity) omitted_entity given,
        or_err-some (source.decoder.rows raw) malformed_rows decoded,
      )

  pub request_round-steps :
      (at : Place) (n : ℕ) (want : Option (IndexCheckpoint × Option LagNote))
      (settled : IndexCheckpoint × Option LagNote) (cs cs' : List (Cursor Raw T))
      → request_round source at n want cs ≡ ok (settled, cs')
      → (answer : String → Option Raw) × ((c : IndexCheckpoint) × (settle at want c ≡ ok settled)
          × (page_all source answer cs ≡ ok cs')
          × (source.ask n (open_parts cs) ≡ some answer))
  unfolding request_round round
  request_round-steps at n want settled cs cs' h =
      let (answer, asked, h1) =
        >>=-eq-ok (or_err (source.ask n (open_parts cs)) request_failed) (round source at want cs)
          h in
      let (c, _, h2) =
        >>=-eq-ok (page_checkpoint source answer)
          (λ c.
            settle at want c >>= λ settled. page_all source answer cs >>= λ ds. ok (settled, ds))
          h1 in
      let (settled', certified, h3) =
        >>=-eq-ok (settle at want c)
          (λ settled. page_all source answer cs >>= λ ds. ok (settled, ds)) h2 in
      let (ds, paged, h4) = >>=-eq-ok (page_all source answer cs) (λ ds. ok (settled', ds)) h3 in
      let same = ok_injective h4 in
      (
        answer,
        (
          c,
          certified ∙ ap (λ p. ok p.0) same,
          paged ∙ ap (λ p. ok p.1) same,
          or_err-some (source.ask n (open_parts cs)) request_failed asked,
        ),
      )

  module _ (at : Place) (fuel n : ℕ) (want : Option (IndexCheckpoint × Option LagNote))
      (cs : List (Cursor Raw T)) where
    pub loop_over :
        (length (open_parts cs) == 0) ≡ true
        → page_loop source at (suc fuel) n want cs ≡ some (finish source at want cs)
    unfolding page_loop
    loop_over over = rw over refl

    pub loop_more :
        (settled : IndexCheckpoint × Option LagNote) (cs' : List (Cursor Raw T))
        → (length (open_parts cs) == 0) ≡ false
        → request_round source at n want cs ≡ ok (settled, cs')
        → page_loop source at (suc fuel) n want cs
          ≡ page_loop source at fuel (n + 1) (some settled) cs'
    unfolding page_loop
    loop_more settled cs' more one = rw (more, one) refl

    pub page_loop-steps :
        (read : Read Raw T)
        → (length (open_parts cs) == 0) ≡ false
        → page_loop source at (suc fuel) n want cs ≡ some (ok read)
        → (settled : IndexCheckpoint × Option LagNote) × ((cs' : List (Cursor Raw T))
            × (request_round source at n want cs ≡ ok (settled, cs'))
            × (page_loop source at fuel (n + 1) (some settled) cs' ≡ some (ok read)))
    unfolding page_loop
    page_loop-steps read more h = go (request_round source at n want cs) refl (
        subst
          (λ b.
            (if b
              then some (finish source at want cs)
              else elim (request_round source at n want cs) [
                | ok (settled, cs') ↦ page_loop source at fuel (n + 1) (some settled) cs'
                | err e ↦ some (err e)
                | panic ↦ some panic
              ])
            ≡ some (ok read))
          more h)
      where
        go :
            (o : Outcome Error ((IndexCheckpoint × Option LagNote) × List (Cursor Raw T)))
            → request_round source at n want cs ≡ o
            → (elim o [
              | ok (settled, cs') ↦ page_loop source at fuel (n + 1) (some settled) cs'
              | err e ↦ some (err e)
              | panic ↦ some panic
            ])
              ≡ some (ok read)
            → (settled : IndexCheckpoint × Option LagNote) × ((cs' : List (Cursor Raw T))
                × (request_round source at n want cs ≡ ok (settled, cs'))
                × (page_loop source at fuel (n + 1) (some settled) cs' ≡ some (ok read)))
        go panic e k = absurd cc
        go (err reason) e k = absurd cc
        go (ok (settled, cs')) e k = (settled, (cs', e, k))
