-- ===== src/Pages/Admission.antt =====
-- What the cursors of an index read take, whatever the index answers (sentio_index.go).
use sentio_portfolio.Common.{
  ℕ, sym, All-snoc, ◌≡◌, refl, ◌∙◌, subst, Bool, true, false, not, List, [], ◌∷◌, map, arith, ◌==◌,
  ◌≤◌, if◌then◌else◌, All, length, length-append, not_ltb→le, Option, none, some, ok, ◌>>=◌,
  fail_if, ok_injective, fail_if-passed, >>=-eq-ok,
}
use sentio_portfolio.Wallet.{starts_with}
use Prim.Native.String.{String}
use mathlib.Core.List.{Memᴰ}
use sentio_portfolio.Pages.{
  Text, Stream, Part, Cursor, Source, after_row, take_row, take_rows, page_rows, page, page_all,
  or_err, text_lt, no_id, foreign_row, not_ordered, take_failed,
}
use sentio_portfolio.Pages.Round.{stream_of}
use sentio_portfolio.Pages.Steps.{or_err-some, page_rows-steps, page-steps}

-- A row that the index gave for an entity, in its answer to some request.
pub record IsAnswered {Raw : Type 0} (source : Source Raw) (entity : String) (raw : Raw)
    : Type 0 where
  pub requests : ℕ
  pub parts : List Part
  pub answer : String → Option Raw
  pub sent : Raw
  pub rows : List Raw
  pub asked : source.ask requests parts ≡ some answer
  pub given : answer entity ≡ some sent
  pub decoded : source.decoder.rows sent ≡ some rows
  pub listed : Memᴰ raw rows

-- A value that the stream made of a row of its own, and of that row's own id.
pub record IsOwn {Raw T : Type 0} (source : Source Raw) (s : Stream Raw T) (value : T)
    : Type 0 where
  pub raw : Raw
  pub id : Text
  pub answered : IsAnswered source s.entity raw
  pub named : source.id_of raw ≡ some id
  pub own : starts_with s.prefix id ≡ true
  pub made : s.take id raw ≡ some value

-- What a cursor has taken, its bound aside.
abbrev pub Counted : {Raw T : Type 0} → Source Raw → Cursor Raw T → Type 0
Counted source c = (c.rows ≡ length c.taken) × All (IsOwn source c.stream) c.taken

-- A cursor between rounds.
abbrev pub Admitted : {Raw T : Type 0} → Source Raw → Cursor Raw T → Type 0
Admitted source c = (c.rows ≤ c.stream.max_rows) × Counted source c

module _ {Raw T : Type 0} (source : Source Raw) where
  take_row-Counted :
      (c c' : Cursor Raw T) (raw : Raw) (id : Option Text)
      → source.id_of raw ≡ id
      → IsAnswered source c.stream.entity raw
      → Counted source c
      → take_row c raw id ≡ ok c'
      → Counted source c' × (c'.stream ≡ c.stream)
  unfolding take_row
  take_row-Counted c c' raw none named answered k h = cc
  take_row-Counted c c' raw (some id) named answered k h =
      let (_, h1) =
        fail_if-passed (length id == 0) no_id
          (fail_if (not (starts_with c.stream.prefix id)) foreign_row >>= λ _.
            fail_if (not (text_lt c.after id)) not_ordered >>= λ _.
            or_err (c.stream.take id raw) take_failed >>= λ v. ok (after_row c id v))
          h in
      let (own, h2) =
        fail_if-passed (not (starts_with c.stream.prefix id)) foreign_row
          (fail_if (not (text_lt c.after id)) not_ordered >>= λ _.
            or_err (c.stream.take id raw) take_failed >>= λ v. ok (after_row c id v))
          h1 in
      let (_, h3) =
        fail_if-passed (not (text_lt c.after id)) not_ordered
          (or_err (c.stream.take id raw) take_failed >>= λ v. ok (after_row c id v)) h2 in
      let (v, taken, h4) =
        >>=-eq-ok (or_err (c.stream.take id raw) take_failed) (λ v. ok (after_row c id v)) h3 in
      subst (λ d. Counted source d × (d.stream ≡ c.stream)) (ok_injective h4)
        (
          (
            omega (arith, k.0, length-append c.taken (v ∷ [])),
            All-snoc (IsOwn source c.stream) c.taken v k.1 (record {
              raw = raw;
              id = id;
              answered = answered;
              named = named;
              own = not_false own;
              made = or_err-some (c.stream.take id raw) take_failed taken;
            }),
          ),
          refl,
        )
    where
      not_false : {b : Bool} → not b ≡ false → b ≡ true
      not_false {b = true} e = refl
      not_false {b = false} e = cc

  take_rows-Counted :
      (c c' : Cursor Raw T) (raws : List Raw)
      → ((raw : Raw) → Memᴰ raw raws → IsAnswered source c.stream.entity raw)
      → Counted source c
      → take_rows source.id_of c raws ≡ ok c'
      → Counted source c' × (c'.stream ≡ c.stream)
  unfolding take_rows
  take_rows-Counted c c' [] given k h =
      subst (λ d. Counted source d × (d.stream ≡ c.stream)) (ok_injective h) (k, refl)
  take_rows-Counted c c' (raw ∷ raws) given k h =
      let (d, one, rest) =
        >>=-eq-ok (take_row c raw (source.id_of raw)) (λ d. take_rows source.id_of d raws) h in
      let a = take_row-Counted c d raw (source.id_of raw) refl (given raw (Memᴰ.head refl)) k one in
      let b =
        take_rows-Counted d c' raws
          (λ x m. subst (λ s. IsAnswered source s.entity x) (sym a.1) (given x (Memᴰ.tail m))) a.0
          rest in
      (b.0, b.1 ∙ a.1)

  page_rows-Admitted :
      (c c' : Cursor Raw T) (raws : List Raw)
      → ((raw : Raw) → Memᴰ raw raws → IsAnswered source c.stream.entity raw)
      → Admitted source c
      → page_rows source.id_of c raws ≡ ok c'
      → Admitted source c' × (c'.stream ≡ c.stream)
  page_rows-Admitted c c' raws given k h =
      let (short, (d, taken, few, e)) = page_rows-steps source.id_of c c' raws h in
      let t = take_rows-Counted c d raws given k.1 taken in
      subst (λ e. Admitted source e × (e.stream ≡ c.stream)) e
        ((not_ltb→le d.stream.max_rows d.rows few, t.0), t.1)

  module _ (requests : ℕ) (parts : List Part) (answer : String → Option Raw)
      (asked : source.ask requests parts ≡ some answer) where
    pub page_all-Admitted :
        (cs cs' : List (Cursor Raw T))
        → All (Admitted source) cs
        → page_all source answer cs ≡ ok cs'
        → All (Admitted source) cs' × (map stream_of cs' ≡ map stream_of cs)
    unfolding page_all
    page_all-Admitted [] cs' k h =
        subst (λ ds. All (Admitted source) ds × (map stream_of ds ≡ [])) (ok_injective h) (tt, refl)
    page_all-Admitted (c ∷ cs) cs' k h =
        let (d, one, h1) =
          >>=-eq-ok (if c.done then ok c else page source answer c)
            (λ d. page_all source answer cs >>= λ ds. ok (d ∷ ds)) h in
        let (ds, rest, h2) = >>=-eq-ok (page_all source answer cs) (λ ds. ok (d ∷ ds)) h1 in
        let a = turn c.done d one in
        let b = page_all-Admitted cs ds k.1 rest in
        subst (λ es. All (Admitted source) es × (map stream_of es ≡ map stream_of (c ∷ cs)))
          (ok_injective h2) ((a.0, b.0), cc)
      where
        turn :
            (b : Bool) (d : Cursor Raw T)
            → (if b then ok c else page source answer c) ≡ ok d
            → Admitted source d × (d.stream ≡ c.stream)
        turn true d e =
            subst (λ d. Admitted source d × (d.stream ≡ c.stream)) (ok_injective e) (k.0, refl)
        turn false d e =
            let (raws, paged, sent, given, decoded) = page-steps source answer c d e in
            page_rows-Admitted c d raws
              (λ raw m. record {
                requests = requests;
                parts = parts;
                answer = answer;
                sent = sent;
                rows = raws;
                asked = asked;
                given = given;
                decoded = decoded;
                listed = m;
              })
              k.0 paged
