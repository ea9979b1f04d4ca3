-- ===== src/Pages/Safety.antt =====
-- What an index read gives, whatever the index answers (sentio_index.go).
use sentio_portfolio.Common.{
  ℕ, zero, suc, ◌+◌, ◌≡◌, refl, sym, ap, ◌∙◌, subst, true, not, List, [], ◌∷◌, map, arith, ◌==◌,
  All, length, Option, none, some, Outcome, ok, err, panic, inl, inr, Bool-cases, ok_injective,
  fail_if-passed, >>=-eq-ok,
}
use sentio_portfolio.Checkpoint.{LagNote}
use sentio_portfolio.Presence.{IndexCheckpoint}
use mathlib.Core.Option.{some-injective}
use sentio_portfolio.Pages.{
  Stream, Cursor, Part, Error, Source, Place, Read, open_parts, settle, certify, page_loop, finish,
  pages, open_streams, open_cursors, held_to, enough, begin, same_checkpoint, checkpoint_changed,
  no_stream,
}
use sentio_portfolio.Pages.Opening.{open_cursors-IsOpened, pages_opened, stream_of-begin}
use sentio_portfolio.Pages.Round.{stream_of}
use sentio_portfolio.Pages.Steps.{request_round-steps, page_loop-steps, loop_over}
use sentio_portfolio.Pages.Admission.{Admitted, page_all-Admitted}

-- A read's checkpoint is the one it is held to, or one that certifies with its lag.
abbrev pub Vouched : Place → Option IndexCheckpoint → IndexCheckpoint × Option LagNote → Type 0
Vouched at none (c, lag) = certify at c ≡ ok lag
Vouched at (some w) (c, lag) = (c ≡ w) × (lag ≡ none)

settle-Vouched :
    (at : Place) (want : Option IndexCheckpoint) (c : IndexCheckpoint)
    (settled : IndexCheckpoint × Option LagNote)
    → settle at (held_to want) c ≡ ok settled
    → Vouched at want settled
unfolding settle
settle-Vouched at none c settled h =
    let (lag, certified, e) = >>=-eq-ok (certify at c) (λ lag. ok (c, lag)) h in
    subst (Vouched at none) (ok_injective e) certified
settle-Vouched at (some w) c settled h =
    let (_, e) = fail_if-passed (not (same_checkpoint c w)) checkpoint_changed (ok (w, none)) h in
    subst (Vouched at (some w)) (ok_injective e) (refl, refl)

settle_kept :
    (at : Place) (held settled : IndexCheckpoint × Option LagNote) (c : IndexCheckpoint)
    → settle at (some held) c ≡ ok settled
    → held ≡ settled
unfolding settle
settle_kept at held settled c h =
    let (_, e) = fail_if-passed (not (same_checkpoint c held.0)) checkpoint_changed (ok held) h in
    ok_injective e

no_parts : (parts : List Part) → (length parts == 0) ≡ true → parts ≡ []
no_parts [] h = refl
no_parts (p ∷ parts) h = absurd (ground arith)

module _ {Raw T : Type 0} (source : Source Raw) (at : Place) (want : Option IndexCheckpoint) where
  -- What a loop that ends well gives, started from cursors of `streams`.
  abbrev Sound : List (Stream Raw T) → Read Raw T → Type 0
  Sound streams read =
      (map stream_of read.cursors ≡ streams)
      × All (Admitted source) read.cursors
      × (open_parts read.cursors ≡ [])
      × Vouched at want (read.checkpoint, read.lag)

  over_Sound :
      (held : Option (IndexCheckpoint × Option LagNote)) (cs : List (Cursor Raw T))
      (read : Read Raw T)
      → ((settled : IndexCheckpoint × Option LagNote)
          → held ≡ some settled
          → Vouched at want settled)
      → (length (open_parts cs) == 0) ≡ true
      → All (Admitted source) cs
      → finish source at held cs ≡ ok read
      → Sound (map stream_of cs) read
  over_Sound none cs read v over k h = cc
  over_Sound (some (c, lag)) cs read v over k h =
      subst (Sound (map stream_of cs)) (ok_injective h)
        (refl, k, no_parts (open_parts cs) over, v (c, lag) refl)

  loop_Sound :
      (fuel n : ℕ) (held : Option (IndexCheckpoint × Option LagNote)) (cs : List (Cursor Raw T))
      (read : Read Raw T)
      → ((settled : IndexCheckpoint × Option LagNote)
          → held ≡ some settled
          → Vouched at want settled)
      → ((c : IndexCheckpoint) (settled : IndexCheckpoint × Option LagNote)
          → settle at held c ≡ ok settled
          → Vouched at want settled)
      → All (Admitted source) cs
      → page_loop source at fuel n held cs ≡ some (ok read)
      → Sound (map stream_of cs) read
  unfolding page_loop
  loop_Sound zero n held cs read v w k h = cc
  loop_Sound (suc fuel) n held cs read v w k h = elim (Bool-cases (length (open_parts cs) == 0)) [
    | inl over ↦
        over_Sound held cs read v over k
          (some-injective _ _ (sym (loop_over source at fuel n held cs over) ∙ h))
    | inr more ↦
        let (settled, (cs', one, later)) = page_loop-steps source at fuel n held cs read more h in
        let (answer, (c, certified, paged, asked)) =
          request_round-steps source at n held settled cs cs' one in
        let (k', same) = page_all-Admitted source n (open_parts cs) answer asked cs cs' k paged in
        let vouched = w c settled certified in
        subst (λ ss. Sound ss read) same
          (loop_Sound fuel (n + 1) (some settled) cs' read
            (λ s e. subst (Vouched at want) (some-injective _ _ e) vouched)
            (λ d s e. subst (Vouched at want) (settle_kept at settled s d e) vouched) k' later)
  ]

begin-Admitted :
    {Raw T : Type 0} (source : Source Raw) (ss : List (Stream Raw T))
    → All (Admitted source) (map begin ss)
begin-Admitted source [] = tt
begin-Admitted source (s ∷ ss) = ((omega arith, (refl, tt)), begin-Admitted source ss)

-- The checks before the loop passed if the read succeeded.
pages_were_opened :
    {Raw T : Type 0} (source : Source Raw) (at : Place) (want : Option IndexCheckpoint)
    (streams : List (Stream Raw T)) (read : Read Raw T)
    → pages source at want streams ≡ some (ok read)
    → (cursors : List (Cursor Raw T)) × (open_streams streams ≡ ok cursors)
unfolding pages
pages_were_opened {Raw = Raw} {T = T} source at want streams read h =
    go (open_streams streams) refl h
  where
    go :
        (o : Outcome Error (List (Cursor Raw T)))
        → open_streams streams ≡ o
        → (elim o [
          | ok cursors ↦ page_loop source at (enough cursors) 0 (held_to want) cursors
          | err e ↦ some (err e)
          | panic ↦ some panic
        ])
          ≡ some (ok read)
        → (cursors : List (Cursor Raw T)) × (open_streams streams ≡ ok cursors)
    go panic e k = absurd cc
    go (err reason) e k = absurd cc
    go (ok cursors) e k = (cursors, e)

-- Whatever an index answers, a read that succeeds gives one cursor for each stream, in their order, with no
-- page left to ask for. Each has taken no more rows than its stream's bound, and each value taken was made by
-- the stream from a row that the index gave for the stream's entity in an answer to a request, together with
-- that row's own id, which starts with the stream's prefix. The checkpoint is the one that the read
-- is held to, with no lag, or else one that certifies against the pin with the lag that the read reports.
pub pages_sound :
    {Raw T : Type 0} (source : Source Raw) (at : Place) (want : Option IndexCheckpoint)
    (streams : List (Stream Raw T)) (read : Read Raw T)
    → pages source at want streams ≡ some (ok read)
    → (map stream_of read.cursors ≡ streams)
      × All (Admitted source) read.cursors
      × (open_parts read.cursors ≡ [])
      × Vouched at want (read.checkpoint, read.lag)
unfolding open_streams
pages_sound source at want streams read h =
    let (cursors, opened) = pages_were_opened source at want streams read h in
    let (some_stream, opened') =
      fail_if-passed (length streams == 0) no_stream (open_cursors [] streams) opened in
    let (begun, distinct, _) = open_cursors-IsOpened [] streams cursors opened' in
    subst (λ ss. Sound source at want ss read) (ap (map stream_of) begun ∙ stream_of-begin streams)
      (loop_Sound source at want (enough cursors) 0 (held_to want) cursors read (start want)
        (settle-Vouched at want)
        (subst (All (Admitted source)) (sym begun) (begin-Admitted source streams))
        (sym (pages_opened source at want streams cursors opened) ∙ h))
  where
    start :
        (want : Option IndexCheckpoint) (settled : IndexCheckpoint × Option LagNote)
        → held_to want ≡ some settled
        → Vouched at want settled
    start none settled e = absurd cc
    start (some w) settled e = subst (Vouched at (some w)) (some-injective _ _ e) (refl, refl)
