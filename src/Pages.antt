-- ===== src/Pages.antt =====
-- sentio_index.go: an index read. Each stream is paged by id under its own cursor until every cursor is
-- done, all pages held to one checkpoint, which is certified against the pin. A row id is a list of
-- bytes. A request is the list of what it asks of each open cursor; its text is left out. `maxRows` is
-- a natural number, so a bound that is not positive is 0.
pub mod Order
pub mod Steps
pub mod Fuel
pub mod Paging
pub mod Round
pub mod Opening
pub mod Reading
pub mod Admission
pub mod Safety
mod Tests
use Prim.Native.String.{String}
use sentio_portfolio.Common.{
  ℕ, zero, suc, ◌+◌, ◌-◌, ◌*◌, ◌%◌, ◌^◌, Bool, true, false, not, ◌&&◌, ◌||◌, List, [], ◌∷◌, ◌++◌,
  Option, none, some, ltb, ◌==◌, length, if◌then◌else◌, Outcome, ok, err, panic, fail_if, ◌>>=◌,
  ◌>>◌,
}
use sentio_portfolio.Common.Assoc.{contains, string_key}
use sentio_portfolio.Wallet.{starts_with}
use sentio_portfolio.Checkpoint.{BlockRef, LagNote, check_index_checkpoint}
use sentio_portfolio.Checkpoint.{Error as CheckpointError}
use sentio_portfolio.Presence.{IndexCheckpoint, Decoder, parse_index_checkpoint}
use sentio_portfolio.Presence.{Error as ParseError}

abbrev pub Text : Type 0
Text = List ℕ

-- `left < right` on Go strings.
abbrev pub text_lt : Text → Text → Bool
text_lt [] [] = false
text_lt [] (d ∷ ds) = true
text_lt (c ∷ cs) [] = false
text_lt (c ∷ cs) (d ∷ ds) = if ltb c d then true else (c == d) && text_lt cs ds

abbrev pub index_page_size : ℕ
index_page_size = 500

pub data Error : Type 0 where
  no_stream entity_twice no_row_bound no_json_name : Error
  request_failed omitted_checkpoints checkpoint_changed no_checkpoint start_unread ahead : Error
  omitted_entity malformed_rows long_page no_id foreign_row not_ordered take_failed : Error
  too_many_rows : Error
  unparsed : ParseError → Error
  uncertified : CheckpointError → Error

-- `indexStream` as a read pages it, with its `where` clause at the read's chain: the prefix, and its other
-- terms. `fields` is `none` for a row type without JSON names.
pub record Stream (Raw T : Type 0) : Type 0 where
  pub entity : String
  pub prefix : Text
  pub terms : List String
  pub max_rows : ℕ
  pub fields : Option (List String)
  pub take : Text → Raw → Option T

-- `indexCursor`, with the rows that its stream has taken.
pub record Cursor (Raw T : Type 0) : Type 0 where
  pub stream : Stream Raw T
  pub after : Text
  pub rows : ℕ
  pub done : Bool
  pub taken : List T

-- What a request asks of one cursor.
pub record Part : Type 0 where
  pub entity : String
  pub first : ℕ
  pub prefix : Text
  pub terms : List String
  pub after : Text

abbrev pub or_err : {E A : Type 0} → Option A → E → Outcome E A
or_err none e = err e
or_err (some a) e = ok a

module _ {Raw T : Type 0} where
  -- `indexCursor.first`
  pub first : Cursor Raw T → ℕ
  first c =
      let left = c.stream.max_rows + 1 - c.rows in
      if ltb index_page_size left then index_page_size else left

  abbrev pub part_of : Cursor Raw T → Part
  part_of c = record {
    entity = c.stream.entity;
    first = first c;
    prefix = c.stream.prefix;
    terms = c.stream.terms;
    after = c.after;
  }

  abbrev pub after_row : Cursor Raw T → Text → T → Cursor Raw T
  after_row c id value = record c { after = id; rows = c.rows + 1; taken = c.taken ++ (value ∷ []) }

  -- One row, given its id, `none` if the row does not decode.
  pub take_row : Cursor Raw T → Raw → Option Text → Outcome Error (Cursor Raw T)
  take_row c raw none = err no_id
  take_row c raw (some id) = do
    fail_if (length id == 0) no_id
    fail_if (not (starts_with c.stream.prefix id)) foreign_row
    fail_if (not (text_lt c.after id)) not_ordered
    value ← or_err (c.stream.take id raw) take_failed
    ok (after_row c id value)

  pub take_rows : (Raw → Option Text) → Cursor Raw T → List Raw → Outcome Error (Cursor Raw T)
  unfolding take_row
  take_rows id_of c [] = ok c
  take_rows id_of c (raw ∷ raws) = do c' ← take_row c raw (id_of raw); take_rows id_of c' raws

  -- `indexCursor.page`, given the rows of the answer.
  pub page_rows : (Raw → Option Text) → Cursor Raw T → List Raw → Outcome Error (Cursor Raw T)
  unfolding take_rows
  page_rows id_of c raws = do
    fail_if (ltb (first c) (length raws)) long_page
    c' ← take_rows id_of c raws
    fail_if (ltb c'.stream.max_rows c'.rows) too_many_rows
    ok (record c' { done = ltb (length raws) (first c) })

-- What the read asks of the outside: the JSON decoder, the ids of rows, and the pages. A request is numbered
-- by those before it; an answer gives an entity's rows, or `none` where it omits them.
pub record Source (Raw : Type 0) : Type 0 where
  pub decoder : Decoder Raw
  pub id_of : Raw → Option Text
  pub ask : ℕ → List Part → Option (String → Option Raw)

module _ {Raw T : Type 0} (source : Source Raw) where
  pub page : (String → Option Raw) → Cursor Raw T → Outcome Error (Cursor Raw T)
  unfolding page_rows
  page answer c = do
    raw ← or_err (answer c.stream.entity) omitted_entity
    raws ← or_err (source.decoder.rows raw) malformed_rows
    page_rows source.id_of c raws

  -- The loop over the open cursors; the others stay.
  pub page_all : (String → Option Raw) → List (Cursor Raw T) → Outcome Error (List (Cursor Raw T))
  unfolding page
  page_all answer [] = ok []
  page_all answer (c ∷ cs) = do
    c' ← (if c.done then ok c else page answer c)
    cs' ← page_all answer cs
    ok (c' ∷ cs')

abbrev pub open_parts : {Raw T : Type 0} → List (Cursor Raw T) → List Part
open_parts [] = []
open_parts (c ∷ cs) = if c.done then open_parts cs else part_of c ∷ open_parts cs

abbrev pub parsed : {A : Type 0} → Outcome ParseError A → Outcome Error A
parsed (ok a) = ok a
parsed (err e) = err (unparsed e)
parsed panic = panic

abbrev pub checked : {A : Type 0} → Outcome CheckpointError A → Outcome Error A
checked (ok a) = ok a
checked (err e) = err (uncertified e)
checked panic = panic

-- `pageCheckpoint`
pub page_checkpoint :
    {Raw : Type 0} → Source Raw → (String → Option Raw) → Outcome Error IndexCheckpoint
unfolding parse_index_checkpoint
page_checkpoint source answer = do
  raw ← or_err (answer "indexerCheckpoints") omitted_checkpoints
  parsed (parse_index_checkpoint source.decoder raw)

-- Where a read asks: its pin, the query block, the block that stands in for a missing checkpoint, 0 for
-- none, and the timestamp of that block as the chain's client gives it.
pub record Place : Type 0 where
  pub block : BlockRef
  pub query_block : ℕ
  pub start : ℕ
  pub start_time : Option (Option ℕ)

-- The start block in place of a checkpoint; no client, or a client that fails.
pub start_checkpoint : Place → Outcome Error (ℕ × ℕ)
start_checkpoint at = do
  fail_if (at.start == 0) no_checkpoint
  client ← or_err at.start_time no_checkpoint
  timestamp ← or_err client start_unread
  ok (at.start, timestamp * 1_000 % 2 ^ 64)

-- `certify`
pub certify : Place → IndexCheckpoint → Outcome Error (Option LagNote)
unfolding start_checkpoint check_index_checkpoint
certify at c = do
  found ← (if c.written then ok (c.block, c.ms) else start_checkpoint at)
  fail_if (ltb at.query_block found.0) ahead
  checked (check_index_checkpoint at.block found.0 found.1)

abbrev pub same_checkpoint : IndexCheckpoint → IndexCheckpoint → Bool
same_checkpoint a b =
    not (if a.written then not b.written else b.written) && (a.block == b.block) && (a.ms == b.ms)

-- The first page's checkpoint is certified; the others must be the same.
pub settle :
    Place
    → Option (IndexCheckpoint × Option LagNote)
    → IndexCheckpoint
    → Outcome Error (IndexCheckpoint × Option LagNote)
unfolding certify
settle at none c = do lag ← certify at c; ok (c, lag)
settle at (some (want, lag)) c = do
  fail_if (not (same_checkpoint c want)) checkpoint_changed
  ok (want, lag)

pub record Read (Raw T : Type 0) : Type 0 where
  pub cursors : List (Cursor Raw T)
  pub checkpoint : IndexCheckpoint
  pub lag : Option LagNote

module _ {Raw T : Type 0} (source : Source Raw) (at : Place) where
  -- The body of the loop of `pages`, with the page's answer.
  pub round :
      Option (IndexCheckpoint × Option LagNote)
      → List (Cursor Raw T)
      → (String → Option Raw)
      → Outcome Error ((IndexCheckpoint × Option LagNote) × List (Cursor Raw T))
  unfolding page_checkpoint settle page_all
  round want cursors answer = do
    c ← page_checkpoint source answer
    settled ← settle at want c
    cursors' ← page_all source answer cursors
    ok (settled, cursors')

  -- The end of the loop: a read whose cursors were all done before the first page has no checkpoint.
  abbrev pub finish :
      Option (IndexCheckpoint × Option LagNote) → List (Cursor Raw T) → Outcome Error (Read Raw T)
  finish none cursors = panic
  finish (some (c, lag)) cursors = ok (record { cursors = cursors; checkpoint = c; lag = lag })

  -- One request and the body of the loop.
  pub request_round :
      ℕ
      → Option (IndexCheckpoint × Option LagNote)
      → List (Cursor Raw T)
      → Outcome Error ((IndexCheckpoint × Option LagNote) × List (Cursor Raw T))
  unfolding round
  request_round n want cursors = do
    answer ← or_err (source.ask n (open_parts cursors)) request_failed
    round want cursors answer

  -- The loop of `pages`, on fuel: `none` when it runs out. `n` counts the requests.
  pub page_loop :
      ℕ
      → ℕ
      → Option (IndexCheckpoint × Option LagNote)
      → List (Cursor Raw T)
      → Option (Outcome Error (Read Raw T))
  unfolding request_round
  page_loop zero n want cursors = none
  page_loop (suc fuel) n want cursors =
      if length (open_parts cursors) == 0
      then some (finish want cursors)
      else elim (request_round n want cursors) [
        | ok (settled, cursors') ↦ page_loop fuel (n + 1) (some settled) cursors'
        | err e ↦ some (err e)
        | panic ↦ some panic
      ]

abbrev pub begin : {Raw T : Type 0} → Stream Raw T → Cursor Raw T
begin s = record { stream = s; after = s.prefix; rows = 0; done = false; taken = [] }

-- The checks on the streams before the first page; `entities` are those seen.
pub open_cursors :
    {Raw T : Type 0} → List String → List (Stream Raw T) → Outcome Error (List (Cursor Raw T))
open_cursors entities [] = ok []
open_cursors entities (s ∷ ss) = do
  fail_if (contains s.entity entities) entity_twice
  fail_if (s.max_rows == 0) no_row_bound
  fields ← or_err s.fields no_json_name
  rest ← open_cursors (s.entity ∷ entities) ss
  ok (begin s ∷ rest)

-- Rounds that are enough, whatever the answers: each takes a row of every open cursor or ends it.
abbrev pub enough : {Raw T : Type 0} → List (Cursor Raw T) → ℕ
enough [] = 1
enough (c ∷ cs) = c.stream.max_rows + 1 + enough cs

-- The checks before the loop.
pub open_streams : {Raw T : Type 0} → List (Stream Raw T) → Outcome Error (List (Cursor Raw T))
unfolding open_cursors
open_streams streams = do fail_if (length streams == 0) no_stream; open_cursors [] streams

abbrev pub held_to : Option IndexCheckpoint → Option (IndexCheckpoint × Option LagNote)
held_to none = none
held_to (some c) = some (c, none)

-- `pages`; `want` is the checkpoint of an earlier read that this one is held to.
pub pages :
    {Raw T : Type 0}
    → Source Raw
    → Place
    → Option IndexCheckpoint
    → List (Stream Raw T)
    → Option (Outcome Error (Read Raw T))
unfolding open_streams page_loop
pages source at want streams = elim (open_streams streams) [
  | ok cursors ↦ page_loop source at (enough cursors) 0 (held_to want) cursors
  | err e ↦ some (err e)
  | panic ↦ some panic
]
