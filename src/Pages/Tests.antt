-- ===== src/Pages/Tests.antt =====
-- Index reads at concrete tables (sentio_index.go).
use sentio_portfolio.Common.{
  ℕ, ◌≡◌, refl, ap, subst, Bool, true, false, List, [], ◌∷◌, map, arith, if◌then◌else◌, All, take,
  inl, inr, Bool-cases, Option, none, some, Outcome, ok, err,
}
use sentio_portfolio.Common.Assoc.{contains, string_key, beq_refl}
use sentio_portfolio.Checkpoint.{check_index_checkpoint}
use sentio_portfolio.Wallet.{starts_with}
use sentio_portfolio.Presence.{
  IndexCheckpoint, Decoder, parse_index_checkpoint, parse_checkpoint_rows,
}
use Prim.Native.String.{String}
use sentio_portfolio.Pages.{
  Text, Stream, Part, Error, Source, Place, Read, pages, open_streams, open_cursors, settle,
  certify, begin, page_checkpoint, request_round, round, page_loop, page_all, page, page_rows,
  take_rows, take_row, first, open_parts, entity_twice, too_many_rows,
}
use sentio_portfolio.Pages.Order.{Entry, rows_after}
use sentio_portfolio.Pages.Paging.{IsGood, IsTable}
use sentio_portfolio.Pages.Fuel.{pages_ends}
use sentio_portfolio.Pages.Round.{IsDistinct, part_name, stream_of, Serves, rows_for}
use sentio_portfolio.Pages.Reading.{IsHonest, table_values, pages_table}
use sentio_portfolio.Pages.Admission.{Admitted}
use sentio_portfolio.Pages.Safety.{Vouched, pages_sound}

-- What is sent: a row, or a list of what is sent.
data Sent : Type 0 where
  row : Text → Sent
  nothing : Sent
  more : Sent → Sent → Sent

abbrev pack : List Sent → Sent
pack [] = nothing
pack (s ∷ ss) = more s (pack ss)

abbrev with_first : Sent → Option (List Sent) → Option (List Sent)
with_first s none = none
with_first s (some ss) = some (s ∷ ss)

abbrev unpack : Sent → Option (List Sent)
unpack (row id) = none
unpack nothing = some []
unpack (more s rest) = with_first s (unpack rest)

unpack-pack : (ss : List Sent) → unpack (pack ss) ≡ some ss
unpack-pack [] = refl
unpack-pack (s ∷ ss) = rw (unpack-pack ss) refl

abbrev row_id : Sent → Option Text
row_id (row id) = some id
row_id nothing = none
row_id (more s rest) = none

abbrev number : String → Option ℕ
number s = some (if string_key.beq s "100" then 100 else 5_000_000)

abbrev decoder : Decoder Sent
decoder = record {
  checkpoint_rows = λ raw. some (("100", "5000000") ∷ []);
  rows = unpack;
  parse_uint64 = number;
}

abbrev entry : Text → Entry Sent Text
entry id = record { raw = row id; id = id; value = id }

abbrev table : String → List (Entry Sent Text)
table entity =
    if string_key.beq entity "positions"
    then entry (7 ∷ 1 ∷ []) ∷ entry (7 ∷ 2 ∷ []) ∷ entry (7 ∷ 2 ∷ 4 ∷ []) ∷ []
    else []

abbrev find : String → List Part → Option Part
find e [] = none
find e (p ∷ ps) = if string_key.beq e p.entity then some p else find e ps

abbrev sent_for : Option Part → Sent
sent_for none = nothing
sent_for (some p) = pack (map (λ e. e.raw) (take p.first (rows_after p.after (table p.entity))))

abbrev table_source : Source Sent
table_source = record {
  decoder = decoder;
  id_of = row_id;
  ask = λ n parts. some (λ e. some (sent_for (find e parts)));
}

find_later :
    (q : Part) (full ps : List Part)
    → contains q.entity (map part_name ps) ≡ false
    → All (λ p. find p.entity full ≡ some p) ps
    → All (λ p. find p.entity (q ∷ full) ≡ some p) ps
find_later q full [] h k = tt
find_later q full (p ∷ ps) h k = elim (Bool-cases (string_key.beq p.entity q.entity)) [
  | inl same ↦ absurd (impossible _ same h)
  | inr other ↦ (
    rw other k.0,
    find_later q full ps
        (subst (λ b. (if b then true else contains q.entity (map part_name ps)) ≡ false) other h)
        k.1,
  )
]
  where
    impossible : {b : Bool} (c : Bool) → b ≡ true → (if b then true else c) ≡ false → ⊥
    impossible c e h = ground (arith, e, h)

find_each :
    (ps : List Part) → IsDistinct (map part_name ps) → All (λ p. find p.entity ps ≡ some p) ps
find_each [] h = tt
find_each (p ∷ ps) h = (rw (beq_refl p.entity) refl, find_later p ps ps h.0 (find_each ps h.1))

found_Serves :
    (full ps : List Part)
    → All (λ p. find p.entity full ≡ some p) ps
    → All (Serves table_source table (λ e. some (sent_for (find e full)))) ps
found_Serves full [] h = tt
found_Serves full (p ∷ ps) h = (
  (sent_for (some p), ap (λ o. some (sent_for o)) h.0, unpack-pack (rows_for table_source table p)),
  found_Serves full ps h.1,
)

abbrev checkpoint : IndexCheckpoint
checkpoint = record { written = true; block = 100; ms = 5_000_000 }

same_checkpoint_always :
    (parts : List Part)
    → page_checkpoint table_source (λ e. some (sent_for (find e parts))) ≡ ok checkpoint
unfolding page_checkpoint parse_index_checkpoint parse_checkpoint_rows
same_checkpoint_always parts = refl

table_source-IsHonest : IsHonest table_source table checkpoint
table_source-IsHonest = record {
  answers = λ n parts e. some (sent_for (find e parts));
  asked = λ n parts. refl;
  same = λ n parts. same_checkpoint_always parts;
  serves = λ n parts h. found_Serves parts parts (find_each parts h);
}

abbrev stream : String → ℕ → Stream Sent Text
stream entity bound = record {
  entity = entity;
  prefix = 7 ∷ [];
  terms = [];
  max_rows = bound;
  fields = some [];
  take = λ id raw. some id;
}

abbrev here : Place
here = record {
  block = record { chain_id = 1; number = 120; hash = 0; timestamp = 5_010; fixed = false };
  query_block = 110;
  start = 0;
  start_time = none;
}

abbrev streams : List (Stream Sent Text)
streams = stream "positions" 3 ∷ stream "orders" 10 ∷ []

here_settles : settle here none checkpoint ≡ ok (checkpoint, none)
unfolding settle certify check_index_checkpoint
here_settles = refl

streams_open : open_streams streams ≡ ok (map begin streams)
unfolding open_streams open_cursors
streams_open = refl

tables_fit : All (λ s. IsTable row_id s (table s.entity)) streams
unfolding starts_with
tables_fit = (
  record {
    good = (good _ refl, (good _ refl, (good _ refl, tt)));
    ascending = (refl, (refl, (refl, tt)));
    within_bound = omega arith;
  },
  (record { good = tt; ascending = tt; within_bound = omega arith }, tt),
)
  where
    good :
        (n : Text)
        → starts_with (7 ∷ []) (7 ∷ n) ≡ true
        → IsGood row_id (stream "positions" 3) (entry (7 ∷ n))
    good n own = record { has_id = refl; not_empty = omega arith; own = own; taken = refl }

abbrev whole : Read Sent Text
whole = record {
  cursors =
      record {
        stream = stream "positions" 3;
        after = 7 ∷ 2 ∷ 4 ∷ [];
        rows = 3;
        done = true;
        taken = (7 ∷ 1 ∷ []) ∷ (7 ∷ 2 ∷ []) ∷ (7 ∷ 2 ∷ 4 ∷ []) ∷ [];
      }
      ∷ record { stream = stream "orders" 10; after = 7 ∷ []; rows = 0; done = true; taken = [] }
      ∷ [];
  checkpoint = checkpoint;
  lag = none;
}

read_whole : pages table_source here none streams ≡ some (ok whole)
unfolding pages open_streams open_cursors page_loop request_round round page_checkpoint
    parse_index_checkpoint parse_checkpoint_rows settle certify check_index_checkpoint page_all page
    page_rows take_rows take_row first starts_with
read_whole = refl

-- A bound below the rows of the table.
read_too_many : pages table_source here none (stream "positions" 2 ∷ []) ≡ some (err too_many_rows)
unfolding pages open_streams open_cursors page_loop request_round round page_checkpoint
    parse_index_checkpoint parse_checkpoint_rows settle certify check_index_checkpoint page_all page
    page_rows take_rows take_row first starts_with
read_too_many = refl

read_twice :
    pages table_source here none (stream "orders" 2 ∷ stream "orders" 3 ∷ [])
    ≡ some (err entity_twice)
unfolding pages open_streams open_cursors
read_twice = refl

pages_table_example :
    (read : Read Sent Text) × (pages table_source here none streams ≡ some (ok read))
    × (map (λ d. d.taken) read.cursors ≡ map (λ s. table_values (table s.entity)) streams)
    × (read.checkpoint ≡ checkpoint)
    × (read.lag ≡ none)
pages_table_example =
    pages_table table_source table here checkpoint none none streams (map begin streams)
      table_source-IsHonest tables_fit streams_open here_settles

pages_ends_example :
    (r : Outcome Error (Read Sent Text)) × (pages table_source here none streams ≡ some r)
pages_ends_example = pages_ends table_source here none streams

pages_sound_example :
    (map stream_of whole.cursors ≡ streams)
    × All (Admitted table_source) whole.cursors
    × (open_parts whole.cursors ≡ [])
    × Vouched here none (checkpoint, none)
pages_sound_example = pages_sound table_source here none streams whole read_whole
