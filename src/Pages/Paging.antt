-- ===== src/Pages/Paging.antt =====
-- One page of a cursor against an ordered table (sentio_index.go).
use sentio_portfolio.Common.{
  suc, ◌+◌, ◌≤◌, ◌<◌, ◌≡◌, refl, sym, ap, ◌∙◌, subst, true, false, List, [], ◌∷◌, ◌++◌, map, arith,
  ltb, ◌==◌, All, length, length-append, length-map, take, drop, take-append-drop, length-take,
  drop-eq_nil, All-take, All-append_right, Option, some, ok, ltb→lt,
}
use mathlib.Core.List.{append-nil, append_assoc, map-append}
use sentio_portfolio.Wallet.{starts_with}
use sentio_portfolio.Pages.{
  Text, Stream, Cursor, text_lt, first, take_row, take_rows, page_rows, after_row,
}
use sentio_portfolio.Pages.Order.{
  Entry, IsAscending, rows_after, last_id, IsAscending-left, IsAscending-right, last_id-append,
  rows_after-append,
}

module _ {Raw T : Type 0} (id_of : Raw → Option Text) where
  -- A row that the stream accepts.
  pub record IsGood (s : Stream Raw T) (e : Entry Raw T) : Type 0 where
    pub has_id : id_of e.raw ≡ some e.id
    pub not_empty : 0 < length e.id
    pub own : starts_with s.prefix e.id ≡ true
    pub taken : s.take e.id e.raw ≡ some e.value

  -- The cursor after the entries of a page.
  abbrev pub advance : Cursor Raw T → List (Entry Raw T) → Cursor Raw T
  advance c [] = c
  advance c (e ∷ es) = advance (after_row c e.id e.value) es

  take_good :
      (c : Cursor Raw T) (e : Entry Raw T)
      → IsGood c.stream e
      → text_lt c.after e.id ≡ true
      → take_row c e.raw (id_of e.raw) ≡ ok (after_row c e.id e.value)
  unfolding take_row
  take_good c e g h =
      let some_id : (length e.id == 0) ≡ false = ground (arith, g.not_empty) in
      rw (g.has_id, some_id, g.own, h, g.taken) refl

  pub take_rows_good :
      (c : Cursor Raw T) (es : List (Entry Raw T))
      → All (IsGood c.stream) es
      → IsAscending c.after es
      → take_rows id_of c (map (λ e. e.raw) es) ≡ ok (advance c es)
  unfolding take_rows
  take_rows_good c [] g h = refl
  take_rows_good c (e ∷ es) g h =
      rw (take_good c e g.0 h.0) (take_rows_good (after_row c e.id e.value) es g.1 h.1)

  advance_lem :
      (c : Cursor Raw T) (es : List (Entry Raw T))
      → advance c es ≡ record c {
        after = last_id c.after es;
        rows = c.rows + length es;
        taken = c.taken ++ map (λ e. e.value) es;
      }
  advance_lem c [] = let e : c.rows + 0 ≡ c.rows = omega arith in rw (e, append-nil) refl
  advance_lem c (e ∷ es) =
      let count : c.rows + 1 + length es ≡ c.rows + suc (length es) = omega arith in
      advance_lem (after_row c e.id e.value) es ∙ rw (count, append_assoc) refl

-- The cursor has read a first part of the table and nothing else; it is done only with all of it.
pub record IsAt {Raw T : Type 0} (table : List (Entry Raw T)) (c : Cursor Raw T) : Type 0 where
  pub seen : List (Entry Raw T)
  pub rest : List (Entry Raw T)
  pub split : table ≡ seen ++ rest
  pub last : c.after ≡ last_id c.stream.prefix seen
  pub count : c.rows ≡ length seen
  pub values : c.taken ≡ map (λ e. e.value) seen
  pub whole : c.done ≡ true → rest ≡ []

module _ {Raw T : Type 0} (id_of : Raw → Option Text) where
  -- A table that the stream accepts: ordered, within the bound, of good rows.
  pub record IsTable (s : Stream Raw T) (table : List (Entry Raw T)) : Type 0 where
    pub good : All (IsGood id_of s) table
    pub ascending : IsAscending s.prefix table
    pub within_bound : length table ≤ s.max_rows

  -- The page that an ordered index answers.
  abbrev pub answer_for : Cursor Raw T → List (Entry Raw T) → List Raw
  answer_for c table = map (λ e. e.raw) (take (first c) (rows_after c.after table))

  abbrev after_page : Cursor Raw T → List (Entry Raw T) → Cursor Raw T
  after_page c es = record c {
    after = last_id c.after es;
    rows = c.rows + length es;
    done = ltb (length es) (first c);
    taken = c.taken ++ map (λ e. e.value) es;
  }

  accept_page :
      (c : Cursor Raw T) (es : List (Entry Raw T))
      → All (IsGood id_of c.stream) es
      → IsAscending c.after es
      → length es ≤ first c
      → c.rows + length es ≤ c.stream.max_rows
      → page_rows id_of c (map (λ e. e.raw) es) ≡ ok (after_page c es)
  unfolding page_rows
  accept_page c es good up short few =
      let fits : ltb (first c) (length es) ≡ false = ground arith in
      let within : ltb c.stream.max_rows (c.rows + length es) ≡ false = ground arith in
      rw
        (
          length-map (λ (e : Entry Raw T). e.raw) es,
          fits,
          take_rows_good id_of c es good up,
          advance_lem id_of c es,
          within,
        )
        refl

  -- The page of an ordered index is accepted, and moves the cursor on by its entries.
  page_step :
      (c : Cursor Raw T) (seen rest : List (Entry Raw T))
      → IsTable c.stream (seen ++ rest)
      → c.after ≡ last_id c.stream.prefix seen
      → c.rows ≡ length seen
      → page_rows id_of c (answer_for c (seen ++ rest)) ≡ ok (after_page c (take (first c) rest))
  page_step c seen rest t last count =
      let n = first c in
      let up : IsAscending c.after rest =
        rw last (IsAscending-right c.stream.prefix seen rest t.ascending) in
      let same : rows_after c.after (seen ++ rest) ≡ rest =
        rw last (rows_after-append c.stream.prefix seen rest t.ascending) in
      rw same (
        accept_page c (take n rest)
          (All-take (IsGood id_of c.stream) n rest
            (All-append_right (IsGood id_of c.stream) seen rest t.good))
          (IsAscending-left c.after (take n rest) (drop n rest)
            (subst (IsAscending c.after) (sym (take-append-drop n rest)) up))
          (ground (arith, length-take n rest))
          (ground (arith, length-take n rest, length-append seen rest, t.within_bound)))

  page_IsAt :
      (c : Cursor Raw T) (seen rest : List (Entry Raw T))
      → c.after ≡ last_id c.stream.prefix seen
      → c.rows ≡ length seen
      → c.taken ≡ map (λ e. e.value) seen
      → IsAt (seen ++ rest) (after_page c (take (first c) rest))
  page_IsAt c seen rest last count values =
      let n = first c in
      record {
        seen = seen ++ take n rest;
        rest = drop n rest;
        split =
            ap (λ r. seen ++ r) (sym (take-append-drop n rest))
            ∙ sym (append_assoc seen (take n rest) (drop n rest));
        last =
            ap (λ a. last_id a (take n rest)) last
            ∙ sym (last_id-append c.stream.prefix seen (take n rest));
        count = omega (arith, count, length-append seen (take n rest));
        values =
            ap (λ v. v ++ map (λ e. e.value) (take n rest)) values
            ∙ sym (map-append (λ (e : Entry Raw T). e.value) seen (take n rest));
        whole = λ h. drop-eq_nil n rest (ltb→lt _ _ h);
      }

  -- So a page is read from wherever the cursor is.
  pub page_good :
      (c : Cursor Raw T) (table : List (Entry Raw T))
      → IsTable c.stream table
      → IsAt table c
      → (c' : Cursor Raw T) × (page_rows id_of c (answer_for c table) ≡ ok c')
        × (c'.stream ≡ c.stream)
        × IsAt table c'
  page_good c table t a =
      let good = subst (IsTable c.stream) a.split t in
      (
        after_page c (take (first c) a.rest),
        subst (λ s. page_rows id_of c (answer_for c s) ≡ ok (after_page c (take (first c) a.rest)))
            (sym a.split) (page_step c a.seen a.rest good a.last a.count),
        refl,
        subst (λ s. IsAt s (after_page c (take (first c) a.rest))) (sym a.split)
            (page_IsAt c a.seen a.rest a.last a.count a.values),
      )
