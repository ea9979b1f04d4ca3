-- ===== src/Valuation/Summaries.antt =====
-- valuation.go, `applyValuations`: the summaries of the protocols.
use Prim.Native.String.{String}
use mathlib.Core.List.{append-nil, append_assoc}
use sentio_portfolio.Common.{
  ◌≡◌, refl, sym, ◌∙◌, subst, inl, inr, Bool, true, false, List, [], ◌∷◌, ◌++◌, Option, none, some,
  length, length-append, All, count, count-append, if◌then◌else◌, Bool-cases, Option-cases, ok,
  >>=-eq-ok, ok_injective, arith,
}
use sentio_portfolio.Common.Assoc.{
  lookup, insert, string_key, lookup-insert, lookup-insert_other, beq_refl,
}
use sentio_portfolio.Pages.{Text}
use sentio_portfolio.Valuation.{Float, Component, Snapshot, Summary}
use sentio_portfolio.Valuation.Totals.{
  State, States, Protocol, value_snapshot, state_of, value_snapshots, closed, summaries,
  apply_valuations,
}
use sentio_portfolio.Valuation.Counts.{
  has_price, components_of, components_in, Counts, value_snapshot-Counts,
}

beq_sym : (a b : String) → string_key.beq a b ≡ false → string_key.beq b a ≡ false
beq_sym a b h = elim (Bool-cases (string_key.beq b a)) [
  | inr differs ↦ differs
  | inl same ↦ absurd (
      not_both
        (subst (λ x. string_key.beq x b ≡ true) ((string_key.beq_iff b a).0 same) (beq_refl b)) h)
]
  where
    not_both : {x : Bool} → x ≡ true → x ≡ false → ⊥
    not_both t f = cc

insert_all :
    {V : Type 0} (P : String → Option V → Type 0) (a : String) (v : V) (m : List (String × V))
    → P a (some v)
    → ((id : String) → string_key.beq id a ≡ false → P id (lookup id m))
    → (id : String) → P id (lookup id (insert a v m))
insert_all P a v m new old id = elim (Bool-cases (string_key.beq id a)) [
  | inl same ↦
      subst (λ i. P i (lookup i (insert a v m))) (sym ((string_key.beq_iff id a).0 same))
        (subst (P a) (sym (lookup-insert a v m)) new)
  | inr other ↦
      subst (P id) (sym (lookup-insert_other a id v m (beq_sym id a other))) (old id other)
]

module _ {F : Type 0} (float : Float F) (prices : List (Text × F)) where
  -- A summary is that of a protocol and counts these components.
  abbrev pub Tells : String → List (Component F) → Summary F → Type 0
  Tells id cs summary =
      (summary.protocol_id ≡ id)
      × (summary.component_count ≡ length cs)
      × (summary.priced_components ≡ count (has_price float prices) cs)

  abbrev Told : String → List (Component F) → Option (State F) → Type 0
  Told id cs none = cs ≡ []
  Told id cs (some state) = Tells id cs state.summary

  -- Every protocol's state counts the components that were seen of it.
  abbrev Holds : States F → (String → List (Component F)) → Type 0
  Holds states seen = (id : String) → Told id (seen id) (lookup id states)

  Tells-state_of :
      (s : Snapshot F) (cs : List (Component F)) (found : Option (State F))
      → Told s.protocol_id cs found
      → Tells s.protocol_id cs (state_of float s found).summary
  Tells-state_of s cs none h = rw h (refl, refl, refl)
  Tells-state_of s cs (some state) h = h

  Tells-Counts :
      (id : String) (cs ds : List (Component F)) (before after : Summary F)
      → Tells id cs before
      → Counts float prices before ds after
      → Tells id (cs ++ ds) after
  Tells-Counts id cs ds before after h k = (
    k.0 ∙ h.0,
    omega (arith, h.1, k.1, length-append cs ds),
    omega (arith, h.2, k.2, count-append (has_price float prices) cs ds),
  )

  -- What was seen before and the components of a snapshot.
  abbrev with_snapshot : (String → List (Component F)) → Snapshot F → String → List (Component F)
  with_snapshot seen s id =
      if string_key.beq id s.protocol_id
      then seen id ++ components_of float prices s.groups
      else seen id

  insert-Holds :
      (s : Snapshot F) (states : States F) (seen : String → List (Component F)) (state : State F)
      → Holds states seen
      → Tells s.protocol_id
          (seen s.protocol_id ++ components_of float prices s.groups)
          state.summary
      → Holds (insert s.protocol_id state states) (with_snapshot seen s)
  insert-Holds s states seen state h k =
      insert_all (λ id found. Told id (with_snapshot seen s id) found) s.protocol_id state states
        (rw (beq_refl s.protocol_id) k) λ id other. rw other (h id)

  -- The states after more snapshots.
  abbrev seen_in : (String → List (Component F)) → List (Snapshot F) → String → List (Component F)
  seen_in seen ss id = seen id ++ components_in float prices id ss

  seen_more :
      (seen : String → List (Component F)) (s : Snapshot F) (ss : List (Snapshot F)) (id : String)
      → seen_in (with_snapshot seen s) ss id ≡ seen_in seen (s ∷ ss) id
  seen_more seen s ss id = elim (Bool-cases (string_key.beq id s.protocol_id)) [
    | inl same ↦ rw same (
        append_assoc (seen id) (components_of float prices s.groups)
          (components_in float prices id ss))
    | inr other ↦ rw other refl
  ]

  value_snapshots-Holds :
      (ss : List (Snapshot F)) (states : States F) (seen : String → List (Component F))
      {result : List (Snapshot F) × States F}
      → Holds states seen
      → value_snapshots float prices ss states ≡ ok result
      → Holds result.1 (seen_in seen ss)
  unfolding value_snapshots
  value_snapshots-Holds [] states seen h e =
      subst (λ r. Holds r.1 (seen_in seen [])) (ok_injective e)
        λ id. rw (append-nil (seen id)) (h id)
  value_snapshots-Holds (s ∷ ss) states seen h e =
      let state = state_of float s (lookup s.protocol_id states) in
      let (first, one, more) = >>=-eq-ok (value_snapshot float prices s state.summary) _ e in
      let after : State F = record { summary = first.1; chains = s.chain_id ∷ state.chains } in
      let (rest, others, same) =
        >>=-eq-ok (value_snapshots float prices ss (insert s.protocol_id after states)) _ more in
      let start =
        Tells-state_of s (seen s.protocol_id) (lookup s.protocol_id states) (h s.protocol_id) in
      let told =
        Tells-Counts s.protocol_id (seen s.protocol_id) (components_of float prices s.groups)
          state.summary first.1 start (value_snapshot-Counts float prices s state.summary one) in
      let held =
        value_snapshots-Holds ss (insert s.protocol_id after states) (with_snapshot seen s)
          (insert-Holds s states seen after h told) others in
      subst (λ r. Holds r.1 (seen_in seen (s ∷ ss))) (ok_injective same)
        λ id. subst (λ cs. Told id cs (lookup id rest.1)) (seen_more seen s ss id) (held id)

  summaries-none :
      (p : Protocol) (ps : List Protocol) (states : States F)
      → lookup p.id states ≡ none
      → summaries float (p ∷ ps) states ≡ summaries float ps states
  unfolding summaries
  summaries-none p ps states missing = rw (summaries, missing) refl

  summaries-some :
      (p : Protocol) (ps : List Protocol) (states : States F) (state : State F)
      → lookup p.id states ≡ some state
      → summaries float (p ∷ ps) states
        ≡ (closed float state).summary
          ∷ summaries float ps (insert p.id (closed float state) states)
  unfolding summaries
  summaries-some p ps states state found = rw (summaries, found) refl

  -- Each summary counts what was seen of its protocol.
  abbrev AllTell : (String → List (Component F)) → List (Summary F) → Type 0
  AllTell seen told =
      All (λ summary. Tells summary.protocol_id (seen summary.protocol_id) summary) told

  summaries-AllTell :
      (ps : List Protocol) (states : States F) (seen : String → List (Component F))
      → Holds states seen
      → AllTell seen (summaries float ps states)
  unfolding summaries
  summaries-AllTell [] states seen h = tt
  summaries-AllTell (p ∷ ps) states seen h = elim (Option-cases (lookup p.id states)) [
    | inl missing ↦
        subst (AllTell seen) (sym (summaries-none p ps states missing))
          (summaries-AllTell ps states seen h)
    | inr (state, found) ↦
        let told : Tells p.id (seen p.id) state.summary =
          subst (Told p.id (seen p.id)) found (h p.id) in
        subst (AllTell seen) (sym (summaries-some p ps states state found)) (
          subst (λ id. Tells id (seen id) (closed float state).summary) (sym told.0) told,
          summaries-AllTell ps (insert p.id (closed float state) states) seen (
              insert_all (λ id o. Told id (seen id) o) p.id (closed float state) states told
                λ id other. h id),
        )
  ]

  -- Where the valuation succeeds, a summary counts all components of its protocol's snapshots, and as priced
  -- those of them whose price token is quoted.
  pub apply_valuations-Tells :
      (snapshots : List (Snapshot F)) (protocols : List Protocol) (valued : List (Snapshot F))
      (told : List (Summary F))
      → apply_valuations float snapshots prices protocols ≡ ok (valued, told)
      → All
          (λ summary.
            Tells summary.protocol_id
              (components_in float prices summary.protocol_id snapshots)
              summary)
          told
  unfolding apply_valuations
  apply_valuations-Tells snapshots protocols valued told e =
      let (result, made, same) = >>=-eq-ok (value_snapshots float prices snapshots []) _ e in
      let held = value_snapshots-Holds snapshots [] (λ id. []) (λ id. refl) made in
      subst
        (λ r.
          All
            (λ summary.
              Tells summary.protocol_id (components_in float prices summary.protocol_id snapshots)
                summary)
            r.1)
        (ok_injective same) (summaries-AllTell protocols result.1 _ held)
