-- ===== src/Dispatch/Probes.antt =====
-- The presence probes of a protocol and its calls of `done` (engine.go).
use Prim.Native.String.{String}
use sentio_portfolio.Common.{
  ℕ, zero, suc, ◌+◌, ◌-◌, ◌≡◌, refl, sym, ap, ◌∙◌, subst, true, false, List, [], ◌∷◌, Option, none,
  some, ltb, ◌==◌, if◌then◌else◌, arith, Bool-cases, inl, inr, count, one_if,
}
use sentio_portfolio.Common.Assoc.{
  lookup, insert, string_key, beq_refl, lookup-insert, lookup-insert_other,
}
use sentio_portfolio.Scan.{Deployment, is_of, count_of}
use sentio_portfolio.Scan.Plans.{beq_other}
use sentio_portfolio.Dispatch.{Lifetimes, remove, track, new_lifetimes, done_with, done, done_all}

abbrev if_some : ℕ → Option ℕ
if_some zero = none
if_some (suc n) = some (suc n)

abbrev pub none_left : ℕ → ℕ
none_left zero = 1
none_left (suc n) = 0

-- How often the probes of a protocol were ended.
abbrev pub endings : String → Lifetimes → ℕ
endings id l = count (string_key.beq id) l.canceled

-- The probes of a tracked protocol with so many deployments left.
pub record HasLeft (id : String) (n : ℕ) (l : Lifetimes) : Type 0 where
  pub left : lookup id l.remaining ≡ if_some n
  pub once : endings id l ≡ none_left n

lookup-remove : (id : String) (m : List (String × ℕ)) → lookup id (remove id m) ≡ none
unfolding remove
lookup-remove id [] = refl
lookup-remove id ((b, v) ∷ m) = elim (Bool-cases (string_key.beq b id)) [
  | inl same ↦ rw same (lookup-remove id m)
  | inr other ↦ rw (other, other) (lookup-remove id m)
]

lookup-remove_other :
    (id other : String) (m : List (String × ℕ))
    → string_key.beq other id ≡ false
    → lookup id (remove other m) ≡ lookup id m
unfolding remove
lookup-remove_other id other [] ne = refl
lookup-remove_other id other ((b, v) ∷ m) ne = elim (Bool-cases (string_key.beq b other)) [
  | inl same ↦
      let differs : string_key.beq b id ≡ false =
        ap (λ x. string_key.beq x id) ((string_key.beq_iff b other).0 same) ∙ ne in
      rw (same, differs) (lookup-remove_other id other m ne)
  | inr apart ↦
      rw apart
        (ap (λ o. if string_key.beq b id then some v else o) (lookup-remove_other id other m ne))
]

-- The three ways of a call of `done`, on the protocol itself and on another.
decremented :
    (id : String) (n : ℕ) (l : Lifetimes)
    → HasLeft id (suc (suc n)) l
    → HasLeft id (suc n) (record l { remaining = insert id (suc (suc n) - 1) l.remaining })
decremented id n l h = record {
  left = lookup-insert id (suc (suc n) - 1) l.remaining ∙ ap some (omega arith);
  once = h.once;
}

ended :
    (id : String) (l : Lifetimes)
    → HasLeft id 1 l
    → HasLeft id 0 (record { remaining = remove id l.remaining; canceled = id ∷ l.canceled })
ended id l h = record {
  left = lookup-remove id l.remaining;
  once = omega (arith, h.once, ap one_if (beq_refl id));
}

untouched :
    (id other : String) (n : ℕ) (l : Lifetimes) (o : Option ℕ)
    → string_key.beq id other ≡ false
    → HasLeft id n l
    → HasLeft id n (done_with other o l)
untouched id other n l none ne h = h
untouched id other n l (some m) ne h = elim (Bool-cases (ltb 1 m)) [
  | inl many ↦ rw many (record {
    left = lookup-insert_other other id (m - 1) l.remaining (beq_other id other ne) ∙ h.left;
    once = h.once;
  })
  | inr last ↦ rw last (record {
    left = lookup-remove_other id other l.remaining (beq_other id other ne) ∙ h.left;
    once = omega (arith, h.once, ap one_if ne);
  })
]

done_same : (id : String) (n : ℕ) (l : Lifetimes) → HasLeft id (suc n) l → HasLeft id n (done id l)
unfolding done
done_same id zero l h = subst (λ o. HasLeft id 0 (done_with id o l)) (sym h.left) (ended id l h)
done_same id (suc n) l h =
    let many : ltb 1 (suc (suc n)) ≡ true = ground arith in
    subst (λ o. HasLeft id (suc n) (done_with id o l)) (sym h.left)
      (subst
        (λ b. HasLeft id (suc n) (
          if b
          then record l { remaining = insert id (suc (suc n) - 1) l.remaining }
          else record { remaining = remove id l.remaining; canceled = id ∷ l.canceled }))
        (sym many) (decremented id n l h))

pub done-HasLeft :
    (id other : String) (n : ℕ) (l : Lifetimes)
    → HasLeft id (one_if (string_key.beq id other) + n) l
    → HasLeft id n (done other l)
unfolding done
done-HasLeft id other n l h = elim (Bool-cases (string_key.beq id other)) [
  | inl same ↦
      subst (λ x. HasLeft id n (done x l)) ((string_key.beq_iff id other).0 same)
        (done_same id n l (subst (λ k. HasLeft id k l) (omega (arith, ap one_if same)) h))
  | inr ne ↦
      untouched id other n l (lookup other l.remaining) ne
        (subst (λ k. HasLeft id k l) (omega (arith, ap one_if ne)) h)
]

pub done_all-HasLeft :
    (id : String) (ds : List Deployment) (n : ℕ) (l : Lifetimes)
    → HasLeft id (count (is_of id) ds + n) l
    → HasLeft id n (done_all ds l)
unfolding done_all
done_all-HasLeft id [] n l h = subst (λ k. HasLeft id k l) (omega arith) h
done_all-HasLeft id (d ∷ ds) n l h = done_all-HasLeft id ds n (done d.info.id l) (
    done-HasLeft id d.info.id (count (is_of id) ds + n) l
      (subst (λ k. HasLeft id k l) (omega arith) h))

track_other :
    (id other : String) (n : ℕ) (l : Lifetimes)
    → string_key.beq id other ≡ false
    → (lookup id (track other n l).remaining ≡ lookup id l.remaining)
      × (endings id (track other n l) ≡ endings id l)
track_other id other n l ne = elim (Bool-cases (n == 0)) [
  | inl nothing ↦ rw nothing (refl, omega (arith, ap one_if ne))
  | inr something ↦
      rw something (lookup-insert_other other id n l.remaining (beq_other id other ne), refl)
]

track_same :
    (id : String) (n : ℕ) (l : Lifetimes)
    → lookup id l.remaining ≡ none
    → endings id l ≡ 0
    → HasLeft id n (track id n l)
track_same id zero l h k = record { left = h; once = omega (arith, k, ap one_if (beq_refl id)) }
track_same id (suc n) l h k =
    let something : (suc n == 0) ≡ false = ground arith in
    rw something (record { left = lookup-insert id (suc n) l.remaining; once = k })

untracked :
    (id : String) (ids : List String) (counts : List (String × ℕ))
    → count (string_key.beq id) ids ≡ 0
    → (lookup id (new_lifetimes ids counts).remaining ≡ none)
      × (endings id (new_lifetimes ids counts) ≡ 0)
unfolding new_lifetimes
untracked id [] counts h = (refl, refl)
untracked id (other ∷ ids) counts h = elim (Bool-cases (string_key.beq id other)) [
  | inl same ↦ absurd (omega (arith, h, ap one_if same))
  | inr ne ↦
      let rest = untracked id ids counts (omega (arith, h)) in
      let kept = track_other id other (count_of other counts) (new_lifetimes ids counts) ne in
      (kept.0 ∙ rest.0, kept.1 ∙ rest.1)
]

-- The start: a protocol that is probed once is tracked with its number of deployments.
pub new_lifetimes-HasLeft :
    (id : String) (ids : List String) (counts : List (String × ℕ))
    → count (string_key.beq id) ids ≡ 1
    → HasLeft id (count_of id counts) (new_lifetimes ids counts)
unfolding new_lifetimes
new_lifetimes-HasLeft id [] counts h = absurd (omega (arith, h))
new_lifetimes-HasLeft id (other ∷ ids) counts h = elim (Bool-cases (string_key.beq id other)) [
  | inl same ↦
      let alone = untracked id ids counts (omega (arith, h, ap one_if same)) in
      subst
        (λ x.
          HasLeft id (count_of id counts) (track x (count_of x counts) (new_lifetimes ids counts)))
        ((string_key.beq_iff id other).0 same)
        (track_same id (count_of id counts) (new_lifetimes ids counts) alone.0 alone.1)
  | inr ne ↦
      let rest = new_lifetimes-HasLeft id ids counts (omega (arith, h, ap one_if ne)) in
      let kept = track_other id other (count_of other counts) (new_lifetimes ids counts) ne in
      record { left = kept.0 ∙ rest.left; once = kept.1 ∙ rest.once }
]
