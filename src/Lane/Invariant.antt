-- ===== src/Lane/Invariant.antt =====
-- The slots of the lane are those of the release functions that have not released (sentio_lane.go).
use sentio_portfolio.Common.{
  ℕ, zero, suc, ◌+◌, ◌≤◌, ◌≡◌, refl, ◌-◌, subst, sym, ◌∙◌, Bool, true, false, List, [], ◌∷◌, ◌++◌,
  none, some, ◌==◌, get_elem?, if◌then◌else◌, Option-cases, inl, inr, arith,
}
use mathlib.Core.Option.{some-injective}
use sentio_portfolio.Common.Int.{ℤ, pos, leb_ℤ, pos_part}
use sentio_portfolio.Lane.{
  System, Event, enter, admit, give_up, release, new_indexer_lane, take_slot, free_slot, enter_lane,
  admit_waiting, give_up_waiting, set_released, release_handle, step, run, start,
}

pub count_held : List Bool → ℕ
count_held [] = 0
count_held (true ∷ hs) = suc (count_held hs)
count_held (false ∷ hs) = count_held hs

-- No more slots than there are, each of them held by one release function.
abbrev pub IsValid : System → Type 0
IsValid s = (s.lane.in_use ≤ s.lane.capacity) × (s.lane.in_use ≡ count_held s.handles)

count_held-append : (hs : List Bool) → count_held (hs ++ (true ∷ [])) ≡ count_held hs + 1
unfolding count_held
count_held-append [] = refl
count_held-append (true ∷ hs) = omega (arith, count_held-append hs)
count_held-append (false ∷ hs) = count_held-append hs

count_held-release :
    (i : ℕ) (hs : List Bool)
    → get_elem? hs i ≡ some true
    → count_held hs ≡ count_held (set_released i hs) + 1
unfolding count_held set_released
count_held-release i [] h = cc
count_held-release zero (true ∷ hs) h = omega arith
count_held-release zero (false ∷ hs) h = cc
count_held-release (suc i) (true ∷ hs) h = omega (arith, count_held-release i hs h)
count_held-release (suc i) (false ∷ hs) h = count_held-release i hs h

-- What an event keeps.
abbrev Kept : System → System → Type 0
Kept s t = IsValid t × (t.lane.capacity ≡ s.lane.capacity)

enter-Kept : (s : System) (ended : Bool) → IsValid s → Kept s (enter_lane s ended)
unfolding enter_lane take_slot
enter-Kept s ended v = ground (arith, count_held-append s.handles)

admit-Kept : (s t : System) → IsValid s → admit_waiting s ≡ some t → Kept s t
unfolding admit_waiting take_slot
admit-Kept s t v h = ground (arith, count_held-append s.handles)

give_up-Kept : (s t : System) → IsValid s → give_up_waiting s ≡ some t → Kept s t
unfolding give_up_waiting
give_up-Kept s t v h = ground arith

release-Kept : (s t : System) (i : ℕ) → IsValid s → release_handle s i ≡ some t → Kept s t
unfolding release_handle free_slot
release-Kept s t i v h = ground (arith, count_held-release i s.handles)

step-Kept : (s t : System) (e : Event) → IsValid s → step s e ≡ some t → Kept s t
unfolding step
step-Kept s t (enter ended) v h = subst (Kept s) (some-injective _ _ h) (enter-Kept s ended v)
step-Kept s t admit v h = admit-Kept s t v h
step-Kept s t give_up v h = give_up-Kept s t v h
step-Kept s t (release i) v h = release-Kept s t i v h

first_blocked : (s : System) (e : Event) (es : List Event) → step s e ≡ none → run s (e ∷ es) ≡ none
unfolding run
first_blocked s e es b = rw (run, b) refl

first_went :
    (s u : System) (e : Event) (es : List Event) → step s e ≡ some u → run s (e ∷ es) ≡ run u es
unfolding run
first_went s u e es w = rw (run, w) refl

none_not_some : {t : System} → none ≡ some t → ⊥
none_not_some k = cc

run-Kept : (es : List Event) (s t : System) → IsValid s → run s es ≡ some t → Kept s t
unfolding run
run-Kept [] s t v h = subst (Kept s) (some-injective _ _ h) (v, refl)
run-Kept (e ∷ es) s t v h = elim (Option-cases (step s e)) [
  | inl blocked ↦ absurd (none_not_some (sym (first_blocked s e es blocked) ∙ h))
  | inr (u, went) ↦
      (let kept = step-Kept s u e v went in
        let (valid, same) = run-Kept es u t kept.0 (sym (first_went s u e es went) ∙ h) in
        (valid, same ∙ kept.1))
]

abbrev pub capacity_of : ℤ → ℕ
capacity_of concurrency = if leb_ℤ concurrency (pos 0) then 4 else pos_part concurrency

start-IsValid :
    (concurrency : ℤ)
    → IsValid (start concurrency) × ((start concurrency).lane.capacity ≡ capacity_of concurrency)
unfolding count_held new_indexer_lane
start-IsValid concurrency = ((omega arith, refl), refl)

release_goes :
    (s : System) (i : ℕ) (h : Bool)
    → IsValid s
    → get_elem? s.handles i ≡ some h
    → (t : System) × (release_handle s i ≡ some t)
unfolding release_handle free_slot
release_goes s i false v found = (s, rw (release_handle, found) refl)
release_goes s i true v found =
    let busy : (s.lane.in_use == 0) ≡ false =
      ground (arith, count_held-release i s.handles found) in
    (
      record {
        lane = record s.lane { in_use = s.lane.in_use - 1 };
        handles = set_released i s.handles;
      },
      rw (release_handle, found, free_slot, busy) refl,
    )

-- Whatever the callers do and in whatever order, the lane never has more slots in use than the configured
-- number, 4 if that is not positive; each slot in use belongs to one release function that was handed
-- out and has not released yet; and calling a release function, once or again, never blocks.
pub run_IsValid :
    (concurrency : ℤ) (events : List Event) (s : System)
    → run (start concurrency) events ≡ some s
    → (s.lane.in_use ≤ capacity_of concurrency)
      × (s.lane.in_use ≡ count_held s.handles)
      × ((i : ℕ) (h : Bool)
          → get_elem? s.handles i ≡ some h
          → (t : System) × (step s (release i) ≡ some t))
unfolding step
run_IsValid concurrency events s h =
    let initial = start-IsValid concurrency in
    let (valid, same) = run-Kept events (start concurrency) s initial.0 h in
    (omega (arith, valid.0, same, initial.1), valid.1, λ i b found. release_goes s i b valid found)
