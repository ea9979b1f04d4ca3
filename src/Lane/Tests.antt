-- ===== src/Lane/Tests.antt =====
-- Runs of the code of sentio_lane.go, and its theorem at a concrete run.
use sentio_portfolio.Common.{
  ℕ, ◌≤◌, ◌≡◌, refl, Bool, true, false, List, [], ◌∷◌, none, some, get_elem?,
}
use sentio_portfolio.Common.Int.{pos, negsuc}
use sentio_portfolio.Lane.{System, Event, enter, admit, release, new_indexer_lane, step, run, start}
use sentio_portfolio.Lane.Invariant.{count_held, capacity_of, run_IsValid}

default : new_indexer_lane (negsuc 2) ≡ record { capacity = 4; in_use = 0; waiting = 0 }
unfolding new_indexer_lane
default = refl

-- With one slot the second caller waits until the first releases, twice, and gets the slot.
abbrev events : List Event
events = enter false ∷ enter false ∷ release 0 ∷ release 0 ∷ admit ∷ []

abbrev after : System
after = record {
  lane = record { capacity = 1; in_use = 1; waiting = 0 };
  handles = false ∷ true ∷ [];
}

hand_over : run (start (pos 1)) events ≡ some after
unfolding run start
hand_over = refl

no_slot : run (start (pos 1)) (enter false ∷ enter false ∷ admit ∷ []) ≡ none
unfolding run start
no_slot = refl

run_IsValid_example :
    (1 ≤ capacity_of (pos 1))
    × (1 ≡ count_held (false ∷ true ∷ []))
    × ((i : ℕ) (h : Bool)
        → get_elem? (false ∷ true ∷ []) i ≡ some h
        → (t : System) × (step after (release i) ≡ some t))
run_IsValid_example = run_IsValid (pos 1) events after hand_over
