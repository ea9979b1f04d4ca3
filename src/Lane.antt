-- ===== src/Lane.antt =====
-- sentio_lane.go: the bounded lane in front of the indexer. The channel of slots is its number of used slots;
-- the callers' steps interleave as a sequence of events, each of which is one step that the code can take,
-- or `none` where the code would block.
pub mod Invariant
mod Tests
use sentio_portfolio.Common.{
  ℕ, zero, suc, ◌+◌, ◌-◌, Bool, true, false, not, ◌&&◌, List, [], ◌∷◌, ◌++◌, Option, none, some,
  ltb, ◌==◌, get_elem?, if◌then◌else◌,
}
use sentio_portfolio.Common.Int.{ℤ, pos, leb_ℤ, pos_part}

abbrev pub default_indexer_concurrency : ℕ
default_indexer_concurrency = 4

-- `indexerLane`, as `stats` reports it.
pub record Lane : Type 0 where
  pub capacity : ℕ
  pub in_use : ℕ
  pub waiting : ℕ

pub new_indexer_lane : ℤ → Lane
new_indexer_lane concurrency = record {
  capacity =
      if leb_ℤ concurrency (pos 0) then default_indexer_concurrency else pos_part concurrency;
  in_use = 0;
  waiting = 0;
}

-- The lane, and for each release function that was handed out, in order, whether it still has to release.
pub record System : Type 0 where
  pub lane : Lane
  pub handles : List Bool

-- A call of `acquire`, with a context that has ended or not; the end of a wait, with a slot or without one; and a
-- call of a release function.
pub data Event : Type 0 where
  enter : Bool → Event
  admit give_up : Event
  release : ℕ → Event

-- A send on the channel of slots, which blocks when it is full.
pub take_slot : Lane → Option Lane
take_slot l = if ltb l.in_use l.capacity then some (record l { in_use = l.in_use + 1 }) else none

-- A receive from it, which blocks when it is empty.
pub free_slot : Lane → Option Lane
free_slot l = if l.in_use == 0 then none else some (record l { in_use = l.in_use - 1 })

abbrev pub hand_out : System → Lane → System
hand_out s l = record { lane = l; handles = s.handles ++ (true ∷ []) }

abbrev pub begin_wait : Lane → Lane
begin_wait l = record l { waiting = l.waiting + 1 }

abbrev pub end_wait : Lane → Lane
end_wait l = record l { waiting = l.waiting - 1 }

-- The fast path, and otherwise the begin of a wait.
pub enter_lane : System → Bool → System
unfolding take_slot
enter_lane s ended = elim (if ended then none else take_slot s.lane) [
  | some l ↦ hand_out s l
  | none ↦ record s { lane = begin_wait s.lane }
]

pub admit_waiting : System → Option System
unfolding take_slot
admit_waiting s =
    if s.lane.waiting == 0
    then none
    else elim (take_slot s.lane) [ some l ↦ some (hand_out s (end_wait l)) | none ↦ none ]

pub give_up_waiting : System → Option System
give_up_waiting s = if s.lane.waiting == 0 then none else some (record s { lane = end_wait s.lane })

pub set_released : ℕ → List Bool → List Bool
set_released i [] = []
set_released zero (h ∷ hs) = false ∷ hs
set_released (suc i) (h ∷ hs) = h ∷ set_released i hs

-- Only the first call of a release function does anything.
pub release_handle : System → ℕ → Option System
unfolding free_slot set_released
release_handle s i = elim (get_elem? s.handles i) [
  | none ↦ none
  | some false ↦ some s
  | some true ↦ elim (free_slot s.lane) [
    | none ↦ none
    | some l ↦ some (record { lane = l; handles = set_released i s.handles })
  ]
]

pub step : System → Event → Option System
unfolding enter_lane admit_waiting give_up_waiting release_handle
step s (enter ended) = some (enter_lane s ended)
step s admit = admit_waiting s
step s give_up = give_up_waiting s
step s (release i) = release_handle s i

pub run : System → List Event → Option System
unfolding step
run s [] = some s
run s (e ∷ es) = elim (step s e) [ none ↦ none | some t ↦ run t es ]

abbrev pub start : ℤ → System
unfolding new_indexer_lane
start concurrency = record { lane = new_indexer_lane concurrency; handles = [] }
