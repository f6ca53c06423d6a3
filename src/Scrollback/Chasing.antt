-- ===== src/Scrollback/Chasing.antt =====
-- src/client/scroll.rs: `chase`, the view moving under a drag that is held at its edge.
use manymux.Keys.{Spot}
use manymux.Prelude.{ℕ, ◌+◌, ◌-◌, ◌/◌, min, none, some, ltb, leb, ◌==◌, if◌then◌else◌}
use manymux.Scrollback.{Scrollback, up, down, copy_lines}
use manymux.Scrollback.Selecting.{select_to, stop_chasing, spans}

pub data Chased : Type 0 where
  moved : Chased
  stopped : Chased
  full : Chased

abbrev pub faster_every : ℕ
faster_every = 4

abbrev pub fastest : ℕ
fastest = 12

unfoldable pub pace : ℕ → ℕ
pace chased = min (1 + chased / faster_every) fastest

-- Towards the edge that the drag is held at, and away from it.
abbrev pub onward : Spot → Scrollback → ℕ → Scrollback
onward spot s lines = if leb spot.row 1 then up s lines else down s lines

abbrev pub backward : Spot → Scrollback → ℕ → Scrollback
backward spot s lines = if leb spot.row 1 then down s lines else up s lines

unfoldable pub held_to : Scrollback → Spot → Chased × Scrollback
held_to s spot =
    let over = spans s - copy_lines in
    if ltb 0 over
    then (Chased.full, stop_chasing (select_to (backward spot s over) spot))
    else (Chased.moved, s)

unfoldable pub chase_at : Scrollback → Spot → Chased × Scrollback
unfolding pace held_to
chase_at s spot =
    let moved_on = onward spot s (pace s.chased) in
    if moved_on.offset == s.offset
    then (Chased.stopped, stop_chasing moved_on)
    else held_to (select_to moved_on spot) spot

unfoldable pub chase : Scrollback → Chased × Scrollback
unfolding chase_at
chase s = elim s.chasing [
  | none ↦ (Chased.stopped, s)
  | some spot ↦ chase_at (record s { chased = s.chased + 1 }) spot
]
