-- ===== src/Tests/Switches.antt =====
-- Witnesses on the sessions that a switch key walks: src/client/switch.rs.
use manymux.Keys.{Motion}
use manymux.Prelude.{
  ℕ, ◌<◌, true, List, [], ◌∷◌, none, some, codes, any, length, ◌≡◌, ◌≢◌, refl, same,
}
use manymux.Switch.{
  Located, Entry, Cycle, new_cycle, refresh, moved_to, recent, same_place, here, step, visible,
  holds, position, in_group, visible_in, here_in, has_left, narrowed, wrapped,
}
use manymux.Switch.Narrowed.{refresh-agrees}
use manymux.Switch.Tab.{step-step_back, tabs, tabs_reach}
use manymux.Switch.Trail.{AreDistinct, Reachable, starts, happens, hopped, Reachable-AreDistinct}

abbrev web : Located
web = record { host = codes "den"; session = codes "web" }

abbrev api : Located
api = record { host = codes "den"; session = codes "api" }

abbrev logs : Located
logs = record { host = codes "pi"; session = codes "logs" }

abbrev listing : List Entry
listing =
    record { at = web; group = some (codes "work") }
    ∷ record { at = api; group = none }
    ∷ record { at = logs; group = some (codes "work") }
    ∷ []

-- In the group, on the first of its two machines.
abbrev working : Cycle
working = record {
  sessions = listing;
  current = web;
  trail = api ∷ [];
  focus = some (codes "work");
}

step-step_back_example : step (moved_to working logs) Motion.previous ≡ some web
unfolding here here_in visible visible_in in_group same same_place position step wrapped
step-step_back_example = step-step_back working true 0 logs (refl, (refl, tt)) refl refl

tabs_reach_example : (k : ℕ) × (k < length (here working)) × ((tabs k working).current ≡ logs)
unfolding here here_in visible visible_in in_group same same_place position
tabs_reach_example =
    tabs_reach working 0 1 (record { at = logs; group = some (codes "work") }) (refl, (refl, tt))
      refl refl

refresh-agrees_example :
    (visible (refresh working listing) ≢ [])
    × (any (λ e. same_place e.at web) listing ≡ true → holds (refresh working listing) web ≡ true)
unfolding refresh narrowed in_group has_left same_place same
refresh-agrees_example = refresh-agrees working listing (codes "work") refl

hopped_twice : Reachable (moved_to (moved_to (new_cycle web) api) web)
unfolding new_cycle moved_to same_place same
hopped_twice =
    happens (moved_to (new_cycle web) api) (moved_to (moved_to (new_cycle web) api) web)
      (happens (new_cycle web) (moved_to (new_cycle web) api) (starts web) (hopped api refl))
      (hopped web refl)

Reachable-AreDistinct_example : AreDistinct (recent (moved_to (moved_to (new_cycle web) api) web))
Reachable-AreDistinct_example =
    Reachable-AreDistinct (moved_to (moved_to (new_cycle web) api) web) hopped_twice
