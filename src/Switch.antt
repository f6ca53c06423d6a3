-- ===== src/Switch.antt =====
-- src/client/switch.rs: which session a switch key lands on. `Cycle` is the listing that a client keeps, the
-- session it is in and the trail of those it has been in; `step` is where a motion goes, and the rest is
-- what happens to a cycle.
pub mod Places
pub mod Tab
pub mod Trail
pub mod Narrowed
use manymux.Keys.{Motion}
use manymux.Prelude.{
  ℕ, zero, suc, ◌+◌, ◌-◌, ◌%◌, Bool, true, false, not, ◌&&◌, ◌||◌, List, [], ◌∷◌, Option, none,
  some, Text, length, get_elem?, any, keep, first, map, same, if◌then◌else◌, ◌>>=◌, then_some,
  head?, has_some,
}

pub record Located : Type 0 where
  pub host : Text
  pub session : Text

unfoldable pub same_place : Located → Located → Bool
same_place a b = same a.host b.host && same a.session b.session

-- Where a step lands in a list of so many, given where one is in it.
unfoldable pub wrapped : Bool → Option ℕ → ℕ → Option ℕ
wrapped forwards at zero = none
wrapped true (some i) (suc n) = some ((i + 1) % suc n)
wrapped true none (suc n) = some 0
wrapped false (some i) (suc n) = some ((i + suc n - 1) % suc n)
wrapped false none (suc n) = some n

pub record Entry : Type 0 where
  pub at : Located
  pub group : Option Text

pub record Cycle : Type 0 where
  pub sessions : List Entry
  pub current : Located
  -- Where the run has been, most recent first.
  pub trail : List Located
  pub focus : Option Text

unfoldable pub new_cycle : Located → Cycle
new_cycle current = record { sessions = []; current = current; trail = []; focus = none }

unfoldable pub focus_on : Cycle → Option Text → Cycle
focus_on c group = record c { focus = group }

unfoldable pub in_group : Text → Entry → Bool
in_group group e = elim e.group [ none ↦ false | some g ↦ same g group ]

-- `iter().position(...)`.
unfoldable pub position {ℓ} : {A : Type ℓ} → (A → Bool) → List A → Option ℕ
position p [] = none
position p (x ∷ xs) =
    let later = position p xs in if p x then some 0 else (do i ← later; some (suc i))

unfoldable pub visible_in : List Entry → Option Text → List Entry
unfolding in_group
visible_in sessions none = sessions
visible_in sessions (some group) = keep (in_group group) sessions

unfoldable pub visible : Cycle → List Entry
unfolding visible_in
visible c = visible_in c.sessions c.focus

unfoldable pub holds : Cycle → Located → Bool
unfolding visible same_place
holds c at = any (λ e. same_place e.at at) (visible c)

-- The session that the run is in is listed, and not in this group.
unfoldable pub has_left : List Entry → Located → Text → Bool
unfolding same_place in_group
has_left sessions current group = elim (first (λ e. same_place e.at current) sessions) [
  | none ↦ false
  | some here ↦ not (in_group group here)
]

-- The group that the run is narrowed to after a listing.
unfoldable pub narrowed : List Entry → Located → Option Text → Option Text
unfolding has_left in_group
narrowed sessions current none = none
narrowed sessions current (some group) =
    if not (any (in_group group) sessions) || has_left sessions current group
    then none
    else some group

unfoldable pub refresh : Cycle → List Entry → Cycle
unfolding narrowed
refresh c sessions = record c { sessions = sessions; focus = narrowed sessions c.current c.focus }

-- The sessions that tab walks: the group's, or this machine's where there is no group.
unfoldable pub here_in : Option Text → Text → List Entry → List Entry
here_in (some group) host visible = visible
here_in none host visible = keep (λ e. same e.at.host host) visible

unfoldable pub here : Cycle → List Entry
unfolding here_in visible
here c = here_in c.focus c.current.host (visible c)

unfoldable pub walk : Cycle → Bool → Option Located
unfolding here same_place
walk c forwards = do
  index ← wrapped forwards (position (λ e. same_place e.at c.current) (here c)) (length (here c))
  e ← get_elem? (here c) index
  some e.at

-- The machines, each where it first appears. `seen` are those that were met.
unfoldable pub hosts_of : List Text → List Entry → List Text
hosts_of seen [] = []
hosts_of seen (e ∷ es) =
    let more = hosts_of (e.at.host ∷ seen) es in
    let rest = hosts_of seen es in
    if any (λ h. same h e.at.host) seen then rest else e.at.host ∷ more

unfoldable pub hop_host : Cycle → Bool → Option Located
unfolding visible hosts_of
hop_host c forwards = do
  let hosts = hosts_of [] (visible c)
  index ← wrapped forwards (position (λ h. same h c.current.host) hosts) (length hosts)
  host ← get_elem? hosts index
  e ← (if same host c.current.host then none else first (λ e. same e.at.host host) (visible c))
  some e.at

unfoldable pub towards : Cycle → Motion → Option Located
unfolding walk hop_host
towards c Motion.last = head? c.trail
towards c Motion.next = walk c true
towards c Motion.previous = walk c false
towards c Motion.next_host = hop_host c true
towards c Motion.previous_host = hop_host c false

unfoldable pub step : Cycle → Motion → Option Located
unfolding towards same_place
step c motion = do next ← towards c motion; then_some (not (same_place next c.current)) next

unfoldable pub moved_to : Cycle → Located → Cycle
unfolding same_place
moved_to c next = record c {
  current = next;
  trail = c.current ∷ keep (λ at. not (same_place at next)) c.trail;
}

unfoldable pub started : Cycle → Located → Cycle
unfolding moved_to
started c at = record (moved_to c at) { focus = none }

unfoldable pub recent : Cycle → List Located
recent c = c.current ∷ c.trail

unfoldable pub rename_place : Located → Text → Located → Located
unfolding same_place
rename_place was name at = if same_place at was then record at { session = name } else at

unfoldable pub rename_entry : Located → Text → Entry → Entry
unfolding rename_place
rename_entry was name e = record e { at = rename_place was name e.at }

unfoldable pub renamed_at : Cycle → Located → Text → Cycle
unfolding rename_entry
renamed_at c was name = record c {
  current = rename_place was name c.current;
  sessions = map (rename_entry was name) c.sessions;
  trail = map (rename_place was name) c.trail;
}

unfoldable pub renamed : Cycle → Text → Cycle
unfolding renamed_at
renamed c name = renamed_at c c.current name

unfoldable pub forget : Cycle → Located → Cycle
unfolding same_place
forget c gone = record c {
  sessions = keep (λ e. not (same_place e.at gone)) c.sessions;
  trail = keep (λ at. not (same_place at gone)) c.trail;
}

unfoldable pub fall_back_to : Cycle → List Located → Option Located × Cycle
unfolding forget
fall_back_to c [] = (none, c)
fall_back_to c (back ∷ trail) =
    let c' = forget (record c { current = back; trail = trail }) c.current in (some c'.current, c')

unfoldable pub fall_back : Cycle → Option Located × Cycle
unfolding fall_back_to
fall_back c = fall_back_to c c.trail

unfoldable pub undo_to : Cycle → List Located → Cycle
undo_to c [] = c
undo_to c (back ∷ trail) = record c { current = back; trail = trail }

unfoldable pub undo : Cycle → Cycle
unfolding undo_to
undo c = undo_to c c.trail
