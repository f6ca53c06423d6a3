-- ===== src/Peers.antt =====
-- src/node/peers.rs, and what src/node/mod.rs does with it: the machines whose events are subscribed to.
-- A task is a number; the runtime says whether it is over.
pub mod Watching
use manymux.Prelude.{
  ℕ, zero, suc, ◌+◌, ◌-◌, ◌≤◌, Bool, true, false, not, ◌||◌, List, [], ◌∷◌, Option, none, some,
  Text, keep, any, same, length, get_elem?, leb, if◌then◌else◌,
}
use manymux.Registry.Entries.{lookup, insert}

-- Seconds.
abbrev pub retries : List ℕ
retries = 5 ∷ 15 ∷ 45 ∷ []

abbrev pub steady : ℕ
steady = 60

-- Of an attempt counted from one.
unfoldable pub retry_after : ℕ → Option ℕ
retry_after attempt = get_elem? retries (attempt - 1)

pub record Watcher : Type 0 where
  pub task : ℕ
  pub is_finished : Bool

abbrev pub Peers : Type 0
Peers = List (Text × Watcher)

abbrev pub is_wanted : Text → List Text → Bool
is_wanted host = any (same host)

abbrev runs : Option Watcher → Bool
runs none = false
runs (some watcher) = not watcher.is_finished

unfoldable pub watched : Peers → Text → Bool
watched peers host = runs (lookup host peers)

-- The machines to start watching, and the watchers that are left.
unfoldable pub sync : Peers → List Text → List Text × Peers
unfolding watched
sync peers wanted =
    let left = keep (λ e. is_wanted e.0 wanted) peers in
    (keep (λ host. not (watched left host)) wanted, left)

unfoldable pub watching : Peers → Text → ℕ → Peers
watching peers host task = insert host (record { task = task; is_finished = false }) peers

-- `Node::watch_host` on each, where `task` is the next task's number.
unfoldable pub watch_hosts : Peers → List Text → ℕ → Peers
unfolding watching
watch_hosts peers [] task = peers
watch_hosts peers (host ∷ hosts) task = watch_hosts (watching peers host task) hosts (suc task)

unfoldable pub watch_peers : Peers → List Text → ℕ → Peers
unfolding sync watch_hosts
watch_peers peers wanted task = let (new, left) = sync peers wanted in watch_hosts left new task

-- `Node::rewatch`: what a client reached, of the machines on the list.
unfoldable pub rewatch : Peers → List Text → List Text → ℕ → Peers
unfolding watched watching
rewatch peers [] wanted task = peers
rewatch peers (host ∷ answered) wanted task =
    let skipped = rewatch peers answered wanted task in
    let started = rewatch (watching peers host task) answered wanted (suc task) in
    if not (is_wanted host wanted) || watched peers host then skipped else started

-- One turn of `Node::watch`: the attempts that failed so far and how long the subscription stood, in
-- seconds; then the count, and the delay before the next try, if there is one.
unfoldable pub turn : ℕ → ℕ → ℕ × Option ℕ
unfolding retry_after
turn failed stood =
    let failed = suc (if leb steady stood then 0 else failed) in (failed, retry_after failed)

pub data Watched : Type 0 where
  -- Given up, after so many of the subscriptions.
  gave_up : ℕ → Watched
  -- Still at it when the list ends, with the failed attempts.
  waiting : ℕ → Watched

abbrev pub one_more : Watched → Watched
one_more (gave_up n) = gave_up (suc n)
one_more (waiting failed) = waiting failed

abbrev pub continue : Option ℕ → Watched → Watched
continue none rest = gave_up 1
continue (some delay) rest = one_more rest

-- `Node::watch` over subscriptions that stood for so long, one after another.
unfoldable pub watch : ℕ → List ℕ → Watched
unfolding turn
watch failed [] = waiting failed
watch failed (stood ∷ subscriptions) =
    let (failed, delay) = turn failed stood in continue delay (watch failed subscriptions)
