-- ===== src/Groups.antt =====
-- src/client/groups.rs: which sessions are treated as one piece of work. The file and its lock are left
-- out: `refresh` takes the groups that the file holds when the lock has been taken.
pub mod Membership
pub mod Refresh
use manymux.Hosts.{as_listed}
use manymux.Prelude.{
  ℕ, suc, ◌+◌, ◌/◌, Bool, true, false, not, ◌&&◌, ◌||◌, List, [], ◌∷◌, ◌++◌, Option, none, some,
  Text, codes, any, keep, map, length, same, ltb, if◌then◌else◌, ◌==◌,
}
use manymux.Registry.Order.{before}
use manymux.Session.{Info}
use manymux.Std.Strings.{trim, strip_prefix}

pub record Member : Type 0 where
  pub host : Text
  pub pid : ℕ
  -- Seconds since the epoch.
  pub started : ℕ

-- A session of a listing, with the machine that it is on.
pub record HostedSession : Type 0 where
  pub on : Text
  pub session : Info

-- Whole seconds of a time that is counted in nanoseconds.
unfoldable pub seconds : ℕ → ℕ
seconds at = at / 1000000000

-- The derived equality and order.
unfoldable pub same_member : Member → Member → Bool
same_member a b = same a.host b.host && (a.pid == b.pid && a.started == b.started)

unfoldable pub member_before : Member → Member → Bool
unfolding before
member_before a b =
    before a.host b.host
    || (same a.host b.host && (ltb a.pid b.pid || (a.pid == b.pid && ltb a.started b.started)))

-- `BTreeSet<Member>`, in its order.
abbrev pub Members : Type 0
Members = List Member

abbrev pub contains : Member → Members → Bool
contains m = any (same_member m)

unfoldable pub insert_member : Member → Members → Members
unfolding member_before
insert_member m [] = m ∷ []
insert_member m (n ∷ ns) =
    let rest = insert_member m ns in
    if same_member m n then n ∷ ns else if member_before m n then m ∷ n ∷ ns else n ∷ rest

-- `BTreeMap<String, Members>`, in its order.
abbrev pub Groups : Type 0
Groups = List (Text × Members)

unfoldable pub forget_the_empty : Groups → Groups
forget_the_empty [] = []
forget_the_empty ((name, []) ∷ groups) = forget_the_empty groups
forget_the_empty ((name, m ∷ ms) ∷ groups) = (name, m ∷ ms) ∷ forget_the_empty groups

-- `entry(name).or_default().members.insert(m)`.
unfoldable pub insert_into : Text → Member → Groups → Groups
unfolding insert_member before
insert_into name m [] = (name, m ∷ []) ∷ []
insert_into name m ((k, ms) ∷ groups) =
    let rest = insert_into name m groups in
    if same name k
    then (k, insert_member m ms) ∷ groups
    else if before name k
    then (name, m ∷ []) ∷ (k, ms) ∷ groups
    else (k, ms) ∷ rest

abbrev pub retain : (Member → Bool) → Groups → Groups
retain p = map (λ g. (g.0, keep p g.1))

abbrev pub lookup_group : Text → Groups → Option Members
lookup_group name [] = none
lookup_group name ((k, ms) ∷ groups) = if same name k then some ms else lookup_group name groups

pub data Refusal : Type 0 where
  no_name slash_in_name : Refusal

pub data Assigned : Type 0 where
  assigned : Text → Groups → Assigned
  refused : Refusal → Assigned

abbrev or_trimmed : Text → Option Text → Text
or_trimmed text none = text
or_trimmed text (some rest) = rest

-- The name of a group, as a prompt's answer spells it.
unfoldable pub group_name : Text → Text
group_name group = trim (or_trimmed (trim group) (strip_prefix (b'@' ∷ []) (trim group)))

-- `retain` on `before`'s groups, where `current` still has them.
unfoldable pub retain_in : Text → (Member → Bool) → Groups → Groups
retain_in name p [] = []
retain_in name p ((k, ms) ∷ groups) =
    let rest = retain_in name p groups in
    if same name k then (k, keep p ms) ∷ groups else (k, ms) ∷ rest

abbrev pub in_group : Member → Option Members → Bool
in_group m none = false
in_group m (some ms) = contains m ms

-- `refresh_at`, one of `before`'s groups after another.
unfoldable pub refresh_groups : Groups → Groups → Groups → Groups
unfolding retain_in
refresh_groups [] survivors current = current
refresh_groups ((name, previous) ∷ before) survivors current = refresh_groups before survivors (
    retain_in name (λ m. not (contains m previous) || in_group m (lookup_group name survivors))
      current)

module _ (this_machine : Text) where
  unfoldable pub member_of : Text → Info → Member
  unfolding seconds
  member_of host session = record {
    host = as_listed this_machine host;
    pid = session.pid;
    started = seconds session.started;
  }

  unfoldable pub clear : Groups → Text → Info → Groups
  unfolding forget_the_empty
  clear groups host session =
      forget_the_empty (retain (λ m. not (same_member (member_of host session) m)) groups)

  unfoldable pub assign : Groups → Text → Text → Info → Assigned
  unfolding clear insert_into group_name
  assign groups group host session =
      let name = group_name group in
      if same name []
      then refused no_name
      else if any (λ c. c == b'/') name
      then refused slash_in_name
      else assigned name (insert_into name (member_of host session) (clear groups host session))

  unfoldable pub set : Groups → Option Text → Text → Info → Assigned
  unfolding assign clear
  set groups (some group) host session = assign groups group host session
  set groups none host session = assigned [] (clear groups host session)

  unfoldable pub group_of : Groups → Text → Info → Option Text
  group_of [] host session = none
  group_of ((name, ms) ∷ groups) host session =
      let rest = group_of groups host session in
      if contains (member_of host session) ms then some name else rest

  abbrev pub live_members : List HostedSession → Members
  live_members = map (λ hosted. member_of hosted.on hosted.session)

  unfoldable pub prune : Groups → List Text → List HostedSession → Groups
  unfolding forget_the_empty
  prune groups reached listing =
      forget_the_empty
        (retain (λ m. not (any (same m.host) reached) || contains m (live_members listing)) groups)

  unfoldable pub tally : Groups → List HostedSession → List (Text × ℕ)
  tally [] listing = []
  tally ((name, ms) ∷ groups) listing =
      let count = length (keep (λ m. contains m ms) (live_members listing)) in
      let rest = tally groups listing in if ltb 0 count then (name, count) ∷ rest else rest

  unfoldable pub refresh : Groups → Groups → List Text → List HostedSession → Groups
  unfolding refresh_groups forget_the_empty prune
  refresh current before reached listing =
      forget_the_empty (refresh_groups before (prune before reached listing) current)
