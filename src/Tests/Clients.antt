-- ===== src/Tests/Clients.antt =====
-- Witnesses on the clients' side and on the machines that a node watches.
use manymux.Connections.{Connections, park}
use manymux.Connections.Capacity.{IsKept, park-IsKept}
use manymux.Groups.{
  Member, Groups, assign, group_of, refresh, member_of, group_name, insert_into, clear, same_member,
}
use manymux.Groups.Membership.{times, assign-moves}
use manymux.Groups.Refresh.{holds, kept, holds-refresh}
use manymux.Hosts.{qualified, as_listed, is_this_machine}
use manymux.Hosts.Spelling.{parse-qualified}
use manymux.Hosts.Target.{Named, ok, parse}
use manymux.Peers.{Peers, watch, gave_up, waiting, turn, retry_after}
use manymux.Peers.Watching.{watch-gives_up}
use manymux.Prelude.{
  ℕ, ◌+◌, ◌++◌, List, length, true, not, ◌&&◌, ◌||◌, [], ◌∷◌, none, some, codes, same,
  if◌then◌else◌, ◌≡◌, refl, arith,
}
use manymux.Registry.Entries.{contains_key}
use manymux.Session.{Info}
use manymux.Shell.{join, all_safe, safe}
use manymux.Shell.Commands.{command, is_taken, command-join, assigns}
use manymux.Std.Utf8.{as_bytes}
use manymux.Std.Strings.{strip_prefix, trim, trim_start, trim_end, is_whitespace}

command-join_example : command (join (codes "echo" ∷ codes "it's $HOME" ∷ [] ∷ [])) ≡ (
    if is_taken (codes "echo" ∷ codes "it's $HOME" ∷ [] ∷ [])
    then none
    else some (codes "echo" ∷ codes "it's $HOME" ∷ [] ∷ []))
command-join_example = command-join (codes "echo" ∷ codes "it's $HOME" ∷ [] ∷ [])

-- An assignment is no command.
taken_run : is_taken (codes "A=b" ∷ []) ≡ true
unfolding is_taken assigns all_safe safe as_bytes same
taken_run = refl

parse-qualified_example :
    parse (qualified (codes "box") (codes "den") (codes "build"))
    ≡ ok (record {
      host =
          if is_this_machine (codes "box") (codes "den")
          then none
          else some (Named.session (codes "den"));
      at = Named.session (codes "build");
    })
parse-qualified_example =
    parse-qualified (codes "box") (codes "den") (codes "build") (omega arith) (omega arith)
      (omega arith) (omega arith)

abbrev build : Info
build = record {
  name = codes "build";
  title = [];
  command = codes "make";
  pid = 41823;
  size = record { cols = 80; rows = 24 };
  attached = 0;
  idle = 0;
  bells = 0;
  started = 1000;
}

abbrev other : Member
other = record { host = codes "den"; pid = 7; started = 9 }

abbrev two_groups : Groups
two_groups = (codes "pi", other ∷ []) ∷ []

abbrev joined : Groups
joined =
    insert_into (codes "pi") (member_of (codes "box") (codes "box") build)
      (clear (codes "box") two_groups (codes "box") build)

assign-moves_example :
    (group_of (codes "box") joined (codes "box") build ≡ some (codes "pi"))
    × (times (member_of (codes "box") (codes "box") build) joined ≡ 1)
    × (times other joined ≡ times other two_groups)
unfolding assign group_name trim trim_start trim_end strip_prefix is_whitespace member_of
    same_member as_listed same
assign-moves_example =
    assign-moves (codes "box") two_groups (codes " @pi ") (codes "box") build other refl refl

holds-refresh_example :
    holds (codes "pi") other (refresh (codes "box") two_groups [] (codes "den" ∷ []) []) ≡ (
      holds (codes "pi") other two_groups
      && (not (holds (codes "pi") other []) || kept (codes "box") (codes "den" ∷ []) [] other))
unfolding contains_key
holds-refresh_example =
    holds-refresh (codes "box") two_groups [] (codes "den" ∷ []) [] (codes "pi") other (refl, tt) tt

abbrev watchers : Peers
watchers = (codes "den", record { task = 1; is_finished = true }) ∷ []

-- Two failures, a subscription that stood, one more failure.
abbrev unsteady : List ℕ
unsteady = 0 ∷ 5 ∷ 70 ∷ 59 ∷ []

watch-gives_up_example :
    (watch 0 (unsteady ++ 1 ∷ []) ≡ waiting 3)
    × (watch 0 ((unsteady ++ 1 ∷ []) ++ 2 ∷ 3 ∷ []) ≡ gave_up (length (unsteady ++ 1 ∷ []) + 1))
    × (watch 0 (unsteady ++ 60 ∷ []) ≡ waiting 1)
unfolding watch turn retry_after
watch-gives_up_example =
    watch-gives_up unsteady 2 (1 ∷ []) 2 (3 ∷ []) 60 refl refl (omega arith) (omega arith)
      (omega arith)

abbrev parked : Connections ℕ
parked = (codes "den", record { connection = 1; since = 10 }) ∷ []

park-IsKept_example : IsKept 50 (park parked 50 (codes "box") 2)
unfolding contains_key
park-IsKept_example = park-IsKept parked 50 (codes "box") 2 (omega arith) (refl, tt)
