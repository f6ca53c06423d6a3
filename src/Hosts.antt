-- ===== src/Hosts.antt =====
-- src/hosts.rs: names of machines. The machine's own name comes from the operating system and is a
-- parameter.
pub mod Target
pub mod Spelling
use manymux.Prelude.{
  ℕ, Bool, true, false, not, ◌&&◌, ◌||◌, List, [], ◌∷◌, ◌++◌, Option, none, some, Text, codes, any,
  keep, same, if◌then◌else◌, ◌==◌,
}
use manymux.Registry.Order.{before}
use manymux.Std.Strings.{trim, is_whitespace}

abbrev pub local_name : Text
local_name = codes "local"

-- `Hosts`, in the order that its set has.
abbrev pub Hosts : Type 0
Hosts = List Text

unfoldable pub insert_host : Text → Hosts → Hosts
unfolding before
insert_host host [] = host ∷ []
insert_host host (h ∷ hosts) =
    let rest = insert_host host hosts in
    if same host h then h ∷ hosts else if before host h then host ∷ h ∷ hosts else h ∷ rest

unfoldable pub remove_host : Text → Hosts → Hosts
remove_host host = keep (λ h. not (same host h))

abbrev pub has : Text → Hosts → Bool
has host = any (same host)

pub data Refusal : Type 0 where
  this_one no_destination : Refusal

pub data Added : Type 0 where
  added : Hosts → Added
  refused : Refusal → Added

module _ (this_machine : Text) where
  unfoldable pub is_this_machine : Text → Bool
  is_this_machine name = same name local_name || same name this_machine

  unfoldable pub qualified : Text → Text → Text
  unfolding is_this_machine
  qualified host name = if is_this_machine host then name else host ++ (b'/' ∷ name)

  unfoldable pub same_machine : Text → Text → Bool
  unfolding is_this_machine
  same_machine named at = same named at || (is_this_machine named && is_this_machine at)

  unfoldable pub as_listed : Text → Text
  unfolding is_this_machine
  as_listed host = if is_this_machine host then this_machine else host

  unfoldable pub add : Hosts → Text → Added
  unfolding is_this_machine insert_host
  add hosts host =
      let host = trim host in
      if is_this_machine host
      then refused this_one
      else if same host [] || any (λ c. c == b'/') host || any is_whitespace host
      then refused no_destination
      else added (insert_host host hosts)
