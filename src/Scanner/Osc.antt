-- ===== src/Scanner/Osc.antt =====
-- src/node/events.rs: `Event`, `parse_osc` and `clean`, what an OSC payload says.
pub mod Clean
use manymux.Prelude.{
  ℕ, Bool, not, List, [], ◌∷◌, Option, none, some, Text, Bytes, codes, same, keep, take, ◌||◌,
  if◌then◌else◌,
}
use manymux.Std.Strings.{is_control, trim, split_once, strip_prefix}
use manymux.Std.Utf8.{from_utf8_lossy}

pub data Event : Type 0 where
  title : Text → Event
  bell : Event
  -- The title and the body.
  notify : Text → Text → Event

unfoldable pub clean : Text → Text
clean s = trim (take 200 (keep (λ c. not (is_control c)) s))

abbrev pub title_and_body : Text → Option (Text × Text) → Event
title_and_body rest none = notify (clean rest) (clean [])
title_and_body rest (some (name, body)) = notify (clean name) (clean body)

unfoldable pub parse_fields : Text → Text → Option Event
parse_fields ps pt =
    if same ps (codes "0") || same ps (codes "1") || same ps (codes "2")
    then some (title (clean pt))
    else if same ps (codes "9")
    then some (notify [] (clean pt))
    else if same ps (codes "777")
    then elim (strip_prefix (codes "notify;") pt) [
      | none ↦ none
      | some rest ↦ some (title_and_body rest (split_once b';' rest))
    ]
    else none

abbrev pub on_fields : Option (Text × Text) → Option Event
on_fields none = none
on_fields (some (ps, pt)) = parse_fields ps pt

unfoldable pub parse_osc : Bytes → Option Event
unfolding parse_fields
parse_osc payload = on_fields (split_once b';' (from_utf8_lossy payload))
