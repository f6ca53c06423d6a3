-- ===== src/Hosts/Target.antt =====
-- src/hosts.rs: `Target`, how a session is spelled on a command line, and `Named`, a half of it.
use manymux.Prelude.{not, ◌&&◌, [], ◌∷◌, ◌++◌, Option, none, some, Text, same, if◌then◌else◌}
use manymux.Std.Strings.{split_once, strip_prefix}

pub data Named : Type 0 where
  session : Text → Named
  group : Text → Named

pub data Error : Type 0 where
  -- `@` with nothing behind it.
  no_group : Error
  half_written : Error

pub data Result {ℓ} (A : Type ℓ) : Type ℓ where
  ok : A → Result A
  err : Error → Result A

-- `Named::parse`, on what is behind an `@`.
unfoldable pub named_of : Text → Option Text → Result Named
named_of text none = ok (session text)
named_of text (some []) = err no_group
named_of text (some (c ∷ name)) = ok (group (c ∷ name))

unfoldable pub parse_named : Text → Result Named
unfolding named_of
parse_named text = named_of text (strip_prefix (b'@' ∷ []) text)

pub record Target : Type 0 where
  pub host : Option Named
  pub at : Named

-- The `?` on the halves.
unfoldable pub here : Result Named → Result Target
here (err e) = err e
here (ok at) = ok (record { host = none; at = at })

unfoldable pub there : Result Named → Result Named → Result Target
there (err e) at = err e
there (ok host) (err e) = err e
there (ok host) (ok at) = ok (record { host = some host; at = at })

unfoldable pub parse_parts : Text → Option (Text × Text) → Result Target
unfolding here there parse_named
parse_parts text none = here (parse_named text)
parse_parts text (some (host, at)) =
    if not (same host []) && not (same at [])
    then there (parse_named host) (parse_named at)
    else err half_written

unfoldable pub parse : Text → Result Target
unfolding parse_parts
parse text = parse_parts text (split_once b'/' text)

-- How a target is spelled.
abbrev pub spell_named : Named → Text
spell_named (session name) = name
spell_named (group name) = b'@' ∷ name

abbrev pub spell : Option Named → Named → Text
spell none at = spell_named at
spell (some host) at = spell_named host ++ (b'/' ∷ spell_named at)
