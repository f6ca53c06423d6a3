-- ===== src/Pump/Viewers.antt =====
-- What a client that only watches can do to its session, whatever it sends.
use manymux.Prelude.{true, List, [], ◌∷◌, Option, none, Text, Bytes, ◌≡◌}
use manymux.Pump.{
  Pump, Codec, Step, goes_on, ends, parks, fails, not_now, Input, frame, hung_up, room, chunk,
  lagged, output_closed, renamed_elsewhere, names_changed, event, events_closed, tick, exited,
}
use manymux.Registry.{Outcome}
use manymux.Session.{Session}
use manymux.Session.Geometry.{Clients}
use manymux.Terminal.{Terminal}
use manymux.Wire.{Size}
use manymux.Wire.Tag

-- The part of a session that its clients work on: its name, its clients and size, and what is typed.
abbrev pub work : {V : Type 0} → Session V → Text × Clients × Size × Size × List Bytes
work s = (s.name, s.clients, s.size, s.size_tx, s.input)

module _ (T : Terminal) (codec : Codec) (lowercase : Text → Text)
    (rename : Text → Text → Outcome Text) (stored : Text → Bytes → Option Text) where
  open T use {Vt}

  abbrev P : Type 0
  P = Pump Vt

  -- A pump of a viewer with nothing to type, of a session whose work is the given one.
  pub record IsWatching (s : Session Vt) (p : P) : Type 0 where
    pub viewer : p.attachment.read_only ≡ true
    pub nothing_typed : p.pending_input ≡ none
    pub untouched : work p.session ≡ work s

  -- A session, after what was done to its name from elsewhere.
  abbrev renamed_by : Session Vt → Input → Session Vt
  renamed_by s (renamed_elsewhere to) = record s { name = to }
  renamed_by s (frame now tag body) = s
  renamed_by s hung_up = s
  renamed_by s (room now) = s
  renamed_by s (chunk bytes) = s
  renamed_by s lagged = s
  renamed_by s output_closed = s
  renamed_by s names_changed = s
  renamed_by s (event here e) = s
  renamed_by s events_closed = s
  renamed_by s (tick now) = s
  renamed_by s (exited code queued) = s

  abbrev pub renamed_to : Session Vt → List Input → Session Vt
  renamed_to s [] = s
  renamed_to s (input ∷ inputs) = renamed_to (renamed_by s input) inputs

  -- What is left is a viewer's, and of the given session; where no turn was taken that is the pump as it is.
  abbrev Leaves : Session Vt → P → Step Vt → Type 0
  Leaves s p (goes_on q sent) = IsWatching s q
  Leaves s p (ends q sent) = IsWatching s q
  Leaves s p (parks q) = IsWatching s q
  Leaves s p (fails q) = IsWatching s q
  Leaves s p not_now = IsWatching s p

  abbrev Holds : Session Vt → Step Vt → Type 0
  Holds s (goes_on p sent) = IsWatching s p
  Holds s (ends p sent) = IsWatching s p
  Holds s (parks p) = IsWatching s p
  Holds s (fails p) = IsWatching s p
  Holds s not_now = Unit
