-- ===== src/Tests/Pumps.antt =====
-- Witnesses on the pump of src/node/mod.rs.
use manymux.Paste.{empty}
use manymux.Prelude.{Bool, true, false, List, [], ◌∷◌, none, some, codes, ◌≡◌, refl}
use manymux.Pump.{
  Pump, Codec, Input, frame, room, tick, renamed_elsewhere, names_changed, run, step,
}
use manymux.Registry.{ok}
use manymux.Session.{Session, start}
use manymux.Terminal.{Terminal}
use manymux.Wire.Tag

abbrev blank_screen : Terminal
blank_screen = record {
  Vt = Unit;
  new = λ size. tt;
  feed = λ vt text. (vt, 0);
  resize = λ vt size. vt;
  lines = λ vt. [];
  rows = λ vt. 0;
  dump = λ vt. [];
}

-- Messages whose bodies all say the same.
abbrev codec : Codec
codec = record {
  size_of = λ body. some (record { cols = 10; rows = 10 });
  view_request = λ body. none;
  needle = λ body. some body;
  wanted = λ body. some body;
  kind = λ body. some body;
  put_size = λ size. [];
  put_view = λ view. [];
  put_found = λ found. [];
  put_renamed = λ renamed. [];
  put_event = λ event. [];
  put_code = λ code. [];
}

abbrev shown : Session Unit
shown = start blank_screen (record { cols = 80; rows = 24 }) 0 (codes "build") (codes "make") 7 1

abbrev pump : Bool → Pump Unit
pump read_only = record {
  session = shown;
  name_unseen = false;
  attachment = record { id = 3; read_only = read_only };
  incoming = empty;
  pending_input = none;
  answers_pings = false;
  last_heard = 0;
  watching = true;
}

abbrev inputs : List Input
inputs =
    frame 1 Tag.bytes (codes "rm")
    ∷ frame 2 Tag.resize []
    ∷ frame 3 Tag.rename (codes "mine")
    ∷ room 4
    ∷ renamed_elsewhere (codes "ours")
    ∷ names_changed
    ∷ tick 15
    ∷ []

abbrev ended : Bool → Pump Unit
ended read_only =
    run blank_screen codec (λ s. s) (λ name to. ok to) (λ kind file. some (codes "/p"))
      (pump read_only) inputs

-- Somebody who works in the session does all of that, as far as the bytes that wait let the next
-- frame be read.
ended_run : (ended false).session.input ≡ codes "rm" ∷ []
unfolding run step start
ended_run = refl
