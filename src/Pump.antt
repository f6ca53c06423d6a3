-- ===== src/Pump.antt =====
-- src/node/mod.rs: `pump_attachment`, which moves bytes between an attached client and its session. Each
-- branch of its `select!` is one input, at the time it is taken, and so is a rename of the session that comes
-- from elsewhere in between; what is written to the client is the second result. Messages are MessagePack by `rmp_serde`, and are parameters, as are the screen model
-- and the directory of pastes.
pub mod Viewers
use manymux.History.{ViewRequest, View, Found}
use manymux.Paste.{Paste, Finished, write, over_limit, no_bytes, typed, take, finish}
use manymux.Prelude.{
  ℕ, suc, ◌+◌, ◌-◌, ◌≤◌, Bool, true, false, not, ◌&&◌, List, [], ◌∷◌, ◌++◌, Option, none, some,
  Text, Bytes, same, ltb, leb, length, if◌then◌else◌, ◌==◌,
}
use manymux.Registry.{Outcome, ok, err, Error}
use manymux.Scanner.{bracketed_paste}
use manymux.Session.{Session, Attachment, SessionEvent, input_backlog}
use manymux.Session.Attachments.{resize, resync, window, find}
use manymux.Std.Utf8.{as_bytes}
use manymux.Terminal.{Terminal}
use manymux.Wire.{Size}
use manymux.Wire.Tag

-- Seconds.
abbrev pub silent_for : ℕ
silent_for = 45

pub data Renamed : Type 0 where
  name : Text → Renamed
  -- Why the registry refused, or nothing for a client that only watches.
  refused : Option Error → Renamed

-- What the messages' bodies say, and how answers are written.
pub record Codec : Type 0 where
  pub size_of : Bytes → Option Size
  pub view_request : Bytes → Option ViewRequest
  pub needle : Bytes → Option Text
  pub wanted : Bytes → Option Text
  pub kind : Bytes → Option Text
  pub put_size : Size → Bytes
  pub put_view : View → Bytes
  pub put_found : Found → Bytes
  pub put_renamed : Renamed → Bytes
  pub put_event : SessionEvent → Bytes
  pub put_code : ℕ → Bytes

pub record Pump (V : Type 0) : Type 0 where
  -- What the session is now: its name is what `attachment.name()` reads.
  pub session : Session V
  -- Whether `names` holds a change that was not told to the client.
  pub name_unseen : Bool
  pub attachment : Attachment
  pub incoming : Paste
  pub pending_input : Option Bytes
  pub answers_pings : Bool
  pub last_heard : ℕ
  pub watching : Bool

-- A frame to the client: its tag and its body.
abbrev pub Sent : Type 0
Sent = List (ℕ × Bytes)

pub data Step (V : Type 0) : Type 0 where
  goes_on : Pump V → Sent → Step V
  -- The loop is left, and the client detached.
  ends : Pump V → Sent → Step V
  parks : Pump V → Step V
  -- A message that cannot be read, a client that stopped answering, or a session that takes nothing.
  fails : Pump V → Step V
  -- The branch is switched off, or what it waits for is not there.
  not_now : Step V

-- What is queued for the client: output, or that it fell behind.
pub data Queued : Type 0 where
  output : Bytes → Queued
  behind : Queued

pub data Input : Type 0 where
  -- A frame, read at the time.
  frame : ℕ → ℕ → Bytes → Input
  -- The client has hung up.
  hung_up : Input
  -- Room in the session's queue, at the time.
  room : ℕ → Input
  chunk : Bytes → Input
  lagged : Input
  output_closed : Input
  -- The session got this name, by a rename that is not of this client. No branch is taken.
  renamed_elsewhere : Text → Input
  names_changed : Input
  -- An event of the machine that is named, and whether that is this one.
  event : Bool → SessionEvent → Input
  events_closed : Input
  tick : ℕ → Input
  exited : ℕ → List Queued → Input

abbrev pub is_some : Option Bytes → Bool
is_some none = false
is_some (some bytes) = true

module _ (T : Terminal) (codec : Codec) (lowercase : Text → Text)
    (rename : Text → Text → Outcome Text) (stored : Text → Bytes → Option Text) where
  open T use {Vt}

  abbrev P : Type 0
  P = Pump Vt

  unfoldable pub on_resize : P → Option Size → Step Vt
  on_resize p none = fails p
  on_resize p (some size) =
      let (took, session) = resize T p.session p.attachment size in
      goes_on (record p { session = session }) ((Tag.size, codec.put_size took) ∷ [])

  unfoldable pub on_view : P → Option ViewRequest → Step Vt
  on_view p none = fails p
  on_view p (some request) =
      let (view, session) = window T p.session request in
      goes_on (record p { session = session }) ((Tag.view, codec.put_view view) ∷ [])

  unfoldable pub on_find : P → Option Text → Step Vt
  on_find p none = fails p
  on_find p (some needle) =
      let (found, session) = find T lowercase p.session needle in
      goes_on (record p { session = session }) ((Tag.find, codec.put_found found) ∷ [])

  -- What the registry answers; the session knows its new name, which counts as told.
  unfoldable pub on_renamed : P → Outcome Text → Step Vt
  on_renamed p (ok to) =
      goes_on (record p { session = record (p.session) { name = to }; name_unseen = false })
        ((Tag.rename, codec.put_renamed (name to)) ∷ [])
  on_renamed p (err e) = goes_on p ((Tag.rename, codec.put_renamed (refused (some e))) ∷ [])

  unfoldable pub on_rename : P → Option Text → Step Vt
  unfolding on_renamed
  on_rename p none = fails p
  on_rename p (some wanted) =
      if p.attachment.read_only
      then goes_on p ((Tag.rename, codec.put_renamed (refused none)) ∷ [])
      else on_renamed p (rename p.session.name wanted)

  -- A path that is typed where the file could be written.
  unfoldable pub on_stored : P → Option Text → Step Vt
  on_stored p none = goes_on p []
  on_stored p (some path) =
      if p.attachment.read_only
      then goes_on p []
      else goes_on
          (record p {
            pending_input = some (as_bytes (typed path (bracketed_paste p.session.scanner)));
          })
          []

  unfoldable pub on_finished : P → Finished → Step Vt
  unfolding on_stored
  on_finished p over_limit = goes_on p []
  on_finished p no_bytes = goes_on p []
  on_finished p (write kind file) = on_stored p (stored kind file)

  unfoldable pub on_paste_end : P → Option Text → Step Vt
  unfolding on_finished
  on_paste_end p none = fails p
  on_paste_end p (some kind) =
      let (done, incoming) = finish p.incoming kind in
      on_finished (record p { incoming = incoming }) done

  -- Each tag, on a pump that has heard from its client.
  unfoldable pub on_frame : P → ℕ → Bytes → Step Vt
  unfolding on_resize on_view on_find on_rename on_paste_end
  on_frame p tag body =
      if tag == Tag.bytes
      then goes_on (if p.attachment.read_only then p else record p { pending_input = some body }) []
      else if tag == Tag.resize
      then on_resize p (codec.size_of body)
      else if tag == Tag.pong
      then goes_on (record p { answers_pings = true }) []
      else if tag == Tag.resync
      then goes_on p ((Tag.resync, as_bytes (resync T p.session)) ∷ [])
      else if tag == Tag.view
      then on_view p (codec.view_request body)
      else if tag == Tag.find
      then on_find p (codec.needle body)
      else if tag == Tag.rename
      then on_rename p (codec.wanted body)
      else if tag == Tag.paste
      then goes_on (record p { incoming = take p.incoming body }) []
      else if tag == Tag.paste_end
      then on_paste_end p (codec.kind body)
      else if tag == Tag.detach
      then ends p []
      else if tag == Tag.park
      then parks p
      else goes_on p []

  unfoldable pub on_room : P → ℕ → Option Bytes → Step Vt
  on_room p now none = not_now
  on_room p now (some bytes) =
      if not p.session.input_open
      then fails p
      else if leb input_backlog (length p.session.input)
      then not_now
      else goes_on
          (record p {
            session = record (p.session) { input = p.session.input ++ bytes ∷ [] };
            pending_input = none;
            last_heard = now;
          })
          []

  -- `drain_output`, of what is queued.
  unfoldable data_frames : P → List Queued → Sent
  data_frames p [] = []
  data_frames p (output bytes ∷ queued) = (Tag.bytes, bytes) ∷ data_frames p queued
  data_frames p (behind ∷ queued) =
      (Tag.resync, as_bytes (resync T p.session)) ∷ data_frames p queued

  unfoldable pub step : P → Input → Step Vt
  unfolding on_frame on_room data_frames
  step p (frame now tag body) =
      if is_some p.pending_input then not_now else on_frame (record p { last_heard = now }) tag body
  step p hung_up = if is_some p.pending_input then not_now else ends p []
  step p (room now) = on_room p now p.pending_input
  step p (chunk bytes) = goes_on p ((Tag.bytes, bytes) ∷ [])
  step p lagged = goes_on p ((Tag.resync, as_bytes (resync T p.session)) ∷ [])
  step p output_closed = ends p []
  step p (renamed_elsewhere to) =
      goes_on (record p { session = record (p.session) { name = to }; name_unseen = true }) []
  step p names_changed =
      if not p.name_unseen
      then not_now
      else goes_on (record p { name_unseen = false })
          ((Tag.rename, codec.put_renamed (name p.session.name)) ∷ [])
  step p (event here e) =
      if not p.watching
      then not_now
      else if here && not (same e.session p.session.name)
      then goes_on p ((Tag.event, codec.put_event e) ∷ [])
      else goes_on p []
  step p events_closed = goes_on (record p { watching = false }) []
  step p (tick now) =
      if not (is_some p.pending_input) && (p.answers_pings && ltb silent_for (now - p.last_heard))
      then fails p
      else goes_on p ((Tag.ping, []) ∷ [])
  step p (exited code queued) =
      ends p (data_frames p queued ++ (Tag.exit, codec.put_code code) ∷ [])

  -- The pump that is there after a step.
  abbrev pub left_by : P → Step Vt → P
  left_by p (goes_on p' sent) = p'
  left_by p (ends p' sent) = p'
  left_by p (parks p') = p'
  left_by p (fails p') = p'
  left_by p not_now = p

  abbrev pub is_over : Step Vt → Bool
  is_over (goes_on p' sent) = false
  is_over (ends p' sent) = true
  is_over (parks p') = true
  is_over (fails p') = true
  is_over not_now = false

  -- The loop, over inputs in the order in which they are taken.
  unfoldable pub run : P → List Input → P
  unfolding step
  run p [] = p
  run p (input ∷ inputs) =
      let after = step p input in
      let more = run (left_by p after) inputs in if is_over after then left_by p after else more
