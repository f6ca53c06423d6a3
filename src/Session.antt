-- ===== src/Session.antt =====
-- src/node/session.rs: a session, its screen state and its attachments. The child process, its PTY
-- and the tasks that move bytes are left out: `ingest` is what the reader does with a chunk, and the
-- input queue is what the writer takes from. `host_clients`, the count that all sessions of the
-- machine share, is passed along.
pub mod Geometry
pub mod Attachments
pub mod Sizes
pub mod Reachable
pub mod Settled
pub mod Viewers
pub mod Printed
use manymux.Decoder.{Utf8Decoder, decode, default as fresh_decoder}
use manymux.History.{
  View, ViewRequest, Found, render, window as history_window, find as history_find,
}
use manymux.Paste.{typed}
use manymux.Prelude.{
  ℕ, zero, suc, ◌+◌, ◌-◌, ◌%◌, ◌^◌, min, ◌≤◌, Bool, true, false, not, List, [], ◌∷◌, ◌++◌, Option,
  none, some, Text, Bytes, length, keep, ltb, leb, ◌==◌, if◌then◌else◌, map,
}
use manymux.Scanner.{Scanner, feed, replay, bracketed_paste, default as fresh_scanner}
use manymux.Scanner.Osc.{Event}
use manymux.Std.Utf8.{as_bytes}
use manymux.Terminal.{Terminal}
use manymux.Wire.{Size, sane, max_frame, moved}
use Geometry.{Clients, remove, insert, effective_size, same_size}

abbrev pub u64_mod : ℕ
u64_mod = 2 ^ 64

-- `u64::saturating_add`.
abbrev pub saturating_add : ℕ → ℕ → ℕ
saturating_add a b = min (a + b) (u64_mod - 1)

abbrev pub input_backlog : ℕ
input_backlog = 16

pub record State (V : Type 0) : Type 0 where
  pub vt : V
  pub scanner : Scanner
  pub decoder : Utf8Decoder
  pub trimmed : ℕ
  pub counted : ℕ
  pub printed : ℕ
  pub bells : ℕ
  pub last_activity : ℕ
  pub clients : Clients
  pub size : Size

pub record Session (V : Type 0) : Type 0 where
  pub state : State V
  pub open state use *
  pub name : Text
  pub command : Text
  pub pid : ℕ
  -- Nanoseconds since the epoch.
  pub started : ℕ
  -- What `input_tx` holds, oldest first, and whether its receiver is there.
  pub input : List Bytes
  pub input_open : Bool
  -- The latest geometry that the PTY was told.
  pub size_tx : Size
  -- Every chunk published to the attached clients.
  pub output : List Bytes
  pub exit : Option ℕ
  pub next_client : ℕ

pub record Attachment : Type 0 where
  pub id : ℕ
  pub read_only : Bool

pub record Attached : Type 0 where
  pub attachment : Attachment
  pub history : Text
  pub repaint : Text
  pub size : Size

pub data EventKind : Type 0 where
  bell : EventKind
  notify : Text → Text → EventKind
  title_changed : Text → EventKind
  -- The code, as the 32 bits of an `i32`.
  exited : ℕ → EventKind
  started : EventKind

-- Of this machine, whose name the source adds.
pub record SessionEvent : Type 0 where
  pub session : Text
  pub title : Text
  pub kind : EventKind
  pub attached : ℕ
  pub host_attached : ℕ

-- `SessionInfo` less the node's id, which is the same on every row.
pub record Info : Type 0 where
  pub name : Text
  pub title : Text
  pub command : Text
  pub pid : ℕ
  pub size : Size
  pub attached : ℕ
  pub idle : ℕ
  pub bells : ℕ
  -- Nanoseconds since the epoch.
  pub started : ℕ

pub record Peek : Type 0 where
  pub name : Text
  pub size : Size
  pub screen : Text

pub data Error : Type 0 where
  over_frame_limit input_closed ended : Error

-- A send that finds the queue full waits.
pub data Sent (V : Type 0) : Type 0 where
  queued : Session V → Sent V
  refused : Error → Sent V
  waits : Sent V

abbrev pub or_command : Option Text → Text → Text
or_command none command = command
or_command (some []) command = command
or_command (some (c ∷ title)) command = c ∷ title

-- Of a session that the events name.
abbrev pub kind_of : Event → EventKind
kind_of Event.bell = bell
kind_of (Event.title t) = title_changed t
kind_of (Event.notify t body) = notify t body

unfoldable pub count_bells : List Event → ℕ
count_bells [] = 0
count_bells (Event.bell ∷ events) = suc (count_bells events)
count_bells (Event.title t ∷ events) = count_bells events
count_bells (Event.notify t body ∷ events) = count_bells events

module _ (T : Terminal) where
  open T use {Vt}

  abbrev S : Type 0
  S = Session Vt

  unfoldable pub new_state : Size → ℕ → State Vt
  new_state size now = record {
    vt = T.new size;
    scanner = fresh_scanner;
    decoder = fresh_decoder;
    trimmed = 0;
    counted = 0;
    printed = 0;
    bells = 0;
    last_activity = now;
    clients = [];
    size = size;
  }

  -- The session that `Session::spawn` makes of a child that it started.
  unfoldable pub start : Size → ℕ → Text → Text → ℕ → ℕ → S
  unfolding new_state
  start size now name command pid at = record {
    state = new_state (sane size) now;
    name = name;
    command = command;
    pid = pid;
    started = at;
    input = [];
    input_open = true;
    size_tx = sane size;
    output = [];
    exit = none;
    next_client = 0;
  }

  unfoldable pub title : State Vt → Text → Text
  title s command = or_command s.scanner.title command

  unfoldable pub repaint : State Vt → Text
  repaint s = T.dump s.vt ++ replay s.scanner

  -- `State::printed`: the state that it leaves, whose field is the answer.
  unfoldable pub count_printed : State Vt → ℕ → State Vt
  count_printed s total =
      let here = s.trimmed + total in
      if s.scanner.on_alternate
      then s
      else record s { printed = s.printed + (here - s.counted); counted = here }

  unfoldable pub resize_state : State Vt → Size → State Vt
  resize_state s size =
      let vt = T.resize s.vt size in
      record s {
        vt = vt;
        counted = if s.scanner.on_alternate then s.counted else s.trimmed + length (T.lines vt);
      }

  unfoldable pub apply_size : S → Size → S
  unfolding resize_state
  apply_size s size =
      if same_size size s.size
      then s
      else record s { state = resize_state (record (s.state) { size = size }) size; size_tx = size }

  unfoldable pub send_input : S → Bytes → Sent Vt
  send_input s bytes =
      if ltb max_frame (length bytes)
      then refused over_frame_limit
      else if not s.input_open
      then refused input_closed
      else if leb input_backlog (length s.input)
      then waits
      else queued (record s { input = s.input ++ bytes ∷ [] })

  abbrev pub has_exited : S → Bool
  has_exited s = elim s.exit [ none ↦ false | some code ↦ true ]

  unfoldable pub paste_file : S → Text → Sent Vt
  unfolding send_input bracketed_paste typed
  paste_file s path =
      if has_exited s
      then refused ended
      else send_input s (as_bytes (typed path (bracketed_paste s.scanner)))

  unfoldable pub publish : S → ℕ → EventKind → SessionEvent
  unfolding title
  publish s host_clients kind = record {
    session = s.name;
    title = title s.state s.command;
    kind = kind;
    attached = length s.clients;
    host_attached = host_clients;
  }

  -- One chunk of output at the time `now`, with the events that it publishes.
  unfoldable pub ingest : S → ℕ → ℕ → Bytes → S × List SessionEvent
  unfolding publish count_bells
  ingest s host_clients now chunk =
      let (scanner, events) = feed s.scanner chunk in
      let (text, decoder) = decode s.decoder chunk in
      let (vt, trimmed) = T.feed s.vt text in
      let s' = record s {
        state = record (s.state) {
          scanner = scanner;
          decoder = decoder;
          vt = vt;
          trimmed = s.trimmed + trimmed;
          last_activity = now;
          bells = s.bells + count_bells events;
        };
        output = s.output ++ chunk ∷ [];
      } in
      (s', map (λ e. publish s' host_clients (kind_of e)) events)

  -- Attaching, with the count of the host's clients.
  unfoldable pub attach : S → ℕ → Size → ℕ → Bool → Attached × S × ℕ
  unfolding apply_size repaint
  attach s host_clients size history read_only =
      let id = s.next_client in
      let clients = if read_only then s.clients else insert id (sane size) s.clients in
      let effective = effective_size s.size clients in
      let joined = record s {
        state = record (s.state) { clients = clients };
        next_client = suc id;
      } in
      let sized = apply_size joined effective in
      let quiet = record sized { state = record (sized.state) { bells = 0 } } in
      (
        record {
          attachment = record { id = id; read_only = read_only };
          history = render (T.lines quiet.vt) (T.rows quiet.vt) history;
          repaint = repaint quiet.state;
          size = effective;
        },
        quiet,
        (host_clients + 1) % u64_mod,
      )

  -- What a listing says of the session at the time `now`, both in seconds.
  unfoldable pub info : S → ℕ → Info
  unfolding title
  info s now = record {
    name = s.name;
    title = title s.state s.command;
    command = s.command;
    pid = s.pid;
    size = s.size;
    attached = length s.clients;
    idle = now - s.last_activity;
    bells = s.bells;
    started = s.started;
  }

  abbrev pub peek : S → Peek
  peek s = record { name = s.name; size = s.size; screen = T.dump s.vt }

  abbrev pub set_name : S → Text → S
  set_name s name = record s { name = name }
