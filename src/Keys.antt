-- ===== src/Keys.antt =====
-- src/client/attach/keys.rs: what a key means. The types that its filter works with, its state, and
-- the tables from a key to an action in each mode. The children read the keys off a terminal's bytes
-- (Keys/Encoded, Keys/Special, Keys/Mouse), keep the prompts (Keys/Typing) and run the filter over a
-- chunk (Keys/Filter).
pub mod Tables
pub mod Encoded
pub mod Special
pub mod Mouse
pub mod Typing
pub mod Press
pub mod Filter
pub mod Lengths
pub mod Steady
pub mod Turns
pub mod Rounds
pub mod Ends
pub mod Plain
pub mod Prompts
pub mod Silent
pub mod Used
pub mod Prefixes
use manymux.Prelude.{ℕ, Bool, true, false, List, [], ◌∷◌, Option, none, some, Bytes, if◌then◌else◌}

pub data Motion : Type 0 where
  next : Motion
  previous : Motion
  last : Motion
  next_host : Motion
  previous_host : Motion

pub data Pick : Type 0 where
  up : Pick
  down : Pick
  next_group : Pick
  previous_group : Pick
  go : Pick
  number : ℕ → Pick
  move : Pick
  groups : Pick
  hosts : Pick
  cancel : Pick

pub data Find : Type 0 where
  open_it : Find
  typed : Find
  run : Find
  cancel : Find
  next : Find
  previous : Find

pub data Rename : Type 0 where
  open_it : Rename
  typed : Rename
  run : Rename
  cancel : Rename

pub data Scroll : Type 0 where
  up : ℕ → Scroll
  down : ℕ → Scroll
  page_up : Scroll
  page_down : Scroll
  top : Scroll
  bottom : Scroll
  leave : Scroll

pub record Spot : Type 0 where
  pub col : ℕ
  pub row : ℕ

pub data Select : Type 0 where
  from : Spot → Select
  to : Spot → Select
  done : Select
  word : Spot → Select
  line : Spot → Select

pub data Action : Type 0 where
  detach : Action
  new : Action
  switch : Motion → Action
  pick : Pick → Action
  session_search : Rename → Action
  group_name : Rename → Action
  paste : Action
  scroll : Scroll → Action
  select : Select → Action
  find : Find → Action
  rename : Rename → Action

pub data Mode : Type 0 where
  focus : Mode
  control : Mode
  scroll : Mode
  rename : Mode
  picking : Mode

abbrev pub is_focus : Mode → Bool
is_focus Mode.focus = true
is_focus _ = false

abbrev pub is_scroll : Mode → Bool
is_scroll Mode.scroll = true
is_scroll _ = false

abbrev pub is_picking : Mode → Bool
is_picking Mode.picking = true
is_picking _ = false

abbrev pub is_popup : Mode → Bool
is_popup Mode.control = true
is_popup Mode.picking = true
is_popup _ = false

pub data Prompting : Type 0 where
  finding : Prompting
  sessions : Prompting
  renaming : Prompting
  grouping : Prompting

pub record Prompt : Type 0 where
  pub what : Prompting
  pub line : Bytes

pub record Click : Type 0 where
  pub spot : Spot
  pub at : ℕ
  pub clicks : ℕ

-- Instants are in milliseconds.
pub record KeyFilter : Type 0 where
  pub prefix : ℕ
  pub paste : Bool
  pub mode : Mode
  pub pressed : Option ℕ
  pub spelling : Bytes
  pub scroll : Bool
  pub wheel : Bool
  pub clicked : Option Click
  pub prompt : Option Prompt
  pub acted : Option ℕ
  pub forwarded : List ℕ

pub record Keystrokes : Type 0 where
  pub forward : Bytes
  pub action : Option Action
  pub mode : Mode
  pub rest : Bytes

abbrev pub default_prefix : ℕ
default_prefix = 0x1d

abbrev pub paste_key : ℕ
paste_key = 0x16

abbrev pub scroll_key : ℕ
scroll_key = b'['

abbrev pub find_key : ℕ
find_key = b'/'

abbrev pub literal : ℕ
literal = 3000

abbrev pub click_again : ℕ
click_again = 400

abbrev pub esc : ℕ
esc = 0x1b

abbrev pub cr : ℕ
cr = 13

abbrev pub lf : ℕ
lf = 10

abbrev pub tab : ℕ
tab = 9

unfoldable pub new_filter : ℕ → KeyFilter
new_filter prefix = record {
  prefix = prefix;
  paste = true;
  mode = Mode.focus;
  pressed = none;
  spelling = prefix ∷ [];
  scroll = false;
  wheel = false;
  clicked = none;
  prompt = none;
  acted = none;
  forwarded = [];
}

-- Where an action leaves the keyboard.
unfoldable pub after : Action → Mode → Mode
after Action.detach now = Mode.focus
after Action.paste now = Mode.focus
after Action.new now = Mode.focus
after (Action.switch m) now = Mode.control
after (Action.pick Pick.go) now = Mode.focus
after (Action.pick (Pick.number n)) now = Mode.focus
after (Action.pick Pick.cancel) now = if is_picking now then Mode.control else Mode.focus
after (Action.pick Pick.move) now = Mode.picking
after (Action.pick Pick.groups) now = Mode.picking
after (Action.pick Pick.hosts) now = Mode.picking
after (Action.pick Pick.up) now = now
after (Action.pick Pick.down) now = now
after (Action.pick Pick.next_group) now = now
after (Action.pick Pick.previous_group) now = now
after (Action.session_search r) now = Mode.control
after (Action.group_name Rename.run) now = Mode.picking
after (Action.group_name Rename.cancel) now = Mode.picking
after (Action.group_name Rename.open_it) now = Mode.rename
after (Action.group_name Rename.typed) now = Mode.rename
after (Action.scroll Scroll.leave) now = Mode.focus
after (Action.scroll s) now = Mode.scroll
after (Action.find f) now = Mode.scroll
after (Action.select s) now = Mode.scroll
after (Action.rename Rename.run) now = Mode.focus
after (Action.rename Rename.cancel) now = Mode.focus
after (Action.rename Rename.open_it) now = Mode.rename
after (Action.rename Rename.typed) now = Mode.rename
