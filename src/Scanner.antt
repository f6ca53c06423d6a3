-- ===== src/Scanner.antt =====
-- src/node/events.rs: `Scanner`, the state machine over a session's output that keeps what the
-- screen model drops. `feed` returns the scanner with the events that the source hands to `out`.
pub mod Osc
pub mod Sound
pub mod Bounds
pub mod Replay
use manymux.Prelude.{
  ℕ, zero, suc, ◌+◌, ◌≤◌, Bool, true, false, not, ◌&&◌, ◌||◌, List, [], ◌∷◌, ◌++◌, Option, none,
  some, Text, Bytes, length, last?, take, keep, any, codes, leb, ltb, within, ◌==◌, if◌then◌else◌,
  ◌-◌,
}
use manymux.Keyboard
use manymux.Keyboard.{Keyboard, esc, first_field, second_number}
use manymux.Std.Decimal.{decimal, parse_u16}
use manymux.Std.Strings.{split}
use manymux.Std.Utf8.{from_utf8}
use Osc.{Event, parse_osc}

pub data State : Type 0 where
  ground escape csi osc osc_escape ignored ignored_escape : State

abbrev pub bracketed_paste_mode : ℕ
bracketed_paste_mode = 2004

abbrev pub alternate_screen : List ℕ
alternate_screen = 47 ∷ 1047 ∷ 1049 ∷ []

abbrev pub replayed_modes : List ℕ
replayed_modes =
    9 ∷ 66 ∷ 1000 ∷ 1002 ∷ 1003 ∷ 1004 ∷ 1005 ∷ 1006 ∷ 1015 ∷ 1016 ∷ bracketed_paste_mode ∷ []

abbrev pub max_csi : ℕ
max_csi = 64

abbrev pub max_osc : ℕ
max_osc = 4096

pub record Scanner : Type 0 where
  pub state : State
  pub osc : Bytes
  pub overflowed : Bool
  pub csi : Bytes
  pub modes : List ℕ
  pub cursor_style : Option ℕ
  pub title : Option Text
  pub keyboard : Keyboard
  pub on_alternate : Bool

abbrev pub default : Scanner
default = record {
  state = State.ground;
  osc = [];
  overflowed = false;
  csi = [];
  modes = [];
  cursor_style = none;
  title = none;
  keyboard = Keyboard.default;
  on_alternate = false;
}

abbrev pub contains : ℕ → List ℕ → Bool
contains m = any (λ n. n == m)

unfoldable pub bracketed_paste : Scanner → Bool
bracketed_paste s = contains bracketed_paste_mode s.modes

unfoldable pub set_mode : Bool → Scanner → ℕ → Scanner
set_mode enable s mode =
    let alternate = if contains mode alternate_screen then enable else s.on_alternate in
    let without = keep (λ m. not (m == mode)) s.modes in
    if not (contains mode replayed_modes) then record s { on_alternate = alternate } else record s {
      on_alternate = alternate;
      modes = if enable then without ++ mode ∷ [] else without;
    }

-- Fields that are no numbers are passed over.
unfoldable pub set_modes : Bool → Scanner → List Text → Scanner
set_modes enable s [] = s
set_modes enable s (field ∷ fields) =
    set_modes enable (elim (parse_u16 field) [ none ↦ s | some mode ↦ set_mode enable s mode ])
      fields

unfoldable pub set_style : Scanner → Bytes → Scanner
set_style s params = record s {
  cursor_style = elim (from_utf8 (take (length params - 1) params)) [
    | none ↦ none
    | some p ↦ parse_u16 p
  ];
}

-- `modifyOtherKeys`, on the fields behind the `>`.
unfoldable pub set_other_keys : Scanner → List Text → Scanner
set_other_keys s fields = elim (parse_u16 (first_field fields)) [
  | none ↦ s
  | some resource ↦
      if resource == 4
      then record s { keyboard = Keyboard.set_modify_other_keys s.keyboard (second_number fields) }
      else s
]

abbrev pub on_text : Scanner → (List Text → Scanner) → Option Text → Scanner
on_text s k none = s
on_text s k (some text) = k (split b';' text)

abbrev pub is_byte : ℕ → Option ℕ → Bool
is_byte b none = false
is_byte b (some c) = c == b

-- The branches that look at the first parameter byte.
unfoldable pub finish_private : Scanner → Bytes → ℕ → Scanner
unfolding set_other_keys set_modes
finish_private s [] final = s
finish_private s (lead ∷ rest) final =
    if final == b'm' && lead == b'>'
    then on_text s (set_other_keys s) (from_utf8 rest)
    else if not (final == b'h' || final == b'l') || not (lead == b'?')
    then s
    else on_text s (set_modes (final == b'h') s) (from_utf8 rest)

unfoldable pub finish_params : Scanner → Bytes → ℕ → Scanner
unfolding finish_private set_style
finish_params s params final =
    if final == b'q' && is_byte b' ' (last? params)
    then set_style s params
    else if final == b'u'
    then record s { keyboard = Keyboard.note s.keyboard params }
    else finish_private s params final

unfoldable pub finish_csi : Scanner → ℕ → Scanner
unfolding finish_params
finish_csi s final = finish_params (record s { csi = [] }) s.csi final

abbrev pub report : Scanner → Option Event → Scanner × List Event
report s none = (s, [])
report s (some (Event.title t)) = (record s { title = some t }, Event.title t ∷ [])
report s (some e) = (s, e ∷ [])

unfoldable pub finish_osc : Scanner → Scanner × List Event
finish_osc s =
    let done = record s { state = State.ground; osc = [] } in
    if s.overflowed then (record done { overflowed = false }, []) else report done (parse_osc s.osc)

abbrev pub quiet : Scanner → Scanner × List Event
quiet s = (s, [])

-- RIS.
abbrev pub reset : Scanner → Scanner
reset s = record s {
  on_alternate = false;
  modes = [];
  cursor_style = none;
  keyboard = Keyboard.default;
  state = State.ground;
}

unfoldable pub step_escape : Scanner → ℕ → Scanner
step_escape s b =
    if b == b'['
    then record s { state = State.csi; csi = [] }
    else if b == b']'
    then record s { state = State.osc; osc = []; overflowed = false }
    else if b == b'P' || b == b'X' || b == b'^' || b == b'_'
    then record s { state = State.ignored }
    else if b == esc
    then s
    else if b == b'c'
    then reset s
    else record s { state = State.ground }

unfoldable pub step_csi : Scanner → ℕ → Scanner × List Event
unfolding finish_csi
step_csi s b =
    if b == 0x07
    then (s, Event.bell ∷ [])
    else if within 0x20 0x3f b
    then quiet (if ltb (length s.csi) max_csi then record s { csi = s.csi ++ b ∷ [] } else s)
    else if within 0x40 0x7e b
    then quiet (finish_csi (record s { state = State.ground }) b)
    else quiet s

unfoldable pub step_osc : Scanner → ℕ → Scanner × List Event
unfolding finish_osc
step_osc s b =
    if b == 0x07
    then finish_osc s
    else if b == esc
    then quiet (record s { state = State.osc_escape })
    else if ltb (length s.osc) max_osc
    then quiet (record s { osc = s.osc ++ b ∷ [] })
    else quiet (record s { overflowed = true })

unfoldable pub step_osc_escape : Scanner → ℕ → Scanner × List Event
unfolding finish_osc
step_osc_escape s b =
    if b == b'\\'
    then finish_osc s
    else if leb (length s.osc + 2) max_osc
    then quiet (record s { state = State.osc; osc = s.osc ++ esc ∷ b ∷ [] })
    else quiet (record s { state = State.osc; overflowed = true })

unfoldable pub step_in : State → Scanner → ℕ → Scanner × List Event
unfolding step_escape step_csi step_osc step_osc_escape
step_in State.ground s b =
    if b == 0x07
    then (s, Event.bell ∷ [])
    else quiet (if b == esc then record s { state = State.escape } else s)
step_in State.escape s b = quiet (step_escape s b)
step_in State.csi s b = step_csi s b
step_in State.osc s b = step_osc s b
step_in State.osc_escape s b = step_osc_escape s b
step_in State.ignored s b =
    quiet (if b == esc then record s { state = State.ignored_escape } else s)
step_in State.ignored_escape s b =
    if b == b'\\'
    then quiet (record s { state = State.ground })
    else if b == esc
    then quiet s
    else quiet (record s { state = State.ignored })

abbrev pub step : Scanner → ℕ → Scanner × List Event
step s b = step_in s.state s b

unfoldable pub feed : Scanner → Bytes → Scanner × List Event
unfolding step_in
feed s [] = (s, [])
feed s (b ∷ chunk) =
    let (s', events) = step s b in let (last, more) = feed s' chunk in (last, events ++ more)

unfoldable pub replay_title : Option Text → Text
replay_title none = []
replay_title (some title) = esc ∷ b']' ∷ b'2' ∷ b';' ∷ title ++ 0x07 ∷ []

unfoldable pub replay_modes : List ℕ → Text
replay_modes [] = []
replay_modes (mode ∷ modes) = (esc ∷ b'[' ∷ b'?' ∷ decimal mode ++ b'h' ∷ []) ++ replay_modes modes

unfoldable pub replay_style : Option ℕ → Text
replay_style none = []
replay_style (some style) = esc ∷ b'[' ∷ decimal style ++ codes " q"

unfoldable pub replay : Scanner → Text
unfolding replay_title replay_modes replay_style
replay s =
    replay_title s.title
    ++ (replay_modes s.modes ++ (Keyboard.replay s.keyboard ++ replay_style s.cursor_style))
