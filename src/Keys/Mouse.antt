-- ===== src/Keys/Mouse.antt =====
-- src/client/attach/keys.rs: `Report`, a mouse report, and `mousing`, what a run of them does to the
-- history while the wheel is the client's.
use manymux.Keys.{KeyFilter, Action, Mode, is_focus, Scroll, Select, Spot, Click, click_again}
use manymux.Keys.Encoded.{up_to, csi, u8_max}
use manymux.Prelude.{
  ℕ, zero, suc, ◌+◌, ◌-◌, ◌*◌, ◌/◌, ◌%◌, Bool, not, ◌&&◌, ◌||◌, List, [], ◌∷◌, ◌++◌, Option, none,
  some, Text, Bytes, length, drop, min, leb, ltb, ◌==◌, if◌then◌else◌, ◌>>=◌, has_some, then_some,
}
use manymux.Std.Decimal.{parse_u16}
use manymux.Std.Strings.{split, strip_prefix}
use manymux.Std.Utf8.{from_utf8}

pub record Report : Type 0 where
  pub len : ℕ
  pub button : ℕ
  pub press : Bool
  pub motion : Bool
  pub at : Spot

abbrev pub wheel_up : ℕ
wheel_up = 64

abbrev pub wheel_down : ℕ
wheel_down = 65

-- The lines that one notch of the wheel moves.
abbrev pub wheel_lines : ℕ
wheel_lines = 3

-- The modifiers are 4, 8 and 16, and a motion is 32.
abbrev pub plain_button : ℕ → ℕ
plain_button b = b / 64 * 64 + b % 4

abbrev pub is_motion : ℕ → Bool
is_motion b = b / 32 % 2 == 1

-- `b'M' | b'm'`.
abbrev pub report_end : ℕ → Bool
report_end b = b == b'M' || b == b'm'

unfoldable pub parse_fields : ℕ → Bool → List Text → Option Report
parse_fields len press (first ∷ second ∷ third ∷ fields) = do
  wide ← parse_u16 first
  button ← if leb wide u8_max then some wide else none
  col ← parse_u16 second
  row ← parse_u16 third
  some (record {
    len = len;
    button = plain_button button;
    press = press;
    motion = is_motion button;
    at = record { col = col; row = row };
  })
parse_fields len press fields = none

unfoldable pub parse_report : Bytes → Option Report
unfolding parse_fields
parse_report input = do
  rest ← strip_prefix (csi ++ b'<' ∷ []) input
  (before, ends) ← up_to report_end rest
  text ← from_utf8 before
  parse_fields (3 + length before + 1) (ends == b'M') (split b';' text)

unfoldable pub report_scroll : Report → Option Scroll
report_scroll r =
    if r.press && r.button == wheel_up
    then some (Scroll.up wheel_lines)
    else if r.press && r.button == wheel_down
    then some (Scroll.down wheel_lines)
    else none

-- `lines`, and a sum of such: how far up and how far down.
pub record Net : Type 0 where
  pub ups : ℕ
  pub downs : ℕ

unfoldable pub add_lines : Net → Scroll → Net
add_lines n (Scroll.up k) = record n { ups = n.ups + k }
add_lines n (Scroll.down k) = record n { downs = n.downs + k }
add_lines n other = n

unfoldable pub next_notch : Bytes → Option (ℕ × Scroll)
next_notch input = do next ← parse_report input; s ← report_scroll next; some (next.len, s)

-- The wheel's reports at the front, added up. The number is how many bytes of a report are still to be
-- passed over.
unfoldable pub wheel_run : Net → ℕ → Bytes → Net × Bytes
unfolding add_lines
wheel_run n k [] = (n, [])
wheel_run n (suc k) (b ∷ r) = wheel_run n k r
wheel_run n zero (b ∷ r) = elim (next_notch (b ∷ r)) [
  | none ↦ (n, b ∷ r)
  | some (len, s) ↦ wheel_run (add_lines n s) (len - 1) r
]

abbrev pub same_spot : Spot → Spot → Bool
same_spot a b = a.col == b.col && a.row == b.row

-- A drag away from the last click forgets it.
unfoldable pub moved_off : Option Click → Spot → Option Click
moved_off none at = none
moved_off (some click) at = if same_spot click.spot at then some click else none

abbrev pub drags : Report → Bool
drags next = next.motion && next.button == 0

unfoldable pub next_drag : Bytes → Option Report
next_drag input = do next ← parse_report input; then_some (drags next) next

-- The drag's reports at the front: where it ends, and whether the last click still stands.
unfoldable pub drag_run : Spot → Option Click → ℕ → Bytes → Spot × Option Click × Bytes
unfolding moved_off
drag_run at clicked k [] = (at, clicked, [])
drag_run at clicked (suc k) (b ∷ r) = drag_run at clicked k r
drag_run at clicked zero (b ∷ r) = elim (next_drag (b ∷ r)) [
  | none ↦ (at, clicked, b ∷ r)
  | some next ↦ drag_run next.at (moved_off clicked next.at) (next.len - 1) r
]

-- How many clicks in a row this one makes, as a `u8` that stops at its end.
unfoldable pub count_clicks : Option Click → Spot → ℕ → ℕ
count_clicks none at now = 1
count_clicks (some click) at now =
    if same_spot click.spot at && ltb (now - click.at) click_again
    then min (click.clicks + 1) u8_max
    else 1

unfoldable pub clicked_at : ℕ → Spot → Select
clicked_at clicks at =
    if clicks == 1 then Select.from at else if clicks == 2 then Select.word at else Select.line at

-- What a turn of the wheel comes to.
unfoldable pub wheel_action : Mode → Net → Option Action
wheel_action mode n =
    if n.ups == n.downs
    then none
    else if ltb n.downs n.ups
    then some (Action.scroll (Scroll.up (n.ups - n.downs)))
    else if is_focus mode
    then none
    else some (Action.scroll (Scroll.down (n.downs - n.ups)))

-- The action, the filter and what is left of the input.
abbrev pub Moused : Type 0
Moused = Option Action × KeyFilter × Bytes

unfoldable pub mouse_wheel : KeyFilter → Scroll → Bytes → Moused
unfolding wheel_action
mouse_wheel f s left =
    let (net, left') = wheel_run (add_lines (record { ups = 0; downs = 0 }) s) 0 left in
    (wheel_action f.mode net, f, left')

unfoldable pub mouse_drag : KeyFilter → Report → Bytes → Moused
mouse_drag f first left =
    let (at, clicked, left') = drag_run first.at (moved_off f.clicked first.at) 0 left in
    let f' = record f { clicked = clicked } in
    ((if has_some clicked then none else some (Action.select (Select.to at))), f', left')

unfoldable pub mouse_press : KeyFilter → Report → ℕ → Bytes → Moused
unfolding count_clicks clicked_at
mouse_press f first now left =
    let clicks = count_clicks f.clicked first.at now in
    let click : Click = record { spot = first.at; at = now; clicks = clicks } in
    (some (Action.select (clicked_at clicks first.at)), record f { clicked = some click }, left)

-- `mousing`, from the first report, which is taken off the input.
unfoldable pub mousing : KeyFilter → Report → ℕ → Bytes → Moused
unfolding mouse_wheel mouse_drag mouse_press
mousing f first now input =
    let left = drop first.len input in
    elim (report_scroll first) [
      | some s ↦ mouse_wheel f s left
      | none ↦
          if not (first.button == 0)
          then (none, f, left)
          else if first.motion
          then mouse_drag f first left
          else if not first.press
          then (some (Action.select Select.done), f, left)
          else mouse_press f first now left
    ]
