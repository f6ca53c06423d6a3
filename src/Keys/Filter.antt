-- ===== src/Keys/Filter.antt =====
-- src/client/attach/keys.rs: `KeyFilter` at work. `turn` is one round of the loop of `filter_at` and
-- `filter_from` the loop, on fuel: a round takes at least one byte. The setters are at the end.
use manymux.Keys.{
  KeyFilter, Keystrokes, Prompt, Action, Pick, Scroll, Mode, Rename, is_focus, is_scroll, is_popup,
  after, paste_key, esc, lf,
}
use manymux.Keys.Encoded.{parse_key, sequence}
use manymux.Keys.Mouse.{Report, Moused, parse_report, mousing}
use manymux.Keys.Press.{Taken, spell, recent, encoded}
use manymux.Keys.Special.{Special, special, pick_keys, view_keys}
use manymux.Keys.Tables.{controlling, picking, scrolling, opening}
use manymux.Keys.Typing.{typing}
use manymux.Prelude.{
  ℕ, zero, suc, Bool, true, false, ◌&&◌, ◌||◌, [], ◌∷◌, ◌++◌, Option, none, some, Bytes, ◌==◌,
  length, take, drop, if◌then◌else◌,
}

-- How a round of the loop ends.
pub data Turn : Type 0 where
  -- `continue`, with what is to be forwarded so far and what is left of the chunk.
  again : KeyFilter → Bytes → Bytes → Turn
  -- `return`.
  over : KeyFilter → Keystrokes → Turn

unfoldable pub finish : KeyFilter → Bytes → Action → Bytes → Turn
finish f forward action rest =
    let f' = record f { mode = after action f.mode } in
    Turn.over f' (record { forward = forward; action = some action; mode = f'.mode; rest = rest })

-- The actions that go on with what is left of the chunk.
unfoldable pub keeps_rest : Action → Bool
keeps_rest (Action.pick Pick.up) = true
keeps_rest (Action.pick Pick.down) = true
keeps_rest (Action.pick Pick.next_group) = true
keeps_rest (Action.pick Pick.previous_group) = true
keeps_rest (Action.session_search Rename.open_it) = true
keeps_rest action = false

unfoldable pub rest_after : Action → Bytes → Bytes
rest_after action left = if keeps_rest action then left else []

unfoldable pub after_key : Taken → Bytes → Turn
after_key (Taken.acts f forward action) left = finish f forward action (rest_after action left)
after_key (Taken.goes f forward) left = Turn.again f forward left

unfoldable pub after_mouse : Moused → Bytes → Turn
after_mouse (none, f, left) forward = Turn.again f forward left
after_mouse (some action, f, left) forward = finish f forward action left

-- A byte that is no part of a sequence, in each mode.
unfoldable pub focus_byte : KeyFilter → Bytes → ℕ → ℕ → Bytes → Turn
unfolding spell
focus_byte f forward now b left =
    if b == f.prefix
    then Turn.again (record (spell f (b ∷ [])) { mode = Mode.control; pressed = some now }) forward
        left
    else if f.paste && b == paste_key
    then finish (spell f (b ∷ [])) forward Action.paste []
    else Turn.again f (forward ++ b ∷ []) left

-- In a list and in the history, a key that means nothing is passed over.
unfoldable pub table_byte : KeyFilter → Bytes → Option Action → (Action → Bytes) → Bytes → Turn
table_byte f forward none rest left = Turn.again f forward left
table_byte f forward (some action) rest left =
    finish (opening f action) forward action (rest action)

-- In control mode it goes to the program, behind the key that the mode began with.
unfoldable pub given_back : KeyFilter → Bytes → ℕ → Bytes → Option Action → Turn
given_back f forward b left (some action) =
    finish (opening f action) forward action (rest_after action left)
given_back f forward b left none =
    Turn.again (record f { mode = Mode.focus }) (forward ++ (f.spelling ++ b ∷ [])) left

unfoldable pub taken_byte : KeyFilter → Option ℕ → Bytes → ℕ → ℕ → Bytes → Turn
unfolding spell recent
taken_byte f pressed forward now b left =
    if b == f.prefix
    then Turn.again (record (spell f (b ∷ [])) { mode = Mode.focus })
        (if recent pressed now then forward ++ b ∷ [] else forward) left
    else if b == esc || b == lf
    then Turn.again (record f { mode = Mode.focus }) forward left
    else given_back f forward b left (controlling f b)

unfoldable pub control_byte : KeyFilter → Bytes → ℕ → ℕ → Bytes → Turn
control_byte f forward now b left =
    taken_byte (record f { pressed = none }) f.pressed forward now b left

unfoldable pub plain_byte : KeyFilter → Bytes → ℕ → ℕ → Bytes → Turn
plain_byte f forward now b left = elim f.mode [
  | Mode.focus ↦ focus_byte f forward now b left
  | Mode.picking ↦ table_byte f forward (picking f b) (λ action. rest_after action left) left
  | Mode.scroll ↦ table_byte f forward (scrolling f b) (λ action. []) left
  | Mode.control ↦ control_byte f forward now b left
  | Mode.rename ↦ control_byte f forward now b left
]

-- A sequence that is none of the keys, where the session is not the one being typed at.
unfoldable pub skip_sequence : KeyFilter → Bytes → Option ℕ
skip_sequence f input = if is_focus f.mode then none else sequence input

unfoldable pub byte_turn : KeyFilter → Bytes → ℕ → ℕ → Bytes → Turn
byte_turn f forward now b r = elim (skip_sequence f (b ∷ r)) [
  | some len ↦ Turn.again f forward (drop len (b ∷ r))
  | none ↦ plain_byte f forward now b r
]

unfoldable pub key_turn : KeyFilter → Bytes → ℕ → ℕ → Bytes → Turn
key_turn f forward now b r = elim (parse_key (b ∷ r)) [
  | some key ↦ after_key (encoded f key (take key.len (b ∷ r)) now forward) (drop key.len (b ∷ r))
  | none ↦ byte_turn f forward now b r
]

-- The named keys of the history, and those of a popup.
unfoldable pub view_key : KeyFilter → Bytes → Option (Special × Scroll)
view_key f input = if is_scroll f.mode then special input view_keys else none

unfoldable pub popup_key : KeyFilter → Bytes → Option (Special × Pick)
popup_key f input = if is_popup f.mode then special input pick_keys else none

unfoldable pub picked : KeyFilter → Bytes → Bytes → Special → Pick → Turn
unfolding spell
picked f forward input key pick =
    let action = Action.pick pick in
    let f' = record (spell f (take key.len input)) { pressed = none } in
    finish f' forward action (rest_after action (drop key.len input))

unfoldable pub named_turn : KeyFilter → Bytes → ℕ → ℕ → Bytes → Turn
named_turn f forward now b r = elim (view_key f (b ∷ r)) [
  | some (key, scroll) ↦ finish f forward (Action.scroll scroll) []
  | none ↦ (elim (popup_key f (b ∷ r)) [
    | some (key, pick) ↦ picked f forward (b ∷ r) key pick
    | none ↦ key_turn f forward now b r
  ])
]

-- The mouse, while the wheel is the client's.
unfoldable pub wheel_report : KeyFilter → Bytes → Option Report
wheel_report f input = if f.wheel then parse_report input else none

unfoldable pub prompt_turn : KeyFilter → Prompt → Bytes → Bytes → Turn
prompt_turn f prompt forward input =
    finish (typing f prompt input).0 forward (typing f prompt input).1 []

unfoldable pub mouse_turn : KeyFilter → Bytes → ℕ → ℕ → Bytes → Turn
mouse_turn f forward now b r = elim (wheel_report f (b ∷ r)) [
  | some report ↦ after_mouse (mousing f report now (b ∷ r)) forward
  | none ↦ named_turn f forward now b r
]

unfoldable pub turn : KeyFilter → Bytes → ℕ → ℕ → Bytes → Turn
turn f forward now b r = elim f.prompt [
  | some prompt ↦ prompt_turn f prompt forward (b ∷ r)
  | none ↦ mouse_turn f forward now b r
]

unfoldable pub finish_chunk : KeyFilter → Bytes → Keystrokes
finish_chunk f forward = record { forward = forward; action = none; mode = f.mode; rest = [] }

-- `none` is fuel that ran out.
unfoldable pub filter_from : ℕ → KeyFilter → Bytes → ℕ → Bytes → Option (KeyFilter × Keystrokes)
unfolding finish_chunk
filter_from fuel f forward now [] = some (f, finish_chunk f forward)
filter_from zero f forward now (b ∷ r) = none
filter_from (suc fuel) f forward now (b ∷ r) = elim (turn f forward now b r) [
  | again f' forward' left ↦ filter_from fuel f' forward' now left
  | over f' k ↦ some (f', k)
]

unfoldable pub filter_at : KeyFilter → Bytes → ℕ → Option (KeyFilter × Keystrokes)
unfolding filter_from
filter_at f input now = filter_from (length input) f [] now input

unfoldable pub stop_typing : KeyFilter → KeyFilter
stop_typing f = record f { prompt = none }

unfoldable pub set_paste : KeyFilter → Bool → KeyFilter
set_paste f on = record f { paste = on }

unfoldable pub set_scroll : KeyFilter → Bool → KeyFilter
set_scroll f on = record f { scroll = on; wheel = on && f.wheel }

unfoldable pub set_wheel : KeyFilter → Bool → KeyFilter
set_wheel f ours = record f { wheel = ours && f.scroll }

unfoldable pub set_mode : KeyFilter → Mode → KeyFilter
set_mode f mode = record f { mode = mode; pressed = none }

unfoldable pub begin_attach : KeyFilter → Mode → Bool → KeyFilter
unfolding set_mode set_scroll
begin_attach f mode scroll =
    set_scroll (record (set_mode f mode) { prompt = none; wheel = false; forwarded = [] }) scroll

unfoldable pub release_reports_ended : KeyFilter → KeyFilter
release_reports_ended f = record f { forwarded = []; acted = none }
