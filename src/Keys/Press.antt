-- ===== src/Keys/Press.antt =====
-- src/client/attach/keys.rs: `encoded`, what a key that the terminal spelled out does in each mode, and
-- the codes of the keys that were forwarded.
use manymux.Keys.{
  KeyFilter, Action, Pick, Mode, is_focus, is_scroll, is_picking, literal, paste_key, tab,
}
use manymux.Keys.Encoded.{
  Encoded, is_key, is_modifier, down, key_byte, press, repeat, escape, shift,
}
use manymux.Keys.Tables.{controlling, picking, scrolling, opening}
use manymux.Prelude.{
  ℕ, ◌-◌, Bool, false, not, ◌&&◌, ◌||◌, List, [], ◌∷◌, ◌++◌, Option, none, some, Bytes, ltb, ◌==◌,
  length, keep, any, if◌then◌else◌, ◌>>=◌,
}

unfoldable pub spell : KeyFilter → Bytes → KeyFilter
spell f bytes = record f { spelling = bytes }

unfoldable pub contains : ℕ → List ℕ → Bool
contains code codes = any (λ c. c == code) codes

unfoldable pub remove : ℕ → List ℕ → List ℕ
remove code codes = keep (λ c. not (c == code)) codes

unfoldable pub insert : ℕ → List ℕ → List ℕ
unfolding contains
insert code codes = if contains code codes then codes else code ∷ codes

unfoldable pub remember_forwarded : KeyFilter → ℕ → KeyFilter
unfolding insert
remember_forwarded f code = record f {
  forwarded = insert code (if length f.forwarded == 32 then [] else f.forwarded);
}

-- `Some(code) == acted`.
unfoldable pub is_code : Option ℕ → ℕ → Bool
is_code none code = false
is_code (some c) code = c == code

-- The mode key a moment ago.
unfoldable pub recent : Option ℕ → ℕ → Bool
recent none now = false
recent (some at) now = ltb (now - at) literal

-- What a key that the terminal spelled out does: an action, or only what is forwarded.
pub data Taken : Type 0 where
  acts : KeyFilter → Bytes → Action → Taken
  goes : KeyFilter → Bytes → Taken

unfoldable pub focus_release : KeyFilter → Encoded → Bytes → Bytes → Taken
unfolding contains remove is_code
focus_release f key spelling forward =
    let ours =
      is_key key f.prefix || (f.paste && is_key key paste_key) || is_code f.acted key.code in
    let ends = not (key.event == repeat) in
    let forward' =
      if not ours && contains key.code f.forwarded then forward ++ spelling else forward in
    let f' = record f {
      acted = (if ends && is_code f.acted key.code then none else f.acted);
      forwarded = (if ends then remove key.code f.forwarded else f.forwarded);
    } in
    Taken.goes f' forward'

unfoldable pub focus_press : KeyFilter → Encoded → Bytes → ℕ → Bytes → Taken
unfolding spell remember_forwarded is_code
focus_press f key spelling now forward =
    if is_key key f.prefix
    then Taken.goes (record (spell f spelling) { mode = Mode.control; pressed = some now }) forward
    else if f.paste && is_key key paste_key
    then Taken.acts (spell f spelling) forward Action.paste
    else Taken.goes
        (remember_forwarded
          (record f { acted = (if is_code f.acted key.code then none else f.acted) }) key.code)
        (forward ++ spelling)

-- What a table makes of the key, where it has one.
unfoldable pub by_table : KeyFilter → Bytes → Option Action → Taken
by_table f forward none = Taken.goes f forward
by_table f forward (some action) = Taken.acts (opening f action) forward action

unfoldable pub control_key : KeyFilter → Encoded → Bytes → Option ℕ → Bytes → Taken
unfolding remember_forwarded
control_key f key spelling byte forward = elim (do b ← byte; controlling f b) [
  | some action ↦ Taken.acts (opening f action) forward action
  | none ↦
      Taken.goes (remember_forwarded (record f { mode = Mode.focus; acted = none }) key.code)
        (forward ++ (f.spelling ++ spelling))
]

-- `pressed` has been taken: what it was comes beside the filter.
unfoldable pub taken_control : KeyFilter → Option ℕ → Encoded → Bytes → Option ℕ → ℕ → Bytes → Taken
unfolding spell recent
taken_control f pressed key spelling byte now forward =
    if is_key key f.prefix
    then Taken.goes (record (spell f spelling) { mode = Mode.focus })
        (if recent pressed now then forward ++ spelling else forward)
    else if key.code == tab && shift key.mods
    then Taken.acts f forward (Action.pick Pick.up)
    else if key.code == escape
    then Taken.goes (record f { mode = Mode.focus }) forward
    else control_key f key spelling byte forward

unfoldable pub control : KeyFilter → Encoded → Bytes → Option ℕ → ℕ → Bytes → Taken
control f key spelling byte now forward =
    taken_control (record f { pressed = none }) f.pressed key spelling byte now forward

unfoldable pub modal : KeyFilter → Encoded → Bytes → ℕ → Bytes → Taken
modal f key spelling now forward =
    let byte = if is_key key f.prefix then some f.prefix else key_byte key in
    if is_scroll f.mode
    then by_table f forward (byte >>= scrolling f)
    else if is_picking f.mode
    then if key.code == tab && shift key.mods
      then Taken.acts f forward (Action.pick Pick.up)
      else by_table f forward (byte >>= picking f)
    else control f key spelling byte now forward

unfoldable pub encoded : KeyFilter → Encoded → Bytes → ℕ → Bytes → Taken
unfolding remove
encoded f key spelling now forward =
    if is_focus f.mode
    then if not (key.event == press)
      then focus_release f key spelling forward
      else focus_press f key spelling now forward
    else if not (down key)
    then Taken.goes (record f { forwarded = remove key.code f.forwarded }) forward
    else if is_modifier key
    then Taken.goes f forward
    else modal (record f { acted = some key.code }) key spelling now forward
