-- ===== src/Keys/Tables.antt =====
-- src/client/attach/keys.rs: what each key does in control mode (`controlling`), in the list of groups
-- and machines (`picking`) and in the history (`scrolling`), and which of them open a prompt.
use manymux.Keys.{
  KeyFilter, Prompting, Action, Motion, Pick, Find, Rename, Scroll, scroll_key, find_key, esc, cr,
  lf, tab,
}
use manymux.Prelude.{ℕ, ◌-◌, Bool, ◌&&◌, ◌||◌, [], Option, none, some, ◌==◌, within, if◌then◌else◌}

-- A letter of either case.
abbrev either : ℕ → ℕ → Bool
either lower b = b == lower || b == lower - 32

unfoldable pub controlling : KeyFilter → ℕ → Option Action
controlling f b =
    if either b'd' b
    then some Action.detach
    else if b == tab || either b'j' b
    then some (Action.pick Pick.down)
    else if either b'k' b
    then some (Action.pick Pick.up)
    else if b == cr || b == lf
    then some (Action.pick Pick.go)
    else if within b'1' b'9' b
    then some (Action.pick (Pick.number (b - b'0')))
    else if either b'm' b
    then some (Action.pick Pick.move)
    else if b == b'g'
    then some (Action.pick Pick.groups)
    else if either b'l' b
    then some (Action.switch Motion.last)
    else if b == b'n'
    then some (Action.pick Pick.hosts)
    else if b == b'N'
    then some Action.new
    else if b == b'h'
    then some (Action.pick Pick.next_group)
    else if b == b'H'
    then some (Action.pick Pick.previous_group)
    else if b == scroll_key && f.scroll
    then some (Action.scroll (Scroll.up 0))
    else if b == find_key
    then some (Action.session_search Rename.open_it)
    else if either b'r' b
    then some (Action.rename Rename.open_it)
    else none

unfoldable pub picking : KeyFilter → ℕ → Option Action
picking f b =
    if b == tab
    then some (Action.pick Pick.down)
    else if either b'j' b
    then some (Action.pick Pick.down)
    else if either b'k' b
    then some (Action.pick Pick.up)
    else if b == cr || b == lf
    then some (Action.pick Pick.go)
    else if b == b'q' || b == esc
    then some (Action.pick Pick.cancel)
    else if b == f.prefix
    then some (Action.pick Pick.cancel)
    else if either b'n' b
    then some (Action.group_name Rename.open_it)
    else none

unfoldable pub scrolling : KeyFilter → ℕ → Option Action
scrolling f b =
    if b == find_key
    then some (Action.find Find.open_it)
    else if b == b'n'
    then some (Action.find Find.next)
    else if b == b'N'
    then some (Action.find Find.previous)
    else if b == b'q' || b == esc || b == cr || b == lf
    then some (Action.scroll Scroll.leave)
    else if b == f.prefix
    then some (Action.scroll Scroll.leave)
    else if b == b' ' || b == b'f'
    then some (Action.scroll Scroll.page_down)
    else if b == b'b'
    then some (Action.scroll Scroll.page_up)
    else if b == b'k'
    then some (Action.scroll (Scroll.up 1))
    else if b == b'j'
    then some (Action.scroll (Scroll.down 1))
    else if b == b'g'
    then some (Action.scroll Scroll.top)
    else if b == b'G'
    then some (Action.scroll Scroll.bottom)
    else none

unfoldable pub open_prompt : KeyFilter → Prompting → KeyFilter
open_prompt f what = record f { prompt = some (record { what = what; line = [] }) }

-- The prompt that an action opens.
unfoldable pub opens : Action → Option Prompting
opens (Action.find Find.open_it) = some Prompting.finding
opens (Action.session_search Rename.open_it) = some Prompting.sessions
opens (Action.rename Rename.open_it) = some Prompting.renaming
opens (Action.group_name Rename.open_it) = some Prompting.grouping
opens action = none

unfoldable pub opening : KeyFilter → Action → KeyFilter
unfolding open_prompt
opening f action = elim (opens action) [ none ↦ f | some what ↦ open_prompt f what ]
