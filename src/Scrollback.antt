-- ===== src/Scrollback.antt =====
-- src/client/scroll.rs: the history that an attached client looks at. `Scrollback` is its state; here are
-- its moves, what it asks the host for and what it does with the answers. The children hold the selection
-- (Scrollback/Selecting), the chase of a drag held at an edge (Scrollback/Chasing) and the text of a line
-- (Scrollback/Rendered). Line numbers and counts are `u64`s, whose saturation is written out.
pub mod Rendered
pub mod Selecting
pub mod Chasing
pub mod Requests
pub mod Still
pub mod Rests
use manymux.History.{View, ViewRequest, Found}
use manymux.Keys.{Spot}
use manymux.Prelude.{
  ℕ, zero, suc, ◌+◌, ◌-◌, ◌*◌, ◌/◌, ◌^◌, min, max, Bool, true, false, not, ◌&&◌, ◌||◌, List, [],
  ◌∷◌, map, Option, none, some, Text, length, get_elem?, ltb, leb, ◌==◌, same, if◌then◌else◌,
}
use manymux.Wire.{Size, moved}

-- Screenfuls in a block.
abbrev pub block_pages : ℕ
block_pages = 3

abbrev pub copy_lines : ℕ
copy_lines = 2000

abbrev pub u64_max : ℕ
u64_max = 2 ^ 64 - 1

abbrev pub u32_max : ℕ
u32_max = 2 ^ 32 - 1

abbrev pub saturating_add : ℕ → ℕ → ℕ
saturating_add a b = min (a + b) u64_max

pub data Grain : Type 0 where
  cell : Grain
  word : Grain
  line : Grain

pub data Selected : Type 0 where
  chars : ℕ → Selected
  lines : ℕ → Selected

pub data Owed : Type 0 where
  nothing : Owed
  copied : Text → Owed
  lost : Owed
  empty : Owed

pub record Cell : Type 0 where
  pub line : ℕ
  pub col : ℕ

pub record Selection : Type 0 where
  pub anchor : Cell
  pub head : Cell
  pub grain : Grain

pub record Search : Type 0 where
  pub needle : Text
  pub lines : List ℕ
  pub at : Option ℕ

pub record Block : Type 0 where
  pub from : ℕ
  pub lines : List Text

pub record Scrollback : Type 0 where
  pub offset : ℕ
  pub total : ℕ
  pub printed : ℕ
  pub trimming : Bool
  pub answered : Bool
  pub block : Option Block
  pub asked : Option ViewRequest
  pub in_flight : Bool
  pub rows : ℕ
  pub cols : ℕ
  pub search : Option Search
  pub selection : Option Selection
  pub chasing : Option Spot
  pub chased : ℕ
  pub owed : Bool
  pub painted : List (Option Text)

unfoldable pub new : Size → Scrollback
new size = record {
  offset = 0;
  total = 0;
  printed = 0;
  trimming = false;
  answered = false;
  block = none;
  asked = none;
  in_flight = false;
  rows = size.rows;
  cols = size.cols;
  search = none;
  selection = none;
  chasing = none;
  chased = 0;
  owed = false;
  painted = [];
}

-- The upper end of the selection first: the one further back.
unfoldable pub ends : Selection → Cell × Cell
ends s =
    if ltb s.head.line s.anchor.line
      || (s.anchor.line == s.head.line && leb s.anchor.col s.head.col)
    then (s.anchor, s.head)
    else (s.head, s.anchor)

unfoldable pub block_top : Block → ℕ
block_top b = b.from + length b.lines

unfoldable pub resize : Scrollback → Size → Scrollback
resize s size = record s { rows = size.rows; cols = size.cols; painted = [] }

abbrev pub page : Scrollback → ℕ
page s = max s.rows 1

abbrev pub furthest : Scrollback → ℕ
furthest s = s.total - page s

abbrev pub at_bottom : Scrollback → Bool
at_bottom s = s.offset == 0

unfoldable pub covers : Scrollback → Option Block → Bool
unfolding block_top
covers s none = false
covers s (some b) = leb b.from s.offset && leb (min (s.offset + page s) s.total) (block_top b)

unfoldable pub covered : Scrollback → Bool
unfolding covers
covered s = covers s s.block

unfoldable pub up : Scrollback → ℕ → Scrollback
up s count =
    let back = saturating_add s.offset count in
    if not s.answered
    then record s { offset = back }
    else record s { offset = min back (furthest s) }

unfoldable pub down : Scrollback → ℕ → Scrollback
down s count = record s { offset = s.offset - count }

unfoldable pub page_up : Scrollback → Scrollback
unfolding up
page_up s = up s (page s)

unfoldable pub page_down : Scrollback → Scrollback
unfolding down
page_down s = down s (page s)

unfoldable pub top : Scrollback → Scrollback
top s = if not s.answered then record s { offset = u64_max } else record s { offset = furthest s }

unfoldable pub bottom : Scrollback → Scrollback
bottom s = record s { offset = 0 }

unfoldable pub pinned : Scrollback → Bool
pinned s = s.offset == 0 || (s.trimming && leb (furthest s) s.offset)

-- The window, and half a block on either side of it.
abbrev pub wide_from : Scrollback → ℕ
wide_from s = s.offset - (page s * block_pages - page s) / 2

abbrev pub wide_top : Scrollback → ℕ
wide_top s = saturating_add (wide_from s) (page s * block_pages)

-- Stretched over the selection.
unfoldable pub stretched : Scrollback → Option Selection → ℕ × ℕ
unfolding ends
stretched s none = (wide_from s, wide_top s)
stretched s (some selection) =
    let (first, last) = ends selection in
    (min (wide_from s) last.line, max (wide_top s) (saturating_add first.line 1))

unfoldable pub request : Scrollback → ViewRequest
unfolding stretched pinned
request s =
    let (from, until) = stretched s s.selection in
    record {
      from = from;
      lines = min (min (until - from) (copy_lines + page s * block_pages)) u32_max;
      printed = (if pinned s then 0 else s.printed);
    }

unfoldable pub same_request : Option ViewRequest → ViewRequest → Bool
same_request none r = false
same_request (some q) r = q.from == r.from && q.lines == r.lines && q.printed == r.printed

-- Whether a block that covers the window goes on far enough in both directions.
unfoldable pub roomy : Scrollback → Option Block → Bool
unfolding block_top
roomy s none = true
roomy s (some b) =
    let margin = page s / 2 in
    let near_bottom = ltb 0 b.from && ltb (s.offset - b.from) margin in
    let near_top = ltb (block_top b) s.total && ltb (block_top b - (s.offset + page s)) margin in
    not near_bottom && not near_top

unfoldable pub wanted : Scrollback → Option ViewRequest × Scrollback
unfolding covered roomy
wanted s =
    if s.in_flight
    then (none, s)
    else if covered s && roomy s s.block
    then (none, s)
    else if same_request s.asked (request s)
    then (none, s)
    else (some (request s), record s { asked = some (request s); in_flight = true })

abbrev pub move_cell : ℕ → Cell → Cell
move_cell by c = record c { line = saturating_add c.line by }

unfoldable pub move_block : ℕ → Option Block → Option Block
move_block by none = none
move_block by (some b) = some (record b { from = saturating_add b.from by })

unfoldable pub move_selection : ℕ → Option Selection → Option Selection
move_selection by none = none
move_selection by (some s) =
    some (record s { anchor = move_cell by s.anchor; head = move_cell by s.head })

unfoldable pub move_search : ℕ → Option Search → Option Search
move_search by none = none
move_search by (some s) = some (record s { lines = map (λ line. saturating_add line by) s.lines })

-- Everything that names lines moves, the window only where it is not at the bottom.
unfoldable pub moved_by : Scrollback → ℕ → Scrollback
unfolding move_block move_selection move_search
moved_by s by = record s {
  offset = (if s.offset == 0 then 0 else saturating_add s.offset by);
  block = move_block by s.block;
  selection = move_selection by s.selection;
  search = move_search by s.search;
}

unfoldable pub follow : Scrollback → ℕ → Scrollback
unfolding moved_by
follow s printed =
    let by = moved printed s.printed in
    let s' = if printed == 0 then s else record s { printed = printed } in
    if not s.answered || by == 0 then s' else moved_by s' by

unfoldable pub take : Scrollback → View → Scrollback
unfolding follow
take s window =
    let trimming = ltb 0 (moved window.printed s.printed) && window.total == s.total in
    let s' = record (follow (record s { in_flight = false; trimming = trimming }) window.printed) {
      total = window.total;
      answered = true;
    } in
    record s' {
      offset = min s'.offset (furthest s');
      block = some (record { from = window.from; lines = window.lines });
    }

-- `jump`, to the match at this place, where there is one.
unfoldable pub jump_to : Scrollback → Search → ℕ → Option ℕ → Scrollback
jump_to s search at none = s
jump_to s search at (some hit) = record s {
  search = some (record search { at = some at });
  offset = min (hit - page s / 2) (furthest s);
}

unfoldable pub jump : Scrollback → ℕ → Scrollback
unfolding jump_to
jump s at = elim s.search [
  | none ↦ s
  | some search ↦ jump_to s search at (get_elem? search.lines at)
]

-- `iter().position(|line| *line > offset)`.
unfoldable pub first_above : ℕ → List ℕ → ℕ → Option ℕ
first_above offset [] i = none
first_above offset (hit ∷ hits) i =
    let later = first_above offset hits (suc i) in if ltb offset hit then some i else later

unfoldable pub land : Scrollback → Option ℕ → Bool × Scrollback
land s none = (false, s)
land s (some at) = (true, jump s at)

unfoldable pub found : Scrollback → Found → Bool × Scrollback
unfolding land
found s f =
    let s' = follow s f.printed in
    let at = first_above s'.offset f.lines 0 in
    let search : Search = record { needle = f.needle; lines = f.lines; at = at } in
    land (record s' { search = some search }) at

-- The place of the next match, further back or nearer.
unfoldable pub next_match : Option ℕ → Bool → Option ℕ
next_match (some at) true = some (at + 1)
next_match (some zero) false = none
next_match (some (suc at)) false = some at
next_match none back = none

unfoldable pub step_to : Scrollback → Search → Option ℕ → Bool × Scrollback
step_to s search none = (false, s)
step_to s search (some next) =
    if leb (length search.lines) next then (false, s) else (true, jump s next)

unfoldable pub step : Scrollback → Bool → Bool × Scrollback
unfolding next_match step_to
step s back = elim s.search [
  | none ↦ (false, s)
  | some search ↦ step_to s search (next_match search.at back)
]
