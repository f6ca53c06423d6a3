-- ===== src/Scrollback/Selecting.antt =====
-- src/client/scroll.rs: what is selected in the history, and the text that a copy of it takes.
use manymux.Keys.{Spot}
use manymux.Prelude.{
  ℕ, zero, suc, ◌+◌, ◌-◌, min, max, Bool, true, false, not, ◌&&◌, ◌||◌, [], ◌∷◌, ◌++◌, Option, none,
  some, Text, length, drop, take, head?, has_some, unwrap_or, ltb, leb, ◌==◌, if◌then◌else◌, ◌>>=◌,
}
use manymux.Scrollback.{
  Scrollback, Selection, Cell, Block, Grain, Owed, Selected, ends, page, block_top, saturating_add,
}
use manymux.Scrollback.Rendered.{cells, plain, line_end, word_at, add_u16, u16_max}
use manymux.Std.Strings.{trim_end}

-- `u64::clamp(1, rows)`.
abbrev pub clamp_row : ℕ → ℕ → ℕ
clamp_row row rows = min (max row 1) rows

-- The cell of the history under a spot of the window.
unfoldable pub cell_at : Scrollback → Spot → Cell
cell_at s spot = record {
  line = saturating_add s.offset (page s - clamp_row spot.row (page s));
  col = min (spot.col - 1) (s.cols - 1);
}

unfoldable pub stop_chasing : Scrollback → Scrollback
stop_chasing s = record s { chasing = none; chased = 0 }

unfoldable pub begin : Scrollback → Cell → Cell → Grain → Scrollback
unfolding stop_chasing
begin s anchor head grain = record (stop_chasing s) {
  owed = false;
  selection = some (record { anchor = anchor; head = head; grain = grain });
}

unfoldable pub select_from : Scrollback → Spot → Scrollback
unfolding begin cell_at
select_from s spot = begin s (cell_at s spot) (cell_at s spot) Grain.cell

unfoldable pub at_an_edge : Scrollback → Spot → Bool
at_an_edge s spot = leb spot.row 1 || leb (page s) spot.row

unfoldable pub move_head : Cell → Option Selection → Option Selection
move_head at none = none
move_head at (some selection) = some (record selection { head = at })

unfoldable pub select_to : Scrollback → Spot → Scrollback
unfolding cell_at at_an_edge stop_chasing move_head
select_to s spot =
    let s' = if at_an_edge s spot then record s { chasing = some spot } else stop_chasing s in
    record s' { selection = move_head (cell_at s spot) s.selection }

unfoldable pub let_go : Scrollback → Scrollback
unfolding stop_chasing
let_go s = stop_chasing s

unfoldable pub spans_of : Option Selection → ℕ
unfolding ends
spans_of none = 0
spans_of (some selection) =
    let (first, last) = ends selection in saturating_add (first.line - last.line) 1

abbrev pub spans : Scrollback → ℕ
spans s = spans_of s.selection

unfoldable pub select_word : Scrollback → Spot → Scrollback
unfolding begin cell_at
select_word s spot = begin s (cell_at s spot) (cell_at s spot) Grain.word

-- One line of a block, by how far back it is, and nothing for a line that the block does not reach.
unfoldable pub block_line : Option Block → ℕ → Option Text
unfolding block_top
block_line none offset = none
block_line (some b) offset =
    if ltb offset b.from || leb (block_top b) offset
    then none
    else let end = length b.lines - (offset - b.from) in
      head? (take (end - (end - 1)) (drop (end - 1) b.lines))

abbrev pub line_of : Scrollback → ℕ → Option Text
line_of s offset = block_line s.block offset

unfoldable pub holds : Option Block → Selection → Bool
unfolding block_top ends
holds none selection = false
holds (some b) selection =
    let (first, last) = ends selection in ltb first.line (block_top b) && leb b.from last.line

module _ (is_wide is_alphanumeric : ℕ → Bool) where
  unfoldable pub line_ends : Option Block → ℕ → ℕ
  line_ends block offset = line_end is_wide (unwrap_or [] (block_line block offset))

  unfoldable pub select_line : Scrollback → Spot → Scrollback
  unfolding begin cell_at line_ends
  select_line s spot =
      let at = cell_at s spot in
      begin s (record at { col = 0 }) (record at { col = line_ends s.block at.line }) Grain.line

  unfoldable pub word_on : Option Block → Cell → Option (ℕ × ℕ)
  word_on block at = do
    line ← block_line block at.line
    word_at is_alphanumeric none at.col (cells is_wide line)

  unfoldable pub anything_on : Option Block → ℕ → Bool
  anything_on block offset = elim (block_line block offset) [
    | none ↦ false
    | some line ↦ ltb 0 (length (trim_end (plain is_wide line 0 u16_max)))
  ]

  abbrev from_word : ℕ → Option (ℕ × ℕ) → ℕ
  from_word col none = col
  from_word col (some (from, to)) = from

  abbrev to_word : ℕ → Option (ℕ × ℕ) → ℕ
  to_word col none = col
  to_word col (some (from, to)) = to

  -- The ends of a selection, grown to what it takes whole.
  unfoldable pub grown : Grain → Option Block → Cell → Cell × Cell → Cell × Cell
  grown Grain.cell block anchor (first, last) = (first, last)
  grown Grain.word block anchor (first, last) =
      if has_some (word_on block anchor)
      then (
        record first { col = from_word first.col (word_on block first) },
        record last { col = to_word last.col (word_on block last) },
      )
      else (first, last)
  grown Grain.line block anchor (first, last) =
      (record first { col = 0 }, record last { col = line_ends block last.line })

  unfoldable pub grained : Option Block → Selection → Cell × Cell
  unfolding ends
  grained block selection = grown selection.grain block selection.anchor (ends selection)

  abbrev same_cell : Cell → Cell → Bool
  same_cell a b = a.line == b.line && a.col == b.col

  -- A gesture that never moved and has nothing under it.
  unfoldable pub is_click : Option Block → Selection → Bool
  unfolding word_on anything_on
  is_click block selection = same_cell selection.anchor selection.head && (elim selection.grain [
    | Grain.cell ↦ true
    | Grain.word ↦ not (has_some (word_on block selection.anchor))
    | Grain.line ↦ not (anything_on block selection.anchor.line)
  ])

  unfoldable pub size_of : Option Block → Selection → Option Selected
  unfolding is_click grained
  size_of block selection =
      if is_click block selection
      then none
      else let (first, last) = grained block selection in
        some (
          if first.line == last.line
          then Selected.chars (last.col - first.col + 1)
          else Selected.lines (spans_of (some selection)))

  unfoldable pub selected_size : Scrollback → Option Selected
  unfolding size_of
  selected_size s = do selection ← s.selection; size_of s.block selection

  -- What of a line is under the selection, with the blanks at its end taken off.
  unfoldable pub piece : Option Block → Cell → Cell → ℕ → Text
  piece block first last line =
      let from = if line == first.line then first.col else 0 in
      let to = if line == last.line then add_u16 last.col 1 else u16_max in
      trim_end (plain is_wide (unwrap_or [] (block_line block line)) from to)

  -- The pieces of the lines from this one down to the last, a newline between them.
  unfoldable pub pieces : Option Block → Cell → Cell → ℕ → Text
  pieces block first last zero = piece block first last zero
  pieces block first last (suc line) =
      let more = 10 ∷ pieces block first last line in
      piece block first last (suc line) ++ (if suc line == last.line then [] else more)

  unfoldable pub text_of : Option Block → Selection → Option Text
  unfolding grained pieces
  text_of block selection =
      let (first, last) = grained block selection in
      let out = pieces block first last first.line in if ltb 0 (length out) then some out else none

  unfoldable pub selected : Scrollback → Option Text
  unfolding text_of
  selected s = do selection ← s.selection; text_of s.block selection

  unfoldable pub took : Scrollback → Option Text × Scrollback
  unfolding selected_size selected
  took s = elim (do size ← selected_size s; selected s) [
    | none ↦ (none, record s { selection = none })
    | some text ↦ (some text, s)
  ]

  unfoldable pub copied : Scrollback → Option Text × Scrollback
  unfolding holds took
  copied s = elim s.selection [
    | none ↦ (none, s)
    | some selection ↦
        if (elim selection.grain [ Grain.cell ↦ true | Grain.word ↦ false | Grain.line ↦ false ])
          && same_cell selection.anchor selection.head
        then (none, record s { selection = none })
        else if not (holds s.block selection)
        then (none, record s { owed = true })
        else took s
  ]

  unfoldable pub owed_of : Option Text → Owed
  owed_of none = Owed.empty
  owed_of (some text) = Owed.copied text

  unfoldable pub answer_copy : Scrollback → Selection → Owed × Scrollback
  unfolding holds took owed_of
  answer_copy s selection =
      if not (holds s.block selection)
      then if same_cell selection.anchor selection.head
        then (Owed.empty, record s { selection = none })
        else (Owed.lost, s)
      else let (text, s') = took s in (owed_of text, s')

  unfoldable pub owed_copy : Scrollback → Owed × Scrollback
  unfolding answer_copy
  owed_copy s =
      if not s.owed then (Owed.nothing, record s { owed = false }) else (elim s.selection [
        | none ↦ (Owed.nothing, record s { owed = false })
        | some selection ↦ answer_copy (record s { owed = false }) selection
      ])
