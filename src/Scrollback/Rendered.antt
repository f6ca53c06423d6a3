-- ===== src/Scrollback/Rendered.antt =====
-- src/client/scroll.rs: a line of the history as cells, and the text under a stretch of them. Which
-- characters are two cells wide is a table of the `unicode_width` crate, and which are letters or digits one
-- of the standard library: both are parameters.
use mathlib.Core.List.{reverse}
use manymux.Prelude.{
  ℕ, ◌+◌, ◌-◌, ◌^◌, min, Bool, true, false, not, ◌&&◌, ◌||◌, List, [], ◌∷◌, ◌++◌, Option, none,
  some, Text, codes, any, first, ltb, leb, ◌==◌, within, if◌then◌else◌, unwrap_or,
}
use manymux.Std.Strings.{is_whitespace}

abbrev pub esc : ℕ
esc = 0x1b

abbrev pub u16_max : ℕ
u16_max = 2 ^ 16 - 1

abbrev pub add_u16 : ℕ → ℕ → ℕ
add_u16 a b = min (a + b) u16_max

pub record RenderedCell : Type 0 where
  pub char : ℕ
  pub col : ℕ
  pub width : ℕ

unfoldable pub cell_end : RenderedCell → ℕ
cell_end c = add_u16 c.col c.width - 1

unfoldable pub overlaps : RenderedCell → ℕ → ℕ → Bool
overlaps c from to = ltb c.col to && ltb from (add_u16 c.col c.width)

pub data Piece : Type 0 where
  char : RenderedCell → Piece
  pen : Text → Piece

-- Where the walk stands: in text, behind an ESC, or inside a sequence that a test ends.
pub data Inside : Type 0 where
  text : Inside
  escaped : Inside
  csi : Inside
  osc : Inside

-- What ends a sequence.
unfoldable pub closes : Inside → ℕ → Bool
closes Inside.text c = true
closes Inside.escaped c = true
closes Inside.csi c = within 0x40 0x7e c
closes Inside.osc c = c == 0x07 || c == b'\\'

unfoldable pub behind_escape : ℕ → Inside
behind_escape c = if c == b'[' then Inside.csi else if c == b']' then Inside.osc else Inside.text

-- What is left of a sequence when the line ends.
unfoldable pub left_over : Inside → Text → List Piece
left_over Inside.text seq = []
left_over Inside.escaped seq = Piece.pen seq ∷ []
left_over Inside.csi seq = Piece.pen seq ∷ []
left_over Inside.osc seq = Piece.pen seq ∷ []

-- `c.width() == Some(2)`.
module _ (is_wide : ℕ → Bool) where
  unfoldable pub width : ℕ → ℕ
  width c = if ltb 0x7e c && is_wide c then 2 else 1

  -- `walk`: the pieces of a line, in order, and `seq` is the sequence in progress. A cell's column is the
  -- sum of the widths before it.
  unfoldable pub walk_from : Inside → Text → ℕ → Text → List Piece
  unfolding left_over width
  walk_from inside seq col [] = left_over inside seq
  walk_from Inside.text seq col (c ∷ r) = elim (c == esc) [
    | true ↦ walk_from Inside.escaped (c ∷ []) col r
    | false ↦
        Piece.char (record { char = c; col = col; width = width c })
        ∷ walk_from Inside.text [] (add_u16 col (width c)) r
  ]
  walk_from Inside.escaped seq col (c ∷ r) = elim (behind_escape c) [
    | text ↦ Piece.pen (seq ++ c ∷ []) ∷ walk_from Inside.text [] col r
    | escaped ↦ walk_from Inside.escaped (seq ++ c ∷ []) col r
    | csi ↦ walk_from Inside.csi (seq ++ c ∷ []) col r
    | osc ↦ walk_from Inside.osc (seq ++ c ∷ []) col r
  ]
  walk_from Inside.csi seq col (c ∷ r) = elim (closes Inside.csi c) [
    | true ↦ Piece.pen (seq ++ c ∷ []) ∷ walk_from Inside.text [] col r
    | false ↦ walk_from Inside.csi (seq ++ c ∷ []) col r
  ]
  walk_from Inside.osc seq col (c ∷ r) = elim (closes Inside.osc c) [
    | true ↦ Piece.pen (seq ++ c ∷ []) ∷ walk_from Inside.text [] col r
    | false ↦ walk_from Inside.osc (seq ++ c ∷ []) col r
  ]

  unfoldable pub walk : Text → List Piece
  unfolding walk_from
  walk line = walk_from Inside.text [] 0 line

unfoldable pub cells_of : List Piece → List RenderedCell
cells_of [] = []
cells_of (Piece.char cell ∷ pieces) = cell ∷ cells_of pieces
cells_of (Piece.pen seq ∷ pieces) = cells_of pieces

unfoldable pub chars_between : ℕ → ℕ → List RenderedCell → Text
unfolding overlaps
chars_between from to [] = []
chars_between from to (cell ∷ cells) =
    if overlaps cell from to
    then cell.char ∷ chars_between from to cells
    else chars_between from to cells

module _ (is_wide : ℕ → Bool) where
  unfoldable pub cells : Text → List RenderedCell
  unfolding walk
  cells line = cells_of (walk is_wide line)

  unfoldable pub plain : Text → ℕ → ℕ → Text
  unfolding cells
  plain line from to = chars_between from to (cells line)

  -- The last cell that is no blank.
  unfoldable pub line_end : Text → ℕ
  unfolding cells cell_end
  line_end line = elim (first (λ cell. not (is_whitespace cell.char)) (reverse (cells line))) [
    | none ↦ 0
    | some cell ↦ cell_end cell
  ]

abbrev pub word_marks : Text
word_marks = codes "_-./+@:~="

unfoldable pub in_a_word : (ℕ → Bool) → ℕ → Bool
in_a_word is_alphanumeric c = is_alphanumeric c || any (λ m. m == c) word_marks

-- The cells of a word about a column. `before` is the run of word cells that ends where the walk stands, as
-- the column at which it begins.
unfoldable pub holds_col : RenderedCell → ℕ → Bool
holds_col cell at = leb cell.col at && ltb at (add_u16 cell.col cell.width)

-- The end of the run of word cells from here.
unfoldable pub run_end : (ℕ → Bool) → ℕ → List RenderedCell → ℕ
unfolding in_a_word
run_end is_alphanumeric last [] = last
run_end is_alphanumeric last (cell ∷ cells) =
    let more = run_end is_alphanumeric (cell_end cell) cells in
    if in_a_word is_alphanumeric cell.char then more else last

abbrev run_start : Option ℕ → RenderedCell → ℕ
run_start none cell = cell.col
run_start (some start) cell = start

unfoldable pub word_at : (ℕ → Bool) → Option ℕ → ℕ → List RenderedCell → Option (ℕ × ℕ)
unfolding in_a_word
word_at is_alphanumeric before at [] = none
word_at is_alphanumeric before at (cell ∷ cells) =
    let start = unwrap_or cell.col before in
    let inside = in_a_word is_alphanumeric cell.char in
    let more = word_at is_alphanumeric (if inside then some start else none) at cells in
    if holds_col cell at
    then (if inside then some (start, run_end is_alphanumeric (cell_end cell) cells) else none)
    else more
