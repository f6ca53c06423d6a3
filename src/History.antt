-- ===== src/History.antt =====
-- src/node/history.rs: the scrollback, rendered, as a window of it, and searched. The buffer is the
-- list of its lines, oldest first.
pub mod Windows
pub mod Search
use mathlib.Core.List.{reverse}
use manymux.Prelude.{
  ℕ, zero, suc, ◌+◌, ◌-◌, ◌*◌, ◌≤◌, min, Bool, true, false, not, ◌&&◌, ◌||◌, List, [], ◌∷◌, ◌++◌,
  Option, none, some, Text, length, take, drop, map, codes, same, ltb, ◌==◌, if◌then◌else◌,
}
use manymux.Std.Decimal.{decimal}
use manymux.Terminal.{Color, indexed, rgb, Pen, Cell, Line}

abbrev pub esc : ℕ
esc = 0x1b

unfoldable pub params : Color → ℕ → Text
params (indexed i) base =
    if ltb i 8
    then b';' ∷ decimal (base * 10 + i)
    else if ltb i 16
    then b';' ∷ decimal (base * 10 + 52 + i)
    else b';' ∷ decimal base ++ (codes "8;5;" ++ decimal i)
params (rgb r g b) base =
    b';' ∷ decimal base ++ (codes "8;2;" ++ (decimal r ++ (b';' ∷ decimal g ++ (b';' ∷ decimal b))))

abbrev pub attribute : Bool → ℕ → Text
attribute on c = if on then b';' ∷ c ∷ [] else []

abbrev pub colour : Option Color → ℕ → Text
colour none base = []
colour (some c) base = params c base

unfoldable pub sgr : Pen → Text
unfolding params
sgr pen =
    esc ∷ b'[' ∷ b'0' ∷ attribute pen.bold b'1'
    ++ (attribute pen.faint b'2'
        ++ (attribute pen.italic b'3'
            ++ (attribute pen.underline b'4'
                ++ (attribute pen.blink b'5'
                    ++ (attribute pen.inverse b'7'
                        ++ (attribute pen.strikethrough b'9'
                            ++ (colour pen.foreground 3
                                ++ (colour pen.background 4 ++ b'm' ∷ []))))))))

abbrev pub default_pen : Pen
default_pen = record {
  bold = false;
  faint = false;
  italic = false;
  underline = false;
  blink = false;
  inverse = false;
  strikethrough = false;
  foreground = none;
  background = none;
}

abbrev pub same_color : Option Color → Option Color → Bool
same_color none none = true
same_color none (some d) = false
same_color (some c) none = false
same_color (some (indexed i)) (some (indexed j)) = i == j
same_color (some (indexed i)) (some (rgb r g b)) = false
same_color (some (rgb r g b)) (some (indexed j)) = false
same_color (some (rgb r g b)) (some (rgb r' g' b')) = r == r' && g == g' && b == b'

abbrev pub same_flag : Bool → Bool → Bool
same_flag true b = b
same_flag false b = not b

unfoldable pub same_pen : Pen → Pen → Bool
same_pen p q =
    same_flag p.bold q.bold
    && same_flag p.faint q.faint
    && same_flag p.italic q.italic
    && same_flag p.underline q.underline
    && same_flag p.blink q.blink
    && same_flag p.inverse q.inverse
    && same_flag p.strikethrough q.strikethrough
    && same_color p.foreground q.foreground
    && same_color p.background q.background

abbrev pub trailing : Cell → List Cell → List Cell
trailing c [] = if c.is_default then [] else c ∷ []
trailing c (d ∷ rest) = c ∷ d ∷ rest

-- The cells up to the last that is not default: `rposition` and the slice.
unfoldable pub drawn : List Cell → List Cell
drawn [] = []
drawn (cell ∷ cells) = trailing cell (drawn cells)

-- The tail half of a wide character is passed over, and a pen is written where it changes.
abbrev pub cell_text : Pen → Cell → Text
cell_text pen cell =
    if cell.width == 0
    then []
    else (if same_pen cell.pen pen then [] else sgr cell.pen) ++ cell.char ∷ []

abbrev pub next_pen : Pen → Cell → Pen
next_pen pen cell = if cell.width == 0 || same_pen cell.pen pen then pen else cell.pen

unfoldable pub write_cells : Pen → List Cell → Text
unfolding sgr same_pen
write_cells pen [] = if same_pen pen default_pen then [] else esc ∷ codes "[0m"
write_cells pen (cell ∷ cells) = cell_text pen cell ++ write_cells (next_pen pen cell) cells

abbrev pub newline : Text
newline = 13 ∷ 10 ∷ []

-- What `write_line` puts on the end of `out`.
unfoldable pub write_line : Line → Text
unfolding write_cells drawn
write_line line = write_cells default_pen (drawn line.cells) ++ newline

unfoldable pub write_lines : List Line → Text
unfolding write_line
write_lines [] = []
write_lines (line ∷ lines) = write_line line ++ write_lines lines

-- `render`, of a buffer whose last `rows` lines are the screen.
unfoldable pub render : List Line → ℕ → ℕ → Text
unfolding write_lines
render buffer rows lines =
    let history = length buffer - rows in
    let from = history - lines in write_lines (take (history - from) (drop from buffer))

pub record ViewRequest : Type 0 where
  pub from : ℕ
  pub lines : ℕ
  pub printed : ℕ

pub record View : Type 0 where
  pub from : ℕ
  pub total : ℕ
  pub printed : ℕ
  pub lines : List Text

-- `trim_end_matches("\r\n")`, on the text reversed.
unfoldable pub trim_newlines : Text → Text
trim_newlines [] = []
trim_newlines (a ∷ []) = a ∷ []
trim_newlines (a ∷ b ∷ s) =
    let rest = trim_newlines s in if a == 10 && b == 13 then rest else a ∷ b ∷ s

unfoldable pub view_line : Line → Text
unfolding write_line trim_newlines
view_line line = reverse (trim_newlines (reverse (write_line line)))

unfoldable pub window : List Line → ℕ → ViewRequest → View
window buffer printed request =
    let total = length buffer in
    let from = min request.from (total - 1) in
    let bottom = total - from in
    let top = bottom - request.lines in
    record {
      from = from;
      total = total;
      printed = printed;
      lines = map view_line (take (bottom - top) (drop top buffer));
    }

pub record Found : Type 0 where
  pub needle : Text
  pub lines : List ℕ
  pub printed : ℕ

unfoldable pub is_prefix : Text → Text → Bool
is_prefix [] s = true
is_prefix (p ∷ ps) [] = false
is_prefix (p ∷ ps) (c ∷ s) = (p == c) && is_prefix ps s

-- `str::contains`.
unfoldable pub contains : Text → Text → Bool
unfolding is_prefix
contains needle [] = is_prefix needle []
contains needle (c ∷ s) = is_prefix needle (c ∷ s) || contains needle s

-- The offsets of the lines that pass, from the oldest, where `i` is the next line's index.
unfoldable pub hits : (Line → Bool) → ℕ → ℕ → List Line → List ℕ
hits p total i [] = []
hits p total i (line ∷ lines) =
    let rest = hits p total (suc i) lines in if p line then (total - 1 - i) ∷ rest else rest

-- `str::to_lowercase` is a table of the standard library.
module _ (lowercase : Text → Text) where
  -- Smartcase.
  unfoldable pub matches : Text → Line → Bool
  unfolding contains
  matches needle line =
      if same needle (lowercase needle)
      then contains (lowercase needle) (lowercase line.text)
      else contains needle line.text

  unfoldable pub find : List Line → ℕ → Text → Found
  unfolding hits matches
  find buffer printed [] = record { needle = []; lines = []; printed = printed }
  find buffer printed (c ∷ needle) = record {
    needle = c ∷ needle;
    lines = reverse (hits (matches (c ∷ needle)) (length buffer) 0 buffer);
    printed = printed;
  }
