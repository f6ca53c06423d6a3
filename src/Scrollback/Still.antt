-- ===== src/Scrollback/Still.antt =====
-- src/client/scroll.rs: what is printed meanwhile moves everything that names lines by as much, so the lines
-- under a selection and the text of it stay what they were.
use manymux.Prelude.{
  ℕ, zero, suc, ◌+◌, ◌-◌, ◌≤◌, Bool, true, false, [], ◌∷◌, ◌++◌, Option, some, length, ◌≡◌, refl,
  ap, sym, append-nil, ◌⊎◌, inl, inr, not, ◌||◌, Bool-cases, ◌∙◌, arith, leb, ltb, ◌==◌,
  if◌then◌else◌,
}
use manymux.Scrollback.{
  Scrollback, Selection, Block, Cell, Grain, move_block, move_selection, ends, saturating_add,
  u64_max, block_top, follow,
}
use manymux.Scrollback.Selecting.{
  block_line, grained, grown, text_of, selected, pieces, piece, line_ends, word_on,
}
use manymux.Wire.{moved}

-- Nothing that is named is at the far end of the numbers.
pub record Moves (by : ℕ) (b : Block) (sel : Selection) : Type 0 where
  pub block_fits : b.from + by ≤ u64_max
  pub anchor_fits : sel.anchor.line + by ≤ u64_max
  pub head_fits : sel.head.line + by ≤ u64_max

move_line : (a by : ℕ) → a + by ≤ u64_max → saturating_add a by ≡ a + by
move_line a by h = ground arith

sub-shift : (l f by : ℕ) → (l + by) - (f + by) ≡ l - f
sub-shift l f by = omega arith

ltb-shift : (l f by : ℕ) → ltb (l + by) (f + by) ≡ ltb l f
ltb-shift l f by = ground arith

leb-shift : (f n l by : ℕ) → leb (f + by + n) (l + by) ≡ leb (f + n) l
leb-shift f n l by = ground arith

==-shift : (l f by : ℕ) → ((l + by) == (f + by)) ≡ (l == f)
==-shift l f by = ground arith

-- A block whose lines are named further back.
abbrev moved_block : ℕ → Block → Block
moved_block by b = record b { from = b.from + by }

abbrev shift : ℕ → Cell → Cell
shift by c = record c { line = c.line + by }

abbrev moved_selection : ℕ → Selection → Selection
moved_selection by sel = record sel { anchor = shift by sel.anchor; head = shift by sel.head }

move_block-lem :
    (by : ℕ) (b : Block) → b.from + by ≤ u64_max → move_block by (some b) ≡ some (moved_block by b)
unfolding move_block
move_block-lem by b h = ap (λ f. some (record b { from = f })) (move_line b.from by h)

move_selection-lem :
    (by : ℕ) (b : Block) (sel : Selection)
    → Moves by b sel
    → move_selection by (some sel) ≡ some (moved_selection by sel)
unfolding move_selection
move_selection-lem by b sel h = ground (arith, h.anchor_fits, h.head_fits)

block_line-moved :
    (by : ℕ) (b : Block) (l : ℕ)
    → block_line (some (moved_block by b)) (l + by) ≡ block_line (some b) l
unfolding block_line block_top
block_line-moved by b l =
    rw (sub-shift l b.from by, ltb-shift l b.from by, leb-shift b.from (length b.lines) l by)

ends-moved :
    (by : ℕ) (sel : Selection)
    → ends (moved_selection by sel) ≡ (shift by (ends sel).0, shift by (ends sel).1)
unfolding ends
ends-moved by sel = ground arith

ends_order : (sel : Selection) → (ends sel).1.line ≤ (ends sel).0.line
unfolding ends
ends_order sel = ground arith

-- Either nothing moved or all of it.
follow_fields :
    (s : Scrollback) (printed : ℕ)
    → (((follow s printed).selection ≡ s.selection) × ((follow s printed).block ≡ s.block))
      ⊎ (((follow s printed).selection ≡ move_selection (moved printed s.printed) s.selection)
          × ((follow s printed).block ≡ move_block (moved printed s.printed) s.block))
unfolding follow
follow_fields s printed = elim (Bool-cases (not s.answered || moved printed s.printed == 0)) [
  | inl e ↦ inl (ground arith, ground arith)
  | inr e ↦ inr (ground arith, ground arith)
]

module _ (is_wide is_alphanumeric : ℕ → Bool) where
  word_on-moved :
      (by : ℕ) (b : Block) (c : Cell)
      → word_on is_wide is_alphanumeric (some (moved_block by b)) (shift by c)
        ≡ word_on is_wide is_alphanumeric (some b) c
  unfolding word_on
  word_on-moved by b c = rw (block_line-moved by b c.line)

  line_ends-moved :
      (by : ℕ) (b : Block) (l : ℕ)
      → line_ends is_wide is_alphanumeric (some (moved_block by b)) (l + by)
        ≡ line_ends is_wide is_alphanumeric (some b) l
  unfolding line_ends
  line_ends-moved by b l = rw (block_line-moved by b l)

  grown-moved :
      (grain : Grain) (by : ℕ) (b : Block) (anchor : Cell) (both : Cell × Cell)
      → grown is_wide is_alphanumeric grain
          (some (moved_block by b))
          (shift by anchor)
          (shift by both.0, shift by both.1)
        ≡ (
          shift by (grown is_wide is_alphanumeric grain (some b) anchor both).0,
          shift by (grown is_wide is_alphanumeric grain (some b) anchor both).1,
        )
  unfolding grown
  grown-moved Grain.cell by b anchor (first, last) = refl
  grown-moved Grain.word by b anchor (first, last) =
      rw (word_on-moved by b anchor, word_on-moved by b first, word_on-moved by b last)
        (ground arith)
  grown-moved Grain.line by b anchor (first, last) = rw (line_ends-moved by b last.line)

  grained-moved :
      (by : ℕ) (b : Block) (sel : Selection)
      → grained is_wide is_alphanumeric (some (moved_block by b)) (moved_selection by sel) ≡ (
        shift by (grained is_wide is_alphanumeric (some b) sel).0,
        shift by (grained is_wide is_alphanumeric (some b) sel).1,
      )
  unfolding grained
  grained-moved by b sel = rw (ends-moved by sel) (grown-moved sel.grain by b sel.anchor (ends sel))

  piece-moved :
      (by : ℕ) (b : Block) (first last : Cell) (l : ℕ)
      → piece is_wide is_alphanumeric
          (some (moved_block by b))
          (shift by first)
          (shift by last)
          (l + by)
        ≡ piece is_wide is_alphanumeric (some b) first last l
  unfolding piece
  piece-moved by b first last l =
      rw (block_line-moved by b l, ==-shift l first.line by, ==-shift l last.line by)

  pieces_step :
      (block : Option Block) (first last : Cell) (l : ℕ)
      → last.line ≤ l
      → pieces is_wide is_alphanumeric block first last l
        ≡ piece is_wide is_alphanumeric block first last l
          ++ (if l == last.line
              then []
              else 10 ∷ pieces is_wide is_alphanumeric block first last (l - 1))
  unfolding pieces
  pieces_step block first last zero h =
      let e : (0 == last.line) ≡ true = ground arith in
      rw e (sym (append-nil (piece is_wide is_alphanumeric block first last 0)))
  pieces_step block first last (suc l) h = let e : suc l - 1 ≡ l = omega arith in rw e

  pieces-moved :
      (d by : ℕ) (b : Block) (first last : Cell) (l : ℕ)
      → l ≡ last.line + d
      → pieces is_wide is_alphanumeric
          (some (moved_block by b))
          (shift by first)
          (shift by last)
          (l + by)
        ≡ pieces is_wide is_alphanumeric (some b) first last l
  pieces-moved zero by b first last l e =
      let done : (l == last.line) ≡ true = ground arith in
      pieces_step (some (moved_block by b)) (shift by first) (shift by last) (l + by) (omega arith)
      ∙ (rw (piece-moved by b first last l, ==-shift l last.line by, done))
      ∙ sym (pieces_step (some b) first last l (omega arith))
  pieces-moved (suc d) by b first last l e =
      let more : (l == last.line) ≡ false = ground arith in
      let less : l + by - 1 ≡ l - 1 + by = omega arith in
      let further = pieces-moved d by b first last (l - 1) (omega arith) in
      pieces_step (some (moved_block by b)) (shift by first) (shift by last) (l + by) (omega arith)
      ∙ (rw (piece-moved by b first last l, ==-shift l last.line by, more, less, further))
      ∙ sym (pieces_step (some b) first last l (omega arith))

  grown_order :
      (grain : Grain) (block : Option Block) (anchor : Cell) (both : Cell × Cell)
      → both.1.line ≤ both.0.line
      → (grown is_wide is_alphanumeric grain block anchor both).1.line
        ≤ (grown is_wide is_alphanumeric grain block anchor both).0.line
  unfolding grown
  grown_order Grain.cell block anchor (first, last) h = h
  grown_order Grain.word block anchor (first, last) h = ground arith
  grown_order Grain.line block anchor (first, last) h = h

  grained_order :
      (block : Option Block) (sel : Selection)
      → (grained is_wide is_alphanumeric block sel).1.line
        ≤ (grained is_wide is_alphanumeric block sel).0.line
  unfolding grained
  grained_order block sel = grown_order sel.grain block sel.anchor (ends sel) (ends_order sel)

  text_of-moved :
      (by : ℕ) (b : Block) (sel : Selection)
      → text_of is_wide is_alphanumeric (some (moved_block by b)) (moved_selection by sel)
        ≡ text_of is_wide is_alphanumeric (some b) sel
  unfolding text_of
  text_of-moved by b sel =
      let both = grained is_wide is_alphanumeric (some b) sel in
      let d = both.0.line - both.1.line in
      rw (
        grained-moved by b sel,
        pieces-moved d by b both.0 both.1 both.0.line (omega (arith, grained_order (some b) sel)),
      )

  selected_by :
      (s : Scrollback) (block : Option Block) (sel : Selection)
      → s.block ≡ block
      → s.selection ≡ some sel
      → selected is_wide is_alphanumeric s ≡ text_of is_wide is_alphanumeric block sel
  unfolding selected
  selected_by s block sel hb hs = ground arith

  -- Where no line that is named is at the far end of the numbers, what is printed meanwhile leaves the text of
  -- a selection what it was, whatever its grain is and however much of it the block holds.
  pub selected-follow :
      (s : Scrollback) (b : Block) (sel : Selection) (printed : ℕ)
      → s.block ≡ some b
      → s.selection ≡ some sel
      → Moves (moved printed s.printed) b sel
      → selected is_wide is_alphanumeric (follow s printed) ≡ selected is_wide is_alphanumeric s
  selected-follow s b sel printed hb hs h = elim (follow_fields s printed) [
    | inl same ↦
        selected_by (follow s printed) (some b) sel (same.1 ∙ hb) (same.0 ∙ hs)
        ∙ sym (selected_by s (some b) sel hb hs)
    | inr both ↦
        let by = moved printed s.printed in
        selected_by (follow s printed) (some (moved_block by b)) (moved_selection by sel)
          (both.1 ∙ ap (move_block by) hb ∙ move_block-lem by b h.block_fits)
          (both.0 ∙ ap (move_selection by) hs ∙ move_selection-lem by b sel h)
        ∙ text_of-moved by b sel
        ∙ sym (selected_by s (some b) sel hb hs)
  ]
