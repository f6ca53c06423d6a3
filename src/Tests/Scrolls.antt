-- ===== src/Tests/Scrolls.antt =====
-- Witnesses and runs on the history that a client looks at: src/client/scroll.rs.
use manymux.Prelude.{
  ℕ, ◌+◌, ◌*◌, ◌≤◌, Bool, true, false, [], ◌∷◌, some, codes, within, ◌↔◌, ◌≡◌, refl, arith,
}
use manymux.Scrollback.{
  Scrollback, Selection, Block, Grain, new, follow, request, page, copy_lines, ends, block_top,
}
use manymux.Scrollback.Requests.{lowest, request_reaches}
use manymux.Scrollback.Rests.{still_moving, chase_rests}
use manymux.Scrollback.Selecting.{
  selected, grained, grown, word_on, block_line, piece, text_of, pieces,
}
use manymux.Scrollback.Rendered.{
  word_at, cells, cells_of, holds_col, plain, chars_between, run_end, cell_end, walk, walk_from,
  width, behind_escape, closes, in_a_word, overlaps,
}
use manymux.Std.Strings.{trim_end, is_whitespace}
use manymux.Scrollback.Still.{selected-follow}
use manymux.Wire.{moved}

abbrev narrow : ℕ → Bool
narrow c = false

abbrev letters : ℕ → Bool
letters c = within b'a' b'z' c

abbrev hello : Block
hello = record { from = 2; lines = codes "$ ls" ∷ codes "src  docs" ∷ codes "$ cd src" ∷ [] }

-- From the second line of the block to the third.
abbrev two_lines : Selection
two_lines = record {
  anchor = record { line = 3; col = 5 };
  head = record { line = 2; col = 3 };
  grain = Grain.word;
}

abbrev reading : Scrollback
reading = record (new (record { cols = 80; rows = 2 })) {
  offset = 3;
  total = 9;
  printed = 40;
  answered = true;
  block = some hello;
  selection = some two_lines;
  chasing = some (record { col = 4; row = 1 });
}

request_reaches_example :
    ((request reading).from ≤ reading.offset)
    × ((reading.offset + page reading ≤ (request reading).from + (request reading).lines) ↔ (
        reading.offset + page reading
        ≤ lowest reading reading.selection + copy_lines + 3 * page reading))
unfolding new
request_reaches_example =
    request_reaches reading (record { rows_fit = omega arith; offset_fits = omega arith })

selected-follow_example :
    selected narrow letters (follow reading 45) ≡ selected narrow letters reading
unfolding new moved
selected-follow_example =
    selected-follow narrow letters reading hello two_lines 45 refl refl
      (record { block_fits = omega arith; anchor_fits = omega arith; head_fits = omega arith })

chase_rests_example : still_moving 20 reading ≡ false
unfolding new
chase_rests_example = chase_rests reading 20 refl (omega arith) (omega arith)

-- What is selected there, by words.
words_selected : selected narrow letters reading ≡ some (codes "docs\n$ cd")
unfolding selected grained grown word_on block_line word_at cells cells_of holds_col piece trim_end
    plain chars_between is_whitespace run_end cell_end text_of pieces ends block_top walk walk_from
    width behind_escape closes in_a_word overlaps
words_selected = refl
