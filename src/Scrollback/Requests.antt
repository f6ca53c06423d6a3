-- ===== src/Scrollback/Requests.antt =====
-- src/client/scroll.rs: whether what is asked of the host reaches over the window.
use manymux.Prelude.{ℕ, ◌+◌, ◌*◌, ◌≤◌, ◌<◌, Option, none, some, ◌↔◌, arith}
use manymux.Scrollback.{Scrollback, Selection, request, stretched, ends, page, copy_lines, u64_max}

-- The rows are a `u16`, and the window is not at the far end of the numbers.
pub record IsInRange (s : Scrollback) : Type 0 where
  pub rows_fit : s.rows < 65536
  pub offset_fits : s.offset + 3 * page s ≤ u64_max

-- The block that is asked for begins at the window's bottom or below it.
pub request-begins : (s : Scrollback) → (request s).from ≤ s.offset
unfolding request stretched
request-begins s = ground arith

-- The lowest line of the selection, or the window's own bottom.
unfoldable pub lowest : Scrollback → Option Selection → ℕ
unfolding ends
lowest s none = s.offset
lowest s (some selection) = (ends selection).1.line

-- Where the window is not at the far end of the numbers, the block that is asked for begins at the window's
-- bottom or below it, and reaches over its top exactly where the window is at most a copy and a block above
-- the lowest line of the selection. Where the selection is further down, the block ends below the window.
pub request_reaches :
    (s : Scrollback)
    → IsInRange s
    → ((request s).from ≤ s.offset)
      × ((s.offset + page s ≤ (request s).from + (request s).lines)
          ↔ (s.offset + page s ≤ lowest s s.selection + copy_lines + 3 * page s))
unfolding request stretched lowest
request_reaches s h = (request-begins s, (λ e. ground arith, λ e. ground arith))
