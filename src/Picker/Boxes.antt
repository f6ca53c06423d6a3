-- ===== src/Picker/Boxes.antt =====
-- src/client/picker.rs: the box of a popup is inside the screen, and the highlighted row inside the box.
use mathlib.Core.Option.{some-injective}
use manymux.Prelude.{
  ℕ, ◌+◌, ◌-◌, ◌*◌, ◌/◌, ◌%◌, ◌^◌, ◌≤◌, ◌<◌, min, max, List, none, some, Text, length, ◌≡◌, arith,
  ltb, ◌||◌, if◌then◌else◌, inl, inr, Bool-cases, subst,
}
use manymux.Picker.{Picker, Shape, shape, placed, wrap_hints, frame, margin, inner_width}
use manymux.Wire.{Size}

-- The frame, the rows and the hints are on the screen, a margin is left on either side, and the row that is
-- highlighted is one of those that are shown.
pub record IsInside (p : Picker) (size : Size) (s : Shape) : Type 0 where
  pub top_edge : 1 ≤ s.row
  pub bottom_edge : s.row + s.visible + frame + length s.hints ≤ size.rows + 1
  pub left_edge : margin < s.col
  pub right_edge : s.col + s.inner + 2 + margin ≤ size.cols + 1
  pub not_above : s.top ≤ p.at
  pub not_below : p.at < s.top + s.visible
  pub all_rows : s.top + s.visible ≤ length p.rows

placed_fits :
    (p : Picker) (size : Size) (inner : ℕ) (hints : List Text) (s : Shape)
    → size.rows < 65536
    → p.at < length p.rows
    → length hints < 65000
    → placed p size inner hints ≡ some s
    → IsInside p size s
unfolding placed
placed_fits p size inner hints s rows at few h =
    let furniture = (frame + min (length hints) (2 ^ 16 - 1)) % 2 ^ 16 in
    let visible = max (min (size.rows - (furniture + 2)) (length p.rows)) 1 in
    let shown : Shape = record {
      row = (size.rows - (min visible (2 ^ 16 - 1) + furniture)) / 2 + 1;
      col = (size.cols - (inner + 2)) / 2 + 1;
      inner = inner;
      top = (if ltb p.at visible then 0 else p.at + 1 - visible);
      visible = visible;
      hints = hints;
    } in
    elim (Bool-cases (ltb size.cols (inner + margin * 2 + 2) || ltb size.rows (furniture + 3))) [
      | inl e ↦
          let no : none ≡ some s = subst (λ b. (if b then none else some shown) ≡ some s) e h in cc
      | inr e ↦
          let same : shown ≡ s =
            some-injective _ _ (subst (λ b. (if b then none else some shown) ≡ some s) e h) in
          let low : furniture + 3 ≤ size.rows = ground (arith, e) in
          let wide : inner + margin * 2 + 2 ≤ size.cols = ground (arith, e) in
          let many : furniture ≡ frame + length hints = omega arith in
          let big : (visible ≤ size.rows - (furniture + 2))
              × (visible ≤ length p.rows)
              × (1 ≤ visible) =
            (omega arith, omega arith, omega arith) in
          subst (IsInside p size) same (record {
            top_edge = omega arith;
            bottom_edge = omega (arith, many, low, big.0);
            left_edge = omega (arith, wide);
            right_edge = omega (arith, wide);
            not_above = ground arith;
            not_below = ground (arith, big.2);
            all_rows = ground (arith, big.1);
          })
    ]

module _ (columns : Text → ℕ) where
  -- A box that is drawn is inside the screen, whatever the screen's size is, and shows the row that is
  -- highlighted, provided that the highlight is on a row and there are fewer than 65000 lines of hints.
  pub shape_fits :
      (p : Picker) (size : Size) (s : Shape)
      → size.rows < 65536
      → p.at < length p.rows
      → length (wrap_hints columns p.hints (inner_width size - 2)) < 65000
      → shape columns p size ≡ some s
      → IsInside p size s
  unfolding shape
  shape_fits p size s rows at few h =
      placed_fits p size (inner_width size) (wrap_hints columns p.hints (inner_width size - 2)) s
        rows at few h
