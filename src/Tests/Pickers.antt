-- ===== src/Tests/Pickers.antt =====
-- Witnesses on the list in a popup: src/client/picker.rs.
use manymux.Picker.{
  filtered, matches, Picker, Row, Shape, new_row, heading_row, new_picker, search, step, shape,
  wrap_hints, wrap_from, placed, inner_width, split_pairs, landable, first_row,
}
use manymux.Picker.Boxes.{IsInside, shape_fits}
use manymux.Picker.Rows.{
  AreHighlit, Reachable, starts, happens, searched, stepped, Reachable-AreHighlit,
}
use manymux.Picker.Searched.{entries, filtered-entries}
use manymux.Prelude.{
  true, leb, keep, if◌then◌else◌, List, [], ◌∷◌, Text, codes, length, ◌≡◌, refl, arith,
}
use manymux.Switch.{position}
use manymux.Wire.{Size}

abbrev as_typed : Text → Text
as_typed text = text

abbrev machines : List Row
machines =
    heading_row (codes "den")
    ∷ new_row 0 (codes "web")
    ∷ new_row 1 (codes "api")
    ∷ heading_row (codes "pi")
    ∷ new_row 2 (codes "logs")
    ∷ []

abbrev opened : Picker
opened = new_picker (codes "sessions") [] machines 0

opened_and_searched : Reachable as_typed (step (search as_typed opened (codes "o")) true)
opened_and_searched =
    happens (search as_typed opened (codes "o")) (step (search as_typed opened (codes "o")) true)
      (happens opened (search as_typed opened (codes "o")) (starts (codes "sessions") [] machines 0)
        (searched (codes "o")))
      (stepped true)

Reachable-AreHighlit_example :
    AreHighlit
      (step (search as_typed opened (codes "o")) true).rows
      (step (search as_typed opened (codes "o")) true).at
Reachable-AreHighlit_example =
    Reachable-AreHighlit as_typed (step (search as_typed opened (codes "o")) true)
      opened_and_searched

abbrev screen : Size
screen = record { cols = 80; rows = 24 }

abbrev box_of_five : Shape
box_of_five = record { row = 8; col = 10; inner = 60; top = 0; visible = 5; hints = [] }

shape_fits_example : IsInside opened screen box_of_five
unfolding new_picker heading_row new_row landable first_row position shape placed wrap_hints
    wrap_from split_pairs inner_width
shape_fits_example =
    shape_fits length opened screen box_of_five (omega arith) (omega arith) (omega arith) refl

filtered-entries_example : entries (filtered as_typed machines (codes "g")) ≡ (
    if leb (length (codes "g")) 0
    then entries machines
    else keep (matches as_typed (codes "g")) (entries machines))
filtered-entries_example = filtered-entries as_typed machines (codes "g")
