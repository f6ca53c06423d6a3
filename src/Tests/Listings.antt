-- ===== src/Tests/Listings.antt =====
-- Witnesses on the rows that a client keeps: src/client/listed.rs.
use manymux.Listed.{preserve_ids}
use manymux.Listed.Ids.{AreSame, preserve_ids-keeps}
use manymux.Picker.{Row, heading_row, new_row}
use manymux.Prelude.{List, [], ◌∷◌, some, Text, codes, same, same_iff, ◌≡◌, arith}

abbrev shown : List Row
shown = heading_row (codes "machines") ∷ new_row 0 (codes "den") ∷ new_row 1 (codes "pi") ∷ []

-- The machines of a new listing, of which one had an id before.
preserve_ids-keeps_example :
    (rows' : List Row) × (more : List Text) × (preserve_ids same
        (codes "den" ∷ codes "pi" ∷ [])
        (codes "pi" ∷ [])
        shown
      ≡ some (rows', codes "pi" ∷ more))
    × AreSame same (codes "den" ∷ codes "pi" ∷ []) (codes "pi" ∷ []) (codes "pi" ∷ more) shown rows'
unfolding heading_row new_row
preserve_ids-keeps_example =
    preserve_ids-keeps same (λ a b. same_iff a b) (codes "den" ∷ codes "pi" ∷ []) (codes "pi" ∷ [])
      shown ((λ e. cc), ((λ e. omega arith), ((λ e. omega arith), tt)))
