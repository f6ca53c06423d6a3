-- ===== src/Registry/Order.antt =====
-- src/node/registry.rs: the order of a listing.
use manymux.Prelude.{Bool, true, false, ◌&&◌, ◌||◌, List, [], ◌∷◌, Text, ltb, ◌==◌, if◌then◌else◌}
use manymux.Session.{Info}

-- The order of two names, whose bytes are in the order of their characters.
unfoldable pub before : Text → Text → Bool
before [] [] = false
before [] (d ∷ t) = true
before (c ∷ s) [] = false
before (c ∷ s) (d ∷ t) = ltb c d || (c == d && before s t)

unfoldable pub earlier : Info → Info → Bool
unfolding before
earlier a b = ltb a.started b.started || (a.started == b.started && before a.name b.name)

unfoldable pub insert_info : Info → List Info → List Info
unfolding earlier
insert_info a [] = a ∷ []
insert_info a (b ∷ infos) =
    let rest = insert_info a infos in if earlier b a then b ∷ rest else a ∷ b ∷ infos

-- `sort_by`, on the start and then the name.
unfoldable pub sort_infos : List Info → List Info
unfolding insert_info
sort_infos [] = []
sort_infos (a ∷ infos) = insert_info a (sort_infos infos)
