-- ===== src/Session/Geometry.antt =====
-- src/node/session.rs: the sizes that a session's clients asked for, by the client's id, and the
-- size that they leave room for.
use manymux.Prelude.{ℕ, Bool, not, List, [], ◌∷◌, min, keep, ◌==◌, ◌&&◌}
use manymux.Wire.{Size}

-- A `HashMap` from ids to sizes, each id at most once.
abbrev pub Clients : Type 0
Clients = List (ℕ × Size)

unfoldable pub remove : ℕ → Clients → Clients
remove id = keep (λ c. not (c.0 == id))

unfoldable pub insert : ℕ → Size → Clients → Clients
unfolding remove
insert id size clients = (id, size) ∷ remove id clients

unfoldable pub smaller : Size → Size → Size
smaller a b = record { cols = min a.cols b.cols; rows = min a.rows b.rows }

-- `reduce`, from the first value.
unfoldable pub reduce : Size → Clients → Size
unfolding smaller
reduce acc [] = acc
reduce acc ((id, size) ∷ clients) = reduce (smaller acc size) clients

-- `effective_size`, where `current` is the size that the session has.
unfoldable pub effective_size : Size → Clients → Size
unfolding reduce
effective_size current [] = current
effective_size current ((id, size) ∷ clients) = reduce size clients

abbrev pub same_size : Size → Size → Bool
same_size a b = a.cols == b.cols && a.rows == b.rows
