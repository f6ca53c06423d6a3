-- ===== src/Session/Sizes.antt =====
-- The size that the clients of a session leave room for.
use manymux.Prelude.{◌≤◌, Bool, true, ◌||◌, [], ◌∷◌, ◌≡◌, ◌≢◌, refl, arith, All, any, ◌==◌}
use manymux.Session.Geometry.{Clients, smaller, reduce, effective_size}
use manymux.Wire.{Size}

-- What fits on every client's screen.
abbrev pub Fits : Size → Clients → Type 0
Fits size = All (λ c. (size.cols ≤ c.1.cols) × (size.rows ≤ c.1.rows))

abbrev pub some_cols : Size → Clients → Bool
some_cols size = any (λ c. c.1.cols == size.cols)

abbrev pub some_rows : Size → Clients → Bool
some_rows size = any (λ c. c.1.rows == size.rows)

reduce-le :
    (acc : Size) (clients : Clients)
    → ((reduce acc clients).cols ≤ acc.cols) × ((reduce acc clients).rows ≤ acc.rows)
unfolding reduce smaller
reduce-le acc [] = (omega arith, omega arith)
reduce-le acc ((id, size) ∷ clients) =
    let (fewer, lower) = reduce-le (smaller acc size) clients in (omega arith, omega arith)

reduce-Fits : (acc : Size) (clients : Clients) → Fits (reduce acc clients) clients
unfolding reduce smaller
reduce-Fits acc [] = tt
reduce-Fits acc ((id, size) ∷ clients) =
    let (fewer, lower) = reduce-le (smaller acc size) clients in
    ((omega arith, omega arith), reduce-Fits (smaller acc size) clients)

reduce-cols :
    (acc : Size) (clients : Clients)
    → ((acc.cols == (reduce acc clients).cols) || some_cols (reduce acc clients) clients) ≡ true
unfolding reduce smaller
reduce-cols acc [] = ground arith
reduce-cols acc ((id, size) ∷ clients) =
    let found = reduce-cols (smaller acc size) clients in ground (arith, found)

reduce-rows :
    (acc : Size) (clients : Clients)
    → ((acc.rows == (reduce acc clients).rows) || some_rows (reduce acc clients) clients) ≡ true
unfolding reduce smaller
reduce-rows acc [] = ground arith
reduce-rows acc ((id, size) ∷ clients) =
    let found = reduce-rows (smaller acc size) clients in ground (arith, found)

-- While anybody is attached, the session's size fits on every client's screen, and it is no smaller
-- than that asks for: some client has exactly its columns and some client exactly its rows.
pub effective_size-Fits :
    (current : Size) (clients : Clients)
    → clients ≢ []
    → Fits (effective_size current clients) clients
      × (some_cols (effective_size current clients) clients ≡ true)
      × (some_rows (effective_size current clients) clients ≡ true)
unfolding effective_size
effective_size-Fits current [] ne = absurd (ne refl)
effective_size-Fits current ((id, size) ∷ clients) ne = (
  (reduce-le size clients, reduce-Fits size clients),
  reduce-cols size clients,
  reduce-rows size clients,
)
