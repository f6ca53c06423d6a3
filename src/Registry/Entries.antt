-- ===== src/Registry/Entries.antt =====
-- A `HashMap` keyed by names, as the list of its entries.
use manymux.Prelude.{
  Bool, not, List, [], ◌∷◌, Option, none, some, Text, keep, any, same, if◌then◌else◌,
}

module _ {ℓ} {A : Type ℓ} where
  unfoldable pub lookup : Text → List (Text × A) → Option A
  lookup name [] = none
  lookup name ((k, a) ∷ entries) =
      let rest = lookup name entries in if same name k then some a else rest

  unfoldable pub contains_key : Text → List (Text × A) → Bool
  contains_key name = any (λ e. same name e.0)

  unfoldable pub remove : Text → List (Text × A) → List (Text × A)
  remove name = keep (λ e. not (same name e.0))

  unfoldable pub insert : Text → A → List (Text × A) → List (Text × A)
  unfolding remove
  insert name a entries = (name, a) ∷ remove name entries
