-- ===== src/Connections.antt =====
-- src/client/connections.rs: transports that are kept a while with no session attached. A connection is
-- only handed around, so it is any type; an instant is a number of seconds.
pub mod Capacity
use manymux.Prelude.{
  ℕ, suc, ◌-◌, ◌≤◌, Bool, true, false, List, [], ◌∷◌, Option, none, some, Text, keep, length, ltb,
  leb, if◌then◌else◌,
}
use manymux.Registry.Entries.{lookup, remove, insert}

abbrev pub capacity : ℕ
capacity = 4

abbrev pub retain_for : ℕ
retain_for = 120

pub record Parked {ℓ} (C : Type ℓ) : Type ℓ where
  pub connection : C
  pub since : ℕ

abbrev pub Connections {ℓ} : Type ℓ → Type ℓ
Connections C = List (Text × Parked C)

module _ {ℓ} {C : Type ℓ} where
  unfoldable pub is_fresh : ℕ → Parked C → Bool
  is_fresh now parked = ltb (now - parked.since) retain_for

  unfoldable pub expire : ℕ → Connections C → Connections C
  unfolding is_fresh
  expire now = keep (λ e. is_fresh now e.1)

  abbrev pub connection_of : Option (Parked C) → Option C
  connection_of none = none
  connection_of (some parked) = some parked.connection

  unfoldable pub take : Connections C → ℕ → Text → Option C × Connections C
  unfolding expire
  take hosts now host =
      let hosts = expire now hosts in (connection_of (lookup host hosts), remove host hosts)

  -- `min_by_key`: the first of the earliest, `best` so far.
  unfoldable pub earliest : Text × Parked C → Connections C → Text × Parked C
  earliest best [] = best
  earliest best (e ∷ entries) =
      let kept = earliest best entries in
      let replaced = earliest e entries in if ltb (e.1).since (best.1).since then replaced else kept

  unfoldable pub drop_oldest : Connections C → Connections C
  unfolding earliest
  drop_oldest [] = []
  drop_oldest (e ∷ entries) = remove (earliest e entries).0 (e ∷ entries)

  unfoldable pub park : Connections C → ℕ → Text → C → Connections C
  unfolding expire drop_oldest
  park hosts now host connection =
      let hosts =
        insert host (record { connection = connection; since = now }) (expire now hosts) in
      if ltb capacity (length hosts) then drop_oldest hosts else hosts
