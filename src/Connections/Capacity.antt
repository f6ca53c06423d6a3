-- ===== src/Connections/Capacity.antt =====
-- How many transports are kept, for how long, and that one is handed out once.
use manymux.Connections.{
  Connections, Parked, capacity, is_fresh, expire, earliest, drop_oldest, park,
}
use manymux.Prelude.{
  ℕ, suc, ◌≤◌, Bool, true, false, not, ◌||◌, [], ◌∷◌, Text, keep, same, same_refl, length, ltb,
  length-keep-le, ◌≡◌, refl, arith, All, All-keep, Bool-cases, inl, inr, if_holds,
}
use manymux.Registry.Entries.{contains_key, insert, remove}
use manymux.Registry.Lookups.{Distinct, keep-Distinct, insert-Distinct}
use manymux.Registry.Fresh.{length-remove}

within_capacity : (n : ℕ) → ltb capacity n ≡ false → n ≤ capacity
within_capacity n h = ground (arith, h)

module _ {ℓ} {C : Type ℓ} where
  keep-All :
      (p : Text × Parked C → Bool) (hosts : Connections C) → All (λ e. p e ≡ true) (keep p hosts)
  keep-All p [] = tt
  keep-All p (e ∷ hosts) = elim (Bool-cases (p e)) [
    | inl h ↦ rw h (h, keep-All p hosts)
    | inr h ↦ rw h (keep-All p hosts)
  ]

  abbrev pub AllFresh : ℕ → Connections C → Type 0
  AllFresh now = All (λ e. is_fresh now e.1 ≡ true)

  pub record IsKept (now : ℕ) (hosts : Connections C) : Type 0 where
    pub few : length hosts ≤ capacity
    pub fresh : AllFresh now hosts
    pub distinct : Distinct hosts

  earliest-key :
      (best : Text × Parked C) (entries : Connections C)
      → contains_key (earliest best entries).0 (best ∷ entries) ≡ true
  unfolding earliest contains_key
  earliest-key best [] = rw (same_refl best.0) refl
  earliest-key best (e ∷ entries) =
      if_holds (λ (x : Text × Parked C). contains_key x.0 (best ∷ e ∷ entries) ≡ true)
        (ltb (e.1).since (best.1).since)
        (later (same (earliest e entries).0 best.0)
          (contains_key (earliest e entries).0 (e ∷ entries)) (earliest-key e entries))
        (skip (same (earliest best entries).0 best.0) (same (earliest best entries).0 e.0)
          (contains_key (earliest best entries).0 entries) (earliest-key best entries))
    where
      later : (a b : Bool) → b ≡ true → (a || b) ≡ true
      later true b h = refl
      later false b h = h

      skip : (a b c : Bool) → (a || c) ≡ true → (a || (b || c)) ≡ true
      skip true b c h = refl
      skip false true c h = refl
      skip false false c h = h

  just_parked :
      (now : ℕ) (connection : C)
      → is_fresh now (record { connection = connection; since = now }) ≡ true
  unfolding is_fresh
  just_parked now connection = ground arith

  -- Whatever was kept, after a transport is parked there are at most four, none of them older than two
  -- minutes and no two of one host.
  pub park-IsKept :
      (hosts : Connections C) (now : ℕ) (host : Text) (connection : C)
      → length hosts ≤ capacity
      → Distinct hosts
      → IsKept now (park hosts now host connection)
  unfolding park expire insert remove drop_oldest
  park-IsKept hosts now host connection few distinct =
      let left = keep (λ (e : Text × Parked C). is_fresh now e.1) hosts in
      let others = keep (λ (e : Text × Parked C). not (same host e.0)) left in
      let new : Text × Parked C = (host, record { connection = connection; since = now }) in
      let oldest = (earliest new others).0 in
      let short : length (new ∷ others) ≤ suc capacity = omega (
        arith,
        length-keep-le (λ (e : Text × Parked C). not (same host e.0)) left,
        length-keep-le (λ (e : Text × Parked C). is_fresh now e.1) hosts,
      ) in
      let fewer = length-remove oldest (new ∷ others) (earliest-key new others) in
      let fresh : AllFresh now (new ∷ others) = (
        just_parked now connection,
        All-keep _ (λ e. not (same host e.0)) left (keep-All (λ e. is_fresh now e.1) hosts),
      ) in
      let apart : Distinct (new ∷ others) =
        insert-Distinct host (new.1) left (keep-Distinct _ hosts distinct) in
      elim (Bool-cases (ltb capacity (length (new ∷ others)))) [
        | inl e ↦ rw e (record {
          few = omega arith;
          fresh = All-keep _ (λ (e : Text × Parked C). not (same oldest e.0)) (new ∷ others) fresh;
          distinct =
              keep-Distinct (λ (e : Text × Parked C). not (same oldest e.0)) (new ∷ others) apart;
        })
        | inr e ↦ rw e (record {
          few = within_capacity (length (new ∷ others)) e;
          fresh = fresh;
          distinct = apart;
        })
      ]
