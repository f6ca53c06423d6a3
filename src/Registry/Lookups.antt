-- ===== src/Registry/Lookups.antt =====
-- The laws of a map keyed by names.
use manymux.Prelude.{
  Bool, false, not, List, [], ◌∷◌, none, some, Text, ◌≡◌, ◌≢◌, refl, sym, ◌∙◌, arith, Bool-cases,
  inl, inr, same, same_iff, same_refl, keep, if_holds,
}
use manymux.Registry.Entries.{lookup, contains_key, remove, insert}

pub same-false : (s t : Text) → s ≢ t → same s t ≡ false
same-false s t ne = elim (Bool-cases (same s t)) [
  | inl e ↦ absurd (ne ((same_iff s t).0 e))
  | inr e ↦ e
]

module _ {ℓ} {A : Type ℓ} where
  abbrev pub Distinct : List (Text × A) → Type 0
  Distinct [] = Unit
  Distinct ((k, a) ∷ entries) = (contains_key k entries ≡ false) × Distinct entries

  pub lookup-remove :
      (name : Text) (entries : List (Text × A)) → lookup name (remove name entries) ≡ none
  unfolding lookup remove
  lookup-remove name [] = refl
  lookup-remove name ((k, a) ∷ entries) = elim (Bool-cases (same name k)) [
    | inl e ↦ rw e (lookup-remove name entries)
    | inr e ↦ rw (e, e) (lookup-remove name entries)
  ]

  pub lookup-remove_other :
      (name other : Text) (entries : List (Text × A))
      → other ≢ name
      → lookup other (remove name entries) ≡ lookup other entries
  unfolding lookup remove
  lookup-remove_other name other [] ne = refl
  lookup-remove_other name other ((k, a) ∷ entries) ne = elim (Bool-cases (same name k)) [
    | inl e ↦
        let at : name ≡ k = (same_iff name k).0 e in
        let miss : same other k ≡ false = same-false other k (λ hit. ne (hit ∙ sym at)) in
        rw (e, miss) (lookup-remove_other name other entries ne)
    | inr e ↦ rw (e, lookup-remove_other name other entries ne) refl
  ]

  pub lookup-insert :
      (name : Text) (a : A) (entries : List (Text × A))
      → lookup name (insert name a entries) ≡ some a
  unfolding lookup insert
  lookup-insert name a entries = rw (same_refl name) refl

  pub lookup-insert_other :
      (name other : Text) (a : A) (entries : List (Text × A))
      → other ≢ name
      → lookup other (insert name a entries) ≡ lookup other entries
  unfolding lookup insert
  lookup-insert_other name other a entries ne =
      rw (same-false other name ne) (lookup-remove_other name other entries ne)

  pub lookup_missing :
      (name : Text) (entries : List (Text × A))
      → contains_key name entries ≡ false
      → lookup name entries ≡ none
  unfolding lookup contains_key
  lookup_missing name [] h = refl
  lookup_missing name ((k, a) ∷ entries) h = ground (arith, lookup_missing name entries)

  pub contains-keep :
      (name : Text) (p : Text × A → Bool) (entries : List (Text × A))
      → contains_key name entries ≡ false
      → contains_key name (keep p entries) ≡ false
  unfolding contains_key
  contains-keep name p [] h = refl
  contains-keep name p ((k, a) ∷ entries) h = elim (Bool-cases (p (k, a))) [
    | inl e ↦ rw e (ground (arith, contains-keep name p entries))
    | inr e ↦ rw e (contains-keep name p entries (ground (arith, h)))
  ]

  pub keep-Distinct :
      (p : Text × A → Bool) (entries : List (Text × A))
      → Distinct entries
      → Distinct (keep p entries)
  keep-Distinct p [] h = tt
  keep-Distinct p ((k, a) ∷ entries) h =
      if_holds Distinct (p (k, a)) (contains-keep k p entries h.0, keep-Distinct p entries h.1)
        (keep-Distinct p entries h.1)

  contains_removed :
      (name : Text) (entries : List (Text × A)) → contains_key name (remove name entries) ≡ false
  unfolding contains_key remove
  contains_removed name [] = refl
  contains_removed name ((k, a) ∷ entries) = ground (arith, contains_removed name entries)

  pub insert-Distinct :
      (name : Text) (a : A) (entries : List (Text × A))
      → Distinct entries
      → Distinct (insert name a entries)
  unfolding insert remove
  insert-Distinct name a entries h =
      (contains_removed name entries, keep-Distinct (λ e. not (same name e.0)) entries h)
