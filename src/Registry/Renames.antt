-- ===== src/Registry/Renames.antt =====
-- What a rename does to the registry.
use manymux.Prelude.{
  ℕ, Bool, false, List, [], Option, none, some, Text, ◌≡◌, ◌≢◌, refl, sym, ◌∙◌, Bool-cases, inl,
  inr, same, same_ne, subst, if_holds,
}
use manymux.Registry.{Registry, Outcome, ok, err, Error, prune, vet, move_to, rename_entry, rename}
use manymux.Registry.Entries.{lookup, contains_key, remove}
use manymux.Registry.Lookups.{
  lookup-remove, lookup-remove_other, lookup-insert, lookup-insert_other, lookup_missing,
}
use manymux.Session.{Session, set_name}
use manymux.Terminal.{Terminal}
use manymux.Wire.{session_name}

module _ (T : Terminal) (is_alphanumeric : ℕ → Bool) where
  open T use {Vt}

  abbrev R : Type 0
  R = Registry Vt

  abbrev S : Type 0
  S = Session Vt

  pub vet_ok :
      (r : R) (to wanted : Text)
      → vet T is_alphanumeric r to ≡ ok wanted
      → (wanted ≡ session_name is_alphanumeric to)
        × (wanted ≢ [])
        × (contains_key wanted r.sessions ≡ false)
  unfolding vet
  vet_ok r to wanted e = elim (Bool-cases (same (session_name is_alphanumeric to) [])) [
    | inl blank ↦ let bad = rw blank at e in cc bad
    | inr filled ↦ elim (Bool-cases (contains_key (session_name is_alphanumeric to) r.sessions)) [
      | inl clash ↦ let bad = rw (filled, clash) at e in cc bad
      | inr free ↦
          let good : ok (session_name is_alphanumeric to) ≡ ok wanted = rw (filled, free) at e in
          let at : session_name is_alphanumeric to ≡ wanted = cc good in
          (
            sym at,
            λ empty. same_ne (session_name is_alphanumeric to) [] filled (at ∙ empty),
            subst (λ n. contains_key n r.sessions ≡ false) at free,
          )
    ]
  ]

  abbrev After : List (Text × S) → Text → Text → Text → S → Outcome Text × R → Type 0
  After before name wanted other session (o, r) =
      (lookup wanted r.sessions ≡ some (set_name T session wanted))
      × (lookup name r.sessions ≡ none)
      × (lookup other r.sessions ≡ lookup other before)
      × (lookup wanted before ≡ none)

  move_to-After :
      (r : R) (name to wanted other : Text) (session : S) (o : Outcome Text)
      → vet T is_alphanumeric r to ≡ o
      → (move_to T is_alphanumeric r name session o).0 ≡ ok wanted
      → wanted ≢ name
      → other ≢ wanted
      → other ≢ name
      → After r.sessions name wanted other session (move_to T is_alphanumeric r name session o)
  unfolding move_to
  move_to-After r name to wanted other session (err e) h at ne away apart = cc at
  move_to-After r name to wanted other session (ok name') h at ne away apart =
      let same_name : name' ≡ wanted = cc at in
      let free = (vet_ok r to name' h).2 in
      let rest = remove name r.sessions in
      let moved = set_name T session wanted in
      rw same_name (
        lookup-insert wanted moved rest,
        lookup-insert_other wanted name moved rest (λ e. ne (sym e))
            ∙ lookup-remove name r.sessions,
        lookup-insert_other wanted other moved rest away
            ∙ lookup-remove_other name other r.sessions apart,
        lookup_missing wanted r.sessions
            (subst (λ n. contains_key n r.sessions ≡ false) same_name free),
      )

  -- A rename to a name that is not the session's own moves that session, which knows its new name, and
  -- nothing else: the old name is free, the new one was, and every other name has what it had.
  pub rename-moves :
      (r : R) (name to wanted other : Text) (session : S)
      → lookup name (prune T r).sessions ≡ some session
      → (rename T is_alphanumeric r name to).0 ≡ ok wanted
      → wanted ≢ name
      → other ≢ wanted
      → other ≢ name
      → let after = (rename T is_alphanumeric r name to).1.sessions in
        (lookup wanted after ≡ some (set_name T session wanted))
        × (lookup name after ≡ none)
        × (lookup other after ≡ lookup other (prune T r).sessions)
        × (lookup wanted (prune T r).sessions ≡ none)
  unfolding rename rename_entry
  rename-moves r name to wanted other session here at ne away apart =
      let at' = rw here at at in rw here (go at')
    where
      pruned : R
      pruned = prune T r

      go :
          (rename_entry T is_alphanumeric pruned name to (some session)).0 ≡ ok wanted
          → After pruned.sessions name wanted other session
              (rename_entry T is_alphanumeric pruned name to (some session))
      go at = elim (Bool-cases (same (session_name is_alphanumeric to) name)) [
        | inl own ↦ let e = rw own at at in absurd (ne (sym (cc e)))
        | inr new ↦
            let e = rw new at at in
            rw new (
              move_to-After pruned name to wanted other session (vet T is_alphanumeric pruned to)
                refl e ne away apart)
      ]

  abbrev Unchanged : R → Outcome Text × R → Error → Type 0
  Unchanged before (o, r) e = o ≡ err e → r ≡ before

  -- A rename that is refused, whatever the reason, changes nothing but that ended sessions are gone.
  pub rename-refused :
      (r : R) (name to : Text) (e : Error)
      → (rename T is_alphanumeric r name to).0 ≡ err e
      → (rename T is_alphanumeric r name to).1 ≡ prune T r
  unfolding rename rename_entry move_to
  rename-refused r name to e = entry (lookup name (prune T r).sessions)
    where
      moved :
          (session : S) (o : Outcome Text)
          → Unchanged (prune T r) (move_to T is_alphanumeric (prune T r) name session o) e
      moved session (err e') h = refl
      moved session (ok wanted) h = cc h

      entry :
          (o : Option S)
          → Unchanged (prune T r) (rename_entry T is_alphanumeric (prune T r) name to o) e
      entry none = λ h. refl
      entry (some session) =
          if_holds (λ out. Unchanged (prune T r) out e)
            (same (session_name is_alphanumeric to) name) (λ h. refl)
            (moved session (vet T is_alphanumeric (prune T r) to))
