-- ===== src/Registry/Spawns.antt =====
-- What a spawn does to the registry, and that only live sessions are handed out.
use manymux.Prelude.{
  ℕ, Bool, false, not, List, [], ◌∷◌, Option, none, some, Text, ◌≡◌, ◌≢◌, refl, subst, Bool-cases,
  inl, inr, keep, same,
}
use manymux.Registry.{
  Registry, Spec, Outcome, ok, err, free_name, default_name, label, prune, choose, launch,
  launch_as, spawn, get,
}
use manymux.Registry.Entries.{lookup, contains_key}
use manymux.Registry.Fresh.{unique_name-some}
use manymux.Registry.Lookups.{lookup-insert, lookup-insert_other, lookup_missing}
use manymux.Registry.Renames.{vet_ok}
use manymux.Session.{Session, SessionEvent, start, has_exited}
use manymux.Terminal.{Terminal}
use manymux.Wire.{session_name}

module _ (T : Terminal) (is_alphanumeric : ℕ → Bool) (shell : Text) where
  open T use {Vt}

  abbrev R : Type 0
  R = Registry Vt

  abbrev S : Type 0
  S = Session Vt

  choose-free :
      (r : R) (spec : Spec) (asked : Option Text) (name : Text)
      → choose T is_alphanumeric shell r spec asked ≡ ok name
      → contains_key name r.sessions ≡ false
  unfolding choose free_name
  choose-free r spec (some wanted) name e = (vet_ok T is_alphanumeric r wanted name e).2
  choose-free r spec none name e =
      let (found, at, isFree) =
        unique_name-some (session_name is_alphanumeric (default_name shell spec)) r.sessions in
      let here : found ≡ name = cc (rw at at e) in
      subst (λ n. contains_key n r.sessions ≡ false) here isFree

  abbrev pub started : Spec → ℕ → ℕ → ℕ → Text → S
  started spec now at pid name = start T spec.size now name (label shell spec) pid at

  -- A session that was spawned has a name that no live session had; it is found under it, fresh, and
  -- every other name has what it had.
  pub spawn-adds :
      (r : R) (spec : Spec) (now at pid : ℕ) (name other : Text)
      → (spawn T is_alphanumeric shell r spec now at (some pid)).0 ≡ ok name
      → other ≢ name
      → let after = (spawn T is_alphanumeric shell r spec now at (some pid)).1.sessions in
        (lookup name (prune T r).sessions ≡ none)
        × (lookup name after ≡ some (started spec now at pid name))
        × (lookup other after ≡ lookup other (prune T r).sessions)
  unfolding spawn launch_as launch
  spawn-adds r spec now at pid name other e apart =
      go (choose T is_alphanumeric shell (prune T r) spec spec.name) refl e
    where
      Added : Outcome Text × R × List SessionEvent → Type 0
      Added (o, after, events) =
          (lookup name (prune T r).sessions ≡ none)
          × (lookup name after.sessions ≡ some (started spec now at pid name))
          × (lookup other after.sessions ≡ lookup other (prune T r).sessions)

      go :
          (o : Outcome Text)
          → choose T is_alphanumeric shell (prune T r) spec spec.name ≡ o
          → (launch_as T is_alphanumeric shell (prune T r) spec now at (some pid) o).0 ≡ ok name
          → Added (launch_as T is_alphanumeric shell (prune T r) spec now at (some pid) o)
      go (err e) h at = cc at
      go (ok name') h at' =
          let same_name : name' ≡ name = cc at' in
          let isFree = choose-free (prune T r) spec spec.name name' h in
          rw same_name (
            lookup_missing name (prune T r).sessions
                (subst (λ n. contains_key n (prune T r).sessions ≡ false) same_name isFree),
            lookup-insert name (started spec now at pid name) (prune T r).sessions,
            lookup-insert_other name other (started spec now at pid name) (prune T r).sessions
                apart,
          )

  -- A session that nobody named is always given a name: the counter is never run out of.
  pub spawn_unnamed :
      (r : R) (spec : Spec) (now at pid : ℕ)
      → spec.name ≡ none
      → (name : Text) × ((spawn T is_alphanumeric shell r spec now at (some pid)).0 ≡ ok name)
        × (lookup name (prune T r).sessions ≡ none)
  unfolding spawn choose free_name launch_as launch
  spawn_unnamed r spec now at pid e =
      let (name, found, isFree) =
        unique_name-some (session_name is_alphanumeric (default_name shell spec))
          (prune T r).sessions in
      (name, rw (e, found) refl, lookup_missing name (prune T r).sessions isFree)

  -- Nobody is handed a session whose child has exited.
  pub get-live :
      (r : R) (name : Text) (session : S)
      → (get T r name).0 ≡ some session
      → has_exited T session ≡ false
  unfolding get prune lookup
  get-live r name session = live r.sessions
    where
      live :
          (entries : List (Text × S))
          → lookup name (keep (λ e. not (has_exited T e.1)) entries) ≡ some session
          → has_exited T session ≡ false
      live [] h = cc h
      live ((k, s) ∷ entries) h = elim (Bool-cases (has_exited T s)) [
        | inl gone ↦ live entries (rw gone at h)
        | inr here ↦
            let h' = rw here at h in
            elim (Bool-cases (same name k)) [
              | inl hit ↦
                  let same_session : s ≡ session = cc (rw hit at h') in
                  subst (λ t. has_exited T t ≡ false) same_session here
              | inr miss ↦ live entries (rw miss at h')
            ]
      ]
