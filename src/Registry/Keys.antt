-- ===== src/Registry/Keys.antt =====
-- The keys of the registry, whatever its clients ask of it and in whatever order.
use manymux.Prelude.{
  ℕ, suc, Bool, not, List, [], ◌∷◌, Option, none, some, Text, ◌≡◌, refl, sym, subst, ◌∙◌,
  Bool-cases, inl, inr, if_holds, All, All-keep, same, same_iff, if◌then◌else◌,
}
use manymux.Registry.{
  Registry, Spec, Outcome, ok, err, prune, vet, choose, launch, launch_as, spawn, get, attach_to,
  attach_entry, rename, rename_entry, move_to,
}
use manymux.Registry.Entries.{lookup, remove, insert}
use manymux.Registry.Lookups.{Distinct, keep-Distinct, insert-Distinct}
use manymux.Session.{Session, attach, start, has_exited, apply_size}
use manymux.Session.Geometry
use manymux.Session.Geometry.{effective_size, same_size}
use manymux.Terminal.{Terminal}
use manymux.Wire.{Size, sane, session_name}

module _ (T : Terminal) (is_alphanumeric : ℕ → Bool) (shell : Text) where
  open T use {Vt}

  abbrev R : Type 0
  R = Registry Vt

  abbrev S : Type 0
  S = Session Vt

  abbrev IsEntry : Text × S → Type 0
  IsEntry e = e.1.name ≡ e.0

  abbrev pub AreKeyed : List (Text × S) → Type 0
  AreKeyed entries = All IsEntry entries × Distinct entries

  abbrev pub IsKeyed : R → Type 0
  IsKeyed r = AreKeyed r.sessions

  -- A registry as spawns, attaches, lookups and renames can have left it, with the sessions changing
  -- in between in any way that keeps their names.
  pub data Reachable : R → Type 0 where
    starts : Reachable (record { sessions = []; clients = 0 })
    spawns :
        {r : R} (spec : Spec) (now at : ℕ) (child : Option ℕ)
        → Reachable r
        → Reachable (spawn T is_alphanumeric shell r spec now at child).1
    attaches :
        {r : R} (name : Text) (size : Size) (history : ℕ) (read_only : Bool)
        → Reachable r
        → Reachable (attach_to T r name size history read_only).1
    gets : {r : R} (name : Text) → Reachable r → Reachable (get T r name).1
    renames :
        {r : R} (name to : Text) → Reachable r → Reachable (rename T is_alphanumeric r name to).1
    changes :
        {r : R} (name : Text) (session : S) (clients : ℕ)
        → session.name ≡ name
        → Reachable r
        → Reachable (record { sessions = insert name session r.sessions; clients = clients })

  prune-AreKeyed : (r : R) → IsKeyed r → IsKeyed (prune T r)
  unfolding prune
  prune-AreKeyed r v = (
    All-keep IsEntry (λ e. not (has_exited T e.1)) r.sessions v.0,
    keep-Distinct _ r.sessions v.1,
  )

  insert-AreKeyed :
      (name : Text) (session : S) (entries : List (Text × S))
      → session.name ≡ name
      → AreKeyed entries
      → AreKeyed (insert name session entries)
  unfolding insert remove
  insert-AreKeyed name session entries e v = (
    (e, All-keep IsEntry (λ e. not (same name e.0)) entries v.0),
    insert-Distinct name session entries v.1,
  )

  remove-AreKeyed :
      (name : Text) (entries : List (Text × S)) → AreKeyed entries → AreKeyed (remove name entries)
  unfolding remove
  remove-AreKeyed name entries v =
      (All-keep IsEntry (λ e. not (same name e.0)) entries v.0, keep-Distinct _ entries v.1)

  launch_as-IsKeyed :
      (r : R) (spec : Spec) (now at : ℕ) (child : Option ℕ) (o : Outcome Text)
      → IsKeyed r
      → IsKeyed (launch_as T is_alphanumeric shell r spec now at child o).1
  unfolding launch_as launch start
  launch_as-IsKeyed r spec now at child (err e) v = v
  launch_as-IsKeyed r spec now at none (ok name) v = v
  launch_as-IsKeyed r spec now at (some pid) (ok name) v = insert-AreKeyed name _ r.sessions refl v

  lookup-name :
      (name : Text) (entries : List (Text × S)) (session : S)
      → All IsEntry entries
      → lookup name entries ≡ some session
      → session.name ≡ name
  unfolding lookup
  lookup-name name [] session h e = cc e
  lookup-name name ((k, s) ∷ entries) session h e = elim (Bool-cases (same name k)) [
    | inl hit ↦
        let here : s ≡ session = cc (rw hit at e) in
        subst (λ (t : S). t.name ≡ name) here (h.0 ∙ sym ((same_iff name k).0 hit))
    | inr miss ↦ lookup-name name entries session h.1 (rw miss at e)
  ]

  apply_size-name : (s : S) (size : Size) → (apply_size T s size).name ≡ s.name
  unfolding apply_size
  apply_size-name s size = if_holds (λ (t : S). t.name ≡ s.name) (same_size size s.size) refl refl

  attach-name :
      (s : S) (clients : ℕ) (size : Size) (history : ℕ) (read_only : Bool)
      → (attach T s clients size history read_only).1.name ≡ s.name
  unfolding attach
  attach-name s clients size history read_only =
      let clients' =
        if read_only then s.clients else Geometry.insert s.next_client (sane size) s.clients in
      apply_size-name
        (record s {
          state = record (s.state) { clients = clients' };
          next_client = suc s.next_client;
        })
        (effective_size s.size clients')

  attach_entry-IsKeyed :
      (r : R) (name : Text) (size : Size) (history : ℕ) (read_only : Bool) (o : Option S)
      → lookup name r.sessions ≡ o
      → IsKeyed r
      → IsKeyed (attach_entry T r name size history read_only o).1
  unfolding attach_entry
  attach_entry-IsKeyed r name size history read_only none e v = v
  attach_entry-IsKeyed r name size history read_only (some session) e v =
      insert-AreKeyed name _ r.sessions
        (attach-name session r.clients size history read_only
          ∙ lookup-name name r.sessions session v.0 e)
        v

  move_to-IsKeyed :
      (r : R) (name : Text) (session : S) (o : Outcome Text)
      → IsKeyed r
      → IsKeyed (move_to T is_alphanumeric r name session o).1
  unfolding move_to
  move_to-IsKeyed r name session (err e) v = v
  move_to-IsKeyed r name session (ok wanted) v =
      insert-AreKeyed wanted _ (remove name r.sessions) refl (remove-AreKeyed name r.sessions v)

  rename_entry-IsKeyed :
      (r : R) (name to : Text) (o : Option S)
      → IsKeyed r
      → IsKeyed (rename_entry T is_alphanumeric r name to o).1
  unfolding rename_entry
  rename_entry-IsKeyed r name to none v = v
  rename_entry-IsKeyed r name to (some session) v =
      if_holds (λ (out : Outcome Text × R). IsKeyed out.1)
        (same (session_name is_alphanumeric to) name) v
        (move_to-IsKeyed r name session (vet T is_alphanumeric r to) v)

  -- Whatever is asked of the registry, no name is two sessions', and a session is kept under the name
  -- that it has itself.
  pub Reachable-IsKeyed : (r : R) → Reachable r → IsKeyed r
  unfolding spawn attach_to get rename
  Reachable-IsKeyed r starts = (tt, tt)
  Reachable-IsKeyed r' (spawns {r} spec now at child q) =
      launch_as-IsKeyed (prune T r) spec now at child
        (choose T is_alphanumeric shell (prune T r) spec spec.name)
        (prune-AreKeyed r (Reachable-IsKeyed r q))
  Reachable-IsKeyed r' (attaches {r} name size history read_only q) =
      attach_entry-IsKeyed (prune T r) name size history read_only
        (lookup name (prune T r).sessions) refl (prune-AreKeyed r (Reachable-IsKeyed r q))
  Reachable-IsKeyed r' (gets {r} name q) = prune-AreKeyed r (Reachable-IsKeyed r q)
  Reachable-IsKeyed r' (renames {r} name to q) =
      rename_entry-IsKeyed (prune T r) name to (lookup name (prune T r).sessions)
        (prune-AreKeyed r (Reachable-IsKeyed r q))
  Reachable-IsKeyed r' (changes {r} name session clients e q) =
      insert-AreKeyed name session r.sessions e (Reachable-IsKeyed r q)
