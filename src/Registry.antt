-- ===== src/Registry.antt =====
-- src/node/registry.rs: the live sessions of a host, by name, and the names that src/node/session.rs
-- makes up for them. Each operation is one critical section of the source. What a session does on its
-- own is a change of its entry, as its `Arc` is shared.
pub mod Entries
pub mod Labels
pub mod Fresh
pub mod Order
pub mod Lookups
pub mod Renames
pub mod Spawns
pub mod Keys
pub mod Listing
use manymux.Prelude.{
  ℕ, zero, suc, ◌+◌, Bool, true, false, not, List, [], ◌∷◌, ◌++◌, Option, none, some, Text, codes,
  keep, length, last?, ltb, map, same, if◌then◌else◌, ◌&&◌, ◌||◌, ◌==◌, any,
}
use manymux.Session.{
  Session, SessionEvent, EventKind, Attached, Info, Peek, start, publish, has_exited, attach,
  set_name, info, peek,
}
use manymux.Std.Decimal.{decimal}
use manymux.Std.Strings.{split}
use manymux.Terminal.{Terminal}
use manymux.Wire.{Size, session_name}
use Fresh.{unique_name}
use Labels.{describe}
use Order.{sort_infos}
use Entries.{lookup, contains_key, remove, insert}

-- `SpawnSpec` less the working directory, which is the child's alone.
pub record Spec : Type 0 where
  pub name : Option Text
  pub command : List Text
  pub size : Size
  pub label : Option Text

pub record Registry (V : Type 0) : Type 0 where
  pub sessions : List (Text × Session V)
  -- Clients attached anywhere on the host.
  pub clients : ℕ

pub data Error : Type 0 where
  unusable : Error
  already_exists : Text → Error
  no_such : Text → Error
  not_launched : Error
  -- The `expect` of `unique_name`.
  no_free_name : Error

pub data Outcome {ℓ} (A : Type ℓ) : Type ℓ where
  ok : A → Outcome A
  err : Error → Outcome A

-- The `expect` on what `unique_name` finds.
unfoldable pub free_name : Option Text → Outcome Text
free_name none = err no_free_name
free_name (some name) = ok name

module _ (T : Terminal) where
  open T use {Vt}

  abbrev R : Type 0
  R = Registry Vt

  abbrev S : Type 0
  S = Session Vt

  unfoldable pub prune : R → R
  prune r = record r { sessions = keep (λ e. not (has_exited T e.1)) r.sessions }

  unfoldable pub get : R → Text → Option S × R
  unfolding prune
  get r name = let r = prune r in (lookup name r.sessions, r)

  -- The sessions behind the lock, each name's own.
  unfoldable pub attach_entry : R → Text → Size → ℕ → Bool → Option S → Option Attached × R
  attach_entry r name size history read_only none = (none, r)
  attach_entry r name size history read_only (some session) =
      let (attached, session', clients) = attach T session r.clients size history read_only in
      (some attached, record r { sessions = insert name session' r.sessions; clients = clients })

  unfoldable pub attach_to : R → Text → Size → ℕ → Bool → Option Attached × R
  unfolding prune attach_entry
  attach_to r name size history read_only =
      let r = prune r in attach_entry r name size history read_only (lookup name r.sessions)

  unfoldable pub all : R → List S × R
  unfolding prune
  all r = let r = prune r in (map (λ e. e.1) r.sessions, r)

  unfoldable pub count : R → ℕ × R
  unfolding prune
  count r = let r = prune r in (length r.sessions, r)

  unfoldable pub list : R → ℕ → List Info × R
  unfolding prune sort_infos
  list r now = let r = prune r in (sort_infos (map (λ e. info T e.1 now) r.sessions), r)

  abbrev has_name : List Text → S → Bool
  has_name [] session = true
  has_name (name ∷ names) session = any (λ n. same n session.name) (name ∷ names)

  -- `Registry::peek`.
  unfoldable pub peek_all : R → List Text → List Peek × R
  unfolding all
  peek_all r names = let (sessions, r) = all r in (map (peek T) (keep (has_name names) sessions), r)

  abbrev killed : Text → Option S → Outcome ℕ
  killed name none = err (no_such name)
  killed name (some session) = ok session.pid

  -- The child that is sent the hangup.
  unfoldable pub kill : R → Text → Outcome ℕ × R
  unfolding get
  kill r name = let (session, r) = get r name in (killed name session, r)

module _ (shell : Text) where
  unfoldable pub default_name : Spec → Text
  unfolding describe
  default_name spec = elim spec.command [
    | [] ↦ describe (shell ∷ [])
    | program ∷ args ↦ describe (program ∷ [])
  ]

  -- The label of `launch`.
  unfoldable pub label : Spec → Text
  unfolding describe
  label spec = elim spec.label [
    | some text ↦ text
    | none ↦ elim spec.command [
      | [] ↦ describe (shell ∷ [])
      | program ∷ args ↦ describe (program ∷ args)
    ]
  ]

module _ (T : Terminal) (is_alphanumeric : ℕ → Bool) where
  open T use {Vt}

  abbrev pub sanitize : Text → Text
  sanitize = session_name is_alphanumeric

  unfoldable pub vet : Registry Vt → Text → Outcome Text
  vet r wanted =
      let name = sanitize wanted in
      if same name []
      then err unusable
      else if contains_key name r.sessions
      then err (already_exists name)
      else ok name

  unfoldable pub move_to :
      Registry Vt → Text → Session Vt → Outcome Text → Outcome Text × Registry Vt
  move_to r name session (err e) = (err e, r)
  move_to r name session (ok wanted) = (
    ok wanted,
    record r { sessions = insert wanted (set_name T session wanted) (remove name r.sessions) },
  )

  unfoldable pub rename_entry :
      Registry Vt → Text → Text → Option (Session Vt) → Outcome Text × Registry Vt
  unfolding vet move_to
  rename_entry r name to none = (err (no_such name), r)
  rename_entry r name to (some session) =
      if same (sanitize to) name then (ok name, r) else move_to r name session (vet r to)

  unfoldable pub rename : Registry Vt → Text → Text → Outcome Text × Registry Vt
  unfolding prune rename_entry
  rename r name to = let r = prune T r in rename_entry r name to (lookup name r.sessions)

module _ (T : Terminal) (is_alphanumeric : ℕ → Bool) (shell : Text) where
  open T use {Vt}

  unfoldable pub choose : Registry Vt → Spec → Option Text → Outcome Text
  unfolding vet unique_name free_name default_name
  choose r spec (some wanted) = vet T is_alphanumeric r wanted
  choose r spec none = free_name (
      unique_name (session_name is_alphanumeric (default_name shell spec))
        (λ n. contains_key n r.sessions) (suc (length r.sessions)))

  -- The child's pid, or nothing where it could not be started.
  unfoldable pub launch :
      Registry Vt → Spec → ℕ → ℕ → Option ℕ → Text → Outcome Text × Registry Vt × List SessionEvent
  unfolding label
  launch r spec now at none name = (err not_launched, r, [])
  launch r spec now at (some pid) name =
      let session = start T spec.size now name (label shell spec) pid at in
      (
        ok name,
        record r { sessions = insert name session r.sessions },
        publish T session r.clients EventKind.started ∷ [],
      )

  unfoldable pub launch_as :
      Registry Vt
      → Spec
      → ℕ
      → ℕ
      → Option ℕ
      → Outcome Text
      → Outcome Text × Registry Vt × List SessionEvent
  unfolding launch
  launch_as r spec now at child (err e) = (err e, r, [])
  launch_as r spec now at child (ok name) = launch r spec now at child name

  unfoldable pub spawn :
      Registry Vt → Spec → ℕ → ℕ → Option ℕ → Outcome Text × Registry Vt × List SessionEvent
  unfolding prune choose launch_as
  spawn r spec now at child =
      let r = prune T r in launch_as r spec now at child (choose r spec spec.name)
