-- ===== src/Tests/Registries.antt =====
-- Witnesses on src/node/registry.rs.
use mathlib.Core.List.{Perm}
use manymux.Prelude.{
  map, ℕ, Bool, true, [], ◌∷◌, Option, none, some, same, same_ne, Text, codes, ◌≡◌, refl,
}
use manymux.Registry.{list, Registry, Spec, ok, already_exists, prune, spawn, rename, vet}
use manymux.Registry.Entries.{lookup, contains_key}
use manymux.Registry.Keys.{IsKeyed, Reachable-IsKeyed, starts, spawns}
use manymux.Registry.Listing.{IsOrdered, list-IsOrdered}
use manymux.Registry.Renames.{rename-moves, rename-refused}
use manymux.Registry.Spawns.{spawn-adds, spawn_unnamed, started}
use manymux.Session.{info, Session, start, set_name}
use manymux.Std.Strings.{is_whitespace}
use manymux.Terminal.{Terminal}
use manymux.Wire.{session_name}

abbrev no_screen : Terminal
no_screen = record {
  Vt = Unit;
  new = λ size. tt;
  feed = λ vt text. (vt, 0);
  resize = λ vt size. vt;
  lines = λ vt. [];
  rows = λ vt. 0;
  dump = λ vt. [];
}

abbrev any_letter : ℕ → Bool
any_letter c = true

abbrev sh : Text
sh = codes "sh"

abbrev spec : Option Text → Spec
spec name = record {
  name = name;
  command = codes "vi" ∷ [];
  size = record { cols = 80; rows = 24 };
  label = none;
}

abbrev session : Text → Session Unit
session name = start no_screen (record { cols = 80; rows = 24 }) 0 name (codes "vi") 7 1

abbrev registry : Registry Unit
registry = record {
  sessions = (codes "a", session (codes "a")) ∷ (codes "b", session (codes "b")) ∷ [];
  clients = 0;
}

Reachable-IsKeyed_example :
    IsKeyed no_screen any_letter sh
      (spawn no_screen any_letter sh
        (record { sessions = []; clients = 0 })
        (spec none)
        0
        1
        (some 7)).1
Reachable-IsKeyed_example =
    Reachable-IsKeyed no_screen any_letter sh
      (spawn no_screen any_letter sh (record { sessions = []; clients = 0 }) (spec none) 0 1
        (some 7)).1
      (spawns (spec none) 0 1 (some 7) starts)

rename-moves_example :
    let after = (rename no_screen any_letter registry (codes "a") (codes "c")).1.sessions in
    (lookup (codes "c") after ≡ some (set_name no_screen (session (codes "a")) (codes "c")))
    × (lookup (codes "a") after ≡ none)
    × (lookup (codes "b") after ≡ lookup (codes "b") (prune no_screen registry).sessions)
    × (lookup (codes "c") (prune no_screen registry).sessions ≡ none)
unfolding prune rename vet lookup contains_key session_name start is_whitespace same
rename-moves_example =
    rename-moves no_screen any_letter registry (codes "a") (codes "c") (codes "c") (codes "b")
      (session (codes "a")) refl refl (same_ne (codes "c") (codes "a") refl)
      (same_ne (codes "b") (codes "c") refl) (same_ne (codes "b") (codes "a") refl)

rename-refused_example :
    (rename no_screen any_letter registry (codes "a") (codes "b")).1 ≡ prune no_screen registry
unfolding prune rename vet lookup contains_key session_name start is_whitespace same
rename-refused_example =
    rename-refused no_screen any_letter registry (codes "a") (codes "b")
      (already_exists (codes "b")) refl

spawn-adds_example :
    let after =
      (spawn no_screen any_letter sh registry (spec (some (codes "c"))) 0 1 (some 9)).1.sessions in
    (lookup (codes "c") (prune no_screen registry).sessions ≡ none)
    × (lookup (codes "c") after
        ≡ some (started no_screen any_letter sh (spec (some (codes "c"))) 0 1 9 (codes "c")))
    × (lookup (codes "a") after ≡ lookup (codes "a") (prune no_screen registry).sessions)
unfolding spawn vet contains_key session_name is_whitespace start same
spawn-adds_example =
    spawn-adds no_screen any_letter sh registry (spec (some (codes "c"))) 0 1 9 (codes "c")
      (codes "a") refl (same_ne (codes "a") (codes "c") refl)

spawn_unnamed_example :
    (name : Text) × ((spawn no_screen any_letter sh registry (spec none) 0 1 (some 9)).0 ≡ ok name)
    × (lookup name (prune no_screen registry).sessions ≡ none)
spawn_unnamed_example = spawn_unnamed no_screen any_letter sh registry (spec none) 0 1 9 refl

list-IsOrdered_example :
    IsOrdered (list no_screen registry 60).0
    × Perm
        (list no_screen registry 60).0
        (map (λ e. info no_screen e.1 60) (prune no_screen registry).sessions)
list-IsOrdered_example = list-IsOrdered no_screen registry 60
