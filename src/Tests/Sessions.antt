-- ===== src/Tests/Sessions.antt =====
-- Witnesses on src/node/session.rs, with a screen model that keeps every chunk of text as a line.
use manymux.Prelude.{◌≤◌, true, false, List, [], ◌∷◌, ◌++◌, codes, ◌≡◌, refl}
use manymux.Session.{Session, start, attach, new_state, resize_state, count_printed}
use manymux.Session.Geometry.{Clients, effective_size}
use manymux.Session.Printed.{asked, with_alternate, count_printed-resize_state}
use manymux.Session.Reachable.{IsSettled, Reachable, starts, attaches}
use manymux.Session.Settled.{Reachable-IsSettled}
use manymux.Session.Sizes.{Fits, some_cols, some_rows, effective_size-Fits}
use manymux.Terminal.{Terminal, Line}
use manymux.Wire.{Size}

abbrev lines_only : Terminal
lines_only = record {
  Vt = List Line;
  new = λ size. [];
  feed = λ vt text. (vt ++ record { cells = []; text = text } ∷ [], 0);
  resize = λ vt size. vt;
  lines = λ vt. vt;
  rows = λ vt. 0;
  dump = λ vt. [];
}

abbrev wide : Size
wide = record { cols = 120; rows = 40 }

abbrev phone : Size
phone = record { cols = 45; rows = 80 }

abbrev fresh : Session (List Line)
fresh = start lines_only wide 0 (codes "build") (codes "make") 7 1

abbrev joined : Session (List Line)
joined = (attach lines_only fresh 0 phone 0 false).1

joined-Reachable : Reachable lines_only joined
joined-Reachable = attaches 0 phone 0 false (starts wide 0 (codes "build") (codes "make") 7 1)

abbrev two_clients : Clients
two_clients = (0, wide) ∷ (1, phone) ∷ []

effective_size-Fits_example :
    Fits (effective_size wide two_clients) two_clients
    × (some_cols (effective_size wide two_clients) two_clients ≡ true)
    × (some_rows (effective_size wide two_clients) two_clients ≡ true)
effective_size-Fits_example = effective_size-Fits wide two_clients (λ e. cc)

effective_size_run : effective_size wide two_clients ≡ record { cols = 45; rows = 40 }
unfolding effective_size
effective_size_run = refl

Reachable-IsSettled_example : IsSettled lines_only joined
Reachable-IsSettled_example = Reachable-IsSettled lines_only joined joined-Reachable

count_printed-resize_state_example :
    let s = new_state lines_only wide 0 in
    (s.printed ≤ (asked lines_only s).printed)
    × ((asked lines_only (asked lines_only s)).printed ≡ (asked lines_only s).printed)
    × ((asked lines_only (resize_state lines_only (asked lines_only s) phone)).printed
        ≡ (asked lines_only s).printed)
    × ((count_printed lines_only
          (with_alternate lines_only false
            (resize_state lines_only (with_alternate lines_only true s) phone))
          9).printed
        ≡ (count_printed lines_only (with_alternate lines_only false s) 9).printed)
count_printed-resize_state_example =
    count_printed-resize_state lines_only (new_state lines_only wide 0) phone 9
