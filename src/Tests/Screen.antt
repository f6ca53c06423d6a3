-- ===== src/Tests/Screen.antt =====
-- Witnesses on the screen's lines: src/node/history.rs and src/node/session.rs.
use manymux.History.{default_pen}
use manymux.History.Windows.{}
use manymux.Prelude.{List, [], ◌∷◌, Text, codes, map, false}
use manymux.Terminal.{Line}

abbrev line : Text → Line
line s = record {
  cells = map (λ c. record { is_default = false; width = 1; pen = default_pen; char = c }) s;
  text = s;
}

abbrev buffer : List Line
buffer = line (codes "a") ∷ line (codes "b") ∷ line (codes "c") ∷ []
