-- ===== src/Terminal.antt =====
-- The `avt` crate, which is no code of the repository: what the node reads of it, and the operations
-- that it takes. `Line` is what the code asks of one of its lines.
use manymux.Prelude.{ℕ, Bool, List, Option, Text}
use manymux.Wire.{Size}

pub data Color : Type 0 where
  indexed : ℕ → Color
  rgb : ℕ → ℕ → ℕ → Color

pub record Pen : Type 0 where
  pub bold : Bool
  pub faint : Bool
  pub italic : Bool
  pub underline : Bool
  pub blink : Bool
  pub inverse : Bool
  pub strikethrough : Bool
  pub foreground : Option Color
  pub background : Option Color

pub record Cell : Type 0 where
  pub is_default : Bool
  pub width : ℕ
  pub pen : Pen
  pub char : ℕ

pub record Line : Type 0 where
  pub cells : List Cell
  pub text : Text

-- A screen model. `feed` also says how many lines the text pushed out of the buffer.
pub record Terminal : Type 1 where
  pub Vt : Type 0
  pub new : Size → Vt
  pub feed : Vt → Text → Vt × ℕ
  pub resize : Vt → Size → Vt
  pub lines : Vt → List Line
  pub rows : Vt → ℕ
  pub dump : Vt → Text
