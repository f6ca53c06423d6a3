-- ===== src/Keyboard.antt =====
-- src/keyboard.rs: what a program asked the terminal's keyboard to do (kitty's flags and xterm's
-- `modifyOtherKeys`), which a reattach replays.
pub mod Flags
pub mod Bounds
pub mod Replay
use manymux.Prelude.{
  ℕ, zero, suc, ◌+◌, ◌-◌, ◌*◌, ◌/◌, ◌%◌, Bool, true, false, not, ◌&&◌, List, [], ◌∷◌, ◌++◌, Option,
  none, some, Text, Bytes, length, last?, take, drop, codes, ◌==◌, if◌then◌else◌,
}
use manymux.Std.Utf8.{from_utf8}
use manymux.Std.Decimal.{decimal, parse_u16}
use manymux.Std.Strings.{split}
use Flags.{flags_or, flags_and_not, has_flag}

pub record Keyboard : Type 0 where
  pub base : ℕ
  -- Outermost first.
  pub stack : List ℕ
  pub modify_other_keys : Option ℕ

abbrev pub default : Keyboard
default = record { base = 0; stack = []; modify_other_keys = none }

abbrev pub keyboard_stack : ℕ
keyboard_stack = 16

unfoldable pub push : Keyboard → ℕ → Keyboard
push k flags =
    let kept = if length k.stack == keyboard_stack then drop 1 k.stack else k.stack in
    record k { stack = kept ++ flags ∷ [] }

unfoldable pub pop : Keyboard → ℕ → Keyboard
pop k count = record k { stack = take (length k.stack - count) k.stack }

-- The flags in force: the last entry of the stack, or the base.
abbrev pub current : Keyboard → ℕ
current k = elim (last? k.stack) [ some flags ↦ flags | none ↦ k.base ]

-- `*stack.last_mut() = v`.
unfoldable pub set_last : List ℕ → ℕ → List ℕ
set_last [] v = []
set_last (x ∷ []) v = v ∷ []
set_last (x ∷ y ∷ xs) v = x ∷ set_last (y ∷ xs) v

unfoldable pub write_current : List ℕ → Keyboard → ℕ → Keyboard
unfolding set_last
write_current [] k v = record k { base = v }
write_current (x ∷ xs) k v = record k { stack = set_last (x ∷ xs) v }

unfoldable pub set : Keyboard → ℕ → ℕ → Keyboard
unfolding write_current
set k flags mode = write_current k.stack k (
    if mode == 2
    then flags_or (current k) flags
    else if mode == 3
    then flags_and_not (current k) flags
    else flags)

abbrev pub unwrap_or : Option ℕ → ℕ → ℕ
unwrap_or none d = d
unwrap_or (some n) d = n

-- The field at the head, `unwrap_or_default` where there is none.
abbrev pub first_field : List Text → Text
first_field [] = []
first_field (f ∷ fs) = f

-- `fields.next().and_then(|m| m.parse().ok())`, for the field behind the first.
abbrev pub second_number : List Text → Option ℕ
second_number [] = none
second_number (f ∷ []) = none
second_number (f ∷ g ∷ fs) = parse_u16 g

unfoldable pub note_fields : Keyboard → ℕ → List Text → Keyboard
unfolding push pop set
note_fields k lead fields =
    let first = parse_u16 (first_field fields) in
    if lead == b'>'
    then push k (unwrap_or first 0)
    else if lead == b'<'
    then pop k (unwrap_or first 1)
    else if lead == b'='
    then elim first [ none ↦ k | some flags ↦ set k flags (unwrap_or (second_number fields) 1) ]
    else k

unfoldable pub note : Keyboard → Bytes → Keyboard
unfolding note_fields
note k [] = k
note k (lead ∷ rest) = elim (from_utf8 rest) [
  | none ↦ k
  | some text ↦ note_fields k lead (split b';' text)
]

pub reports_releases : Keyboard → Bool
reports_releases k = has_flag (current k) 2

unfoldable pub set_modify_other_keys : Keyboard → Option ℕ → Keyboard
set_modify_other_keys k level = record k { modify_other_keys = level }

abbrev pub esc : ℕ
esc = 0x1b

unfoldable pub replay_base : ℕ → Text
replay_base base = if base == 0 then [] else esc ∷ b'[' ∷ b'=' ∷ decimal base ++ codes ";1u"

unfoldable pub replay_stack : List ℕ → Text
replay_stack [] = []
replay_stack (flags ∷ stack) =
    (esc ∷ b'[' ∷ b'>' ∷ decimal flags ++ codes "u") ++ replay_stack stack

unfoldable pub replay_other : Option ℕ → Text
replay_other none = []
replay_other (some level) =
    if level == 0 then [] else esc ∷ b'[' ∷ b'>' ∷ b'4' ∷ b';' ∷ decimal level ++ codes "m"

-- The text that `replay` puts on the end of `out`.
unfoldable pub replay : Keyboard → Text
unfolding replay_base replay_stack replay_other
replay k = replay_base k.base ++ (replay_stack k.stack ++ replay_other k.modify_other_keys)
