-- ===== src/Keys/Special.antt =====
-- src/client/attach/keys.rs: `Special`, the named keys that a terminal spells in several ways, and the
-- tables from such a key to what it does in a popup and in the history.
use manymux.Keys.{Pick, Scroll, esc}
use manymux.Keys.Encoded.{second, number, modifiers, up_to, final_byte, csi, press, repeat}
use manymux.Prelude.{
  ℕ, ◌+◌, Bool, false, ◌&&◌, ◌||◌, List, [], ◌∷◌, ◌++◌, Option, none, some, Text, Bytes, length,
  ◌==◌, if◌then◌else◌, ◌>>=◌, then_some, head?,
}
use manymux.Std.Strings.{split, strip_prefix}
use manymux.Std.Utf8.{from_utf8}

pub record Special : Type 0 where
  pub len : ℕ
  pub number : ℕ
  pub ends : ℕ
  pub event : ℕ

-- A key that has no number has number one.
unfoldable pub first_number : List Text → Option ℕ
first_number [] = some 1
first_number ([] ∷ fields) = some 1
first_number ((c ∷ field) ∷ fields) = number (c ∷ field)

unfoldable pub parse_ss3 : Bytes → Option Special
parse_ss3 rest = do
  ends ← head? rest
  then_some (final_byte ends) (record { len = 3; number = 1; ends = ends; event = press })

unfoldable pub parse_csi : Bytes → Option Special
unfolding first_number second
parse_csi rest = do
  (before, ends) ← up_to final_byte rest
  text ← from_utf8 before
  let fields = split b';' text
  number ← first_number fields
  let (mods, event) = modifiers (second fields)
  some (record { len = 2 + length before + 1; number = number; ends = ends; event = event })

unfoldable pub parse_special : Bytes → Option Special
unfolding parse_ss3 parse_csi
parse_special input = elim (strip_prefix (esc ∷ b'O' ∷ []) input) [
  | some rest ↦ parse_ss3 rest
  | none ↦ (do rest ← strip_prefix csi input; parse_csi rest)
]

unfoldable pub is_named : Special → Bytes → Bool
is_named key plain = elim (parse_special plain) [
  | none ↦ false
  | some named ↦
      (key.event == press || key.event == repeat)
      && key.number == named.number
      && key.ends == named.ends
]

abbrev pub pick_keys : List (Bytes × Pick)
pick_keys =
    (csi ++ b'A' ∷ [], Pick.up) ∷ (csi ++ b'B' ∷ [], Pick.down) ∷ (csi ++ b'Z' ∷ [], Pick.up) ∷ []

abbrev pub view_keys : List (Bytes × Scroll)
view_keys =
    (csi ++ b'5' ∷ b'~' ∷ [], Scroll.page_up)
    ∷ (csi ++ b'6' ∷ b'~' ∷ [], Scroll.page_down)
    ∷ (csi ++ b'A' ∷ [], Scroll.up 1)
    ∷ (csi ++ b'B' ∷ [], Scroll.down 1)
    ∷ (csi ++ b'H' ∷ [], Scroll.top)
    ∷ (csi ++ b'1' ∷ b'~' ∷ [], Scroll.top)
    ∷ (csi ++ b'7' ∷ b'~' ∷ [], Scroll.top)
    ∷ (csi ++ b'F' ∷ [], Scroll.bottom)
    ∷ (csi ++ b'4' ∷ b'~' ∷ [], Scroll.bottom)
    ∷ (csi ++ b'8' ∷ b'~' ∷ [], Scroll.bottom)
    ∷ []

-- `table.iter().find(|(plain, _)| key.is(plain))`.
unfoldable pub lookup_key {ℓ} : {A : Type ℓ} → Special → List (Bytes × A) → Option A
lookup_key key [] = none
lookup_key key ((plain, a) ∷ table) = if is_named key plain then some a else lookup_key key table

-- The key at the front with what it does, where the table has it.
unfoldable pub special {ℓ} : {A : Type ℓ} → Bytes → List (Bytes × A) → Option (Special × A)
unfolding lookup_key
special input table = do key ← parse_special input; a ← lookup_key key table; some (key, a)
