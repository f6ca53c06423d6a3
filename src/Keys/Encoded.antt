-- ===== src/Keys/Encoded.antt =====
-- src/client/attach/keys.rs: `Encoded`, a key that the terminal reports as an escape sequence, with
-- `sequence`, the numbers that such sequences hold, and `parse_prefix`.
use manymux.Keys.{esc, cr, tab}
use manymux.Prelude.{
  ℕ, ◌+◌, ◌-◌, ◌/◌, ◌%◌, ◌^◌, Bool, not, ◌&&◌, ◌||◌, List, [], ◌∷◌, Option, none, some, Text, Bytes,
  codes, same, map, length, leb, ltb, ◌==◌, within, if◌then◌else◌, ◌>>=◌, then_some, head?,
  unwrap_or,
}
use manymux.Std.Decimal.{parse_to}
use manymux.Std.Strings.{split, strip_prefix, is_control}
use manymux.Std.Utf8.{from_utf8}

pub record Encoded : Type 0 where
  pub len : ℕ
  pub code : ℕ
  pub shifted : Option ℕ
  pub mods : ℕ
  pub event : ℕ

abbrev pub ctrl : ℕ
ctrl = 4

abbrev pub press : ℕ
press = 1

abbrev pub repeat : ℕ
repeat = 2

abbrev pub escape : ℕ
escape = 27

abbrev pub enter : ℕ
enter = 13

abbrev pub backspace : ℕ
backspace = 127

-- Bit 0 of the modifiers, and the modifiers without the two locks (64 and 128).
abbrev pub shift : ℕ → Bool
shift mods = mods % 2 == 1

abbrev pub unlocked : ℕ → ℕ
unlocked mods = mods % 64

abbrev pub u8_max : ℕ
u8_max = 2 ^ 8 - 1

abbrev pub u32_max : ℕ
u32_max = 2 ^ 32 - 1

abbrev pub csi : Bytes
csi = esc ∷ b'[' ∷ []

abbrev pub final_byte : ℕ → Bool
final_byte b = within 0x40 0x7e b

-- `&rest[..end]` and `rest[end]`, where `end` is the first position at which the test holds.
unfoldable pub up_to : (ℕ → Bool) → Bytes → Option (Bytes × ℕ)
up_to p [] = none
up_to p (b ∷ r) =
    let later = (do (before, at) ← up_to p r; some (b ∷ before, at)) in
    if p b then some ([], b) else later

unfoldable pub number : Text → Option ℕ
number field = do digits ← head? (split b':' field); parse_to u32_max digits

unfoldable pub second : List Text → Option Text
second [] = none
second (x ∷ xs) = head? xs

unfoldable pub alternate : Text → Option ℕ
unfolding second
alternate field = do digits ← second (split b':' field); parse_to u32_max digits

-- The modifiers, and whether the key went down, repeats or came up.
unfoldable pub modifiers : Option Text → ℕ × ℕ
unfolding second
modifiers none = (0, press)
modifiers (some field) =
    let parts = split b':' field in
    (
      unwrap_or 0 (do digits ← head? parts; m ← parse_to u8_max digits; some (m - 1)),
      unwrap_or press (do digits ← second parts; parse_to u8_max digits),
    )

-- `CSI code ; modifiers u`, and `CSI 27 ; modifiers ; code ~`.
unfoldable pub parse_u : ℕ → List Text → Option Encoded
parse_u len [] = none
parse_u len (field ∷ fields) = do
  code ← number field
  let (mods, event) = modifiers (head? fields)
  some (record { len = len; code = code; shifted = alternate field; mods = mods; event = event })

unfoldable pub parse_tilde : ℕ → List Text → Option Encoded
parse_tilde len (escaped ∷ held ∷ field ∷ fields) = do
  first ← number escaped
  code ← if first == escape then number field else none
  let (mods, event) = modifiers (some held)
  some (record { len = len; code = code; shifted = none; mods = mods; event = event })
parse_tilde len fields = none

unfoldable pub parse_key : Bytes → Option Encoded
unfolding parse_u parse_tilde
parse_key input = do
  rest ← strip_prefix csi input
  (before, ends) ← up_to final_byte rest
  text ← from_utf8 before
  let len = 2 + length before + 1
  let fields = split b';' text
  if ends == b'u' then parse_u len fields else if ends == b'~' then parse_tilde len fields else none

-- `u8::to_ascii_lowercase` and `char::to_ascii_uppercase`.
abbrev pub lower : ℕ → ℕ
lower c = if within b'A' b'Z' c then c + 32 else c

abbrev pub upper : ℕ → ℕ
upper c = if within b'a' b'z' c then c - 32 else c

-- The code that a terminal reports for a control byte: `b | 0x40`, in lower case.
unfoldable pub key_code : ℕ → ℕ
key_code b = if b == 0 then b' ' else lower (if b / 64 % 2 == 0 then b + 64 else b)

unfoldable pub is_key : Encoded → ℕ → Bool
is_key k byte = k.code == key_code byte && unlocked k.mods == ctrl

unfoldable pub is_modifier : Encoded → Bool
is_modifier k = within 57441 57454 k.code

unfoldable pub down : Encoded → Bool
down k = k.event == press || k.event == repeat

-- `char::from_u32(code)` where it is no control character.
unfoldable pub printed : ℕ → Option ℕ
printed c =
    if leb c 0x10ffff && not (within 0xd800 0xdfff c) && not (is_control c) then some c else none

unfoldable pub key_text : Encoded → Option ℕ
unfolding printed
key_text k =
    if not (down k) || not (unlocked k.mods / 2 == 0)
    then none
    else let code = if shift k.mods then unwrap_or k.code k.shifted else k.code in
      if within 57344 63743 code then none else do
        typed ← printed code
        some (elim k.shifted [
          | none ↦ if shift k.mods then upper typed else typed
          | some other ↦ typed
        ])

unfoldable pub key_byte : Encoded → Option ℕ
key_byte k =
    if k.code == enter
    then some cr
    else if k.code == escape
    then some esc
    else if k.code == backspace
    then some 0x7f
    else if k.code == tab
    then some tab
    else do typed ← key_text k; then_some (ltb typed 128) typed

unfoldable pub key_typed : Encoded → Option ℕ
key_typed k = if not (down k) then none else if is_key k 0x15 then some 0x15 else key_byte k

-- How many bytes the escape sequence at the front is.
unfoldable pub introduced : Bytes → Option ℕ
unfolding second
introduced [] = none
introduced (kind ∷ r) =
    if kind == b'['
    then (do (before, ends) ← up_to final_byte r; some (3 + length before))
    else if kind == b'O'
    then (do ends ← head? r; some 3)
    else none

unfoldable pub sequence : Bytes → Option ℕ
unfolding introduced
sequence input = do rest ← strip_prefix (esc ∷ []) input; introduced rest

abbrev or_else {ℓ} : {A : Type ℓ} → Option A → Option A → Option A
or_else (some a) other = some a
or_else none other = other

unfoldable pub single : Text → Option ℕ
single (c ∷ []) = some c
single other = none

unfoldable pub control_of : ℕ → Option ℕ
control_of c =
    if is_control c
    then some c
    else if leb c u8_max
    then then_some (within 0x40 0x60 (upper c)) (upper c % 32)
    else none

unfoldable pub parse_prefix : Text → Option ℕ
unfolding single
parse_prefix text =
    let stripped = λ (mark : Text). strip_prefix mark text in
    let key =
      unwrap_or text (
        or_else (stripped (codes "C-")) (or_else (stripped (codes "c-")) (stripped (codes "^")))) in
    if same (map lower key) (codes "space") then some 0 else (do c ← single key; control_of c)
