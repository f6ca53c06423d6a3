-- ===== src/Keys/Prefixes.antt =====
-- src/client/attach/keys.rs: `parse_prefix`, the mode key that a person asks for.
use manymux.Keys.Encoded.{parse_prefix, control_of}
use manymux.Prelude.{ℕ, true, some, Text, ◌≡◌, refl, arith}
use manymux.Std.Strings.{is_control}

control_of-IsControl : (c : ℕ) {b : ℕ} → control_of c ≡ some b → is_control b ≡ true
unfolding control_of is_control
control_of-IsControl c {b} e = ground arith

null-IsControl : is_control 0 ≡ true
unfolding is_control
null-IsControl = refl

-- A mode key that is accepted is a control character, so no key that types a character is one.
pub parse_prefix-IsControl : (s : Text) {b : ℕ} → parse_prefix s ≡ some b → is_control b ≡ true
unfolding parse_prefix
parse_prefix-IsControl s {b} e = grind (arith, control_of-IsControl, null-IsControl)
