-- ===== src/Shell.antt =====
-- src/shell.rs: an argv as one line for a POSIX shell.
pub mod Words
pub mod Commands
use manymux.Prelude.{
  ℕ, Bool, true, false, not, ◌&&◌, ◌||◌, List, [], ◌∷◌, ◌++◌, Text, Bytes, codes, any, same, within,
  ◌==◌, if◌then◌else◌,
}
use manymux.Std.Utf8.{as_bytes}

abbrev pub is_ascii_alphanumeric : ℕ → Bool
is_ascii_alphanumeric b = within b'a' b'z' b || within b'A' b'Z' b || within b'0' b'9' b

unfoldable pub safe : ℕ → Bool
safe b = is_ascii_alphanumeric b || any (λ s. s == b) (codes "-_./:=@,+")

unfoldable pub all_safe : Bytes → Bool
unfolding safe
all_safe [] = true
all_safe (b ∷ bytes) = safe b && all_safe bytes

-- `arg.replace('\'', "'\\''")`.
unfoldable pub replace_quotes : Text → Text
replace_quotes [] = []
replace_quotes (c ∷ s) =
    let rest = replace_quotes s in
    if c == b'\'' then b'\'' ∷ b'\\' ∷ b'\'' ∷ b'\'' ∷ rest else c ∷ rest

unfoldable pub quote : Text → Text
unfolding all_safe replace_quotes
quote arg =
    if not (same arg []) && all_safe (as_bytes arg)
    then arg
    else b'\'' ∷ replace_quotes arg ++ b'\'' ∷ []

unfoldable pub join : List Text → Text
unfolding quote
join [] = []
join (arg ∷ []) = quote arg
join (arg ∷ next ∷ args) = quote arg ++ (b' ' ∷ join (next ∷ args))
