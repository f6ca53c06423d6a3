-- ===== src/Std/Decimal.antt =====
-- Unsigned decimal numbers as Rust prints (`{n}`) and parses (`str::parse::<u16>`) them.
pub mod RoundTrip
use manymux.Prelude.{
  ℕ, zero, suc, ◌+◌, ◌-◌, ◌*◌, ◌/◌, ◌%◌, ◌^◌, ◌≤◌, Bool, [], ◌∷◌, Option, none, some, Text, ltb,
  ◌==◌, if◌then◌else◌, within,
}

abbrev pub u16_max : ℕ
u16_max = 2 ^ 16 - 1

abbrev pub IsDigit : ℕ → Type 0
IsDigit c = (b'0' ≤ c) × (c ≤ b'9')

-- On fuel: a round for each digit but the last.
unfoldable pub digits : ℕ → ℕ → Text → Text
digits zero n out = out
digits (suc fuel) n out =
    let more = digits fuel (n / 10) ((b'0' + n % 10) ∷ out) in
    if ltb n 10 then (b'0' + n) ∷ out else more

unfoldable pub decimal : ℕ → Text
unfolding digits
decimal n = digits (suc n) n []

-- The digits behind `n`, refused past `most`.
unfoldable pub scan : ℕ → ℕ → Text → Option ℕ
scan most n [] = some n
scan most n (c ∷ s) =
    let m = n * 10 + (c - b'0') in
    let rest = scan most m s in
    if within b'0' b'9' c then if ltb most m then none else rest else none

-- A sign in front is allowed, a sign alone is not.
unfoldable pub parse_to : ℕ → Text → Option ℕ
unfolding scan
parse_to most [] = none
parse_to most (c ∷ []) = scan most 0 (c ∷ [])
parse_to most (c ∷ d ∷ s) = scan most 0 (if c == b'+' then d ∷ s else c ∷ d ∷ s)

abbrev pub parse_u16 : Text → Option ℕ
parse_u16 = parse_to u16_max
