-- ===== src/Std/Decimal/RoundTrip.antt =====
-- A number is read back from its print.
use manymux.Prelude.{
  ℕ, zero, suc, ◌+◌, ◌-◌, ◌*◌, ◌/◌, ◌%◌, ◌≤◌, ◌<◌, [], ◌∷◌, some, Text, ◌==◌, if◌then◌else◌, ◌≡◌,
  refl, arith, All, ◌∙◌, ap, max, length, ◌^◌,
}
use native.Mathlib.Nat.{pow-suc}
use manymux.Std.Decimal.{u16_max, IsDigit, digits, decimal, scan, parse_to}

scan-digits :
    (fuel most n : ℕ) (out : Text)
    → n < fuel
    → n ≤ most
    → scan most 0 (digits fuel n out) ≡ scan most n out
unfolding digits
scan-digits zero most n out h le = absurd (omega arith)
scan-digits (suc fuel) most n out h le =
    ground (arith, scan-digits fuel most (n / 10) ((b'0' + n % 10) ∷ out), last, only)
  where
    last : scan most (n / 10) ((b'0' + n % 10) ∷ out) ≡ scan most n out
    last = unfold scan in ground arith

    only : n < 10 → scan most 0 ((b'0' + n) ∷ out) ≡ scan most n out
    only small = unfold scan in ground arith

digits-IsDigit : (fuel n : ℕ) (out : Text) → All IsDigit out → All IsDigit (digits fuel n out)
unfolding digits
digits-IsDigit zero n out h = h
digits-IsDigit (suc fuel) n out h =
    ground (arith, digits-IsDigit fuel (n / 10) ((b'0' + n % 10) ∷ out) (omega arith, h))

pub decimal-IsDigit : (n : ℕ) → All IsDigit (decimal n)
unfolding decimal
decimal-IsDigit n = digits-IsDigit (suc n) n [] tt

length-digits : (fuel n : ℕ) (out : Text) → n < fuel → suc (length out) ≤ length (digits fuel n out)
unfolding digits
length-digits zero n out h = absurd (omega arith)
length-digits (suc fuel) n out h =
    ground (arith, length-digits fuel (n / 10) ((b'0' + n % 10) ∷ out))

pub decimal-ne-nil : (n : ℕ) → 1 ≤ length (decimal n)
unfolding decimal
decimal-ne-nil n = length-digits (suc n) n [] (omega arith)

parse_to-scan :
    (most : ℕ) (s : Text) → 1 ≤ length s → All IsDigit s → parse_to most s ≡ scan most 0 s
unfolding parse_to
parse_to-scan most [] n h = absurd (omega arith)
parse_to-scan most (c ∷ []) n h = refl
parse_to-scan most (c ∷ d ∷ s) n h = ground arith

pub parse_to-decimal : (most n : ℕ) → n ≤ most → parse_to most (decimal n) ≡ some n
unfolding decimal scan
parse_to-decimal most n h =
    parse_to-scan most (decimal n) (decimal-ne-nil n) (decimal-IsDigit n)
    ∙ scan-digits (suc n) most n [] (omega arith) h

pub decimal-injective : (m n : ℕ) → decimal m ≡ decimal n → m ≡ n
decimal-injective m n e =
    let most : ℕ = max m n in
    cc (
      ap (parse_to most) e,
      parse_to-decimal most m (omega arith),
      parse_to-decimal most n (omega arith),
    )

scan-le : (most n : ℕ) (s : Text) {r : ℕ} → n ≤ most → scan most n s ≡ some r → r ≤ most
unfolding scan
scan-le most n [] h e = ground arith
scan-le most n (c ∷ s) {r} h e = ground (arith, scan-le most (n * 10 + (c - b'0')) s {r = r})

pub parse_to-le : (most : ℕ) (s : Text) {r : ℕ} → parse_to most s ≡ some r → r ≤ most
unfolding parse_to
parse_to-le most [] e = cc
parse_to-le most (c ∷ []) e = scan-le most 0 (c ∷ []) (omega arith) e
parse_to-le most (c ∷ d ∷ s) e =
    scan-le most 0 (if c == b'+' then d ∷ s else c ∷ d ∷ s) (omega arith) e

length-digits-le :
    (k fuel n : ℕ) (out : Text) → n < 10 ^ suc k → length (digits fuel n out) ≤ length out + suc k
unfolding digits
length-digits-le k zero n out h = omega arith
length-digits-le zero (suc fuel) n out h = ground arith
length-digits-le (suc k) (suc fuel) n out h =
    let tens : 10 ^ suc (suc k) ≡ 10 ^ suc k * 10 = pow-suc 10 (suc k) in
    ground (arith, length-digits-le k fuel (n / 10) ((b'0' + n % 10) ∷ out) (omega (arith, tens)))

-- A `u16` has five digits at most.
pub length-decimal_u16 : (n : ℕ) → n ≤ u16_max → length (decimal n) ≤ 5
unfolding decimal
length-decimal_u16 n h = length-digits-le 4 (suc n) n [] (omega arith)
