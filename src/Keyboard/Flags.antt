-- ===== src/Keyboard/Flags.antt =====
-- The bitwise operators on `u16` that the keyboard's flags take.
use Prim.Native.Nat.{bit_and, bit_or, digits, bit_or-bitwise}
use native.Mathlib.Nat.{pow-suc}
use manymux.Prelude.{ℕ, zero, suc, ◌*◌, ◌-◌, ◌/◌, ◌^◌, ◌≤◌, ◌<◌, max, Bool, not, ◌==◌, ◌≡◌, arith}

unfoldable pub flags_or : ℕ → ℕ → ℕ
flags_or a b = bit_or a b

-- `a & !b`: the bits of `a` less those that it shares with `b`.
unfoldable pub flags_and_not : ℕ → ℕ → ℕ
flags_and_not a b = a - bit_and a b

unfoldable pub has_flag : ℕ → ℕ → Bool
has_flag a b = not (bit_and a b == 0)

or_digits_bound : (n w a b : ℕ) → a ≤ n → a < 2 ^ w → b < 2 ^ w → digits (λ b. b) max n a b < 2 ^ w
or_digits_bound zero w a b le ha hb = hb
or_digits_bound (suc n) zero zero b le ha hb = hb
or_digits_bound (suc n) zero (suc a) b le ha hb = absurd (omega arith)
or_digits_bound (suc n) (suc w) zero b le ha hb = hb
or_digits_bound (suc n) (suc w) (suc a) b le ha hb =
    let double : 2 ^ suc w ≡ 2 ^ w * 2 = pow-suc 2 w in
    omega (
      arith,
      double,
      or_digits_bound n w (suc a / 2) (b / 2) (omega arith) (omega (arith, double))
          (omega (arith, double)),
    )

pub flags_or_bound : (w a b : ℕ) → a < 2 ^ w → b < 2 ^ w → flags_or a b < 2 ^ w
unfolding flags_or
flags_or_bound w a b ha hb = rw (bit_or-bitwise a b) (or_digits_bound a w a b (omega arith) ha hb)

pub flags_and_not_bound : (m a b : ℕ) → a ≤ m → flags_and_not a b ≤ m
unfolding flags_and_not
flags_and_not_bound m a b h = omega arith
