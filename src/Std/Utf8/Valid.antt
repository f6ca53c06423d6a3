-- ===== src/Std/Utf8/Valid.antt =====
-- What decoding gives is characters: no surrogates, nothing past the last code point.
use manymux.Prelude.{ℕ, zero, suc, [], ◌∷◌, refl, arith, Bytes, All}
use manymux.Std.Utf8.{
  Head, char, bad, cut, replacement, head, two, three, three_end, four, four_middle, four_end,
  second_of_three, second_of_four, lossy_from, IsChar, from_utf8_lossy,
}

abbrev IsHead : Head → Type 0
IsHead (char c k) = IsChar c
IsHead (bad k) = Unit
IsHead cut = Unit

head-IsHead : (b : ℕ) (r : Bytes) → IsHead (head b r)
unfolding head two three three_end four four_middle four_end second_of_three second_of_four
head-IsHead b [] = ground arith
head-IsHead b (c ∷ []) = ground arith
head-IsHead b (c ∷ d ∷ []) = ground arith
head-IsHead b (c ∷ d ∷ e ∷ r) = ground arith

lossy_from-IsChar : (bytes : Bytes) (k : ℕ) → All IsChar (lossy_from bytes k)
unfolding lossy_from
lossy_from-IsChar [] k = tt
lossy_from-IsChar (b ∷ r) (suc k) = lossy_from-IsChar r k
lossy_from-IsChar (b ∷ r) zero =
    elim (head b r)
        as (λ h.
          IsHead h
          → All IsChar (elim h [
            | char c k ↦ c ∷ lossy_from r k
            | bad k ↦ replacement ∷ lossy_from r k
            | cut ↦ replacement ∷ []
          ])) [
            | char c k ↦ λ h. (h, lossy_from-IsChar r k)
            | bad k ↦ λ h. (refl, lossy_from-IsChar r k)
            | cut ↦ λ h. (refl, tt)
          ]
      (head-IsHead b r)

pub from_utf8_lossy-IsChar : (bytes : Bytes) → All IsChar (from_utf8_lossy bytes)
from_utf8_lossy-IsChar bytes = lossy_from-IsChar bytes 0
