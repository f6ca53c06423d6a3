-- ===== src/Std/Utf8/RoundTrip.antt =====
-- Every string is read back from its bytes.
use manymux.Prelude.{
  ℕ, ◌<◌, [], ◌∷◌, ◌++◌, some, ◌≡◌, refl, arith, Bytes, Text, All, length, ap, subst, ◌∙◌,
  append_assoc,
}
use manymux.Std.Utf8.{
  char, head, two, three, three_end, four, four_middle, four_end, second_of_three, second_of_four,
  valid, prepend, check, from_utf8, lossy_from, from_utf8_lossy, encode_char, as_bytes, IsChar,
}

-- How many bytes follow the first.
abbrev pub Reads : ℕ → Bytes → Bytes → Type 0
Reads c [] rest = ⊥
Reads c (b ∷ r) rest = head b (r ++ rest) ≡ char c (length r)

pub head-encode_char : (c : ℕ) (rest : Bytes) → IsChar c → Reads c (encode_char c) rest
unfolding head two three three_end four four_middle four_end second_of_three second_of_four
    encode_char
head-encode_char c rest h = ground arith

check_skip : (xs rest : Bytes) → check (xs ++ rest) (length xs) ≡ check rest 0
unfolding check
check_skip [] [] = refl
check_skip [] (b ∷ rest) = refl
check_skip (x ∷ xs) rest = check_skip xs rest

lossy_skip : (xs rest : Bytes) → lossy_from (xs ++ rest) (length xs) ≡ lossy_from rest 0
unfolding lossy_from
lossy_skip [] [] = refl
lossy_skip [] (b ∷ rest) = refl
lossy_skip (x ∷ xs) rest = lossy_skip xs rest

check_char :
    (c : ℕ) (bytes rest : Bytes)
    → Reads c bytes rest
    → check (bytes ++ rest) 0 ≡ prepend c (check rest 0)
unfolding check
check_char c [] rest h = absurd h
check_char c (b ∷ r) rest h = rw (h, check) (ap (prepend c) (check_skip r rest))

lossy_char :
    (c : ℕ) (bytes rest : Bytes)
    → Reads c bytes rest
    → lossy_from (bytes ++ rest) 0 ≡ c ∷ lossy_from rest 0
unfolding lossy_from
lossy_char c [] rest h = absurd h
lossy_char c (b ∷ r) rest h = rw (h, lossy_from) (ap (◌∷◌ c) (lossy_skip r rest))

pub check-as_bytes : (s : Text) → All IsChar s → check (as_bytes s) 0 ≡ valid s
unfolding as_bytes
check-as_bytes [] h = unfold check in refl
check-as_bytes (c ∷ s) h =
    check_char c (encode_char c) (as_bytes s) (head-encode_char c (as_bytes s) h.0)
    ∙ ap (prepend c) (check-as_bytes s h.1)

pub from_utf8-as_bytes : (s : Text) → All IsChar s → from_utf8 (as_bytes s) ≡ some s
unfolding from_utf8
from_utf8-as_bytes s h = rw (check-as_bytes s h, from_utf8)

pub from_utf8_lossy-as_bytes : (s : Text) → All IsChar s → from_utf8_lossy (as_bytes s) ≡ s
unfolding as_bytes
from_utf8_lossy-as_bytes [] h = unfold lossy_from in refl
from_utf8_lossy-as_bytes (c ∷ s) h =
    lossy_char c (encode_char c) (as_bytes s) (head-encode_char c (as_bytes s) h.0)
    ∙ ap (◌∷◌ c) (from_utf8_lossy-as_bytes s h.1)

-- ASCII text is its own bytes.
abbrev pub IsAscii : ℕ → Type 0
IsAscii c = c < 0x80

pub as_bytes-ascii : (s : Text) → All IsAscii s → as_bytes s ≡ s
unfolding as_bytes encode_char
as_bytes-ascii [] h = refl
as_bytes-ascii (c ∷ s) h = ground (arith, as_bytes-ascii s h.1)

pub IsChar-ascii : (s : Text) → All IsAscii s → All IsChar s
IsChar-ascii [] h = tt
IsChar-ascii (c ∷ s) h = (ground arith, IsChar-ascii s h.1)

pub from_utf8-ascii : (s : Bytes) → All IsAscii s → from_utf8 s ≡ some s
from_utf8-ascii s h =
    subst (λ b. from_utf8 b ≡ some s) (as_bytes-ascii s h) (from_utf8-as_bytes s (IsChar-ascii s h))

pub as_bytes-append : (s t : Text) → as_bytes (s ++ t) ≡ as_bytes s ++ as_bytes t
unfolding as_bytes
as_bytes-append [] t = refl
as_bytes-append (c ∷ s) t = simp (as_bytes-append s t, append_assoc)
