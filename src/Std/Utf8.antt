-- ===== src/Std/Utf8.antt =====
-- UTF-8 as `core::str` has it: `str::from_utf8` with its error's `valid_up_to` and `error_len`,
-- `String::from_utf8_lossy`, and the bytes of a string.
pub mod RoundTrip
pub mod Valid
use manymux.Prelude.{
  ◌≡◌, ℕ, zero, suc, ◌+◌, ◌-◌, ◌*◌, ◌/◌, ◌%◌, Bool, true, false, ◌&&◌, ◌||◌, List, [], ◌∷◌, ◌++◌,
  Option, none, some, Bytes, Text, ltb, leb, ◌==◌, if◌then◌else◌, within, drop,
}

abbrev pub replacement : ℕ
replacement = 0xfffd

-- What the bytes at the head are. The number says how many bytes after the first go with it.
pub data Head : Type 0 where
  char : ℕ → ℕ → Head
  -- Invalid bytes: `error_len` is `Some`.
  bad : ℕ → Head
  -- The input ends inside a character: `error_len` is `None`.
  cut : Head

abbrev pub continues : ℕ → Bool
continues b = within 0x80 0xbf b

-- Which second bytes a three-byte and a four-byte lead may have.
unfoldable pub second_of_three : ℕ → ℕ → Bool
second_of_three b c =
    if b == 0xe0 then within 0xa0 0xbf c else if b == 0xed then within 0x80 0x9f c else continues c

unfoldable pub second_of_four : ℕ → ℕ → Bool
second_of_four b c =
    if b == 0xf0 then within 0x90 0xbf c else if b == 0xf4 then within 0x80 0x8f c else continues c

unfoldable pub two : ℕ → Bytes → Head
two b [] = cut
two b (c ∷ r) = if continues c then char ((b - 0xc0) * 64 + (c - 0x80)) 1 else bad 0

unfoldable pub three_end : ℕ → ℕ → Bytes → Head
three_end b c [] = cut
three_end b c (d ∷ r) =
    if continues d then char ((b - 0xe0) * 4096 + (c - 0x80) * 64 + (d - 0x80)) 2 else bad 1

unfoldable pub three : ℕ → Bytes → Head
three b [] = cut
three b (c ∷ r) = if second_of_three b c then three_end b c r else bad 0

unfoldable pub four_end : ℕ → ℕ → ℕ → Bytes → Head
four_end b c d [] = cut
four_end b c d (e ∷ r) =
    if continues e
    then char ((b - 0xf0) * 262144 + (c - 0x80) * 4096 + (d - 0x80) * 64 + (e - 0x80)) 3
    else bad 2

unfoldable pub four_middle : ℕ → ℕ → Bytes → Head
four_middle b c [] = cut
four_middle b c (d ∷ r) = if continues d then four_end b c d r else bad 1

unfoldable pub four : ℕ → Bytes → Head
four b [] = cut
four b (c ∷ r) = if second_of_four b c then four_middle b c r else bad 0

-- The first byte says how long the character is.
unfoldable pub head : ℕ → Bytes → Head
head b r =
    if ltb b 0x80
    then char b 0
    else if within 0xc2 0xdf b
    then two b r
    else if within 0xe0 0xef b
    then three b r
    else if within 0xf0 0xf4 b
    then four b r
    else bad 0

-- `from_utf8`: the whole text; or the text before the first error with what follows the invalid
-- bytes; or the text before a character that the end cuts off, with that tail.
pub data Checked : Type 0 where
  valid : Text → Checked
  broken : Text → Bytes → Checked
  truncated : Text → Bytes → Checked

abbrev pub prepend : ℕ → Checked → Checked
prepend c (valid t) = valid (c ∷ t)
prepend c (broken t after) = broken (c ∷ t) after
prepend c (truncated t tail) = truncated (c ∷ t) tail

-- The number is how many bytes of the character before are still to be passed over.
unfoldable pub check : Bytes → ℕ → Checked
check [] k = valid []
check (b ∷ r) (suc k) = check r k
check (b ∷ r) zero = elim (head b r) [
  | char c k ↦ prepend c (check r k)
  | bad k ↦ broken [] (drop k r)
  | cut ↦ truncated [] (b ∷ r)
]

-- `str::from_utf8(bytes).ok()`.
unfoldable pub from_utf8 : Bytes → Option Text
from_utf8 bytes = elim (check bytes 0) [
  | valid t ↦ some t
  | broken _ _ ↦ none
  | truncated _ _ ↦ none
]

-- `String::from_utf8_lossy`: one replacement character for each run of invalid bytes.
unfoldable pub lossy_from : Bytes → ℕ → Text
lossy_from [] k = []
lossy_from (b ∷ r) (suc k) = lossy_from r k
lossy_from (b ∷ r) zero = elim (head b r) [
  | char c k ↦ c ∷ lossy_from r k
  | bad k ↦ replacement ∷ lossy_from r k
  | cut ↦ replacement ∷ []
]

abbrev pub from_utf8_lossy : Bytes → Text
from_utf8_lossy bytes = lossy_from bytes 0

-- The bytes of a character, and of a string.
unfoldable pub encode_char : ℕ → Bytes
encode_char c =
    if ltb c 0x80
    then c ∷ []
    else if ltb c 0x800
    then (0xc0 + c / 64) ∷ (0x80 + c % 64) ∷ []
    else if ltb c 0x10000
    then (0xe0 + c / 4096) ∷ (0x80 + c / 64 % 64) ∷ (0x80 + c % 64) ∷ []
    else (0xf0 + c / 262144) ∷ (0x80 + c / 4096 % 64) ∷ (0x80 + c / 64 % 64) ∷ (0x80 + c % 64) ∷ []

-- `as_bytes`.
unfoldable pub as_bytes : Text → Bytes
unfolding encode_char
as_bytes [] = []
as_bytes (c ∷ s) = encode_char c ++ as_bytes s

-- A `char` is a code point that is no surrogate.
abbrev pub IsChar : ℕ → Type 0
IsChar c = (ltb c 0x110000 && (ltb c 0xd800 || ltb 0xdfff c)) ≡ true
