-- ===== src/Signature.antt =====
-- src/signature.rs: checking a release's signature. The scheme is a parameter: `usable` is
-- `VerifyingKey::from_bytes` and `verify` `verify_strict`. A text is its characters; one outside ASCII is in no
-- pair of digits, and is taken for as many bytes as UTF-8 has for it.
pub mod Checked
use manymux.Prelude.{
  ℕ, ◌+◌, ◌-◌, ◌*◌, ◌^◌, Bool, true, false, ◌&&◌, List, [], ◌∷◌, Option, none, some, Text, length,
  within, ltb, leb, ◌==◌, if◌then◌else◌, ◌>>=◌, then_some,
}
use manymux.Std.Strings.{trim}
use manymux.Std.Utf8.{as_bytes}

pub data Signed : Type 0 where
  by : Signed
  unchecked : Signed
  unsigned : Signed

pub data Refused : Type 0 where
  not_a_signature : Refused
  not_this_keys : Refused
  not_a_key : Refused
  unusable_key : Refused

pub data Verdict : Type 0 where
  ok : Signed → Verdict
  err : Refused → Verdict

-- A hexadecimal digit of either case.
unfoldable pub digit : ℕ → Option ℕ
digit c =
    if within b'0' b'9' c
    then some (c - b'0')
    else if within b'a' b'f' c
    then some (c - b'a' + 10)
    else if within b'A' b'F' c
    then some (c - b'A' + 10)
    else none

-- `u8::from_str_radix`, which takes a plus sign before the digits.
unfoldable pub from_pair : ℕ → ℕ → Option ℕ
unfolding digit
from_pair a b =
    if a == b'+' then digit b else (do high ← digit a; low ← digit b; some (16 * high + low))

-- The pairs, of which the last is not cut short.
unfoldable pub from_pairs : List ℕ → Option (List ℕ)
unfolding from_pair
from_pairs [] = some []
from_pairs (a ∷ []) = none
from_pairs (a ∷ b ∷ bytes) = do byte ← from_pair a b; rest ← from_pairs bytes; some (byte ∷ rest)

unfoldable pub unhex : Text → Option (List ℕ)
unfolding from_pairs
unhex text = from_pairs (as_bytes (trim text))

-- `try_into` an array of so many bytes.
unfoldable pub sized : ℕ → Option (List ℕ) → Option (List ℕ)
sized n none = none
sized n (some bytes) = then_some (length bytes == n) bytes

module _ {ℓ} {Key : Type ℓ} (usable : List ℕ → Option Key)
    (verify : Key → List ℕ → List ℕ → Bool) where
  unfoldable pub check_with : List ℕ → Option (List ℕ) → Key → Verdict
  check_with signed none key = err not_a_signature
  check_with signed (some bytes) key = if verify key signed bytes then ok by else err not_this_keys

  unfoldable pub check_by : List ℕ → Option Text → Key → Verdict
  unfolding check_with unhex sized
  check_by signed none key = ok unsigned
  check_by signed (some signature) key = check_with signed (sized 64 (unhex signature)) key

  -- `verifying_key`, and what is done with the key.
  unfoldable pub with_key : List ℕ → Option Text → Option (List ℕ) → Verdict
  unfolding check_by
  with_key signed signature none = err not_a_key
  with_key signed signature (some bytes) = elim (usable bytes) [
    | none ↦ err unusable_key
    | some key ↦ check_by signed signature key
  ]

  unfoldable pub check : List ℕ → Option Text → Text → Verdict
  unfolding with_key unhex sized
  check signed signature key =
      if leb (length key) 0 then ok unchecked else with_key signed signature (sized 32 (unhex key))
