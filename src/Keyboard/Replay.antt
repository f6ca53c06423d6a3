-- ===== src/Keyboard/Replay.antt =====
-- The sequences of a replay, each taken by `note`.
use manymux.Prelude.{
  ℕ, ◌<◌, List, [], ◌∷◌, ◌++◌, some, Text, Bytes, ◌≡◌, refl, arith, All, All-mono, All-append,
  length, ◌∙◌, ◌≢◌,
}
use manymux.Keyboard.{
  Keyboard, first_field, second_number, push, note, note_fields, set, write_current, keyboard_stack,
}
use manymux.Keyboard.Bounds.{IsU16}
use manymux.Std.Decimal.{IsDigit, decimal, parse_to, parse_u16, u16_max}
use manymux.Std.Decimal.RoundTrip.{decimal-IsDigit, parse_to-decimal}
use manymux.Std.Strings.{split}
use manymux.Std.Strings.Fields.{Lacks, split-Lacks, split-append}
use manymux.Std.Utf8.RoundTrip.{IsAscii, from_utf8-ascii}

pub decimal-IsAscii : (n : ℕ) → All IsAscii (decimal n)
decimal-IsAscii n = All-mono IsDigit IsAscii (decimal n) (λ c h. omega arith) (decimal-IsDigit n)

pub decimal-Lacks : (n : ℕ) → Lacks b';' (decimal n)
decimal-Lacks n =
    All-mono IsDigit (λ c. c ≢ b';') (decimal n) (λ c h. omega arith) (decimal-IsDigit n)

note-ascii :
    (k : Keyboard) (lead : ℕ) (text : Bytes)
    → All IsAscii text
    → note k (lead ∷ text) ≡ note_fields k lead (split b';' text)
unfolding note
note-ascii k lead text h = rw (from_utf8-ascii text h, note) refl

pub note_push :
    (k : Keyboard) (flags : ℕ)
    → IsU16 flags
    → length k.stack < keyboard_stack
    → note k (b'>' ∷ decimal flags) ≡ record k { stack = k.stack ++ flags ∷ [] }
unfolding note_fields push
note_push k flags h room =
    note-ascii k b'>' (decimal flags) (decimal-IsAscii flags)
    ∙ rw (split-Lacks b';' (decimal flags) (decimal-Lacks flags))
        (rw (parse_to-decimal u16_max flags h) (ground arith))

set_base : (k : Keyboard) (base : ℕ) → k.stack ≡ [] → set k base 1 ≡ record k { base = base }
unfolding set write_current
set_base k base e = ground arith

note_fields_assign :
    (k : Keyboard) (fields : List Text) (base : ℕ)
    → parse_u16 (first_field fields) ≡ some base
    → second_number fields ≡ some 1
    → note_fields k b'=' fields ≡ set k base 1
unfolding note_fields
note_fields_assign k fields base p q = ground arith

base_fields :
    (base : ℕ) → split b';' (decimal base ++ b';' ∷ b'1' ∷ []) ≡ decimal base ∷ (b'1' ∷ []) ∷ []
unfolding split
base_fields base = split-append b';' (decimal base) (b'1' ∷ []) (decimal-Lacks base)

parse_one : parse_u16 (b'1' ∷ []) ≡ some 1
unfolding parse_to
parse_one = refl

pub note_base :
    (k : Keyboard) (base : ℕ)
    → IsU16 base
    → k.stack ≡ []
    → note k (b'=' ∷ decimal base ++ b';' ∷ b'1' ∷ []) ≡ record k { base = base }
note_base k base h e =
    let fields = base_fields base in
    note-ascii k b'=' (decimal base ++ b';' ∷ b'1' ∷ [])
      (All-append IsAscii (decimal base) (b';' ∷ b'1' ∷ []) (decimal-IsAscii base) (omega arith))
    ∙ rw fields (
        note_fields_assign k (decimal base ∷ (b'1' ∷ []) ∷ []) base
          (parse_to-decimal u16_max base h) parse_one
        ∙ set_base k base e)
