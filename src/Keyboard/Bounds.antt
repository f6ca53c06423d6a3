-- ===== src/Keyboard/Bounds.antt =====
-- What a hostile output stream cannot do to the keyboard's state.
use manymux.Prelude.{
  ℕ, ◌-◌, ◌≤◌, ◌<◌, List, [], ◌∷◌, Option, none, some, Text, Bytes, ◌≡◌, refl, arith, All,
  All-append, All-take, length, drop, last?, length-append, length-take-le, if◌then◌else◌, ◌==◌, ap,
  subst, if_holds,
}
use manymux.Std.Decimal.{u16_max, parse_u16}
use manymux.Std.Decimal.RoundTrip.{parse_to-le}
use manymux.Std.Strings.{split}
use manymux.Std.Utf8.{from_utf8}
use manymux.Keyboard.{
  Keyboard, default, push, pop, set, set_last, write_current, current, note_fields, note,
  first_field, second_number, unwrap_or, set_modify_other_keys, keyboard_stack,
}
use manymux.Keyboard.Flags.{flags_or, flags_and_not, flags_or_bound, flags_and_not_bound}

abbrev pub IsU16 : ℕ → Type 0
IsU16 n = n ≤ u16_max

abbrev pub IsSomeU16 : Option ℕ → Type 0
IsSomeU16 none = Unit
IsSomeU16 (some n) = IsU16 n

pub record IsBounded (k : Keyboard) : Type 0 where
  pub base : IsU16 k.base
  pub stack : All IsU16 k.stack
  pub depth : length k.stack ≤ keyboard_stack
  pub other : IsSomeU16 k.modify_other_keys

pub default-IsBounded : IsBounded default
default-IsBounded = record { base = omega arith; stack = tt; depth = omega arith; other = tt }

pub parse_u16-IsSomeU16 : (s : Text) → IsSomeU16 (parse_u16 s)
parse_u16-IsSomeU16 s = go (parse_u16 s) refl
  where
    go : (o : Option ℕ) → parse_u16 s ≡ o → IsSomeU16 o
    go none e = tt
    go (some n) e = parse_to-le u16_max s e

second_number-IsSomeU16 : (fs : List Text) → IsSomeU16 (second_number fs)
second_number-IsSomeU16 [] = tt
second_number-IsSomeU16 (f ∷ []) = tt
second_number-IsSomeU16 (f ∷ g ∷ fs) = parse_u16-IsSomeU16 g

drop_one-All : (xs : List ℕ) → All IsU16 xs → All IsU16 (drop 1 xs)
drop_one-All [] h = tt
drop_one-All (x ∷ xs) h = h.1

length-drop_one : (xs : List ℕ) → length (drop 1 xs) ≡ length xs - 1
length-drop_one [] = omega arith
length-drop_one (x ∷ xs) = omega arith

push-IsBounded : (k : Keyboard) (flags : ℕ) → IsU16 flags → IsBounded k → IsBounded (push k flags)
unfolding push
push-IsBounded k flags f v = record {
  base = v.base;
  stack =
      All-append IsU16 (if length k.stack == keyboard_stack then drop 1 k.stack else k.stack)
        (flags ∷ []) (ground (arith, drop_one-All k.stack v.stack)) (f, tt);
  depth = omega (
    arith,
    length-append (if length k.stack == keyboard_stack then drop 1 k.stack else k.stack)
        (flags ∷ []),
    kept,
  );
  other = v.other;
}
  where
    kept :
        length (if length k.stack == keyboard_stack then drop 1 k.stack else k.stack)
        < keyboard_stack
    kept = ground (arith, length-drop_one k.stack, v.depth)

pop-IsBounded : (k : Keyboard) (count : ℕ) → IsBounded k → IsBounded (pop k count)
unfolding pop
pop-IsBounded k count v = record {
  base = v.base;
  stack = All-take IsU16 (length k.stack - count) k.stack v.stack;
  depth = omega (arith, v.depth, length-take-le (length k.stack - count) k.stack);
  other = v.other;
}

length-set_last : (xs : List ℕ) (v : ℕ) → length (set_last xs v) ≡ length xs
unfolding set_last
length-set_last [] v = refl
length-set_last (x ∷ []) v = refl
length-set_last (x ∷ y ∷ xs) v = omega (arith, length-set_last (y ∷ xs) v)

set_last-All : (xs : List ℕ) (v : ℕ) → IsU16 v → All IsU16 xs → All IsU16 (set_last xs v)
unfolding set_last
set_last-All [] v f h = tt
set_last-All (x ∷ []) v f h = (f, tt)
set_last-All (x ∷ y ∷ xs) v f h = (h.0, set_last-All (y ∷ xs) v f h.1)

write_current-IsBounded :
    (xs : List ℕ) (k : Keyboard) (v : ℕ)
    → k.stack ≡ xs
    → IsU16 v
    → IsBounded k
    → IsBounded (write_current xs k v)
unfolding write_current
write_current-IsBounded [] k v e f h = record {
  base = f;
  stack = h.stack;
  depth = h.depth;
  other = h.other;
}
write_current-IsBounded (x ∷ xs) k v e f h = record {
  base = h.base;
  stack = set_last-All (x ∷ xs) v f (subst (All IsU16) e h.stack);
  depth = omega (arith, length-set_last (x ∷ xs) v, ap length e, h.depth);
  other = h.other;
}

last?-IsU16 :
    (xs : List ℕ) (base : ℕ)
    → IsU16 base
    → All IsU16 xs
    → IsU16 (elim (last? xs) [ some flags ↦ flags | none ↦ base ])
last?-IsU16 [] base b h = b
last?-IsU16 (x ∷ []) base b h = h.0
last?-IsU16 (x ∷ y ∷ xs) base b h = last?-IsU16 (y ∷ xs) base b h.1

set-IsBounded :
    (k : Keyboard) (flags mode : ℕ) → IsU16 flags → IsBounded k → IsBounded (set k flags mode)
unfolding set
set-IsBounded k flags mode f v = write_current-IsBounded k.stack k _ refl written v
  where
    now : IsU16 (current k)
    now = last?-IsU16 k.stack k.base v.base v.stack

    written : IsU16 (
        if mode == 2
        then flags_or (current k) flags
        else if mode == 3
        then flags_and_not (current k) flags
        else flags)
    written = ground (
      arith,
      now,
      flags_or_bound 16 (current k) flags (omega (arith, now)) (omega (arith, f)),
      flags_and_not_bound u16_max (current k) flags now,
    )

unwrap_or-IsU16 : (o : Option ℕ) (d : ℕ) → IsU16 d → IsSomeU16 o → IsU16 (unwrap_or o d)
unwrap_or-IsU16 none d h s = h
unwrap_or-IsU16 (some n) d h s = s

assign-IsBounded :
    (k : Keyboard) (first : Option ℕ) (mode : ℕ)
    → IsSomeU16 first
    → IsBounded k
    → IsBounded (elim first [ none ↦ k | some flags ↦ set k flags mode ])
assign-IsBounded k none mode f v = v
assign-IsBounded k (some flags) mode f v = set-IsBounded k flags mode f v

note_fields-IsBounded :
    (k : Keyboard) (lead : ℕ) (fields : List Text)
    → IsBounded k
    → IsBounded (note_fields k lead fields)
unfolding note_fields
note_fields-IsBounded k lead fields v =
    let first = parse_u16 (first_field fields) in
    let known = parse_u16-IsSomeU16 (first_field fields) in
    if_holds IsBounded (lead == b'>')
      (push-IsBounded k _ (unwrap_or-IsU16 first 0 (omega arith) known) v)
      (if_holds IsBounded (lead == b'<') (pop-IsBounded k _ v) (
        if_holds IsBounded (lead == b'=')
          (assign-IsBounded k first (unwrap_or (second_number fields) 1) known v) v))

on_text-IsBounded :
    (k : Keyboard) (lead : ℕ) (decoded : Option Text)
    → IsBounded k
    → IsBounded (elim decoded [ none ↦ k | some text ↦ note_fields k lead (split b';' text) ])
on_text-IsBounded k lead none v = v
on_text-IsBounded k lead (some text) v = note_fields-IsBounded k lead (split b';' text) v

-- Whatever the parameters of a keyboard sequence are, the stack stays at sixteen entries at most and
-- every set of flags stays a `u16`.
pub note-IsBounded : (k : Keyboard) (params : Bytes) → IsBounded k → IsBounded (note k params)
unfolding note
note-IsBounded k [] v = v
note-IsBounded k (lead ∷ rest) v = on_text-IsBounded k lead (from_utf8 rest) v

pub set_other-IsBounded :
    (k : Keyboard) (fields : List Text)
    → IsBounded k
    → IsBounded (set_modify_other_keys k (second_number fields))
unfolding set_modify_other_keys
set_other-IsBounded k fields v = record {
  base = v.base;
  stack = v.stack;
  depth = v.depth;
  other = second_number-IsSomeU16 fields;
}
