-- ===== src/Scanner/Osc/Clean.antt =====
-- What a title or a notification can hold once it is cleaned.
use manymux.Prelude.{
  ℕ, ◌≤◌, not, false, [], ◌∷◌, Option, none, some, Text, Bytes, ◌≡◌, refl, arith, ap, All, All-take,
  All-keep, keep, take, take_all, length, length-take-le, codes, same, ◌||◌, Bool-cases, inl, inr,
  if_holds, ◌==◌,
}
use manymux.Std.Strings.{is_control, trim, split_once, strip_prefix, head_to}
use manymux.Std.Strings.Trim.{All-trim, length-trim, trim_idem}
use manymux.Std.Utf8.{IsChar, from_utf8_lossy}
use manymux.Std.Utf8.Valid.{from_utf8_lossy-IsChar}
use manymux.Scanner.Osc.{
  Event, title, bell, notify, clean, title_and_body, on_fields, parse_fields, parse_osc,
}

abbrev pub IsShown : ℕ → Type 0
IsShown c = is_control c ≡ false

pub record IsClean (s : Text) : Type 0 where
  pub shown : All IsShown s
  pub chars : All IsChar s
  pub short : length s ≤ 200
  pub trimmed : trim s ≡ s

keep-IsShown : (s : Text) → All IsShown (keep (λ c. not (is_control c)) s)
keep-IsShown [] = tt
keep-IsShown (c ∷ s) = elim (Bool-cases (is_control c)) [
  | inl e ↦ rw e (keep-IsShown s)
  | inr e ↦ rw e (e, keep-IsShown s)
]

keep_id : (s : Text) → All IsShown s → keep (λ c. not (is_control c)) s ≡ s
keep_id [] h = refl
keep_id (c ∷ s) h = rw h.0 (ap (◌∷◌ c) (keep_id s h.1))

pub clean-IsClean : (s : Text) → All IsChar s → IsClean (clean s)
unfolding clean
clean-IsClean s h =
    let kept = keep (λ c. not (is_control c)) s in
    let short = length-take-le 200 kept in
    record {
      shown = All-trim IsShown (take 200 kept) (All-take IsShown 200 kept (keep-IsShown s));
      chars =
          All-trim IsChar (take 200 kept)
            (All-take IsChar 200 kept (All-keep IsChar (λ c. not (is_control c)) s h));
      short = omega (arith, length-trim (take 200 kept), short);
      trimmed = trim_idem (take 200 kept);
    }

pub clean_id : (s : Text) → IsClean s → clean s ≡ s
unfolding clean
clean_id s v = rw (keep_id s v.shown, take_all 200 s v.short) v.trimmed

abbrev pub IsCleanEvent : Event → Type 0
IsCleanEvent (title t) = IsClean t
IsCleanEvent bell = Unit
IsCleanEvent (notify t body) = IsClean t × IsClean body

abbrev pub AllClean : Option Event → Type 0
AllClean none = Unit
AllClean (some e) = IsCleanEvent e

nil-IsClean : IsClean []
unfolding clean trim
nil-IsClean = clean-IsClean [] tt

abbrev BothChars : Option (Text × Text) → Type 0
BothChars none = Unit
BothChars (some (a, b)) = All IsChar a × All IsChar b

head_to-BothChars :
    (c : ℕ) (o : Option (Text × Text)) → IsChar c → BothChars o → BothChars (head_to c o)
head_to-BothChars c none h b = tt
head_to-BothChars c (some (a, d)) h b = ((h, b.0), b.1)

split_once-BothChars : (sep : ℕ) (s : Text) → All IsChar s → BothChars (split_once sep s)
unfolding split_once
split_once-BothChars sep [] h = tt
split_once-BothChars sep (c ∷ s) h =
    if_holds BothChars (c == sep) (tt, h.1)
      (head_to-BothChars c (split_once sep s) h.0 (split_once-BothChars sep s h.1))

abbrev MaybeChars : Option Text → Type 0
MaybeChars none = Unit
MaybeChars (some s) = All IsChar s

strip_prefix-MaybeChars : (p s : Text) → All IsChar s → MaybeChars (strip_prefix p s)
unfolding strip_prefix
strip_prefix-MaybeChars [] s h = h
strip_prefix-MaybeChars (d ∷ p) [] h = tt
strip_prefix-MaybeChars (d ∷ p) (c ∷ s) h =
    if_holds MaybeChars (d == c) (strip_prefix-MaybeChars p s h.1) tt

title_and_body-IsCleanEvent :
    (rest : Text) (o : Option (Text × Text))
    → All IsChar rest
    → BothChars o
    → IsCleanEvent (title_and_body rest o)
title_and_body-IsCleanEvent rest none h b = (clean-IsClean rest h, clean-IsClean [] tt)
title_and_body-IsCleanEvent rest (some (a, d)) h b = (clean-IsClean a b.0, clean-IsClean d b.1)

notified-AllClean :
    (o : Option Text)
    → MaybeChars o
    → AllClean
        (elim o [ none ↦ none | some rest ↦ some (title_and_body rest (split_once b';' rest)) ])
notified-AllClean none h = tt
notified-AllClean (some rest) h =
    title_and_body-IsCleanEvent rest (split_once b';' rest) h (split_once-BothChars b';' rest h)

parse_fields-AllClean : (ps pt : Text) → All IsChar pt → AllClean (parse_fields ps pt)
unfolding parse_fields
parse_fields-AllClean ps pt h =
    if_holds AllClean (same ps (codes "0") || same ps (codes "1") || same ps (codes "2"))
      (clean-IsClean pt h)
      (if_holds AllClean (same ps (codes "9")) (nil-IsClean, clean-IsClean pt h)
        (if_holds AllClean (same ps (codes "777"))
          (notified-AllClean (strip_prefix (codes "notify;") pt)
            (strip_prefix-MaybeChars (codes "notify;") pt h))
          tt))

fields-AllClean : (o : Option (Text × Text)) → BothChars o → AllClean (on_fields o)
fields-AllClean none h = tt
fields-AllClean (some (ps, pt)) h = parse_fields-AllClean ps pt h.1

-- Whatever the payload's bytes are, what is reported of it is clean text.
pub parse_osc-AllClean : (payload : Bytes) → AllClean (parse_osc payload)
unfolding parse_osc
parse_osc-AllClean payload =
    let text = from_utf8_lossy payload in
    fields-AllClean (split_once b';' text)
      (split_once-BothChars b';' text (from_utf8_lossy-IsChar payload))
