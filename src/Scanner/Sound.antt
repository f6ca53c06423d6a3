-- ===== src/Scanner/Sound.antt =====
-- A scanner whose buffers, modes and numbers are in bounds, and that the control sequences keep so.
use manymux.Prelude.{
  ℕ, ◌-◌, ◌≤◌, Bool, true, false, not, ◌&&◌, ◌||◌, List, [], ◌∷◌, ◌++◌, Option, none, some, Text,
  Bytes, ◌≡◌, refl, arith, All, All-append, All-keep, length, last?, keep, take, if◌then◌else◌,
  if_holds, ◌==◌, Bool-cases, inl, inr,
}
use manymux.Keyboard.{Keyboard, esc, first_field, second_number}
use manymux.Keyboard
use manymux.Keyboard.Bounds.{
  IsU16, IsSomeU16, IsBounded, default-IsBounded, note-IsBounded, set_other-IsBounded,
  parse_u16-IsSomeU16,
}
use manymux.Scanner.Osc.Clean.{IsClean}
use manymux.Scanner.{
  Scanner, State, default, contains, replayed_modes, max_csi, max_osc, set_mode, set_modes,
  set_style, set_other_keys, on_text, finish_private, finish_params, finish_csi, is_byte,
}
use manymux.Std.Decimal.{parse_u16}
use manymux.Std.Strings.{split}
use manymux.Std.Utf8.{from_utf8}

-- Modes that are replayed, each once.
abbrev pub IsReplayed : ℕ → Type 0
IsReplayed m = (contains m replayed_modes ≡ true) × IsU16 m

abbrev pub Distinct : List ℕ → Type 0
Distinct [] = Unit
Distinct (m ∷ ms) = (contains m ms ≡ false) × Distinct ms

abbrev pub MaybeClean : Option Text → Type 0
MaybeClean none = Unit
MaybeClean (some t) = IsClean t

pub record IsSound (s : Scanner) : Type 0 where
  pub csi : length s.csi ≤ max_csi
  pub osc : length s.osc ≤ max_osc
  pub replayed : All IsReplayed s.modes
  pub distinct : Distinct s.modes
  pub style : IsSomeU16 s.cursor_style
  pub title : MaybeClean s.title
  pub keyboard : IsBounded s.keyboard

pub default-IsSound : IsSound default
default-IsSound = record {
  csi = omega arith;
  osc = omega arith;
  replayed = tt;
  distinct = tt;
  style = tt;
  title = tt;
  keyboard = default-IsBounded;
}

contains-keep :
    (m n : ℕ) (ms : List ℕ)
    → contains m ms ≡ false
    → contains m (keep (λ x. not (x == n)) ms) ≡ false
contains-keep m n [] h = refl
contains-keep m n (x ∷ ms) h = ground (arith, contains-keep m n ms)

keep-Distinct : (n : ℕ) (ms : List ℕ) → Distinct ms → Distinct (keep (λ x. not (x == n)) ms)
keep-Distinct n [] h = tt
keep-Distinct n (x ∷ ms) h =
    if_holds Distinct (not (x == n)) (contains-keep x n ms h.0, keep-Distinct n ms h.1)
      (keep-Distinct n ms h.1)

contains-keep_self : (n : ℕ) (ms : List ℕ) → contains n (keep (λ x. not (x == n)) ms) ≡ false
contains-keep_self n [] = refl
contains-keep_self n (x ∷ ms) = ground (arith, contains-keep_self n ms)

contains-concat :
    (m n : ℕ) (ms : List ℕ)
    → contains m ms ≡ false
    → (n == m) ≡ false
    → contains m (ms ++ n ∷ []) ≡ false
contains-concat m n [] h ne = ground arith
contains-concat m n (x ∷ ms) h ne = ground (arith, contains-concat m n ms)

concat-Distinct :
    (n : ℕ) (ms : List ℕ) → Distinct ms → contains n ms ≡ false → Distinct (ms ++ n ∷ [])
concat-Distinct n [] h ne = (refl, tt)
concat-Distinct n (x ∷ ms) h ne =
    (contains-concat x n ms h.0 (ground arith), concat-Distinct n ms h.1 (ground arith))

set_mode-IsSound :
    (enable : Bool) (s : Scanner) (mode : ℕ)
    → IsU16 mode
    → IsSound s
    → IsSound (set_mode enable s mode)
unfolding set_mode
set_mode-IsSound enable s mode u v = elim (Bool-cases (contains mode replayed_modes)) [
  | inl e ↦
      rw (e, set_mode)
        (record {
          csi = v.csi;
          osc = v.osc;
          replayed =
              if_holds (All IsReplayed) enable
                (All-append IsReplayed without (mode ∷ []) kept ((e, u), tt)) kept;
          distinct =
              if_holds Distinct enable
                (concat-Distinct mode without once (contains-keep_self mode s.modes)) once;
          style = v.style;
          title = v.title;
          keyboard = v.keyboard;
        })
  | inr e ↦
      rw (e, set_mode)
        (record {
          csi = v.csi;
          osc = v.osc;
          replayed = v.replayed;
          distinct = v.distinct;
          style = v.style;
          title = v.title;
          keyboard = v.keyboard;
        })
]
  where
    without : List ℕ
    without = keep (λ m. not (m == mode)) s.modes

    kept : All IsReplayed without
    kept = All-keep IsReplayed (λ m. not (m == mode)) s.modes v.replayed

    once : Distinct without
    once = keep-Distinct mode s.modes v.distinct

abbrev mode_field : Bool → Scanner → Option ℕ → Scanner
mode_field enable s o = elim o [ none ↦ s | some mode ↦ set_mode enable s mode ]

mode_field-IsSound :
    (enable : Bool) (s : Scanner) (o : Option ℕ)
    → IsSomeU16 o
    → IsSound s
    → IsSound (mode_field enable s o)
mode_field-IsSound enable s none u v = v
mode_field-IsSound enable s (some mode) u v = set_mode-IsSound enable s mode u v

set_modes-IsSound :
    (enable : Bool) (s : Scanner) (fields : List Text)
    → IsSound s
    → IsSound (set_modes enable s fields)
unfolding set_modes
set_modes-IsSound enable s [] v = v
set_modes-IsSound enable s (f ∷ fields) v =
    set_modes-IsSound enable (mode_field enable s (parse_u16 f)) fields
      (mode_field-IsSound enable s (parse_u16 f) (parse_u16-IsSomeU16 f) v)

style_of-IsSomeU16 : (o : Option Text) → IsSomeU16 (elim o [ none ↦ none | some p ↦ parse_u16 p ])
style_of-IsSomeU16 none = tt
style_of-IsSomeU16 (some p) = parse_u16-IsSomeU16 p

set_style-IsSound : (s : Scanner) (params : Bytes) → IsSound s → IsSound (set_style s params)
unfolding set_style
set_style-IsSound s params v = record {
  csi = v.csi;
  osc = v.osc;
  replayed = v.replayed;
  distinct = v.distinct;
  style = style_of-IsSomeU16 (from_utf8 (take (length params - 1) params));
  title = v.title;
  keyboard = v.keyboard;
}

-- A change to the keyboard alone.
keyboard-IsSound :
    (s : Scanner) (k : Keyboard) → IsBounded k → IsSound s → IsSound (record s { keyboard = k })
keyboard-IsSound s k b v = record {
  csi = v.csi;
  osc = v.osc;
  replayed = v.replayed;
  distinct = v.distinct;
  style = v.style;
  title = v.title;
  keyboard = b;
}

set_other_keys-IsSound :
    (s : Scanner) (fields : List Text) → IsSound s → IsSound (set_other_keys s fields)
unfolding set_other_keys
set_other_keys-IsSound s fields v =
    elim (parse_u16 (first_field fields))
      as (λ o. IsSound (elim o [
        | none ↦ s
        | some resource ↦
            if resource == 4
            then record s {
              keyboard = Keyboard.set_modify_other_keys s.keyboard (second_number fields);
            }
            else s
      ])) [
        | none ↦ v
        | some resource ↦
            if_holds IsSound (resource == 4)
              (keyboard-IsSound s (Keyboard.set_modify_other_keys s.keyboard (second_number fields))
                (set_other-IsBounded s.keyboard fields v.keyboard) v)
              v
      ]

on_text-IsSound :
    (s : Scanner) (k : List Text → Scanner) (o : Option Text)
    → IsSound s
    → ((fields : List Text) → IsSound (k fields))
    → IsSound (on_text s k o)
on_text-IsSound s k none v h = v
on_text-IsSound s k (some text) v h = h (split b';' text)

finish_private-IsSound :
    (s : Scanner) (params : Bytes) (final : ℕ) → IsSound s → IsSound (finish_private s params final)
unfolding finish_private
finish_private-IsSound s [] final v = v
finish_private-IsSound s (lead ∷ rest) final v =
    if_holds IsSound (final == b'm' && lead == b'>')
      (on_text-IsSound s (set_other_keys s) (from_utf8 rest) v
        (λ fields. set_other_keys-IsSound s fields v))
      (if_holds IsSound (not (final == b'h' || final == b'l') || not (lead == b'?')) v (
        on_text-IsSound s (set_modes (final == b'h') s) (from_utf8 rest) v
          (λ fields. set_modes-IsSound (final == b'h') s fields v)))

finish_params-IsSound :
    (s : Scanner) (params : Bytes) (final : ℕ) → IsSound s → IsSound (finish_params s params final)
unfolding finish_params
finish_params-IsSound s params final v =
    if_holds IsSound (final == b'q' && is_byte b' ' (last? params)) (set_style-IsSound s params v) (
      if_holds IsSound (final == b'u')
        (keyboard-IsSound s (Keyboard.note s.keyboard params)
          (note-IsBounded s.keyboard params v.keyboard) v)
        (finish_private-IsSound s params final v))

-- The state and the buffers may change, within the buffers' bounds.
pub buffers-IsSound :
    (s : Scanner) (state : State) (csi osc : Bytes) (over : Bool)
    → length csi ≤ max_csi
    → length osc ≤ max_osc
    → IsSound s
    → IsSound (record s { state = state; csi = csi; osc = osc; overflowed = over })
buffers-IsSound s state csi osc over c o v = record {
  csi = c;
  osc = o;
  replayed = v.replayed;
  distinct = v.distinct;
  style = v.style;
  title = v.title;
  keyboard = v.keyboard;
}

pub finish_csi-IsSound : (s : Scanner) (final : ℕ) → IsSound s → IsSound (finish_csi s final)
unfolding finish_csi
finish_csi-IsSound s final v =
    finish_params-IsSound (record s { csi = [] }) s.csi final
      (buffers-IsSound s s.state [] s.osc s.overflowed (omega arith) v.osc v)
