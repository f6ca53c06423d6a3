-- ===== src/Std/Strings/Trim.antt =====
-- Trimming: what it keeps, and that it is done at once.
use mathlib.Core.List.{reverse, reverse-cons, reverse-append, reverse-reverse}
use manymux.Prelude.{
  ℕ, ◌≤◌, false, [], ◌∷◌, ◌++◌, Text, ◌≡◌, refl, arith, All, All-append, ap, length, inl, inr,
  Bool-cases, length-append,
}
use manymux.Std.Strings.{is_whitespace, trim_start, trim_end, trim}

All-reverse {κ} : (P : ℕ → Type κ) (s : Text) → All P s → All P (reverse s)
All-reverse P [] h = h
All-reverse P (c ∷ s) h =
    rw (reverse-cons c s) (All-append P (reverse s) (c ∷ []) (All-reverse P s h.1) (h.0, tt))

All-trim_start {κ} : (P : ℕ → Type κ) (s : Text) → All P s → All P (trim_start s)
unfolding trim_start
All-trim_start P [] h = h
All-trim_start P (c ∷ s) h = elim (Bool-cases (is_whitespace c)) [
  | inl e ↦ rw e (All-trim_start P s h.1)
  | inr e ↦ rw e h
]

pub All-trim {κ} : (P : ℕ → Type κ) (s : Text) → All P s → All P (trim s)
unfolding trim
All-trim P s h = All-reverse P _ (All-trim_start P _ (All-reverse P _ (All-trim_start P s h)))

length-reverse : (s : Text) → length (reverse s) ≡ length s
length-reverse [] = refl
length-reverse (c ∷ s) =
    omega
      (arith, ap length (reverse-cons c s), length-append (reverse s) (c ∷ []), length-reverse s)

length-trim_start : (s : Text) → length (trim_start s) ≤ length s
unfolding trim_start
length-trim_start [] = omega arith
length-trim_start (c ∷ s) = ground (arith, length-trim_start s)

pub length-trim : (s : Text) → length (trim s) ≤ length s
unfolding trim
length-trim s = omega (
  arith,
  length-reverse (trim_start (reverse (trim_start s))),
  length-trim_start (reverse (trim_start s)),
  length-reverse (trim_start s),
  length-trim_start s,
)

-- Nothing, or a character that is no space at the head.
abbrev IsTrimmed : Text → Type 0
IsTrimmed [] = Unit
IsTrimmed (c ∷ s) = is_whitespace c ≡ false

trim_start-IsTrimmed : (s : Text) → IsTrimmed (trim_start s)
unfolding trim_start
trim_start-IsTrimmed [] = tt
trim_start-IsTrimmed (c ∷ s) = elim (Bool-cases (is_whitespace c)) [
  | inl e ↦ rw e (trim_start-IsTrimmed s)
  | inr e ↦ rw e e
]

trim_start_id : (s : Text) → IsTrimmed s → trim_start s ≡ s
unfolding trim_start
trim_start_id [] h = refl
trim_start_id (c ∷ s) h = rw h

trim_start-concat :
    (s : Text) (c : ℕ) → is_whitespace c ≡ false → trim_start (s ++ c ∷ []) ≡ trim_start s ++ c ∷ []
unfolding trim_start
trim_start-concat [] c h = rw h
trim_start-concat (d ∷ s) c h = elim (Bool-cases (is_whitespace d)) [
  | inl e ↦ rw e (trim_start-concat s c h)
  | inr e ↦ rw e
]

trim_end-cons : (c : ℕ) (s : Text) → is_whitespace c ≡ false → trim_end (c ∷ s) ≡ c ∷ trim_end s
unfolding trim_end
trim_end-cons c s h =
    rw (reverse-cons c s, trim_start-concat (reverse s) c h)
      (reverse-append (trim_start (reverse s)) (c ∷ []))

trim_end-IsTrimmed : (s : Text) → IsTrimmed s → IsTrimmed (trim_end s)
trim_end-IsTrimmed [] h = unfold trim_end in tt
trim_end-IsTrimmed (c ∷ s) h = rw (trim_end-cons c s h) h

trim_end_idem : (s : Text) → trim_end (trim_end s) ≡ trim_end s
unfolding trim_end
trim_end_idem s =
    rw (reverse-reverse (trim_start (reverse s)))
      (ap reverse (trim_start_id _ (trim_start-IsTrimmed (reverse s))))

pub trim_idem : (s : Text) → trim (trim s) ≡ trim s
unfolding trim
trim_idem s =
    rw (trim_start_id _ (trim_end-IsTrimmed _ (trim_start-IsTrimmed s)))
      (trim_end_idem (trim_start s))
