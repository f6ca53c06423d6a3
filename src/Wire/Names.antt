-- ===== src/Wire/Names.antt =====
-- Sizes that a terminal can have, and names that can key a session.
use manymux.Prelude.{
  ℕ, ◌≤◌, Bool, true, false, [], ◌∷◌, Text, ◌≡◌, refl, arith, ap, ◌∙◌, All, All-take, length,
  length-take-le, take, take_all, keep, map, if◌then◌else◌, Bool-cases, inl, inr,
}
use manymux.Std.Strings.{is_whitespace}
use manymux.Wire.{Size, sane, usable, session_name, moved}

abbrev pub IsSane : Size → Type 0
IsSane s = (1 ≤ s.cols) × (s.cols ≤ 1000) × (1 ≤ s.rows) × (s.rows ≤ 1000)

-- A size is made one that a terminal can have, and making it so again changes nothing.
pub sane-IsSane : (s : Size) → IsSane (sane s) × (sane (sane s) ≡ sane s)
unfolding sane
sane-IsSane s = (ground arith, ground arith)

-- How far the window moves is never more than was printed, and nothing where a side counts nothing.
pub moved-le :
    (printed since : ℕ)
    → (moved printed since ≤ printed) × (moved printed 0 ≡ 0) × (moved 0 since ≡ 0)
unfolding moved
moved-le printed since = ground arith

module _ (is_alphanumeric : ℕ → Bool) where
  -- What a name may hold: usable characters, and no blank.
  abbrev pub IsUsable : ℕ → Type 0
  IsUsable c = (usable is_alphanumeric c ≡ true) × (is_whitespace c ≡ false)

  abbrev dash : ℕ → ℕ
  dash c = if is_whitespace c then b'-' else c

  dash-blank : (c : ℕ) → is_whitespace (dash c) ≡ false
  dash-blank c = elim (Bool-cases (is_whitespace c)) [
    | inl e ↦ rw e (unfold is_whitespace in refl)
    | inr e ↦ rw e e
  ]

  kept-IsUsable : (s : Text) → All IsUsable (keep (usable is_alphanumeric) (map dash s))
  kept-IsUsable [] = tt
  kept-IsUsable (c ∷ s) = elim (Bool-cases (usable is_alphanumeric (dash c))) [
    | inl e ↦ rw e ((e, dash-blank c), kept-IsUsable s)
    | inr e ↦ rw e (kept-IsUsable s)
  ]

  kept_id : (s : Text) → All IsUsable s → keep (usable is_alphanumeric) (map dash s) ≡ s
  kept_id [] h = refl
  kept_id (c ∷ s) h = rw (h.0.1) (rw (h.0.0) (ap (◌∷◌ c) (kept_id s h.1)))

  -- Whatever is asked for, a session's name has at most 64 characters, all of them usable and none of
  -- them blank; and a name that was made so is its own session name.
  session_name-IsUsable :
      (name : Text)
      → All IsUsable (session_name is_alphanumeric name)
        × (length (session_name is_alphanumeric name) ≤ 64)
        × (session_name is_alphanumeric (session_name is_alphanumeric name)
            ≡ session_name is_alphanumeric name)
  unfolding session_name
  session_name-IsUsable name =
      let kept = keep (usable is_alphanumeric) (map dash name) in
      let good = All-take IsUsable 64 kept (kept-IsUsable name) in
      let short = length-take-le 64 kept in
      (good, short, ap (take 64) (kept_id (take 64 kept) good) ∙ take_all 64 (take 64 kept) short)
