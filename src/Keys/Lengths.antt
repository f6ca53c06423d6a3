-- ===== src/Keys/Lengths.antt =====
-- Every key, report and sequence that src/client/attach/keys.rs reads takes at least one byte off the
-- input, and the mouse leaves no more than it was given.
use manymux.Keys.{Click, Spot}
use manymux.Keys.Encoded.{Encoded, parse_key, parse_u, parse_tilde, sequence, introduced}
use manymux.Keys.Mouse.{
  Report, Net, parse_report, parse_fields, wheel_run, drag_run, next_notch, next_drag, add_lines,
  moved_off,
}
use manymux.Keys.Special.{Special, parse_special, parse_ss3, parse_csi, special}
use manymux.Prelude.{
  ℕ, zero, suc, ◌-◌, ◌≤◌, List, [], ◌∷◌, Option, Option-cases, inl, inr, Bool, some, Text, Bytes,
  length, ◌≡◌, arith,
}

parse_u-len :
    (len : ℕ) (fields : List Text) {k : Encoded} → parse_u len fields ≡ some k → k.len ≡ len
unfolding parse_u
parse_u-len len [] e = cc
parse_u-len len (field ∷ fields) e = ground arith

parse_tilde-len :
    (len : ℕ) (fields : List Text) {k : Encoded} → parse_tilde len fields ≡ some k → k.len ≡ len
unfolding parse_tilde
parse_tilde-len len [] e = cc
parse_tilde-len len (a ∷ []) e = cc
parse_tilde-len len (a ∷ b ∷ []) e = cc
parse_tilde-len len (a ∷ b ∷ c ∷ fields) e = ground arith

pub parse_key-len : (s : Bytes) {k : Encoded} → parse_key s ≡ some k → 1 ≤ k.len
unfolding parse_key
parse_key-len s e = grind (arith, parse_u-len, parse_tilde-len)

introduced-len : (r : Bytes) {n : ℕ} → introduced r ≡ some n → 1 ≤ n
unfolding introduced
introduced-len [] e = cc
introduced-len (b ∷ r) e = ground arith

pub sequence-len : (s : Bytes) {n : ℕ} → sequence s ≡ some n → 1 ≤ n
unfolding sequence
sequence-len s e = grind (arith, introduced-len)

parse_fields-len :
    (len : ℕ) (press : Bool) (fields : List Text) {k : Report}
    → parse_fields len press fields ≡ some k
    → k.len ≡ len
unfolding parse_fields
parse_fields-len len press [] e = cc
parse_fields-len len press (a ∷ []) e = cc
parse_fields-len len press (a ∷ b ∷ []) e = cc
parse_fields-len len press (a ∷ b ∷ c ∷ fields) e = ground arith

pub parse_report-len : (s : Bytes) {k : Report} → parse_report s ≡ some k → 1 ≤ k.len
unfolding parse_report
parse_report-len s e = grind (arith, parse_fields-len)

parse_ss3-len : (s : Bytes) {k : Special} → parse_ss3 s ≡ some k → 1 ≤ k.len
unfolding parse_ss3
parse_ss3-len s e = ground arith

parse_csi-len : (s : Bytes) {k : Special} → parse_csi s ≡ some k → 1 ≤ k.len
unfolding parse_csi
parse_csi-len s e = ground arith

parse_special-len : (s : Bytes) {k : Special} → parse_special s ≡ some k → 1 ≤ k.len
unfolding parse_special
parse_special-len s e = grind (arith, parse_ss3-len, parse_csi-len)

pub special-len {ℓ} :
    {A : Type ℓ} (s : Bytes) (table : List (Bytes × A)) {key : Special} {a : A}
    → special s table ≡ some (key, a)
    → 1 ≤ key.len
unfolding special
special-len s table e = grind (arith, parse_special-len)

pub wheel_run-le : (n : Net) (k : ℕ) (s : Bytes) → length (wheel_run n k s).1 ≤ length s
unfolding wheel_run
wheel_run-le n k [] = omega arith
wheel_run-le n (suc k) (b ∷ r) = omega (arith, wheel_run-le n k r)
wheel_run-le n zero (b ∷ r) = elim (Option-cases (next_notch (b ∷ r))) [
  | inl e ↦ rw (e, wheel_run) (omega arith)
  | inr (x, e) ↦ rw (e, wheel_run) (omega (arith, wheel_run-le (add_lines n x.1) (x.0 - 1) r))
]

pub drag_run-le :
    (at : Spot) (clicked : Option Click) (k : ℕ) (s : Bytes)
    → length (drag_run at clicked k s).2 ≤ length s
unfolding drag_run
drag_run-le at clicked k [] = omega arith
drag_run-le at clicked (suc k) (b ∷ r) = omega (arith, drag_run-le at clicked k r)
drag_run-le at clicked zero (b ∷ r) = elim (Option-cases (next_drag (b ∷ r))) [
  | inl e ↦ rw (e, drag_run) (omega arith)
  | inr (x, e) ↦
      rw (e, drag_run) (omega (arith, drag_run-le x.at (moved_off clicked x.at) (x.len - 1) r))
]
