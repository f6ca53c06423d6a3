-- ===== src/Scanner/Replay.antt =====
-- Feeding a scanner one whole sequence, as `replay` writes them.
pub mod Sequences
pub mod RoundTrip
use manymux.Prelude.{
  ℕ, zero, suc, ◌+◌, ◌≤◌, Bool, true, false, not, List, [], ◌∷◌, ◌++◌, Option, none, some, Text,
  Bytes, ◌≡◌, refl, arith, All, length, length-append, append_assoc, append-nil, ap, subst, ◌∙◌,
  sym, codes, within, ltb, ◌&&◌, ◌==◌, if◌then◌else◌,
}
use manymux.Keyboard.{esc}
use manymux.Scanner.Osc.{Event, parse_osc}
use manymux.Scanner.{
  Scanner, State, default, step, step_in, step_escape, step_csi, step_osc, feed, finish_csi,
  finish_osc, finish_params, max_csi, max_osc, report,
}

-- A parameter or intermediate byte, and a final byte.
abbrev pub IsParam : ℕ → Type 0
IsParam b = within 0x20 0x3f b ≡ true

abbrev pub IsFinal : ℕ → Type 0
IsFinal b = within 0x40 0x7e b ≡ true

collect :
    (s : Scanner) (done p rest : Bytes)
    → All IsParam p
    → length done + length p ≤ max_csi
    → feed (record s { state = State.csi; csi = done }) (p ++ rest)
      ≡ feed (record s { state = State.csi; csi = done ++ p }) rest
unfolding feed step_csi
collect s done [] rest h fits = rw append-nil
collect s done (b ∷ p) rest h fits =
    taken
    ∙ collect s (done ++ b ∷ []) p rest h.1 (omega (arith, length-append done (b ∷ [])))
    ∙ rw append_assoc
  where
    taken :
        feed (record s { state = State.csi; csi = done }) (b ∷ p ++ rest)
        ≡ feed (record s { state = State.csi; csi = done ++ b ∷ [] }) (p ++ rest)
    taken = ground (arith, h.0)

step_csi_final :
    (s : Scanner) (b : ℕ)
    → IsFinal b
    → step_csi s b ≡ (finish_csi (record s { state = State.ground }) b, [])
unfolding step_csi
step_csi_final s b f = ground arith

-- A CSI sequence in the ground state does what its final byte says, with its parameters.
pub feed_csi :
    (s : Scanner) (p : Bytes) (final : ℕ) (rest : Bytes)
    → s.state ≡ State.ground
    → All IsParam p
    → length p ≤ max_csi
    → IsFinal final
    → feed s (esc ∷ b'[' ∷ (p ++ final ∷ rest))
      ≡ feed (finish_params (record s { state = State.ground; csi = [] }) p final) rest
unfolding feed finish_csi
feed_csi s p final rest g h fits f = opened ∙ collect s [] p (final ∷ rest) h (omega arith) ∙ ended
  where
    opened :
        feed s (esc ∷ b'[' ∷ (p ++ final ∷ rest))
        ≡ feed (record s { state = State.csi; csi = [] }) (p ++ final ∷ rest)
    opened = ground (arith, g)

    ended :
        feed (record s { state = State.csi; csi = p }) (final ∷ rest)
        ≡ feed (finish_params (record s { state = State.ground; csi = [] }) p final) rest
    ended = rw (step_csi_final (record s { state = State.csi; csi = p }) final f) refl

-- A payload byte that ends nothing.
abbrev pub IsPayload : ℕ → Type 0
IsPayload b = ((b == 0x07) ≡ false) × ((b == esc) ≡ false)

collect_osc :
    (s : Scanner) (done p rest : Bytes)
    → All IsPayload p
    → length done + length p ≤ max_osc
    → feed (record s { state = State.osc; osc = done; overflowed = false }) (p ++ rest)
      ≡ feed (record s { state = State.osc; osc = done ++ p; overflowed = false }) rest
unfolding feed step_osc
collect_osc s done [] rest h fits = rw append-nil
collect_osc s done (b ∷ p) rest h fits =
    taken
    ∙ collect_osc s (done ++ b ∷ []) p rest h.1 (omega (arith, length-append done (b ∷ [])))
    ∙ rw append_assoc
  where
    taken :
        feed (record s { state = State.osc; osc = done; overflowed = false }) (b ∷ p ++ rest)
        ≡ feed
            (record s { state = State.osc; osc = done ++ b ∷ []; overflowed = false })
            (p ++ rest)
    taken = ground (arith, h.0)

-- An OSC string in the ground state reports what its payload says.
pub feed_osc :
    (s : Scanner) (p rest : Bytes)
    → s.state ≡ State.ground
    → All IsPayload p
    → length p ≤ max_osc
    → feed s (esc ∷ b']' ∷ (p ++ 0x07 ∷ rest)) ≡ (
        let (s', events) =
          report (record s { state = State.ground; osc = []; overflowed = false }) (parse_osc p) in
        ((feed s' rest).0, events ++ (feed s' rest).1))
unfolding feed finish_osc
feed_osc s p rest g h fits = opened ∙ collect_osc s [] p (0x07 ∷ rest) h (omega arith) ∙ refl
  where
    opened :
        feed s (esc ∷ b']' ∷ (p ++ 0x07 ∷ rest))
        ≡ feed (record s { state = State.osc; osc = []; overflowed = false }) (p ++ 0x07 ∷ rest)
    opened = ground (arith, g)
