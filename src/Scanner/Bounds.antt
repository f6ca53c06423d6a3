-- ===== src/Scanner/Bounds.antt =====
-- The scanner's invariant over any output, and what its events can hold.
use manymux.Prelude.{
  ℕ, ◌+◌, true, false, ◌||◌, List, [], ◌∷◌, ◌++◌, Option, none, some, Bytes, arith, All, All-append,
  length, length-append, if◌then◌else◌, if_holds, ◌==◌, Bool-cases, inl, inr, ltb, leb, within,
  tests,
}
use manymux.Keyboard.{esc}
use manymux.Keyboard.Bounds.{default-IsBounded}
use manymux.Scanner.Osc.{Event, parse_osc}
use manymux.Scanner.Osc.Clean.{IsCleanEvent, AllClean, parse_osc-AllClean}
use manymux.Scanner.{
  Scanner, State, step, step_in, step_escape, step_csi, step_osc, step_osc_escape, feed, max_csi,
  max_osc, finish_osc, report, reset,
}
use manymux.Scanner.Sound.{IsSound, buffers-IsSound, finish_csi-IsSound}

-- What a step owes: a sound scanner and clean events.
abbrev Owed : Scanner × List Event → Type 0
Owed r = IsSound r.0 × All IsCleanEvent r.1

report-Owed : (s : Scanner) (o : Option Event) → IsSound s → AllClean o → Owed (report s o)
report-Owed s none v h = (v, tt)
report-Owed s (some (Event.title t)) v h = (
  record {
    csi = v.csi;
    osc = v.osc;
    replayed = v.replayed;
    distinct = v.distinct;
    style = v.style;
    title = h;
    keyboard = v.keyboard;
  },
  (h, tt),
)
report-Owed s (some Event.bell) v h = (v, (h, tt))
report-Owed s (some (Event.notify t body)) v h = (v, (h, tt))

finish_osc-Owed : (s : Scanner) → IsSound s → Owed (finish_osc s)
unfolding finish_osc
finish_osc-Owed s v =
    let done = record s { state = State.ground; osc = [] } in
    if_holds Owed s.overflowed
      (buffers-IsSound s State.ground s.csi [] false v.csi (omega arith) v, tt)
      (report-Owed done (parse_osc s.osc)
        (buffers-IsSound s State.ground s.csi [] s.overflowed v.csi (omega arith) v)
        (parse_osc-AllClean s.osc))

reset-IsSound : (s : Scanner) → IsSound s → IsSound (reset s)
reset-IsSound s v = record {
  csi = v.csi;
  osc = v.osc;
  replayed = tt;
  distinct = tt;
  style = tt;
  title = v.title;
  keyboard = default-IsBounded;
}

-- A change of state alone.
moved-IsSound : (s : Scanner) (state : State) → IsSound s → IsSound (record s { state = state })
moved-IsSound s state v = buffers-IsSound s state s.csi s.osc s.overflowed v.csi v.osc v

step_escape-IsSound : (s : Scanner) (b : ℕ) → IsSound s → IsSound (step_escape s b)
unfolding step_escape
step_escape-IsSound s b v =
    if_holds IsSound (b == b'[')
      (buffers-IsSound s State.csi [] s.osc s.overflowed (omega arith) v.osc v)
      (if_holds IsSound (b == b']')
        (buffers-IsSound s State.osc s.csi [] false v.csi (omega arith) v)
        (if_holds IsSound (b == b'P' || b == b'X' || b == b'^' || b == b'_')
          (moved-IsSound s State.ignored v)
          (if_holds IsSound (b == esc) v
            (if_holds IsSound (b == b'c') (reset-IsSound s v) (moved-IsSound s State.ground v)))))

collect_csi-IsSound :
    (s : Scanner) (b : ℕ)
    → IsSound s
    → IsSound (if ltb (length s.csi) max_csi then record s { csi = s.csi ++ b ∷ [] } else s)
collect_csi-IsSound s b v = elim (Bool-cases (ltb (length s.csi) max_csi)) [
  | inl e ↦ rw e (
      buffers-IsSound s s.state (s.csi ++ b ∷ []) s.osc s.overflowed
        (omega (tests, e, length-append s.csi (b ∷ []))) v.osc v)
  | inr e ↦ rw e v
]

step_csi-Owed : (s : Scanner) (b : ℕ) → IsSound s → Owed (step_csi s b)
unfolding step_csi
step_csi-Owed s b v =
    if_holds Owed (b == 0x07) (v, (tt, tt))
      (if_holds Owed (within 0x20 0x3f b) (collect_csi-IsSound s b v, tt)
        (if_holds Owed (within 0x40 0x7e b)
          (
            finish_csi-IsSound (record s { state = State.ground }) b
                (moved-IsSound s State.ground v),
            tt,
          )
          (v, tt)))

step_osc-Owed : (s : Scanner) (b : ℕ) → IsSound s → Owed (step_osc s b)
unfolding step_osc
step_osc-Owed s b v = if_holds Owed (b == 0x07) (finish_osc-Owed s v) (
    if_holds Owed (b == esc) (moved-IsSound s State.osc_escape v, tt)
      (elim (Bool-cases (ltb (length s.osc) max_osc)) [
        | inl e ↦ rw e (
          buffers-IsSound s s.state s.csi (s.osc ++ b ∷ []) s.overflowed v.csi
              (omega (tests, e, length-append s.osc (b ∷ []))) v,
          tt,
        )
        | inr e ↦ rw e (buffers-IsSound s s.state s.csi s.osc true v.csi v.osc v, tt)
      ]))

step_osc_escape-Owed : (s : Scanner) (b : ℕ) → IsSound s → Owed (step_osc_escape s b)
unfolding step_osc_escape
step_osc_escape-Owed s b v =
    if_holds Owed (b == b'\\') (finish_osc-Owed s v)
      (elim (Bool-cases (leb (length s.osc + 2) max_osc)) [
        | inl e ↦ rw e (
          buffers-IsSound s State.osc s.csi (s.osc ++ esc ∷ b ∷ []) s.overflowed v.csi
              (omega (tests, e, length-append s.osc (esc ∷ b ∷ []))) v,
          tt,
        )
        | inr e ↦ rw e (buffers-IsSound s State.osc s.csi s.osc true v.csi v.osc v, tt)
      ])

step_in-Owed : (state : State) (s : Scanner) (b : ℕ) → IsSound s → Owed (step_in state s b)
unfolding step_in
step_in-Owed State.ground s b v =
    if_holds Owed (b == 0x07) (v, (tt, tt))
      (if_holds IsSound (b == esc) (moved-IsSound s State.escape v) v, tt)
step_in-Owed State.escape s b v = (step_escape-IsSound s b v, tt)
step_in-Owed State.csi s b v = step_csi-Owed s b v
step_in-Owed State.osc s b v = step_osc-Owed s b v
step_in-Owed State.osc_escape s b v = step_osc_escape-Owed s b v
step_in-Owed State.ignored s b v =
    (if_holds IsSound (b == esc) (moved-IsSound s State.ignored_escape v) v, tt)
step_in-Owed State.ignored_escape s b v =
    if_holds Owed (b == b'\\') (moved-IsSound s State.ground v, tt)
      (if_holds Owed (b == esc) (v, tt) (moved-IsSound s State.ignored v, tt))

-- Whatever the output is, the scanner's buffers stay within their bounds (64 bytes of parameters and
-- 4096 of payload), its modes stay among those that are replayed and each stands once, its numbers
-- stay in a `u16`, and the keyboard's stack stays within sixteen; and every title and notification
-- that is reported has no control character, at most 200 characters and no blank at either end.
pub feed-IsSound :
    (s : Scanner) (chunk : Bytes)
    → IsSound s
    → IsSound (feed s chunk).0 × All IsCleanEvent (feed s chunk).1
unfolding feed
feed-IsSound s [] v = (v, tt)
feed-IsSound s (b ∷ chunk) v =
    let (v', clean) = step_in-Owed s.state s b v in
    let (last, more) = feed-IsSound (step s b).0 chunk v' in
    (last, All-append IsCleanEvent (step s b).1 (feed (step s b).0 chunk).1 clean more)
