-- ===== src/Session/Printed.antt =====
-- How far the newest line has got: it never goes back, and a reflow counts nothing.
use manymux.Prelude.{
  ℕ, ◌≤◌, length, ◌≡◌, refl, arith, if_holds, Bool-cases, inl, inr, Bool, true, false,
}
use manymux.Session.{State, count_printed, resize_state}
use manymux.Terminal.{Terminal}
use manymux.Wire.{Size}

module _ (T : Terminal) where
  open T use {Vt}

  abbrev lines : State Vt → ℕ
  lines s = length (T.lines s.vt)

  abbrev pub asked : State Vt → State Vt
  asked s = count_printed T s (lines s)

  asked-le : (s : State Vt) (total : ℕ) → s.printed ≤ (count_printed T s total).printed
  unfolding count_printed
  asked-le s total =
      if_holds (λ (st : State Vt). s.printed ≤ st.printed) s.scanner.on_alternate (omega arith)
        (omega arith)

  -- The same with the alternate screen showing, or the primary one.
  abbrev pub with_alternate : Bool → State Vt → State Vt
  with_alternate b s = record s { scanner = record s.scanner { on_alternate = b } }

  -- The count of what was printed never goes back; asking again counts nothing more; what was asked just
  -- before a resize is what is asked just after it, whatever the reflow did to the buffer and whichever
  -- screen is showing; and a resize on the alternate screen changes nothing of what is counted when the
  -- program is back on the primary one, however many lines that has then.
  pub count_printed-resize_state :
      (s : State Vt) (size : Size) (total : ℕ)
      → (s.printed ≤ (asked s).printed)
        × ((asked (asked s)).printed ≡ (asked s).printed)
        × ((asked (resize_state T (asked s) size)).printed ≡ (asked s).printed)
        × ((count_printed T
              (with_alternate false (resize_state T (with_alternate true s) size))
              total).printed
            ≡ (count_printed T (with_alternate false s) total).printed)
  unfolding count_printed resize_state
  count_printed-resize_state s size total = (
    asked-le s (lines s),
    elim (Bool-cases s.scanner.on_alternate) [ inl e ↦ rw e refl | inr e ↦ rw e (omega arith) ],
    elim (Bool-cases s.scanner.on_alternate) [ inl e ↦ rw e refl | inr e ↦ rw e (omega arith) ],
    refl,
  )
